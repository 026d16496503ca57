-- ===== src/Beam/Tests.antt =====
-- Beam search of width 2 on the model of three tokens.
use llm_cpp.Prelude.{
  if-Both, ℕ, zero, suc, ◌+◌, ◌-◌, ◌≡◌, refl, ap, ◌∙◌, List, [], ◌∷◌, arith, ltb, if◌then◌else◌,
  length, All, nat_eq, list_eq, int_eq, if-Both,
}
use llm_cpp.Generation.Tests.{bigram}
use llm_cpp.Beam.{pos, BeamState, Scoring, beam_search}
use llm_cpp.Beam.Best.{IsOrder}
use llm_cpp.Beam.Growth.{IsSorting, Extends, beam_search-Extends}

-- The indices below k, the last first
down : ℕ → List ℕ
down zero = []
down (suc k) = k ∷ down k

length-down : (k : ℕ) → length (down k) ≡ k
unfolding down
length-down zero = refl
length-down (suc k) = ap suc (length-down k)

-- Insertion sort by the score, the largest first
place_beam : BeamState ℕ → List (BeamState ℕ) → List (BeamState ℕ)
place_beam b [] = b ∷ []
place_beam b (c ∷ cs) =
    let later = place_beam b cs in if ltb b.score c.score then c ∷ later else b ∷ c ∷ cs

sort_beams : List (BeamState ℕ) → List (BeamState ℕ)
sort_beams [] = []
sort_beams (b ∷ bs) = place_beam b (sort_beams bs)

length-place_beam :
    (b : BeamState ℕ) (cs : List (BeamState ℕ)) → length (place_beam b cs) ≡ suc (length cs)
unfolding place_beam
length-place_beam b [] = refl
length-place_beam b (c ∷ cs) =
    if-Both (λ (x : List (BeamState ℕ)). length x ≡ suc (length (c ∷ cs))) (ltb b.score c.score)
      (ap suc (length-place_beam b cs)) refl

length-sort_beams : (bs : List (BeamState ℕ)) → length (sort_beams bs) ≡ length bs
unfolding sort_beams
length-sort_beams [] = refl
length-sort_beams (b ∷ bs) = length-place_beam b (sort_beams bs) ∙ ap suc (length-sort_beams bs)

place_beam-All :
    (P : BeamState ℕ → Type 0) (b : BeamState ℕ) (cs : List (BeamState ℕ))
    → P b
    → All P cs
    → All P (place_beam b cs)
unfolding place_beam
place_beam-All P b [] h hs = (h, hs)
place_beam-All P b (c ∷ cs) h hs =
    if-Both (All P) (ltb b.score c.score) (hs.0, place_beam-All P b cs h hs.1) (h, hs)

sort_beams-All :
    (P : BeamState ℕ → Type 0) (bs : List (BeamState ℕ)) → All P bs → All P (sort_beams bs)
unfolding sort_beams
sort_beams-All P [] h = h
sort_beams-All P (b ∷ bs) h = place_beam-All P b (sort_beams bs) h.0 (sort_beams-All P bs h.1)

-- Scores are numbers.
abbrev scoring : Scoring ℕ
scoring = record {
  less = ltb;
  zero = 0;
  add = ◌+◌;
  sub = ◌-◌;
  log_sum = λ row. 0;
  norm_score = λ s n. s;
  top = λ row k. down k;
  sort = sort_beams;
}

scoring-IsSorting : IsSorting scoring
scoring-IsSorting = record {
  length-top = λ row k. length-down k;
  length-sort = length-sort_beams;
  sort-All = sort_beams-All;
}

scoring-IsOrder : IsOrder scoring
scoring-IsOrder = record {
  irreflexive = λ a. ground arith;
  asymmetric = λ a b h. ground arith;
  not_less = λ a b c h k. ground arith;
}

abbrev beam : ℕ → BeamState ℕ
beam score = record { tokens = []; score = score }

beam_search-Extends_example : Extends (pos 1 ∷ []) 3 (beam_search scoring bigram (pos 1 ∷ []) 3 2)
beam_search-Extends_example =
    beam_search-Extends scoring bigram scoring-IsSorting (omega arith) (pos 1 ∷ []) 3 2
