-- ===== src/Beam.antt =====
-- src/beam.cpp: beam_search and beam_search_cfg. Scores are an interface: their order, their sum, the
-- penalty for the length and the logarithm of the sum of exponentials; std::partial_sort and std::sort
-- are parameters. The early stop leaves the loop where it ends anyway, and is left out.
pub mod Growth
pub mod Best
mod Tests
use llm_cpp.Prelude.{
  pos, ℕ, zero, suc, ◌+◌, ◌-◌, min, Bool, List, [], ◌∷◌, ◌++◌, map, ltb, leb, ◌==◌, if◌then◌else◌,
  tests, length, get_or, take, drop, concat, nat_eq, list_eq, ℤ, int_eq,
}
use llm_cpp.Generation.{Gpt, generate}

pub record BeamState (F : Type 0) : Type 0 where
  pub tokens : List ℤ
  pub score : F

-- What the search does with scores. `log_sum` is the maximum of a row with the logarithm of the sum
-- behind it; `top row k` the indices of the k largest entries; `sort` orders by the normed score.
pub record Scoring (F : Type 0) : Type 0 where
  pub less : F → F → Bool
  pub zero : F
  pub add : F → F → F
  pub sub : F → F → F
  pub log_sum : List F → F
  pub norm_score : F → ℕ → F
  pub top : List F → ℕ → List ℕ
  pub sort : List (BeamState F) → List (BeamState F)

module _ {F S : Type 0} (v : Scoring F) (model : Gpt F S) (beam_width : ℕ) where
  -- The last block_size tokens
  unfoldable pub context : List ℤ → List ℤ
  context tokens =
      if ltb model.block_size (length tokens)
      then drop (length tokens - model.block_size) tokens
      else tokens

  -- One candidate for each of the best tokens of the last row
  unfoldable pub candidates : BeamState F → List F → List (BeamState F)
  candidates beam row =
      map
        (λ tok. record {
          tokens = beam.tokens ++ pos tok ∷ [];
          score = v.add beam.score (v.sub (get_or row tok v.zero) (v.log_sum row));
        })
        (v.top row (min beam_width model.vocab_size))

  -- Without a context, one token of the greedy generation
  unfoldable pub fallback : BeamState F → BeamState F
  fallback beam =
      let out = generate v.less v.zero model beam.tokens 1 in
      record beam { tokens = beam.tokens ++ get_or out (length out - 1) (pos 0) ∷ [] }

  unfoldable pub expand : BeamState F → List (BeamState F)
  expand beam = elim (context beam.tokens) [
    | [] ↦ fallback beam ∷ []
    | t ∷ ts ↦
        let logits = model.forward (t ∷ ts) in
        candidates beam (take model.vocab_size (get_or logits (length logits - 1) []))
  ]

  -- One round: the candidates of all beams, sorted, and the first of them
  unfoldable pub next_beams : List (BeamState F) → List (BeamState F)
  next_beams beams = take beam_width (v.sort (concat (map expand beams)))

  -- The rounds that are left; the loop stops when no beam is left.
  unfoldable pub search_beams : ℕ → List (BeamState F) → List (BeamState F)
  search_beams zero beams = beams
  search_beams (suc n) beams = elim (next_beams beams) [
    | [] ↦ []
    | b ∷ bs ↦ search_beams n (b ∷ bs)
  ]

unfoldable pub normed : {F : Type 0} → Scoring F → BeamState F → F
normed v b = v.norm_score b.score (length b.tokens)

-- std::max_element by the normed score
unfoldable pub best_of : {F : Type 0} → Scoring F → BeamState F → List (BeamState F) → BeamState F
best_of v best [] = best
best_of v best (b ∷ bs) =
    let later = best_of v b bs in
    let same = best_of v best bs in if v.less (normed v best) (normed v b) then later else same

-- What the search returns
unfoldable pub beam_answer : {F : Type 0} → Scoring F → List ℤ → List (BeamState F) → List ℤ
beam_answer v prompt [] = prompt
beam_answer v prompt (b ∷ bs) = (best_of v b bs).tokens

module _ {F S : Type 0} (v : Scoring F) (model : Gpt F S) where
  unfoldable pub beam_search : List ℤ → ℕ → ℕ → List ℤ
  beam_search prompt max_new_tokens beam_width =
      if leb beam_width 1
      then generate v.less v.zero model prompt max_new_tokens
      else if max_new_tokens == 0
      then prompt
      else beam_answer v prompt (
          search_beams v model beam_width max_new_tokens
            (record { tokens = prompt; score = v.zero } ∷ []))
