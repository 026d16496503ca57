-- ===== src/Checkpoint/Tests.antt =====
-- Three checkpoints of which two are kept; a path is a number.
use llm_cpp.Prelude.{
  ℕ, ◌≡◌, refl, ◌&&◌, ◌||◌, List, [], ◌∷◌, arith, ltb, ◌==◌, take, nat_eq, list_eq, int_eq,
}
use llm_cpp.Checkpoint.{Ranking, sort_from, insert_entry}
use llm_cpp.Checkpoint.Keeping.{IsRanking, consider_all, kept-consider_all}

abbrev ranking : Ranking ℕ ℕ
ranking = record {
  before = λ a b. ltb a.0 b.0 || (a.0 == b.0 && ltb a.1 b.1);
  same_path = ◌==◌;
  less = ltb;
}

ranking-IsRanking : IsRanking ranking
ranking-IsRanking = record {
  not_before = λ a b c h k. ground arith;
  asymmetric = λ a b h. ground arith;
}

abbrev entries : List (ℕ × ℕ)
entries = (30, 1) ∷ (10, 2) ∷ (20, 3) ∷ []

two_best : take 2 (sort_from ranking [] entries) ≡ (10, 2) ∷ (20, 3) ∷ []
unfolding sort_from insert_entry
two_best = refl

kept-consider_all_example :
    (consider_all ranking (record { keep_n = 2; best = 1000; kept = [] }) entries).kept
    ≡ take 2 (sort_from ranking [] entries)
kept-consider_all_example = kept-consider_all ranking ranking-IsRanking 2 1000 entries
