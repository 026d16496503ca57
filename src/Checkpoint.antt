-- ===== src/Checkpoint.antt =====
-- src/checkpoint.cpp, BestKeeper::consider: the checkpoints that are kept. A checkpoint is its
-- perplexity with the path of its file; their order is an interface. The files themselves are left
-- out.
pub mod Keeping
mod Tests
use llm_cpp.Prelude.{
  ℕ, zero, suc, ◌+◌, Bool, true, false, List, [], ◌∷◌, ◌++◌, if◌then◌else◌, tests, take, nat_eq,
  list_eq, int_eq,
}

-- The order of pairs of a perplexity and a path, and of perplexities
pub record Ranking (F P : Type 0) : Type 0 where
  pub before : F × P → F × P → Bool
  pub same_path : P → P → Bool
  pub less : F → F → Bool

pub record BestKeeper (F P : Type 0) : Type 0 where
  pub keep_n : ℕ
  pub best : F
  pub kept : List (F × P)

module _ {F P : Type 0} (r : Ranking F P) where
  -- std::sort, by insertion behind the entries that are not larger
  unfoldable pub insert_entry : F × P → List (F × P) → List (F × P)
  insert_entry e [] = e ∷ []
  insert_entry e (k ∷ ks) =
      let later = insert_entry e ks in if r.before e k then e ∷ k ∷ ks else k ∷ later

  unfoldable pub sort_from : List (F × P) → List (F × P) → List (F × P)
  sort_from sorted [] = sorted
  sort_from sorted (e ∷ es) = sort_from (insert_entry e sorted) es

  -- Whether the first entry with the path stands among the first n
  unfoldable pub in_top : P → ℕ → List (F × P) → Bool
  in_top path n [] = false
  in_top path zero (k ∷ ks) = false
  in_top path (suc n) (k ∷ ks) =
      let later = in_top path n ks in if r.same_path k.1 path then true else later

  unfoldable pub consider : BestKeeper F P → F × P → Bool × BestKeeper F P
  consider b e =
      let sorted = sort_from [] (b.kept ++ e ∷ []) in
      (
        in_top e.1 b.keep_n sorted,
        record b { kept = take b.keep_n sorted; best = if r.less e.0 b.best then e.0 else b.best },
      )
