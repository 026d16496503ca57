-- ===== src/Prune/Tests.antt =====
-- Weights of eight floats and one more.
use llm_cpp.Prelude.{
  ℕ, ◌+◌, ◌^◌, ◌≤◌, ◌≡◌, refl, false, List, [], ◌∷◌, arith, nat_eq, list_eq, int_eq,
}
use llm_cpp.Prune.{
  Weights, prune_2to4, verify_2to4, prune_floats, count_zeros, prune_groups, prune_group,
  two_smallest, magnitude, is_nan, below, at_most, verify_groups, sort_magnitudes, insert_sorted,
  zero_below,
}
use llm_cpp.Prune.Pattern.{all_at_most_two, verify_2to4-prune_2to4}
use llm_cpp.Prune.Threshold.{count_zeros-prune_floats}

-- The sign bit of 3 is set.
abbrev floats : List ℕ
floats = 7 ∷ (2 ^ 31 + 3) ∷ 5 ∷ 4 ∷ 9 ∷ 0 ∷ 1 ∷ 8 ∷ 6 ∷ []

abbrev model : List Weights
model = record { dims = 2; floats = floats } ∷ record { dims = 1; floats = floats } ∷ []

pruned : prune_groups floats ≡ 7 ∷ 0 ∷ 5 ∷ 0 ∷ 9 ∷ 0 ∷ 0 ∷ 8 ∷ 6 ∷ []
unfolding prune_groups prune_group two_smallest below is_nan magnitude
pruned = refl

-- A group of three zeros does not pass the test after pruning.
dense_enough :
    verify_2to4 (prune_2to4 (record { dims = 2; floats = 0 ∷ 0 ∷ 0 ∷ 1 ∷ [] } ∷ [])) ≡ false
unfolding verify_2to4 prune_2to4 prune_groups prune_group two_smallest below is_nan magnitude
    verify_groups
dense_enough = refl

-- Nothing is below NaN: it is pruned with one of the two zeros, and three zeros are left.
with_nan : prune_groups (0x7FC00000 ∷ 0 ∷ 0 ∷ 1 ∷ []) ≡ 0 ∷ 0 ∷ 0 ∷ 1 ∷ []
unfolding prune_groups prune_group two_smallest below is_nan magnitude
with_nan = refl

-- Three floats are pruned where two were to be.
one_more : prune_floats 2 (4 ∷ 1 ∷ 3 ∷ 2 ∷ []) ≡ 4 ∷ 0 ∷ 0 ∷ 0 ∷ []
unfolding prune_floats sort_magnitudes insert_sorted zero_below at_most is_nan magnitude
one_more = refl

verify_2to4-prune_2to4_example : verify_2to4 (prune_2to4 model) ≡ all_at_most_two model
unfolding is_nan magnitude
verify_2to4-prune_2to4_example = verify_2to4-prune_2to4 model (
  (refl, (refl, (refl, (refl, (refl, (refl, (refl, (refl, (refl, tt))))))))),
  ((refl, (refl, (refl, (refl, (refl, (refl, (refl, (refl, (refl, tt))))))))), tt),
)

count_zeros-prune_floats_example : 2 + 1 ≤ count_zeros (prune_floats 2 (4 ∷ 1 ∷ 3 ∷ 2 ∷ []))
unfolding is_nan magnitude
count_zeros-prune_floats_example =
    count_zeros-prune_floats 2 (4 ∷ 1 ∷ 3 ∷ 2 ∷ []) (omega arith) (omega arith)
      (refl, (refl, (refl, (refl, tt))))
