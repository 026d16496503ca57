-- ===== src/Prune.antt =====
-- src/prune.cpp: pruning by magnitude and in the 2:4 pattern. A float is its 32 bits; the bits below
-- the sign order the magnitudes of all floats but NaN, which no comparison holds of. The target count of `prune_model`, which the
-- code computes in floats, is an argument.
pub mod Groups
pub mod Pattern
pub mod Threshold
mod Tests
use llm_cpp.Prelude.{
  ℕ, ◌+◌, ◌*◌, ◌%◌, ◌^◌, Bool, true, not, ◌&&◌, ◌||◌, List, [], ◌∷◌, ◌++◌, map, ltb, leb, ◌==◌,
  if◌then◌else◌, tests, length, set, get_or, nat_eq, list_eq, int_eq,
}

-- std::abs
unfoldable pub magnitude : ℕ → ℕ
magnitude w = w % 2 ^ 31

-- The bits of the magnitude are above those of infinity.
unfoldable pub is_nan : ℕ → Bool
is_nan w = ltb (255 * 2 ^ 23) (magnitude w)

-- std::abs(v) < std::abs(w), false if one is NaN
unfoldable pub below : ℕ → ℕ → Bool
below v w = ltb (magnitude v) (magnitude w) && not (is_nan v || is_nan w)

-- std::abs(v) <= std::abs(w)
unfoldable pub at_most : ℕ → ℕ → Bool
at_most v w = leb (magnitude v) (magnitude w) && not (is_nan v || is_nan w)

-- A parameter: the number of its dimensions and its floats
pub record Weights : Type 0 where
  pub dims : ℕ
  pub floats : List ℕ

-- One round of the loop over the last two floats of a group
abbrev pub rank : List ℕ → ℕ → ℕ → ℕ → ℕ × ℕ
rank group k i1 i2 =
    if below (get_or group k 0) (get_or group i1 0)
    then (k, i1)
    else if below (get_or group k 0) (get_or group i2 0)
    then (i1, k)
    else (i1, i2)

-- The places of the two smallest of four
abbrev pub first_two : List ℕ → ℕ × ℕ
first_two group = if below (get_or group 1 0) (get_or group 0 0) then (1, 0) else (0, 1)

unfoldable pub two_smallest : List ℕ → ℕ × ℕ
two_smallest group =
    let s2 = first_two group in let s3 = rank group 2 s2.0 s2.1 in rank group 3 s3.0 s3.1

unfoldable pub prune_group : List ℕ → List ℕ
prune_group group = let s = two_smallest group in set (set group s.0 0) s.1 0

-- The loop over the groups of four; what remains at the end is left alone.
unfoldable pub prune_groups : List ℕ → List ℕ
prune_groups (a ∷ b ∷ c ∷ d ∷ ws) = prune_group (a ∷ b ∷ c ∷ d ∷ []) ++ prune_groups ws
prune_groups ws = ws

unfoldable pub prune_2to4 : List Weights → List Weights
prune_2to4 [] = []
prune_2to4 (p ∷ ps) =
    (if p.dims == 2 then record p { floats = prune_groups p.floats } else p) ∷ prune_2to4 ps

abbrev pub count_zeros : List ℕ → ℕ
count_zeros [] = 0
count_zeros (w ∷ ws) = (if magnitude w == 0 then 1 else 0) + count_zeros ws

unfoldable pub verify_groups : List ℕ → Bool
verify_groups (a ∷ b ∷ c ∷ d ∷ ws) = (count_zeros (a ∷ b ∷ c ∷ d ∷ []) == 2) && verify_groups ws
verify_groups ws = true

unfoldable pub verify_2to4 : List Weights → Bool
verify_2to4 [] = true
verify_2to4 (p ∷ ps) = (not (p.dims == 2) || verify_groups p.floats) && verify_2to4 ps

-- std::nth_element on the magnitudes, by sorting all of them; C++ leaves it open what it does with NaN.
unfoldable pub insert_sorted : ℕ → List ℕ → List ℕ
insert_sorted x [] = x ∷ []
insert_sorted x (y ∷ ys) = if leb x y then x ∷ y ∷ ys else y ∷ insert_sorted x ys

unfoldable pub sort_magnitudes : List ℕ → List ℕ
sort_magnitudes [] = []
sort_magnitudes (w ∷ ws) = insert_sorted (magnitude w) (sort_magnitudes ws)

unfoldable pub zero_below : ℕ → List ℕ → List ℕ
zero_below thresh [] = []
zero_below thresh (w ∷ ws) = (if at_most w thresh then 0 else w) ∷ zero_below thresh ws

-- One parameter of prune_model, where `k` floats are to be pruned
unfoldable pub prune_floats : ℕ → List ℕ → List ℕ
prune_floats k ws =
    if k == 0 || leb (length ws) k then ws else zero_below (get_or (sort_magnitudes ws) k 0) ws

-- prune_model for a sparsity between 0 and 1, where `count n` of `n` floats are to be pruned
unfoldable pub prune_model : (ℕ → ℕ) → List Weights → List Weights
prune_model count ps =
    map (λ (p : Weights). record p { floats = prune_floats (count (length p.floats)) p.floats }) ps

unfoldable pub count_floats : List Weights → ℕ
count_floats [] = 0
count_floats (p ∷ ps) = length p.floats + count_floats ps

unfoldable pub count_pruned : List Weights → ℕ
count_pruned [] = 0
count_pruned (p ∷ ps) = count_zeros p.floats + count_pruned ps
