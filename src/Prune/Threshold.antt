-- ===== src/Prune/Threshold.antt =====
-- src/prune.cpp, prune_model: the threshold and what it prunes.
use llm_cpp.Prelude.{
  ℕ, zero, suc, ◌+◌, ◌%◌, ◌^◌, ◌≤◌, ◌<◌, ◌≡◌, refl, ap, ◌∙◌, inl, inr, false, ◌||◌, List, [], ◌∷◌,
  arith, leb, ◌==◌, if◌then◌else◌, leb→le, tests, Bool-cases, length, get_or, All, All-mono, nat_eq,
  list_eq, int_eq,
}
use llm_cpp.Prune.{
  magnitude, is_nan, at_most, count_zeros, insert_sorted, sort_magnitudes, zero_below, prune_floats,
}
use llm_cpp.Prune.Groups.{IsNumber, magnitude-zero}

-- The numbers up to a bound
count_le : ℕ → List ℕ → ℕ
count_le t [] = 0
count_le t (x ∷ xs) = (if leb x t then 1 else 0) + count_le t xs

-- The floats up to a bound, by magnitude
count_small : ℕ → List ℕ → ℕ
count_small t [] = 0
count_small t (w ∷ ws) = (if leb (magnitude w) t then 1 else 0) + count_small t ws

abbrev IsAscending : List ℕ → Type 0
IsAscending [] = Unit {0}
IsAscending (x ∷ xs) = All (λ y. x ≤ y) xs × IsAscending xs

insert_sorted-All :
    (P : ℕ → Type 0) (x : ℕ) (xs : List ℕ) → P x → All P xs → All P (insert_sorted x xs)
unfolding insert_sorted
insert_sorted-All P x [] hx h = (hx, tt)
insert_sorted-All P x (y ∷ ys) hx h = elim (Bool-cases (leb x y)) [
  | inl e ↦ rw e (hx, h)
  | inr e ↦ rw e (h.0, insert_sorted-All P x ys hx h.1)
]

insert_sorted-IsAscending :
    (x : ℕ) (xs : List ℕ) → IsAscending xs → IsAscending (insert_sorted x xs)
unfolding insert_sorted
insert_sorted-IsAscending x [] h = (tt, tt)
insert_sorted-IsAscending x (y ∷ ys) h = elim (Bool-cases (leb x y)) [
  | inl e ↦ rw e (
    (leb→le x y e, All-mono (λ z. y ≤ z) (λ z. x ≤ z) ys (λ z k. omega (tests, leb→le x y e)) h.0),
    h,
  )
  | inr e ↦
      rw e
        (insert_sorted-All (λ z. y ≤ z) x ys (ground arith) h.0, insert_sorted-IsAscending x ys h.1)
]

sort_magnitudes-IsAscending : (ws : List ℕ) → IsAscending (sort_magnitudes ws)
unfolding sort_magnitudes
sort_magnitudes-IsAscending [] = tt
sort_magnitudes-IsAscending (w ∷ ws) =
    insert_sorted-IsAscending (magnitude w) (sort_magnitudes ws) (sort_magnitudes-IsAscending ws)

count_le-insert_sorted :
    (t x : ℕ) (xs : List ℕ) → count_le t (insert_sorted x xs) ≡ count_le t (x ∷ xs)
unfolding insert_sorted count_le
count_le-insert_sorted t x [] = refl
count_le-insert_sorted t x (y ∷ ys) = elim (Bool-cases (leb x y)) [
  | inl e ↦ rw e refl
  | inr e ↦ rw e (omega (arith, count_le-insert_sorted t x ys))
]

count_le-sort_magnitudes :
    (t : ℕ) (ws : List ℕ) → count_le t (sort_magnitudes ws) ≡ count_small t ws
unfolding sort_magnitudes count_small count_le
count_le-sort_magnitudes t [] = refl
count_le-sort_magnitudes t (w ∷ ws) =
    count_le-insert_sorted t (magnitude w) (sort_magnitudes ws)
    ∙ ap (λ n. (if leb (magnitude w) t then 1 else 0) + n) (count_le-sort_magnitudes t ws)

length-insert_sorted : (x : ℕ) (xs : List ℕ) → length (insert_sorted x xs) ≡ suc (length xs)
unfolding insert_sorted
length-insert_sorted x [] = refl
length-insert_sorted x (y ∷ ys) = ground (arith, length-insert_sorted x ys)

length-sort_magnitudes : (ws : List ℕ) → length (sort_magnitudes ws) ≡ length ws
unfolding sort_magnitudes
length-sort_magnitudes [] = refl
length-sort_magnitudes (w ∷ ws) =
    length-insert_sorted (magnitude w) (sort_magnitudes ws) ∙ ap suc (length-sort_magnitudes ws)

le_get : (x : ℕ) (xs : List ℕ) (k : ℕ) → k < length xs → All (λ y. x ≤ y) xs → x ≤ get_or xs k 0
le_get x [] k lt h = absurd (omega arith)
le_get x (y ∷ ys) zero lt h = h.0
le_get x (y ∷ ys) (suc k) lt h = le_get x ys k (omega arith) h.1

-- In ascending order, the numbers up to the one at place k are at least k + 1.
lt-count_le :
    (xs : List ℕ) (k : ℕ) → IsAscending xs → k < length xs → k < count_le (get_or xs k 0) xs
unfolding count_le
lt-count_le [] k h lt = absurd (omega arith)
lt-count_le (x ∷ xs) zero h lt = ground arith
lt-count_le (x ∷ xs) (suc k) h lt =
    let rest = lt-count_le xs k h.1 (omega arith) in
    let first = le_get x xs k (omega arith) h.0 in ground arith

at_most-number : (v w : ℕ) → IsNumber v → IsNumber w → at_most v w ≡ leb (magnitude v) (magnitude w)
unfolding at_most
at_most-number v w hv hw = rw (hv, hw) (ground arith)

le-count_zeros :
    (t : ℕ) (ws : List ℕ)
    → IsNumber t
    → All IsNumber ws
    → count_small (magnitude t) ws ≤ count_zeros (zero_below t ws)
unfolding count_small zero_below
le-count_zeros t [] ht h = omega arith
le-count_zeros t (w ∷ ws) ht h =
    let rest = le-count_zeros t ws ht h.1 in
    ground (arith, magnitude-zero, at_most-number w t h.0 ht)

-- The magnitudes of numbers are numbers, and their own magnitudes.
abbrev IsMagnitude : ℕ → Type 0
IsMagnitude w = IsNumber w × (magnitude w ≡ w)

magnitude-IsMagnitude : (w : ℕ) → IsNumber w → IsMagnitude (magnitude w)
unfolding is_nan magnitude
magnitude-IsMagnitude w h =
    let same : (w % 2 ^ 31) % 2 ^ 31 ≡ w % 2 ^ 31 = omega arith in (rw same h, same)

sort_magnitudes-All : (ws : List ℕ) → All IsNumber ws → All IsMagnitude (sort_magnitudes ws)
unfolding sort_magnitudes
sort_magnitudes-All [] h = tt
sort_magnitudes-All (w ∷ ws) h =
    insert_sorted-All IsMagnitude (magnitude w) (sort_magnitudes ws) (magnitude-IsMagnitude w h.0)
      (sort_magnitudes-All ws h.1)

get_or-IsMagnitude : (ws : List ℕ) (k : ℕ) → All IsMagnitude ws → IsMagnitude (get_or ws k 0)
unfolding is_nan magnitude
get_or-IsMagnitude [] k h = (refl, refl)
get_or-IsMagnitude (w ∷ ws) zero h = h.0
get_or-IsMagnitude (w ∷ ws) (suc k) h = get_or-IsMagnitude ws k h.1

-- If k is not 0 and below the number of floats of a tensor, none of which is NaN, then after
-- pruning k of them by their magnitude at least k + 1 are zero.
pub count_zeros-prune_floats :
    (k : ℕ) (ws : List ℕ)
    → 0 < k
    → k < length ws
    → All IsNumber ws
    → k + 1 ≤ count_zeros (prune_floats k ws)
unfolding prune_floats
count_zeros-prune_floats k ws pos lt h =
    let go : (k == 0 || leb (length ws) k) ≡ false = ground arith in
    let t = get_or (sort_magnitudes ws) k 0 in
    let (number, same) = get_or-IsMagnitude (sort_magnitudes ws) k (sort_magnitudes-All ws h) in
    rw go (
      omega (
        arith,
        lt-count_le (sort_magnitudes ws) k (sort_magnitudes-IsAscending ws)
            (omega (arith, length-sort_magnitudes ws)),
        count_le-sort_magnitudes t ws,
        le-count_zeros t ws number h,
        ap (λ m. count_small m ws) same,
      ))
