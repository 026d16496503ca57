-- ===== src/Prune/Groups.antt =====
-- src/prune.cpp, one group of four: the two floats that are pruned, and those that stay.
use llm_cpp.Prelude.{
  zero, suc, false, All, ℕ, ◌+◌, ◌≤◌, ◌<◌, ◌≡◌, refl, ap, ◌≢◌, inl, inr, List, [], ◌∷◌, arith,
  ℕ_discrete, ltb, leb, ◌==◌, Bool-cases, get_or, nat_eq, list_eq, int_eq,
}
use llm_cpp.Prune.{
  magnitude, is_nan, below, rank, first_two, two_smallest, prune_group, count_zeros,
}

-- The places of the smallest and of the second smallest of the first `k` floats
pub record Least (group : List ℕ) (k : ℕ) (s : ℕ × ℕ) : Type 0 where
  pub in_range : (s.0 < k) × (s.1 < k)
  pub apart : s.0 ≢ s.1
  pub ordered : magnitude (get_or group s.0 0) ≤ magnitude (get_or group s.1 0)
  pub least :
      (i : ℕ) → i < k → i ≢ s.0 → magnitude (get_or group s.1 0) ≤ magnitude (get_or group i 0)

-- What is not NaN
abbrev pub IsNumber : ℕ → Type 0
IsNumber w = is_nan w ≡ false

pub below-number : (v w : ℕ) → IsNumber v → IsNumber w → below v w ≡ ltb (magnitude v) (magnitude w)
unfolding below
below-number v w hv hw = rw (hv, hw) (ground arith)

pub get_or-IsNumber : (ws : List ℕ) (i : ℕ) → All IsNumber ws → IsNumber (get_or ws i 0)
unfolding is_nan magnitude
get_or-IsNumber [] i h = refl
get_or-IsNumber (w ∷ ws) zero h = h.0
get_or-IsNumber (w ∷ ws) (suc i) h = get_or-IsNumber ws i h.1

below-get_or :
    (group : List ℕ) (i j : ℕ)
    → All IsNumber group
    → below (get_or group i 0) (get_or group j 0)
      ≡ ltb (magnitude (get_or group i 0)) (magnitude (get_or group j 0))
below-get_or group i j h =
    below-number (get_or group i 0) (get_or group j 0) (get_or-IsNumber group i h)
      (get_or-IsNumber group j h)

at_least :
    (group : List ℕ) (i j : ℕ) → j ≡ i → magnitude (get_or group i 0) ≤ magnitude (get_or group j 0)
at_least group i j e = omega (arith, ap (λ k. magnitude (get_or group k 0)) e)

first_two-Least : (group : List ℕ) → All IsNumber group → Least group 2 (first_two group)
first_two-Least group n =
    let same = below-get_or group 1 0 n in
    elim (Bool-cases (below (get_or group 1 0) (get_or group 0 0))) [
      | inl e ↦ rw e (record {
        in_range = omega arith;
        apart = ground arith;
        ordered = ground arith;
        least = λ i h m. at_least group 0 i (omega arith);
      })
      | inr e ↦ rw e (record {
        in_range = omega arith;
        apart = ground arith;
        ordered = ground arith;
        least = λ i h m. at_least group 1 i (omega arith);
      })
    ]

rank-Least :
    (group : List ℕ) (k : ℕ) (s : ℕ × ℕ)
    → All IsNumber group
    → Least group k s
    → Least group (k + 1) (rank group k s.0 s.1)
rank-Least group k s m h =
    let same = below-get_or group k s.0 m in
    let same' = below-get_or group k s.1 m in
    elim (Bool-cases (below (get_or group k 0) (get_or group s.0 0))) [
      | inl e ↦ rw e (record {
        in_range = omega arith;
        apart = omega arith;
        ordered = ground arith;
        least = λ i hi n. elim (ℕ_discrete i s.0) [
          | yes p ↦ at_least group s.0 i p
          | no p ↦ omega (arith, h.least i (omega arith) p, h.ordered)
        ];
      })
      | inr e ↦ elim (Bool-cases (below (get_or group k 0) (get_or group s.1 0))) [
        | inl f ↦
            rw (e, f)
              (record {
                in_range = omega arith;
                apart = omega arith;
                ordered = ground arith;
                least = λ i hi n. elim (ℕ_discrete i k) [
                  | yes p ↦ at_least group k i p
                  | no p ↦ let before = h.least i (omega arith) n in ground arith
                ];
              })
        | inr f ↦
            rw (e, f)
              (record {
                in_range = omega arith;
                apart = h.apart;
                ordered = h.ordered;
                least = λ i hi n. elim (ℕ_discrete i k) [
                  | yes p ↦ let here = at_least group k i p in ground arith
                  | no p ↦ h.least i (omega arith) n
                ];
              })
      ]
    ]

-- Pruning zeroes the two smallest of a group, and leaves the others.
pub two_smallest-Least : (group : List ℕ) → All IsNumber group → Least group 4 (two_smallest group)
unfolding two_smallest
two_smallest-Least group n =
    let s2 = first_two group in
    let s3 = rank group 2 s2.0 s2.1 in
    rank-Least group 3 s3 n (rank-Least group 2 s2 n (first_two-Least group n))

pub magnitude-zero : magnitude 0 ≡ 0
unfolding magnitude
magnitude-zero = refl

module _ (a b c d : ℕ) where
  abbrev four : List ℕ
  four = a ∷ b ∷ c ∷ d ∷ []

  -- The group has exactly two zeros after pruning unless it had more before.
  pub count_zeros-prune_group :
      All IsNumber four → (count_zeros (prune_group four) == 2) ≡ leb (count_zeros four) 2
  unfolding prune_group two_smallest
  count_zeros-prune_group (ha, (hb, (hc, (hd, u)))) = ground (
    arith,
    magnitude-zero,
    below-number b a hb ha,
    below-number c a hc ha,
    below-number c b hc hb,
    below-number d a hd ha,
    below-number d b hd hb,
    below-number d c hd hc,
  )
