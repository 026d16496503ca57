-- ===== src/Prune/Pattern.antt =====
-- src/prune.cpp, the 2:4 pattern over whole parameters: prune_2to4 and verify_2to4.
use llm_cpp.Prelude.{
  ℕ, ◌≡◌, refl, ap₂, ◌∙◌, inl, inr, Bool, true, not, ◌&&◌, ◌||◌, List, [], ◌∷◌, ◌++◌, arith, leb,
  ◌==◌, if◌then◌else◌, Bool-cases, length, set, length-set, All, nat_eq, list_eq, int_eq,
}
use llm_cpp.Prune.{
  Weights, two_smallest, prune_group, prune_groups, prune_2to4, count_zeros, verify_groups,
  verify_2to4,
}
use llm_cpp.Prune.Groups.{Least, two_smallest-Least, count_zeros-prune_group, IsNumber}

-- Every group of four has at most two zeros.
pub at_most_two : List ℕ → Bool
at_most_two (a ∷ b ∷ c ∷ d ∷ ws) = leb (count_zeros (a ∷ b ∷ c ∷ d ∷ [])) 2 && at_most_two ws
at_most_two ws = true

unfoldable pub all_at_most_two : List Weights → Bool
unfolding at_most_two
all_at_most_two [] = true
all_at_most_two (p ∷ ps) = (not (p.dims == 2) || at_most_two p.floats) && all_at_most_two ps

verify_groups-four :
    (g ws : List ℕ)
    → length g ≡ 4
    → verify_groups (g ++ ws) ≡ ((count_zeros g == 2) && verify_groups ws)
unfolding verify_groups
verify_groups-four (a ∷ b ∷ c ∷ d ∷ []) ws h = refl
verify_groups-four (a ∷ b ∷ c ∷ d ∷ e ∷ g) ws h = absurd (omega arith)
verify_groups-four (a ∷ b ∷ c ∷ []) ws h = absurd (omega arith)
verify_groups-four (a ∷ b ∷ []) ws h = absurd (omega arith)
verify_groups-four (a ∷ []) ws h = absurd (omega arith)
verify_groups-four [] ws h = absurd (omega arith)

first_four :
    (a b c d : ℕ) (ws : List ℕ)
    → All IsNumber (a ∷ b ∷ c ∷ d ∷ ws)
    → All IsNumber (a ∷ b ∷ c ∷ d ∷ [])
first_four a b c d ws h = (h.0, (h.1.0, (h.1.1.0, (h.1.1.1.0, tt))))

length-prune_group : (g : List ℕ) → length (prune_group g) ≡ length g
unfolding prune_group
length-prune_group g =
    length-set (set g (two_smallest g).0 0) (two_smallest g).1 0 ∙ length-set g (two_smallest g).0 0

verify_groups-prune_groups :
    (ws : List ℕ) → All IsNumber ws → verify_groups (prune_groups ws) ≡ at_most_two ws
unfolding prune_groups at_most_two
verify_groups-prune_groups (a ∷ b ∷ c ∷ d ∷ ws) h =
    let four = a ∷ b ∷ c ∷ d ∷ [] in
    verify_groups-four (prune_group four) (prune_groups ws) (length-prune_group four)
    ∙ ap₂ ◌&&◌ (count_zeros-prune_group a b c d (first_four a b c d ws h))
        (verify_groups-prune_groups ws h.1.1.1.1)
verify_groups-prune_groups (a ∷ b ∷ c ∷ []) h = unfold verify_groups in refl
verify_groups-prune_groups (a ∷ b ∷ []) h = unfold verify_groups in refl
verify_groups-prune_groups (a ∷ []) h = unfold verify_groups in refl
verify_groups-prune_groups [] h = unfold verify_groups in refl

-- If no float is NaN, then after prune_2to4, verify_2to4 gives exactly the answer to whether every
-- group of four floats in a tensor of two dimensions had at most two zeros before.
pub verify_2to4-prune_2to4 :
    (ps : List Weights)
    → All (λ (p : Weights). All IsNumber p.floats) ps
    → verify_2to4 (prune_2to4 ps) ≡ all_at_most_two ps
unfolding verify_2to4 prune_2to4 all_at_most_two
verify_2to4-prune_2to4 [] h = refl
verify_2to4-prune_2to4 (p ∷ ps) h = elim (Bool-cases (p.dims == 2)) [
  | inl e ↦ rw (e, e, verify_groups-prune_groups p.floats h.0, verify_2to4-prune_2to4 ps h.1) refl
  | inr e ↦ rw (e, e, verify_2to4-prune_2to4 ps h.1) refl
]

-- Each group has lost two floats, at most as large as those that it keeps; what is left at the end
-- stays.
abbrev pub Pruned : List ℕ → List ℕ → Type 0
Pruned (a ∷ b ∷ c ∷ d ∷ ws) out =
    (s : ℕ × ℕ) × (rest : List ℕ) × (out ≡ set (set (a ∷ b ∷ c ∷ d ∷ []) s.0 0) s.1 0 ++ rest)
    × Least (a ∷ b ∷ c ∷ d ∷ []) 4 s
    × Pruned ws rest
Pruned ws out = out ≡ ws

abbrev pub AllPruned : List Weights → List Weights → Type 0
AllPruned [] out = out ≡ []
AllPruned (p ∷ ps) out =
    (ws : List ℕ) × (rest : List Weights) × (out ≡ record p { floats = ws } ∷ rest)
    × (if p.dims == 2 then Pruned p.floats ws else (ws ≡ p.floats))
    × AllPruned ps rest

prune_groups-Pruned : (ws : List ℕ) → All IsNumber ws → Pruned ws (prune_groups ws)
unfolding prune_groups prune_group
prune_groups-Pruned (a ∷ b ∷ c ∷ d ∷ ws) h =
    let four = a ∷ b ∷ c ∷ d ∷ [] in
    (
      two_smallest four,
      prune_groups ws,
      refl,
      two_smallest-Least four (first_four a b c d ws h),
      prune_groups-Pruned ws h.1.1.1.1,
    )
prune_groups-Pruned (a ∷ b ∷ c ∷ []) h = refl
prune_groups-Pruned (a ∷ b ∷ []) h = refl
prune_groups-Pruned (a ∷ []) h = refl
prune_groups-Pruned [] h = refl

-- If no float is NaN, prune_2to4 keeps all tensors and the number of their dimensions: in one of two dimensions each
-- group of four floats loses two floats whose magnitude is at most that of those it keeps, what is
-- left at the end stays, and so does any other tensor.
pub prune_2to4-AllPruned :
    (ps : List Weights)
    → All (λ (p : Weights). All IsNumber p.floats) ps
    → AllPruned ps (prune_2to4 ps)
unfolding prune_2to4
prune_2to4-AllPruned [] h = refl
prune_2to4-AllPruned (p ∷ ps) h = elim (Bool-cases (p.dims == 2)) [
  | inl e ↦ (
    prune_groups p.floats,
    prune_2to4 ps,
    rw e refl,
    rw e (prune_groups-Pruned p.floats h.0),
    prune_2to4-AllPruned ps h.1,
  )
  | inr e ↦ (p.floats, prune_2to4 ps, rw e refl, rw e refl, prune_2to4-AllPruned ps h.1)
]
