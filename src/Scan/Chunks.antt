-- ===== src/Scan/Chunks.antt =====
-- src/mamba_scan.cpp, the first pass of the parallel scan: the chunks and their starting states.
use llm_cpp.Prelude.{
  ℕ, zero, suc, ◌+◌, ◌-◌, ◌*◌, ◌≤◌, ◌<◌, min, ◌≡◌, refl, sym, ap, ◌∙◌, arith, dec_lt, nat_eq,
  list_eq, int_eq,
}
use native.Mathlib.Nat.{div-add-mod, mod-lt}
use llm_cpp.Scan.{
  Scalars, Cells, ScanInput, decay, input, num_chunks, chunk_size, chunk_start, chunk_end, reduce,
}
use llm_cpp.Scan.Reference.{state}

-- The laws of exact arithmetic that the chunks rely on
pub record IsExact {F : Type 0} (s : Scalars F) : Type 0 where
  pub add-zero : (a : F) → s.add a s.zero ≡ a
  pub one-mul : (a : F) → s.mul s.one a ≡ a
  pub add_assoc : (a b c : F) → s.add (s.add a b) c ≡ s.add a (s.add b c)
  pub mul_assoc : (a b c : F) → s.mul (s.mul a b) c ≡ s.mul a (s.mul b c)
  pub mul-add : (a b c : F) → s.mul a (s.add b c) ≡ s.add (s.mul a b) (s.mul a c)

module _ {F : Type 0} (s : Scalars F) (v : ScanInput F) where
  num_chunks-pos : 0 < v.T → 0 < num_chunks s v
  unfolding num_chunks
  num_chunks-pos h = ground arith

  -- The chunks reach the last step.
  pub chunks_cover : v.T ≤ num_chunks s v * chunk_size s v
  unfolding chunk_size
  chunks_cover = elim (dec_lt 0 v.T) [
    | yes h ↦ grind (
      arith,
      num_chunks-pos h,
      div-add-mod (v.T + num_chunks s v - 1) (num_chunks s v),
      mod-lt (v.T + num_chunks s v - 1) (num_chunks-pos h),
    )
    | no h ↦ omega arith
  ]

  pub chunk_start-suc : (c : ℕ) → chunk_start s v (c + 1) ≡ chunk_start s v c + chunk_size s v
  unfolding chunk_start
  chunk_start-suc c = grind arith

  pub chunk_end_lem : (c : ℕ) → chunk_end s v c ≡ min v.T (chunk_start s v (c + 1))
  unfolding chunk_start chunk_end
  chunk_end_lem c = grind arith

  -- The first pass over one chunk at one place
  abbrev pub chunk_pair : (d m c : ℕ) → F × F
  chunk_pair d m c =
      reduce s v d m (chunk_end s v c - chunk_start s v c) (chunk_start s v c) s.one s.zero

  -- The arrays of the first pass at a chunk and a place
  abbrev pub PairAt : (d m c : ℕ) → Cells F → Cells F → Type 0
  PairAt d m c aprod bend =
      (aprod (c * v.N + m) ≡ (chunk_pair d m c).0) × (bend (c * v.N + m) ≡ (chunk_pair d m c).1)

  module _ (e : IsExact s) (d m : ℕ) where
    reduce-state :
        (r t : ℕ) (p z w : F)
        → s.add (s.mul p w) z ≡ state s v d m t
        → s.add (s.mul (reduce s v d m r t p z).0 w) (reduce s v d m r t p z).1
          ≡ state s v d m (t + r)
    unfolding reduce state
    reduce-state zero t p z w h = h ∙ ap (state s v d m) (omega arith)
    reduce-state (suc r) t p z w h =
        let a = decay s v t d m in
        let b = input s v t d m in
        let next : s.add (s.mul (s.mul a p) w) (s.add (s.mul a z) b) ≡ state s v d m (suc t) =
          rw
            (
              e.mul_assoc a p w,
              sym (e.add_assoc (s.mul a (s.mul p w)) (s.mul a z) b),
              sym (e.mul-add a (s.mul p w) z),
              h,
            )
            refl in
        reduce-state r (t + 1) (s.mul a p) (s.add (s.mul a z) b) w
          (next ∙ ap (state s v d m) {x = suc t} (omega arith))
        ∙ ap (state s v d m) (omega arith)

    -- A chunk takes the state at its start to the state at the start of the next.
    pub pair-state :
        (c : ℕ) (w : F)
        → w ≡ state s v d m (min v.T (chunk_start s v c))
        → s.add (s.mul (chunk_pair d m c).0 w) (chunk_pair d m c).1
          ≡ state s v d m (min v.T (chunk_start s v (c + 1)))
    unfolding reduce
    pair-state c w h = elim (dec_lt v.T (chunk_start s v c)) [
      | no before ↦
          let begin : min v.T (chunk_start s v c) ≡ chunk_start s v c = omega arith in
          let held : w ≡ state s v d m (chunk_start s v c) = h ∙ ap (state s v d m) begin in
          let one_step : s.add (s.mul s.one w) s.zero ≡ w =
            e.add-zero (s.mul s.one w) ∙ e.one-mul w in
          reduce-state (chunk_end s v c - chunk_start s v c) (chunk_start s v c) s.one s.zero w
            (one_step ∙ held)
          ∙ ap (state s v d m) (omega (arith, chunk_start-suc c, chunk_end_lem c))
      | yes past ↦
          let none_left : chunk_end s v c - chunk_start s v c ≡ 0 =
            omega (arith, chunk_end_lem c) in
          rw (none_left, reduce)
            (e.add-zero (s.mul s.one w)
              ∙ e.one-mul w
              ∙ h
              ∙ ap (state s v d m) (omega (arith, chunk_start-suc c)))
    ]
