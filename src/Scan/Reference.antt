-- ===== src/Scan/Reference.antt =====
-- src/mamba_scan.cpp, the recurrence that both scans compute, and the loop over the state's row.
use llm_cpp.Prelude.{
  ℕ, zero, suc, ◌+◌, ◌-◌, ◌*◌, ◌≤◌, ◌<◌, ◌≡◌, refl, ap, ap₂, ◌∙◌, inl, inr, true, false, ◌&&◌,
  arith, ltb, leb, ◌==◌, if◌then◌else◌, ==_iff, tests, Bool-cases, nat_eq, list_eq, int_eq,
}
use llm_cpp.Scan.{Scalars, Cells, update, ScanInput, decay, input, scan_row, emit}

module _ {F : Type 0} (s : Scalars F) (v : ScanInput F) where
  -- The state of channel `d` and place `n` before step `t`
  unfoldable pub state : (d n t : ℕ) → F
  state d n zero = v.h0 (d * v.N + n)
  state d n (suc t) = s.add (s.mul (decay s v t d n) (state d n t)) (input s v t d n)

  -- The sum over `n`, of the states after step `t`
  unfoldable pub weigh : (t d r n : ℕ) → F → F
  weigh t d zero n acc = acc
  weigh t d (suc r) n acc =
      weigh t d r (n + 1) (s.add acc (s.mul (v.C (t * v.N + n)) (state d n (suc t))))

  unfoldable pub output : (t d : ℕ) → F
  unfolding weigh
  output t d = emit s v t d (weigh t d v.N 0 s.zero)

  -- A row whose places from `n` on hold the states before step `t`
  abbrev pub RowAt : (t d base r n : ℕ) → Cells F → Type 0
  RowAt t d base r n h = (m : ℕ) → n ≤ m → m < n + r → h (base + m) ≡ state d m t

  module _ (t d base : ℕ) where
    RowAt-update :
        (r n : ℕ) (h : Cells F) (w : F)
        → RowAt t d base (suc r) n h
        → RowAt t d base r (n + 1) (update h (base + n) w)
    RowAt-update r n h w k m lo hi =
        let other : (base + m == base + n) ≡ false = ground arith in
        rw other (k m (omega arith) (omega arith))

    pub sum-scan_row :
        (r n : ℕ) (h : Cells F) (acc : F)
        → RowAt t d base r n h
        → (scan_row s v t d base r n h acc).1 ≡ weigh t d r n acc
    unfolding scan_row weigh state
    sum-scan_row zero n h acc k = refl
    sum-scan_row (suc r) n h acc k =
        let here : h (base + n) ≡ state d n t = k n (omega arith) (omega arith) in
        let w = s.add (s.mul (decay s v t d n) (h (base + n))) (input s v t d n) in
        let self : (base + n == base + n) ≡ true = ground arith in
        sum-scan_row r (n + 1) (update h (base + n) w)
          (s.add acc (s.mul (v.C (t * v.N + n)) (update h (base + n) w (base + n))))
          (RowAt-update r n h w k)
        ∙ ap
            (λ b.
              weigh t d r (n + 1)
                (s.add acc (s.mul (v.C (t * v.N + n)) (if b then w else h (base + n)))))
            self
        ∙ ap
            (λ c. weigh t d r (n + 1) (
              s.add acc
                (s.mul (v.C (t * v.N + n)) (s.add (s.mul (decay s v t d n) c) (input s v t d n)))))
            here

    -- The cells of the row step on; the others stay.
    pub scan_row-cells :
        (r n : ℕ) (h : Cells F) (acc : F) (k : ℕ)
        → (scan_row s v t d base r n h acc).0 k ≡ (
            if leb (base + n) k && ltb k (base + n + r)
            then s.add (s.mul (decay s v t d (k - base)) (h k)) (input s v t d (k - base))
            else h k)
    unfolding scan_row
    scan_row-cells zero n h acc k = ground arith
    scan_row-cells (suc r) n h acc k =
        let step = λ (m j : ℕ). s.add (s.mul (decay s v t d m) (h j)) (input s v t d m) in
        let h' = update h (base + n) (step n (base + n)) in
        scan_row-cells r (n + 1) h' (s.add acc (s.mul (v.C (t * v.N + n)) (h' (base + n)))) k
        ∙ elim (Bool-cases (k == base + n)) [
          | inl e ↦
              let inside : (leb (base + n) k && ltb k (base + n + suc r)) ≡ true = ground arith in
              let before : leb (base + (n + 1)) k ≡ false = ground arith in
              rw (e, inside, before)
                (ap₂ step (omega (tests, (==_iff k (base + n)).0 e))
                  (omega (tests, (==_iff k (base + n)).0 e)))
          | inr e ↦
              let same : (leb (base + (n + 1)) k && ltb k (base + (n + 1) + r))
                  ≡ (leb (base + n) k && ltb k (base + n + suc r)) =
                ground arith in
              rw (e, same) refl
        ]
