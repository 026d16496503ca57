-- ===== src/Tensor/Product/Rows.antt =====
-- src/tensor.cpp, the inner loops of matmul: what they make of one row.
use llm_cpp.Prelude.{
  ℕ, zero, suc, ◌+◌, ◌≤◌, ◌<◌, ◌≡◌, refl, sym, ap, ◌∙◌, subst, ◌≢◌, ◌⊎◌, inl, true, false, ◌&&◌,
  arith, ℕ_discrete, ◌==◌, nat_eq, list_eq, int_eq,
}
use llm_cpp.Tensor.{Tensor, put, at}
use llm_cpp.Tensor.Matrix.{IsMatrix, put-IsMatrix, at-put}
use llm_cpp.Tensor.Product.{Arithmetic, cols, multiply_row, multiply_span, multiply_rows}

module _ {F : Type 0} (num : Arithmetic F) (a b : Tensor F) where
  -- The sum of the first k products
  unfoldable pub partial : (i j k : ℕ) → F
  partial i j zero = num.zero
  partial i j (suc k) = num.add (partial i j k) (num.mul (at num.zero a i k) (at num.zero b k j))

  abbrev pub RowAt : Tensor F → (i k : ℕ) → Type 0
  RowAt out i k = (j : ℕ) → j < cols b → at num.zero out i j ≡ partial i j k

  abbrev pub SameRow : Tensor F → Tensor F → ℕ → Type 0
  SameRow out out' i = (j : ℕ) → j < cols b → at num.zero out' i j ≡ at num.zero out i j

  partial-suc :
      (i j k : ℕ)
      → num.add (partial i j k) (num.mul (at num.zero a i k) (at num.zero b k j))
        ≡ partial i j (k + 1)
  unfolding partial
  partial-suc i j k = let e : suc k ≡ k + 1 = omega arith in ap (partial i j) e

  module _ (m : ℕ) where
    abbrev pub Out : Tensor F → Type 0
    Out t = IsMatrix m (cols b) t

    pub Out-multiply_row :
        (i k n j : ℕ) (out : Tensor F) → Out out → Out (multiply_row num a b i k n j out)
    unfolding multiply_row
    Out-multiply_row i k zero j out o = o
    Out-multiply_row i k (suc n) j out o =
        Out-multiply_row i k n (j + 1) _ (put-IsMatrix m (cols b) out i j _ o)

    -- A row and its cells before j stay.
    multiply_row-same :
        (i k n j : ℕ) (out : Tensor F) (x y : ℕ)
        → Out out
        → i < m
        → j + n ≤ cols b
        → y < cols b
        → (x ≡ i → y < j)
        → at num.zero (multiply_row num a b i k n j out) x y ≡ at num.zero out x y
    unfolding multiply_row
    multiply_row-same i k zero j out x y o hi hn hy away = refl
    multiply_row-same i k (suc n) j out x y o hi hn hy away =
        let v = num.add (at num.zero out i j) (num.mul (at num.zero a i k) (at num.zero b k j)) in
        let elsewhere : (i == x && j == y) ≡ false = elim (ℕ_discrete x i) [
          | yes e ↦ let below = away e in ground arith
          | no e ↦ ground arith
        ] in
        multiply_row-same i k n (j + 1) (put out i j v) x y (put-IsMatrix m (cols b) out i j v o) hi
          (omega arith) hy (λ e. omega (arith, away e))
        ∙ at-put num.zero m (cols b) out i j x y v o hi (omega arith) hy
        ∙ rw elsewhere refl

    multiply_row-done :
        (i k n j : ℕ) (out : Tensor F) (y : ℕ)
        → Out out
        → i < m
        → j + n ≤ cols b
        → j ≤ y
        → y < j + n
        → at num.zero (multiply_row num a b i k n j out) i y
          ≡ num.add (at num.zero out i y) (num.mul (at num.zero a i k) (at num.zero b k y))
    unfolding multiply_row
    multiply_row-done i k zero j out y o hi hn lo up = absurd (omega arith)
    multiply_row-done i k (suc n) j out y o hi hn lo up =
        let v = num.add (at num.zero out i j) (num.mul (at num.zero a i k) (at num.zero b k j)) in
        let o' = put-IsMatrix m (cols b) out i j v o in
        let put_at = at-put num.zero m (cols b) out i j i y v o hi (omega arith) (omega arith) in
        elim (ℕ_discrete j y) [
          | yes e ↦
              let here : (i == i && j == y) ≡ true = ground arith in
              multiply_row-same i k n (j + 1) (put out i j v) i y o' hi (omega arith) (omega arith)
                (λ s. omega arith)
              ∙ put_at
              ∙ rw here (
                  ap
                    (λ c.
                      num.add (at num.zero out i c)
                        (num.mul (at num.zero a i k) (at num.zero b k c)))
                    e)
          | no e ↦
              let elsewhere : (i == i && j == y) ≡ false = ground arith in
              multiply_row-done i k n (j + 1) (put out i j v) y o' hi (omega arith) (omega arith)
                (omega arith)
              ∙ ap (λ c. num.add c (num.mul (at num.zero a i k) (at num.zero b k y)))
                  (put_at ∙ rw elsewhere refl)
        ]

    pub Out-multiply_span :
        (i d k : ℕ) (out : Tensor F) → Out out → Out (multiply_span num a b i d k out)
    unfolding multiply_span
    Out-multiply_span i zero k out o = o
    Out-multiply_span i (suc d) k out o =
        Out-multiply_span i d (k + 1) _ (Out-multiply_row i k (cols b) 0 out o)

    RowAt-multiply_span :
        (i d k : ℕ) (out : Tensor F)
        → Out out
        → i < m
        → RowAt out i k
        → RowAt (multiply_span num a b i d k out) i (k + d)
    unfolding multiply_span
    RowAt-multiply_span i zero k out o hi h = subst (RowAt out i) (omega arith) h
    RowAt-multiply_span i (suc d) k out o hi h =
        let out' = multiply_row num a b i k (cols b) 0 out in
        let next : RowAt out' i (k + 1) = λ j hj.
          multiply_row-done i k (cols b) 0 out j o hi (omega arith) (omega arith) (omega arith)
          ∙ ap (λ c. num.add c (num.mul (at num.zero a i k) (at num.zero b k j))) (h j hj)
          ∙ partial-suc i j k in
        subst (RowAt (multiply_span num a b i d (k + 1) out') i) (omega arith)
          (RowAt-multiply_span i d (k + 1) out' (Out-multiply_row i k (cols b) 0 out o) hi next)

    SameRow-multiply_span :
        (i d k : ℕ) (out : Tensor F) (x : ℕ)
        → Out out
        → i < m
        → x ≢ i
        → SameRow out (multiply_span num a b i d k out) x
    unfolding multiply_span
    SameRow-multiply_span i zero k out x o hi ne j hj = refl
    SameRow-multiply_span i (suc d) k out x o hi ne j hj =
        let out' = multiply_row num a b i k (cols b) 0 out in
        SameRow-multiply_span i d (k + 1) out' x (Out-multiply_row i k (cols b) 0 out o) hi ne j hj
        ∙ multiply_row-same i k (cols b) 0 out x j o hi (omega arith) hj (λ e. absurd (ne e))

    pub Out-multiply_rows :
        (d k r i : ℕ) (out : Tensor F) → Out out → Out (multiply_rows num a b d k r i out)
    unfolding multiply_rows
    Out-multiply_rows d k zero i out o = o
    Out-multiply_rows d k (suc r) i out o =
        Out-multiply_rows d k r (i + 1) _ (Out-multiply_span i d k out o)

    pub SameRow-multiply_rows :
        (d k r i : ℕ) (out : Tensor F) (x : ℕ)
        → Out out
        → i + r ≤ m
        → (x < i) ⊎ (i + r ≤ x)
        → SameRow out (multiply_rows num a b d k r i out) x
    unfolding multiply_rows
    SameRow-multiply_rows d k zero i out x o hi away j hj = refl
    SameRow-multiply_rows d k (suc r) i out x o hi away j hj =
        let out' = multiply_span num a b i d k out in
        SameRow-multiply_rows d k r (i + 1) out' x (Out-multiply_span i d k out o) (omega arith)
          (ground arith) j hj
        ∙ SameRow-multiply_span i d k out x o (omega arith) (λ e. ground arith) j hj

    pub RowAt-multiply_rows :
        (d k r i : ℕ) (out : Tensor F) (x : ℕ)
        → Out out
        → i + r ≤ m
        → i ≤ x
        → x < i + r
        → RowAt out x k
        → RowAt (multiply_rows num a b d k r i out) x (k + d)
    unfolding multiply_rows
    RowAt-multiply_rows d k zero i out x o hi lo up h = absurd (omega arith)
    RowAt-multiply_rows d k (suc r) i out x o hi lo up h =
        let out' = multiply_span num a b i d k out in
        let o' = Out-multiply_span i d k out o in
        elim (ℕ_discrete x i) [
          | yes e ↦
              let here : RowAt out i k = subst (λ y. RowAt out y k) e h in
              let done : RowAt out' x (k + d) =
                subst (λ y. RowAt out' y (k + d)) (sym e)
                  (RowAt-multiply_span i d k out o (omega arith) here) in
              λ j hj.
                SameRow-multiply_rows d k r (i + 1) out' x o' (omega arith) (inl (omega arith)) j hj
                ∙ done j hj
          | no e ↦
              RowAt-multiply_rows d k r (i + 1) out' x o' (omega arith) (omega arith) (omega arith)
                (λ j hj. SameRow-multiply_span i d k out x o (omega arith) e j hj ∙ h j hj)
        ]
