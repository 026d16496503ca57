-- ===== src/Tensor/Sparse/Agreement.antt =====
-- src/tensor.cpp, matmul_sparse gives what matmul gives.
use llm_cpp.Prelude.{
  if-Cases, ℕ, zero, suc, ◌+◌, ◌*◌, ◌≤◌, ◌<◌, ◌≡◌, refl, sym, ap, ap₂, ◌∙◌, true, ◌&&◌, some, List,
  [], ◌∷◌, arith, ◌==◌, if◌then◌else◌, length, set, get_or, nat_eq, list_eq, int_eq,
}
use llm_cpp.Tensor.{Tensor, make, put, at, place}
use llm_cpp.Tensor.Matrix.{IsMatrix, make-IsMatrix, put-IsMatrix, at-make, place_eq, in_matrix}
use llm_cpp.Tensor.Product.{
  Arithmetic, rows, cols, multiply_row, multiply_span, multiply_rows, matmul,
}
use llm_cpp.Tensor.Product.Rows.{
  partial, Out, Out-multiply_row, Out-multiply_span, RowAt-multiply_rows,
}
use llm_cpp.Tensor.Product.Blocks.{matmul-partial}
use llm_cpp.Tensor.Sparse.{nonzeros, add_entries, sparse_span, sparse_rows, is_f32, matmul_sparse}

module _ {F : Type 0} (num : Arithmetic F) (a b : Tensor F) where
  -- What leaving out the zeros rests on
  pub record HasZero : Type 0 where
    pub is_zero-eq : (x : F) → num.is_zero x ≡ true → x ≡ num.zero
    pub zero-mul : (x : F) → num.mul num.zero x ≡ num.zero
    pub mul-zero : (x : F) → num.mul x num.zero ≡ num.zero
    pub add-zero : (x : F) → num.add x num.zero ≡ x

  set-get_or : (xs : List F) (i : ℕ) (d : F) → i < length xs → set xs i (get_or xs i d) ≡ xs
  set-get_or [] i d h = absurd (omega arith)
  set-get_or (x ∷ xs) zero d h = refl
  set-get_or (x ∷ xs) (suc i) d h = ap (λ ys. x ∷ ys) (set-get_or xs i d (omega arith))

  module _ (laws : HasZero) (ma : IsMatrix (rows a) (cols a) a)
      (mb : IsMatrix (cols a) (cols b) b) where
    put-at :
        (out : Tensor F) (i j : ℕ)
        → Out num a b (rows a) out
        → i < rows a
        → j < cols b
        → put out i j (at num.zero out i j) ≡ out
    unfolding put at
    put-at out i j o hi hj =
        let fits : place out i j < length out.cells = omega (
          arith,
          place_eq num.zero out (rows a) (cols b) i j o,
          o.size,
          in_matrix (rows a) (cols b) i j hi hj,
        ) in
        ap (λ c. record out { cells = c }) (set-get_or out.cells (place out i j) num.zero fits)

    at-cells :
        (t : Tensor F) (m n i j : ℕ)
        → IsMatrix m n t
        → at num.zero t i j ≡ get_or t.cells (i * n + j) num.zero
    unfolding at
    at-cells t m n i j h = ap (λ p. get_or t.cells p num.zero) (place_eq num.zero t m n i j h)

    put-cells :
        (out : Tensor F) (i j : ℕ) (v w : F)
        → Out num a b (rows a) out
        → record out {
          cells =
              set out.cells
                (i * cols b + j)
                (num.add (get_or out.cells (i * cols b + j) num.zero) (num.mul v w));
        }
          ≡ put out i j (num.add (at num.zero out i j) (num.mul v w))
    unfolding put at
    put-cells out i j v w o =
        ap
          (λ p. record out {
            cells = set out.cells p (num.add (get_or out.cells p num.zero) (num.mul v w));
          })
          (sym (place_eq num.zero out (rows a) (cols b) i j o))

    -- A product that is zero changes nothing.
    put-zero :
        (out : Tensor F) (i j : ℕ) (p : F)
        → Out num a b (rows a) out
        → i < rows a
        → j < cols b
        → p ≡ num.zero
        → put out i j (num.add (at num.zero out i j) p) ≡ out
    put-zero out i j p o hi hj e =
        ap (put out i j)
          (ap (num.add (at num.zero out i j)) e ∙ laws.add-zero (at num.zero out i j))
        ∙ put-at out i j o hi hj

    add_entries-nonzeros :
        (i k n j : ℕ) (out : Tensor F)
        → Out num a b (rows a) out
        → i < rows a
        → j + n ≤ cols b
        → add_entries num a b i (at num.zero a i k) (nonzeros num a b k n j) out
          ≡ multiply_row num a b i k n j out
    unfolding add_entries nonzeros multiply_row
    add_entries-nonzeros i k zero j out o hi hn = refl
    add_entries-nonzeros i k (suc n) j out o hi hn =
        let w = get_or b.cells (k * cols b + j) num.zero in
        let v = at num.zero a i k in
        let here : at num.zero b k j ≡ w = at-cells b (cols a) (cols b) k j mb in
        let x = num.add (at num.zero out i j) (num.mul v (at num.zero b k j)) in
        if-Cases
          (λ (entries : List (ℕ × F)).
            add_entries num a b i v entries out
            ≡ multiply_row num a b i k n (j + 1) (put out i j x))
          (num.is_zero w)
          (λ none_here.
            let p : num.mul v (at num.zero b k j) ≡ num.zero =
              ap (num.mul v) (here ∙ laws.is_zero-eq w none_here) ∙ laws.mul-zero v in
            add_entries-nonzeros i k n (j + 1) out o hi (omega arith)
            ∙ ap (multiply_row num a b i k n (j + 1))
                (sym (put-zero out i j (num.mul v (at num.zero b k j)) o hi (omega arith) p)))
          (λ some_here.
            ap (add_entries num a b i v (nonzeros num a b k n (j + 1))) (
              put-cells out i j v w o
              ∙ ap (λ c. put out i j (num.add (at num.zero out i j) (num.mul v c))) (sym here))
            ∙ add_entries-nonzeros i k n (j + 1) (put out i j x)
                (put-IsMatrix (rows a) (cols b) out i j x o) hi (omega arith))

    multiply_row-zero :
        (i k n j : ℕ) (out : Tensor F)
        → Out num a b (rows a) out
        → i < rows a
        → j + n ≤ cols b
        → at num.zero a i k ≡ num.zero
        → out ≡ multiply_row num a b i k n j out
    unfolding multiply_row
    multiply_row-zero i k zero j out o hi hn e = refl
    multiply_row-zero i k (suc n) j out o hi hn e =
        let p : num.mul (at num.zero a i k) (at num.zero b k j) ≡ num.zero =
          ap (λ c. num.mul c (at num.zero b k j)) e ∙ laws.zero-mul (at num.zero b k j) in
        multiply_row-zero i k n (j + 1) out o hi (omega arith) e
        ∙ ap (multiply_row num a b i k n (j + 1)) (
            sym (
              put-zero out i j (num.mul (at num.zero a i k) (at num.zero b k j)) o hi (omega arith)
                p))

    sparse_span-multiply_span :
        (i n k : ℕ) (out : Tensor F)
        → Out num a b (rows a) out
        → i < rows a
        → sparse_span num a b i n k out ≡ multiply_span num a b i n k out
    unfolding sparse_span multiply_span
    sparse_span-multiply_span i zero k out o hi = refl
    sparse_span-multiply_span i (suc n) k out o hi =
        let v = get_or a.cells (i * cols a + k) num.zero in
        let here : at num.zero a i k ≡ v = at-cells a (rows a) (cols a) i k ma in
        let out' = multiply_row num a b i k (cols b) 0 out in
        let step : (if num.is_zero v
              then out
              else add_entries num a b i v (nonzeros num a b k (cols b) 0) out)
            ≡ out' =
          if-Cases (λ (t : Tensor F). t ≡ out') (num.is_zero v)
            (λ none_here.
              multiply_row-zero i k (cols b) 0 out o hi (omega arith)
                (here ∙ laws.is_zero-eq v none_here))
            (λ some_here.
              ap (λ c. add_entries num a b i c (nonzeros num a b k (cols b) 0) out) (sym here)
              ∙ add_entries-nonzeros i k (cols b) 0 out o hi (omega arith)) in
        ap (sparse_span num a b i n (k + 1)) step
        ∙ sparse_span-multiply_span i n (k + 1) out'
            (Out-multiply_row num a b (rows a) i k (cols b) 0 out o) hi

    sparse_rows-multiply_rows :
        (n i : ℕ) (out : Tensor F)
        → Out num a b (rows a) out
        → i + n ≤ rows a
        → sparse_rows num a b n i out ≡ multiply_rows num a b (cols a) 0 n i out
    unfolding sparse_rows multiply_rows
    sparse_rows-multiply_rows zero i out o hi = refl
    sparse_rows-multiply_rows (suc n) i out o hi =
        ap (sparse_rows num a b n (i + 1))
          (sparse_span-multiply_span i (cols a) 0 out o (omega arith))
        ∙ sparse_rows-multiply_rows n (i + 1) (multiply_span num a b i (cols a) 0 out)
            (Out-multiply_span num a b (rows a) i (cols a) 0 out o) (omega arith)

  -- If a zero is absorbed by multiplication and changes no sum, then for two matrices the sparse
  -- product and the tiled product both succeed, with the same number in every cell.
  pub matmul_sparse-matmul :
      HasZero
      → IsMatrix (rows a) (cols a) a
      → IsMatrix (cols a) (cols b) b
      → (out out' : Tensor F) × (matmul num a b ≡ some out)
        × (matmul_sparse num a b ≡ some out')
        × ((i j : ℕ) → i < rows a → j < cols b → at num.zero out' i j ≡ at num.zero out i j)
  unfolding matmul_sparse is_f32 partial
  matmul_sparse-matmul laws ma mb =
      let zeros = make (rows a ∷ cols b ∷ []) num.zero in
      let clear : Out num a b (rows a) zeros = make-IsMatrix (rows a) (cols b) num.zero in
      let dense = matmul-partial num a b ma mb in
      let out' = multiply_rows num a b (cols a) 0 (rows a) 0 zeros in
      let two : length a.shape ≡ 2 = ap length ma.shape in
      let two' : length b.shape ≡ 2 = ap length mb.shape in
      let inner : rows b ≡ cols a = ap (λ s. get_or s 0 0) mb.shape in
      let shapes : (length a.shape == 2 && (length b.shape == 2 && cols a == rows b)) ≡ true =
        ground (arith, two, two', inner) in
      let test : ((is_f32 a.dtype && is_f32 b.dtype)
            && (length a.shape == 2 && (length b.shape == 2 && cols a == rows b)))
          ≡ true =
        ap₂
          (λ s t.
            (is_f32 s && is_f32 t)
            && (length a.shape == 2 && (length b.shape == 2 && cols a == rows b)))
          ma.dtype mb.dtype
        ∙ shapes in
      (
        dense.0,
        out',
        dense.1,
        rw test
            (ap some (sparse_rows-multiply_rows laws ma mb (rows a) 0 zeros clear (omega arith))),
        λ i j hi hj.
            RowAt-multiply_rows num a b (rows a) (cols a) 0 (rows a) 0 zeros i clear (omega arith)
              (omega arith) (omega arith) (λ k hk. at-make num.zero (rows a ∷ cols b ∷ []) i k) j hj
            ∙ ap (partial num a b i j) (omega arith)
            ∙ sym (dense.3 i j hi hj),
      )
