-- ===== src/Tensor/Product/Blocks.antt =====
-- src/tensor.cpp, matmul by blocks: each cell is the sum of the products, in their order.
use llm_cpp.Prelude.{
  if-Both, if-Cases, if-Cases, ℕ, zero, suc, ◌+◌, ◌-◌, ◌≤◌, ◌<◌, min, ◌≡◌, refl, sym, ap, ◌∙◌,
  subst, ◌⊎◌, inl, inr, true, ◌&&◌, some, [], ◌∷◌, arith, ltb, ◌==◌, if◌then◌else◌, Bool-cases,
  length, get_or, nat_eq, list_eq, int_eq, if-Both,
}
use llm_cpp.Tensor.{Tensor, make, at}
use llm_cpp.Tensor.Matrix.{IsMatrix, make-IsMatrix, at-make}
use llm_cpp.Tensor.Product.{
  Arithmetic, rows, cols, gemm_block, multiply_rows, multiply_depth, multiply_blocks, matmul,
}
use llm_cpp.Tensor.Product.Rows.{
  partial, RowAt, SameRow, Out, Out-multiply_rows, SameRow-multiply_rows, RowAt-multiply_rows,
}

module _ {F : Type 0} (num : Arithmetic F) (a b : Tensor F) where
  abbrev Depth : ℕ → ℕ → ℕ → ℕ → Tensor F → Tensor F
  Depth = multiply_depth num a b

  abbrev Row : Tensor F → ℕ → ℕ → Type 0
  Row = RowAt num a b

  -- The width of the block of products that begins at kk
  abbrev width : ℕ → ℕ
  width kk = min (kk + gemm_block) (cols a) - kk

  module _ (m : ℕ) where
    abbrev IsOut : Tensor F → Type 0
    IsOut = Out num a b m

    Out-multiply_depth :
        (fuel r ii kk : ℕ) (out : Tensor F)
        → IsOut out
        → IsOut (multiply_depth num a b fuel r ii kk out)
    unfolding multiply_depth
    Out-multiply_depth zero r ii kk out o = o
    Out-multiply_depth (suc fuel) r ii kk out o =
        if-Both IsOut (ltb kk (cols a))
          (Out-multiply_depth fuel r ii (kk + gemm_block) _
            (Out-multiply_rows num a b m (width kk) kk r ii out o))
          o

    SameRow-multiply_depth :
        (fuel r ii kk : ℕ) (out : Tensor F) (x : ℕ)
        → IsOut out
        → ii + r ≤ m
        → (x < ii) ⊎ (ii + r ≤ x)
        → SameRow num a b out (multiply_depth num a b fuel r ii kk out) x
    unfolding multiply_depth
    SameRow-multiply_depth zero r ii kk out x o hi away = λ j hj. refl
    SameRow-multiply_depth (suc fuel) r ii kk out x o hi away =
        let out' = multiply_rows num a b (width kk) kk r ii out in
        if-Both (λ (t : Tensor F). SameRow num a b out t x) (ltb kk (cols a))
          (λ j hj.
            SameRow-multiply_depth fuel r ii (kk + gemm_block) out' x
              (Out-multiply_rows num a b m (width kk) kk r ii out o) hi away j hj
            ∙ SameRow-multiply_rows num a b m (width kk) kk r ii out x o hi away j hj)
          (λ j hj. refl)

    RowAt-multiply_depth :
        (fuel r ii kk : ℕ) (out : Tensor F) (x : ℕ)
        → IsOut out
        → ii + r ≤ m
        → ii ≤ x
        → x < ii + r
        → cols a ≤ kk + fuel
        → Row out x (min kk (cols a))
        → Row (multiply_depth num a b fuel r ii kk out) x (cols a)
    unfolding multiply_depth gemm_block
    RowAt-multiply_depth zero r ii kk out x o hi lo up enough h = subst (Row out x) (omega arith) h
    RowAt-multiply_depth (suc fuel) r ii kk out x o hi lo up enough h =
        let out' = multiply_rows num a b (width kk) kk r ii out in
        if-Cases (λ (t : Tensor F). Row t x (cols a)) (ltb kk (cols a))
          (λ more.
            let here : Row out x kk = subst (Row out x) (ground arith) h in
            let next = RowAt-multiply_rows num a b m (width kk) kk r ii out x o hi lo up here in
            RowAt-multiply_depth fuel r ii (kk + gemm_block) out' x
              (Out-multiply_rows num a b m (width kk) kk r ii out o) hi lo up (omega arith)
              (subst (Row out' x) (ground arith) next))
          (λ done. subst (Row out x) (ground arith) h)

  -- The rows before ii are done, the others are zero.
  abbrev UpTo : ℕ → Tensor F → Type 0
  UpTo ii out = (x : ℕ) → x < rows a → Row out x (if ltb x ii then cols a else 0)

  UpTo-multiply_depth :
      (ii r : ℕ) (out : Tensor F)
      → IsOut (rows a) out
      → ii + r ≤ rows a
      → ii + r ≡ min (ii + gemm_block) (rows a)
      → UpTo ii out
      → UpTo (ii + gemm_block) (multiply_depth num a b (cols a) r ii 0 out)
  unfolding gemm_block
  UpTo-multiply_depth ii r out o hi end h x hx = elim (Bool-cases (ltb x ii)) [
    | inl before ↦
        let past : (if ltb x (ii + gemm_block) then cols a else 0) ≡ cols a = ground arith in
        let row : Row out x (cols a) = subst (Row out x) (ground arith) (h x hx) in
        subst (Row (multiply_depth num a b (cols a) r ii 0 out) x) (sym past) (λ j hj.
          SameRow-multiply_depth (rows a) (cols a) r ii 0 out x o hi (inl (ground arith)) j hj
          ∙ row j hj)
    | inr from ↦
        let row : Row out x 0 = subst (Row out x) (ground arith) (h x hx) in
        elim (Bool-cases (ltb x (ii + r))) [
          | inl within ↦
              let past : (if ltb x (ii + gemm_block) then cols a else 0) ≡ cols a = ground arith in
              subst (Row (multiply_depth num a b (cols a) r ii 0 out) x) (sym past) (
                RowAt-multiply_depth (rows a) (cols a) r ii 0 out x o hi (ground arith)
                  (ground arith) (omega arith) (subst (Row out x) (omega arith) row))
          | inr after ↦
              let past : (if ltb x (ii + gemm_block) then cols a else 0) ≡ 0 = ground arith in
              subst (Row (multiply_depth num a b (cols a) r ii 0 out) x) (sym past) (λ j hj.
                SameRow-multiply_depth (rows a) (cols a) r ii 0 out x o hi (inr (ground arith)) j hj
                ∙ row j hj)
        ]
  ]

  UpTo-multiply_blocks :
      (fuel ii : ℕ) (out : Tensor F)
      → IsOut (rows a) out
      → rows a ≤ ii + fuel
      → UpTo ii out
      → UpTo (rows a) (multiply_blocks num a b fuel ii out)
  unfolding multiply_blocks gemm_block
  UpTo-multiply_blocks zero ii out o enough h = λ x hx. subst (Row out x) (ground arith) (h x hx)
  UpTo-multiply_blocks (suc fuel) ii out o enough h =
      let r = min (ii + gemm_block) (rows a) - ii in
      if-Cases (λ (t : Tensor F). UpTo (rows a) t) (ltb ii (rows a))
        (λ more.
          UpTo-multiply_blocks fuel (ii + gemm_block) (multiply_depth num a b (cols a) r ii 0 out)
            (Out-multiply_depth (rows a) (cols a) r ii 0 out o) (omega arith)
            (UpTo-multiply_depth ii r out o (ground arith) (ground arith) h))
        (λ done x hx. subst (Row out x) (ground arith) (h x hx))

  Out-multiply_blocks :
      (fuel ii : ℕ) (out : Tensor F)
      → IsOut (rows a) out
      → IsOut (rows a) (multiply_blocks num a b fuel ii out)
  unfolding multiply_blocks
  Out-multiply_blocks zero ii out o = o
  Out-multiply_blocks (suc fuel) ii out o =
      if-Both (IsOut (rows a)) (ltb ii (rows a))
        (Out-multiply_blocks fuel (ii + gemm_block) _
          (Out-multiply_depth (rows a) (cols a) (min (ii + gemm_block) (rows a) - ii) ii 0 out o))
        o

  -- The tiled product of two matrices succeeds with a matrix of the outer sizes, and each cell of
  -- it is the sum, from zero on and in the order of the inner index, of the products of the cells:
  -- no law of arithmetic is used, so that tiling changes no rounding.
  pub matmul-partial :
      IsMatrix (rows a) (cols a) a
      → IsMatrix (cols a) (cols b) b
      → (out : Tensor F) × (matmul num a b ≡ some out)
        × IsMatrix (rows a) (cols b) out
        × ((i j : ℕ) → i < rows a → j < cols b → at num.zero out i j ≡ partial num a b i j (cols a))
  unfolding matmul partial
  matmul-partial ma mb =
      let zeros = make (rows a ∷ cols b ∷ []) num.zero in
      let out = multiply_blocks num a b (rows a) 0 zeros in
      let two : length a.shape ≡ 2 = ap length ma.shape in
      let two' : length b.shape ≡ 2 = ap length mb.shape in
      let inner : rows b ≡ cols a = ap (λ s. get_or s 0 0) mb.shape in
      let shapes : (length a.shape == 2 && (length b.shape == 2 && cols a == rows b)) ≡ true =
        ground (arith, two, two', inner) in
      let clear : IsOut (rows a) zeros = make-IsMatrix (rows a) (cols b) num.zero in
      let start : UpTo 0 zeros = λ x hx.
        let none_yet : 0 ≡ (if ltb x 0 then cols a else 0) = ground arith in
        subst (Row zeros x) none_yet (λ j hj. at-make num.zero (rows a ∷ cols b ∷ []) x j) in
      (
        out,
        rw shapes refl,
        Out-multiply_blocks (rows a) 0 zeros clear,
        λ i j hi hj.
            let full : (if ltb i (rows a) then cols a else 0) ≡ cols a = ground arith in
            subst (Row out i) full
              (UpTo-multiply_blocks (rows a) 0 zeros clear (omega arith) start i hi) j hj,
      )
