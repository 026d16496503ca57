-- ===== src/Tensor/Tests.antt =====
-- Tensors of concrete shapes, and a product of two matrices of numbers.
use llm_cpp.Prelude.{
  arith, ℕ, ◌+◌, ◌*◌, ◌<◌, ◌≡◌, refl, some, List, [], ◌∷◌, ◌==◌, nat_eq, list_eq, int_eq,
}
use llm_cpp.Tensor.{DType, Tensor, compute_strides, at}
use llm_cpp.Tensor.Matrix.{IsMatrix}
use llm_cpp.Tensor.Product.{Arithmetic, matmul}
use llm_cpp.Tensor.Product.Rows.{partial}
use llm_cpp.Tensor.Product.Blocks.{matmul-partial}
use llm_cpp.Tensor.Sparse.{matmul_sparse}
use llm_cpp.Tensor.Sparse.Agreement.{HasZero, matmul_sparse-matmul}

abbrev shape : List ℕ
shape = 2 ∷ 3 ∷ 4 ∷ []

strides_of_shape : compute_strides shape ≡ 12 ∷ 4 ∷ 1 ∷ []
unfolding compute_strides
strides_of_shape = refl

abbrev whole : Arithmetic ℕ
whole = record { zero = 0; add = ◌+◌; mul = ◌*◌; is_zero = λ n. n == 0 }

abbrev two_by_three : Tensor ℕ
two_by_three = record {
  shape = 2 ∷ 3 ∷ [];
  strides = 3 ∷ 1 ∷ [];
  cells = 1 ∷ 2 ∷ 3 ∷ 4 ∷ 5 ∷ 6 ∷ [];
  dtype = DType.f32;
}

abbrev three_by_one : Tensor ℕ
three_by_one = record {
  shape = 3 ∷ 1 ∷ [];
  strides = 1 ∷ 1 ∷ [];
  cells = 7 ∷ 8 ∷ 9 ∷ [];
  dtype = DType.f32;
}

matmul-partial_example :
    (out : Tensor ℕ) × (matmul whole two_by_three three_by_one ≡ some out)
    × IsMatrix 2 1 out
    × ((i j : ℕ) → i < 2 → j < 1 → at 0 out i j ≡ partial whole two_by_three three_by_one i j 3)
matmul-partial_example =
    matmul-partial whole two_by_three three_by_one
      (record { shape = refl; strides = refl; size = refl; dtype = refl })
      (record { shape = refl; strides = refl; size = refl; dtype = refl })

whole-HasZero : HasZero whole two_by_three three_by_one
whole-HasZero = record {
  is_zero-eq = λ x h. ground arith;
  zero-mul = λ x. omega arith;
  mul-zero = λ x. omega arith;
  add-zero = λ x. omega arith;
}

matmul_sparse-matmul_example :
    (out out' : Tensor ℕ) × (matmul whole two_by_three three_by_one ≡ some out)
    × (matmul_sparse whole two_by_three three_by_one ≡ some out')
    × ((i j : ℕ) → i < 2 → j < 1 → at 0 out' i j ≡ at 0 out i j)
matmul_sparse-matmul_example =
    matmul_sparse-matmul whole two_by_three three_by_one whole-HasZero
      (record { shape = refl; strides = refl; size = refl; dtype = refl })
      (record { shape = refl; strides = refl; size = refl; dtype = refl })
