-- ===== src/Pool/Tests.antt =====
-- A pool with one cached tensor.
use llm_cpp.Prelude.{ℕ, [], ◌∷◌, nat_eq, list_eq, int_eq}
use llm_cpp.Tensor.{Tensor, DType}
use llm_cpp.Pool.{TensorPool, empty_pool, release}

abbrev used : Tensor ℕ
used = record { shape = 4 ∷ []; strides = 1 ∷ []; cells = 1 ∷ 2 ∷ 3 ∷ 4 ∷ []; dtype = DType.f32 }

abbrev stocked : TensorPool ℕ
stocked = release empty_pool used
