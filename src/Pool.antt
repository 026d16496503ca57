-- ===== src/Pool.antt =====
-- src/pool.cpp and include/llm/pool.h: TensorPool, the recycling of tensors by their size. Each
-- operation runs under the pool's mutex, so a schedule of threads is a sequence of operations.
pub mod Recycling
mod Tests
use llm_cpp.Prelude.{
  ℕ, ◌+◌, Option, none, some, List, [], ◌∷◌, tests, length, nat_eq, list_eq, find, insert, pos,
  negsuc, int_eq,
}
use llm_cpp.Tensor.{Tensor, DType, numel, make, reshape, fill}

pub record TensorPool (F : Type 0) : Type 0 where
  pub free : List (ℕ × List (Tensor F))
  pub hits : ℕ
  pub misses : ℕ

module _ {F : Type 0} where
  unfoldable pub empty_pool : TensorPool F
  empty_pool = record { free = []; hits = 0; misses = 0 }

  -- The tensors of one size, the back of the vector first.
  abbrev pub bucket : TensorPool F → ℕ → List (Tensor F)
  bucket p k = elim (find p.free k) [ none ↦ [] | some ts ↦ ts ]

  -- TensorPool::acquire. The reshape of a cached tensor asserts that the sizes agree: `none`.
  unfoldable pub acquire : F → TensorPool F → List ℕ → Option (Tensor F × TensorPool F)
  acquire z p shape = elim (bucket p (numel shape)) [
    | [] ↦ some (make shape z, record p { misses = p.misses + 1 })
    | t ∷ ts ↦ elim (reshape t shape) [
      | none ↦ none
      | some u ↦
          some (fill u z, record p { free = insert p.free (numel shape) ts; hits = p.hits + 1 })
    ]
  ]

  -- TensorPool::release; only F32 tensors are kept.
  unfoldable pub release : TensorPool F → Tensor F → TensorPool F
  release p t = elim t.dtype [
    | DType.i8 ↦ p
    | DType.f32 ↦ record p { free = insert p.free (length t.cells) (t ∷ bucket p (length t.cells)) }
  ]

  unfoldable pub count_free : List (ℕ × List (Tensor F)) → ℕ
  count_free [] = 0
  count_free ((k, ts) ∷ m) = length ts + count_free m

  -- TensorPool::cached
  unfoldable pub cached : TensorPool F → ℕ
  cached p = count_free p.free
