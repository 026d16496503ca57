-- ===== src/Tensor.antt =====
-- src/tensor.cpp and include/llm/tensor.h: the storage of a tensor. The numbers are an abstract
-- type `F` with a zero; the storage of int8 tensors and gradients are left out.
pub mod Matrix
pub mod Product
pub mod Sparse
pub mod Layout
mod Tests
use llm_cpp.Prelude.{
  ℕ, ◌+◌, ◌*◌, ◌||◌, Option, none, some, List, [], ◌∷◌, ◌==◌, if◌then◌else◌, tests, length, set,
  get_or, replicate, nat_eq, list_eq, pos, negsuc, int_eq,
}

pub data DType : Type 0 where
  f32 i8 : DType

pub record Tensor (F : Type 0) : Type 0 where
  pub shape : List ℕ
  pub strides : List ℕ
  pub cells : List F
  pub dtype : DType

-- Tensor::numel
unfoldable pub numel : List ℕ → ℕ
numel [] = 1
numel (d ∷ ds) = d * numel ds

-- Tensor::compute_strides, from the last dimension to the first
unfoldable pub compute_strides : List ℕ → List ℕ
compute_strides [] = []
compute_strides (d ∷ []) = 1 ∷ []
compute_strides (d ∷ e ∷ ds) = let inner = compute_strides (e ∷ ds) in get_or inner 0 1 * e ∷ inner

-- The place of an index in row-major order.
unfoldable pub offset : List ℕ → List ℕ → ℕ
offset [] strides = 0
offset (i ∷ is) [] = 0
offset (i ∷ is) (s ∷ strides) = i * s + offset is strides

module _ {F : Type 0} where
  -- Tensor::Tensor
  unfoldable pub make : List ℕ → F → Tensor F
  make shape v = record {
    shape = shape;
    strides = compute_strides shape;
    cells = replicate (numel shape) v;
    dtype = DType.f32;
  }

  -- Tensor::reshape, `none` where its assertion fails
  unfoldable pub reshape : Tensor F → List ℕ → Option (Tensor F)
  reshape t shape =
      if length t.cells == 0 || length t.cells == numel shape
      then some (record t { shape = shape; strides = compute_strides shape })
      else none

  -- Tensor::fill
  unfoldable pub fill : Tensor F → F → Tensor F
  fill t v = record t { cells = replicate (length t.cells) v }

  abbrev pub place : Tensor F → ℕ → ℕ → ℕ
  place t i j = i * get_or t.strides 0 0 + j * get_or t.strides 1 0

  -- A write through Tensor::operator(), which asserts two dimensions: callers show or check that there
  -- are two and that the place is inside.
  unfoldable pub put : Tensor F → ℕ → ℕ → F → Tensor F
  put t i j v = record t { cells = set t.cells (place t i j) v }

  -- A read through Tensor::operator(), under the same condition; `z` stands for what lies outside
  unfoldable pub at : F → Tensor F → ℕ → ℕ → F
  at z t i j = get_or t.cells (place t i j) z
