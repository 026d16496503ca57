-- ===== src/Tensor/Matrix.antt =====
-- src/tensor.cpp, two-dimensional tensors, their reads and writes.
use llm_cpp.Prelude.{
  ℕ, zero, suc, ◌+◌, ◌*◌, ◌<◌, ◌≡◌, refl, ap, ◌∙◌, ◌&&◌, List, [], ◌∷◌, arith, ◌==◌, if◌then◌else◌,
  length, set, length-set, get_or, replicate, length-replicate, nat_eq, list_eq, int_eq,
}
use llm_cpp.Tensor.{DType, Tensor, numel, compute_strides, make, fill, place, put, at}

module _ {F : Type 0} where
  pub record IsMatrix (rows cols : ℕ) (t : Tensor F) : Type 0 where
    pub shape : t.shape ≡ rows ∷ cols ∷ []
    pub strides : t.strides ≡ cols ∷ 1 ∷ []
    pub size : length t.cells ≡ rows * cols
    pub dtype : t.dtype ≡ DType.f32

  pub make-IsMatrix : (rows cols : ℕ) (v : F) → IsMatrix rows cols (make (rows ∷ cols ∷ []) v)
  unfolding make compute_strides numel
  make-IsMatrix rows cols v = record {
    shape = refl;
    strides = ap (λ k. k ∷ 1 ∷ []) (omega arith);
    size = length-replicate (rows * (cols * 1)) v ∙ ap (λ k. rows * k) (omega arith);
    dtype = refl;
  }

  pub put-IsMatrix :
      (rows cols : ℕ) (t : Tensor F) (i j : ℕ) (v : F)
      → IsMatrix rows cols t
      → IsMatrix rows cols (put t i j v)
  unfolding put
  put-IsMatrix rows cols t i j v m = record {
    shape = m.shape;
    strides = m.strides;
    size = length-set t.cells (place t i j) v ∙ m.size;
    dtype = m.dtype;
  }

  pub fill-IsMatrix :
      (rows cols : ℕ) (t : Tensor F) (v : F) → IsMatrix rows cols t → IsMatrix rows cols (fill t v)
  unfolding fill
  fill-IsMatrix rows cols t v m = record {
    shape = m.shape;
    strides = m.strides;
    size = length-replicate (length t.cells) v ∙ m.size;
    dtype = m.dtype;
  }

pub get_or-set {ℓ} :
    {A : Type ℓ} (xs : List A) (i j : ℕ) (v d : A)
    → i < length xs
    → get_or (set xs i v) j d ≡ (if i == j then v else get_or xs j d)
get_or-set [] i j v d h = absurd (omega arith)
get_or-set (x ∷ xs) zero zero v d h = refl
get_or-set (x ∷ xs) zero (suc j) v d h = ground arith
get_or-set (x ∷ xs) (suc i) zero v d h = ground arith
get_or-set (x ∷ xs) (suc i) (suc j) v d h = get_or-set xs i j v d (omega arith) ∙ ground arith

pub get_or-replicate {ℓ} : {A : Type ℓ} (n j : ℕ) (v : A) → get_or (replicate n v) j v ≡ v
get_or-replicate zero j v = refl
get_or-replicate (suc n) zero v = refl
get_or-replicate (suc n) (suc j) v = get_or-replicate n j v

-- Row-major places of different cells differ.
pub row_lt : (c i j i' j' : ℕ) → j < c → i < i' → i * c + j < i' * c + j'
row_lt c i j i' j' h k = grind arith

same_place : (c i j i' j' : ℕ) → j < c → j' < c → (i * c + j == i' * c + j') ≡ (i == i' && j == j')
same_place c i j i' j' h k = ground (arith, row_lt c i j i' j', row_lt c i' j' i j)

pub in_matrix : (r c i j : ℕ) → i < r → j < c → i * c + j < r * c
in_matrix r c i j h k = grind arith

module _ {F : Type 0} (z : F) where
  pub place_eq :
      (t : Tensor F) (rows cols i j : ℕ) → IsMatrix rows cols t → place t i j ≡ i * cols + j
  place_eq t rows cols i j m = rw m.strides (omega arith)

  -- A write is read back at its cell, and changes no other.
  pub at-put :
      (rows cols : ℕ) (t : Tensor F) (i j i' j' : ℕ) (v : F)
      → IsMatrix rows cols t
      → i < rows
      → j < cols
      → j' < cols
      → at z (put t i j v) i' j' ≡ (if i == i' && j == j' then v else at z t i' j')
  unfolding at put
  at-put rows cols t i j i' j' v m hi hj hj' =
      rw (place_eq t rows cols i j m, place_eq t rows cols i' j' m)
        (get_or-set t.cells (i * cols + j) (i' * cols + j') v z
            (rw m.size (in_matrix rows cols i j hi hj))
          ∙ ap (λ b. if b then v else get_or t.cells (i' * cols + j') z)
              (same_place cols i j i' j' hj hj'))

  pub at-make : (shape : List ℕ) (i j : ℕ) → at z (make shape z) i j ≡ z
  unfolding at make numel
  at-make shape i j = get_or-replicate (numel shape) (place (make shape z) i j) z

  pub at-fill : (t : Tensor F) (i j : ℕ) → at z (fill t z) i j ≡ z
  unfolding at fill
  at-fill t i j = get_or-replicate (length t.cells) (place t i j) z
