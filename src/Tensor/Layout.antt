-- ===== src/Tensor/Layout.antt =====
-- src/tensor.cpp, strides and the places of indices in the storage.
use llm_cpp.Prelude.{
  ℕ, ◌+◌, ◌*◌, ◌<◌, ◌≡◌, refl, sym, ap, ap₂, ◌∙◌, some, List, [], ◌∷◌, arith, length,
  length-replicate, nat_eq, list_eq, int_eq,
}
use llm_cpp.Tensor.{Tensor, numel, compute_strides, offset, make, reshape}
use llm_cpp.Tensor.Matrix.{row_lt, in_matrix}

-- An index with as many parts as the shape, each below its dimension.
abbrev InShape : List ℕ → List ℕ → Type 0
InShape [] [] = Unit {0}
InShape [] (d ∷ ds) = ⊥
InShape (i ∷ is) [] = ⊥
InShape (i ∷ is) (d ∷ ds) = (i < d) × InShape is ds

-- The stride of a dimension is the number of cells behind it.
compute_strides-cons :
    (d : ℕ) (ds : List ℕ) → compute_strides (d ∷ ds) ≡ numel ds ∷ compute_strides ds
unfolding compute_strides numel
compute_strides-cons d [] = refl
compute_strides-cons d (e ∷ ds) =
    rw (compute_strides-cons e ds) (ap (λ k. k ∷ numel ds ∷ compute_strides ds) (omega arith))

offset-cons :
    (d i : ℕ) (ds is : List ℕ)
    → offset (i ∷ is) (compute_strides (d ∷ ds)) ≡ i * numel ds + offset is (compute_strides ds)
unfolding offset
offset-cons d i ds is = rw (compute_strides-cons d ds) refl

offset-nil : (strides : List ℕ) → offset [] strides < 1
unfolding offset
offset-nil strides = omega arith

-- The row-major place of an index within a shape of any rank lies within the storage.
pub offset-lt-numel :
    (is shape : List ℕ) → InShape is shape → offset is (compute_strides shape) < numel shape
unfolding numel compute_strides
offset-lt-numel [] [] h = offset-nil []
offset-lt-numel [] (d ∷ ds) h = elim h [ ]
offset-lt-numel (i ∷ is) [] h = elim h [ ]
offset-lt-numel (i ∷ is) (d ∷ ds) h = rw (offset-cons d i ds is) (
    unfold numel in
    in_matrix d (numel ds) i (offset is (compute_strides ds)) h.0 (offset-lt-numel is ds h.1))

same_row : (c i j i' j' : ℕ) → j < c → j' < c → i * c + j ≡ i' * c + j' → (i ≡ i') × (j ≡ j')
same_row c i j i' j' h k e = ground (arith, row_lt c i j i' j', row_lt c i' j' i j)

-- Two indices within a shape of any rank that have the same row-major place are the same index.
pub offset-injective :
    (is js shape : List ℕ)
    → InShape is shape
    → InShape js shape
    → offset is (compute_strides shape) ≡ offset js (compute_strides shape)
    → is ≡ js
offset-injective [] [] shape hi hj e = refl
offset-injective [] (j ∷ js) [] hi hj e = elim hj [ ]
offset-injective [] (j ∷ js) (d ∷ ds) hi hj e = elim hi [ ]
offset-injective (i ∷ is) [] [] hi hj e = elim hi [ ]
offset-injective (i ∷ is) [] (d ∷ ds) hi hj e = elim hj [ ]
offset-injective (i ∷ is) (j ∷ js) [] hi hj e = elim hi [ ]
offset-injective (i ∷ is) (j ∷ js) (d ∷ ds) hi hj e =
    let (p, q) =
      same_row (numel ds) i (offset is (compute_strides ds)) j (offset js (compute_strides ds))
        (offset-lt-numel is ds hi.1) (offset-lt-numel js ds hj.1)
        (sym (offset-cons d i ds is) ∙ e ∙ offset-cons d j ds js) in
    ap₂ ◌∷◌ p (offset-injective is js ds hi.1 hj.1 q)

module _ {F : Type 0} where
  -- A tensor whose strides and storage fit its shape.
  pub record IsWellShaped (t : Tensor F) : Type 0 where
    pub strides : t.strides ≡ compute_strides t.shape
    pub size : length t.cells ≡ numel t.shape

  pub make-IsWellShaped : (shape : List ℕ) (v : F) → IsWellShaped (make shape v)
  unfolding make
  make-IsWellShaped shape v = record { strides = refl; size = length-replicate (numel shape) v }

  -- Reshaping a tensor whose strides and storage fit its shape to another shape of the same size
  -- succeeds, keeps the storage, and gives a tensor of the new shape whose strides and storage fit
  -- it.
  pub reshape-IsWellShaped :
      (t : Tensor F) (shape : List ℕ)
      → IsWellShaped t
      → numel shape ≡ numel t.shape
      → (u : Tensor F) × (reshape t shape ≡ some u)
        × (u.cells ≡ t.cells)
        × (u.shape ≡ shape)
        × IsWellShaped u
  unfolding reshape
  reshape-IsWellShaped t shape w e = (
    record t { shape = shape; strides = compute_strides shape },
    ground (arith, w.size),
    refl,
    refl,
    record { strides = refl; size = w.size ∙ sym e },
  )
