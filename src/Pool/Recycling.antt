-- ===== src/Pool/Recycling.antt =====
-- src/pool.cpp, the free lists, and acquire against a new tensor.
use llm_cpp.Prelude.{
  ℕ, ◌+◌, ◌≡◌, refl, ap, subst, inl, inr, none, some, List, [], ◌∷◌, arith, if◌then◌else◌,
  Bool-cases, length, All, ◌=?◌, nat_eq, list_eq, beq_eq, find, insert, find-insert, int_eq,
}
use llm_cpp.Tensor.{Tensor, DType, numel, make, reshape, fill, compute_strides}
use llm_cpp.Pool.{TensorPool, empty_pool, bucket, acquire, release, count_free, cached}

module _ {F : Type 0} where
  -- Every cached tensor is an F32 tensor of its bucket's size.
  record IsSized (k : ℕ) (t : Tensor F) : Type 0 where
    pub size : length t.cells ≡ k
    pub dtype : t.dtype ≡ DType.f32

  pub record IsSound (p : TensorPool F) : Type 0 where
    sized : (k : ℕ) → All (IsSized k) (bucket p k)

  pub empty_pool-IsSound : IsSound (empty_pool {F = F})
  unfolding empty_pool find
  empty_pool-IsSound = record { sized = λ k. tt }

  bucket_insert : TensorPool F → ℕ → List (Tensor F) → ℕ → List (Tensor F)
  bucket_insert p k ts j = if k =? j then ts else bucket p j

  bucket-insert :
      (p : TensorPool F) (k j : ℕ) (ts : List (Tensor F))
      → (elim (find (insert p.free k ts) j) [ none ↦ [] | some us ↦ us ]) ≡ bucket_insert p k ts j
  unfolding bucket_insert
  bucket-insert p k j ts = ground (arith, find-insert p.free k j ts)

  IsSized-insert :
      (p : TensorPool F) (k : ℕ) (ts : List (Tensor F))
      → IsSound p
      → All (IsSized k) ts
      → (j : ℕ) → All (IsSized j) (elim (find (insert p.free k ts) j) [ none ↦ [] | some us ↦ us ])
  IsSized-insert p k ts v h j = rw (bucket-insert p k j ts) (
      unfold bucket_insert in
      elim (Bool-cases (k =? j)) [
        | inl e ↦ rw e (subst (λ n. All (IsSized n) ts) (beq_eq k j e) h)
        | inr e ↦ rw e (v.sized j)
      ])

  abbrev reshaped : Tensor F → List ℕ → Tensor F
  reshaped t shape = record t { shape = shape; strides = compute_strides shape }

  reshape_sized :
      (t : Tensor F) (shape : List ℕ)
      → IsSized (numel shape) t
      → reshape t shape ≡ some (reshaped t shape)
  unfolding reshape
  reshape_sized t shape h = ground (arith, h.size)

  fill_sized :
      (z : F) (t : Tensor F) (shape : List ℕ)
      → IsSized (numel shape) t
      → fill (reshaped t shape) z ≡ make shape z
  unfolding fill make
  fill_sized z t shape h = rw (h.size, h.dtype) refl

  module _ (z : F) where
    -- From a pool whose cached tensors are F32 tensors of their bucket's size, `acquire` gives the
    -- tensor that the constructor would make, a zero tensor of the asked shape; the pool stays so,
    -- and the call is counted once, as a hit or a miss.
    pub acquire-make :
        (p : TensorPool F) (shape : List ℕ)
        → IsSound p
        → (q : TensorPool F) × (acquire z p shape ≡ some (make shape z, q))
          × IsSound q
          × (q.hits + q.misses ≡ p.hits + p.misses + 1)
    unfolding acquire
    acquire-make p shape v = go (bucket p (numel shape)) refl (v.sized (numel shape))
      where
        go :
            (ts : List (Tensor F))
            → bucket p (numel shape) ≡ ts
            → All (IsSized (numel shape)) ts
            → (q : TensorPool F) × (acquire z p shape ≡ some (make shape z, q))
              × IsSound q
              × (q.hits + q.misses ≡ p.hits + p.misses + 1)
        go [] e h = (
          record p { misses = p.misses + 1 },
          rw (e, acquire) refl,
          record { sized = v.sized },
          omega arith,
        )
        go (t ∷ ts) e h = (
          record p { free = insert p.free (numel shape) ts; hits = p.hits + 1 },
          rw (e, acquire)
              (rw (reshape_sized t shape h.0, acquire)
                (ap
                  (λ u.
                    some (u, record p { free = insert p.free (numel shape) ts; hits = p.hits + 1 }))
                  (fill_sized z t shape h.0))),
          record { sized = IsSized-insert p (numel shape) ts v h.1 },
          omega arith,
        )

  release_cases {ℓ} :
      (P : TensorPool F → Type ℓ) (p : TensorPool F) (t : Tensor F)
      → (t.dtype ≡ DType.i8 → P p)
      → (t.dtype ≡ DType.f32
          → P (record p { free = insert p.free (length t.cells) (t ∷ bucket p (length t.cells)) }))
      → P (release p t)
  unfolding release
  release_cases P p t dropped kept = go t.dtype refl
    where
      go : (d : DType) → t.dtype ≡ d → P (release p t)
      go DType.i8 e = rw (release, e) (dropped e)
      go DType.f32 e = rw (release, e) (kept e)

  -- Taking a tensor back keeps the pool sound, int8 tensors being dropped.
  pub release-IsSound : (p : TensorPool F) (t : Tensor F) → IsSound p → IsSound (release p t)
  release-IsSound p t v =
      release_cases IsSound p t (λ _. v)
        (λ e. record {
          sized =
              IsSized-insert p (length t.cells) (t ∷ bucket p (length t.cells)) v
                (record { size = refl; dtype = e }, v.sized (length t.cells));
        })

  count_free-insert :
      (m : List (ℕ × List (Tensor F))) (k : ℕ) (ts : List (Tensor F))
      → count_free (insert m k ts) + length (elim (find m k) [ none ↦ [] | some us ↦ us ])
        ≡ count_free m + length ts
  unfolding count_free insert find
  count_free-insert [] k ts = omega arith
  count_free-insert ((j, us) ∷ m) k ts = ground (arith, count_free-insert m k ts)

  -- Releasing an F32 tensor to a pool adds exactly one to the number of cached tensors.
  pub cached-release :
      (p : TensorPool F) (t : Tensor F) → t.dtype ≡ DType.f32 → cached (release p t) ≡ cached p + 1
  unfolding cached
  cached-release p t f =
      release_cases (λ q. cached q ≡ cached p + 1) p t (λ e. cc)
        (λ e.
          omega (arith, count_free-insert p.free (length t.cells) (t ∷ bucket p (length t.cells))))
