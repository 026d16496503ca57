-- ===== src/Cache/Fits.antt =====
-- src/kv_cache.cpp, the updates that read inside their tensors.
use llm_cpp.Prelude.{
  ℕ, ◌-◌, ◌≤◌, ◌<◌, min, ◌≡◌, refl, ap, inl, inr, true, ◌||◌, arith, ◌==◌, Bool-cases, length,
  nat_eq, list_eq, int_eq,
}
use llm_cpp.Tensor.{Tensor, place}
use llm_cpp.Tensor.Matrix.{IsMatrix, in_matrix}
use llm_cpp.Cache.{KvCache, rows, is_readable, reads_ok}
use llm_cpp.Cache.Refinement.{Op}

-- The tensors of an update are matrices as wide as the cache.
abbrev pub Fits : {F : Type 0} → ℕ → Op F → Type 0
Fits n_embd (Op.updates layer k v) = IsMatrix (rows k) n_embd k × IsMatrix (rows v) n_embd v
Fits n_embd (Op.advances n) = Unit {0}
Fits n_embd (Op.resizes n) = Unit {0}
Fits n_embd Op.clears = Unit {0}

IsMatrix-is_readable :
    {F : Type 0}
    → (t : Tensor F) (n m width : ℕ) → IsMatrix m width t
    → n ≤ m
    → is_readable t n width ≡ true
unfolding is_readable
IsMatrix-is_readable t n m width h l = elim (Bool-cases (n == 0 || width == 0)) [
  | inl nothing ↦ ground (arith, nothing, ap length h.shape)
  | inr some_read ↦
      let inside : place t (n - 1) (width - 1) < length t.cells =
        rw (h.strides, h.size)
          (omega (
            arith,
            in_matrix m width (n - 1) (width - 1) (ground (arith, some_read, l))
                (ground (arith, some_read)),
          )) in
      ground (arith, inside, ap length h.shape)
]

pub Fits-reads_ok :
    {F : Type 0}
    → (c : KvCache F) (k v : Tensor F) → IsMatrix (rows k) c.n_embd k
    → IsMatrix (rows v) c.n_embd v
    → reads_ok c k v ≡ true
Fits-reads_ok c k v hk hv =
    let room = c.max_seq_len - c.cur_len in
    rw
      (
        IsMatrix-is_readable k (min (rows k) room) (rows k) c.n_embd hk (omega arith),
        IsMatrix-is_readable v (min (rows v) room) (rows v) c.n_embd hv (omega arith),
      )
      refl
