-- ===== src/Cache/Invariant.antt =====
-- src/kv_cache.cpp, the well-formed caches, what one holds at each position, and its updates.
use llm_cpp.Prelude.{
  ℕ, zero, suc, ◌+◌, ◌-◌, ◌<◌, ◌≡◌, refl, ap, ◌∙◌, inl, inr, Bool, true, false, ◌&&◌, List, [], ◌∷◌,
  arith, ltb, leb, ◌==◌, if◌then◌else◌, lt→ltb, ==_iff, Bool-cases, length, set, length-set, get_or,
  All, nat_eq, list_eq, int_eq,
}
use llm_cpp.Tensor.{Tensor, make, at}
use llm_cpp.Tensor.Matrix.{get_or-set}
use llm_cpp.Cache.Cells.{write_rows, cell}
use llm_cpp.Cache.Rows.{IsStore, write_rows-IsStore, cell-write_rows}
use llm_cpp.Cache.Paging.{PageStore}
use llm_cpp.Cache.PageLaws.{IsPaged, stored, page_cell, set-All}
use llm_cpp.Cache.{KvCache, rows, update_contiguous}

get_or_in {ℓ κ} :
    {A : Type ℓ} (P : A → Type κ) (xs : List A) (i : ℕ) (d : A)
    → i < length xs
    → All P xs
    → P (get_or xs i d)
get_or_in P [] i d hi h = absurd (omega arith)
get_or_in P (x ∷ xs) zero d hi h = h.0
get_or_in P (x ∷ xs) (suc i) d hi h = get_or_in P xs i d (omega arith) h.1

module _ {F : Type 0} where
  abbrev pub pages_of : KvCache F → ℕ → PageStore F
  pages_of c l = record {
    keys = get_or c.pages_k l [];
    values = get_or c.pages_v l [];
    pool = c.pool;
  }

  -- The contiguous layouts: a store for each layer.
  pub record IsFlat (c : KvCache F) : Type 0 where
    pub flat : c.cfg.paged ≡ false
    pub keys : All (IsStore c.cfg.soa c.max_seq_len c.n_embd) c.k_cache
    pub values : All (IsStore c.cfg.soa c.max_seq_len c.n_embd) c.v_cache
    pub layers : (length c.k_cache ≡ c.n_layers) × (length c.v_cache ≡ c.n_layers)

  -- The paged layout: pages for each layer.
  pub record IsPagedCache (c : KvCache F) : Type 0 where
    pub is_paged : c.cfg.paged ≡ true
    pub size : 0 < c.cfg.page_size
    pub pages : (l : ℕ) → IsPaged c.cfg.page_size c.n_embd (pages_of c l)
    pub layers : (length c.pages_k ≡ c.n_layers) × (length c.pages_v ≡ c.n_layers)

module _ {F : Type 0} (z : F) where
  -- What the keys (`true`) or the values hold.
  abbrev pub flat_content : KvCache F → Bool → ℕ → ℕ → ℕ → F
  flat_content c on l p j =
      cell z c.cfg.soa (get_or (if on then c.k_cache else c.v_cache) l (make [] z)) p j

  abbrev pub paged_content : KvCache F → Bool → ℕ → ℕ → ℕ → F
  paged_content c on l p j = page_cell z c.cfg.page_size c.n_embd (stored on (pages_of c l)) p j

  -- After `update` the rows of the layer from `cur_len` on are those of the two tensors.
  abbrev pub updated :
      KvCache F → (Bool → ℕ → ℕ → ℕ → F) → ℕ → Tensor F → Tensor F → Bool → ℕ → ℕ → ℕ → F
  updated c old layer k v on l p j =
      let src = if on then k else v in
      if layer == l && leb c.cur_len p && ltb p (c.cur_len + rows src)
      then at z src (p - c.cur_len) j
      else old on l p j

  flat_store :
      (c : KvCache F) (ts : List (Tensor F)) (layer l : ℕ) (src : Tensor F) (p j : ℕ)
      → All (IsStore c.cfg.soa c.max_seq_len c.n_embd) ts
      → layer < length ts
      → p < c.max_seq_len
      → j < c.n_embd
      → cell z c.cfg.soa
          (get_or
            (set ts layer (
              write_rows c.cfg.soa c.max_seq_len c.n_embd c.cur_len
                (at z src)
                (rows src)
                0
                (get_or ts layer (make [] z))))
            l
            (make [] z))
          p
          j
        ≡ (if layer == l && leb c.cur_len p && ltb p (c.cur_len + rows src)
            then at z src (p - c.cur_len) j
            else cell z c.cfg.soa (get_or ts l (make [] z)) p j)
  flat_store c ts layer l src p j h hl hp hj =
      let old = get_or ts layer (make [] z) in
      let new = write_rows c.cfg.soa c.max_seq_len c.n_embd c.cur_len (at z src) (rows src) 0 old in
      let here : c.cur_len + 0 ≡ c.cur_len = omega arith in
      ap (λ t. cell z c.cfg.soa t p j) (get_or-set ts layer l new (make [] z) hl)
      ∙ elim (Bool-cases (layer == l)) [
        | inl e ↦
            let d : layer ≡ l = (==_iff layer l).0 e in
            rw e (
              cell-write_rows z c.cfg.soa c.max_seq_len c.n_embd c.cur_len (at z src) (rows src) 0
                old p j
                (get_or_in (IsStore c.cfg.soa c.max_seq_len c.n_embd) ts layer (make [] z) hl h) hp
                hj
              ∙ rw (here, d) refl)
        | inr e ↦ rw e refl
      ]

  pub update_contiguous-content :
      (c : KvCache F) (layer : ℕ) (k v : Tensor F) (on : Bool) (l p j : ℕ)
      → IsFlat c
      → layer < c.n_layers
      → p < c.max_seq_len
      → j < c.n_embd
      → flat_content (update_contiguous z c layer k v) on l p j
        ≡ updated c (flat_content c) layer k v on l p j
  unfolding update_contiguous
  update_contiguous-content c layer k v true l p j h hl hp hj =
      rw (lt→ltb layer (length c.k_cache) (omega (arith, h.layers)))
        (flat_store c c.k_cache layer l k p j h.keys (omega (arith, h.layers)) hp hj)
  update_contiguous-content c layer k v false l p j h hl hp hj =
      rw (lt→ltb layer (length c.k_cache) (omega (arith, h.layers)))
        (flat_store c c.v_cache layer l v p j h.values (omega (arith, h.layers)) hp hj)

  pub update_contiguous-IsFlat :
      (c : KvCache F) (layer : ℕ) (k v : Tensor F)
      → IsFlat c
      → layer < c.n_layers
      → IsFlat (update_contiguous z c layer k v)
  unfolding update_contiguous
  update_contiguous-IsFlat c layer k v h hl =
      let ok = IsStore c.cfg.soa c.max_seq_len c.n_embd in
      let kept =
        λ (ts : List (Tensor F)) (src : Tensor F) (hs : All ok ts) (hi : layer < length ts).
          set-All ok ts layer
            (write_rows c.cfg.soa c.max_seq_len c.n_embd c.cur_len (at z src) (rows src) 0
              (get_or ts layer (make [] z)))
            (write_rows-IsStore z c.cfg.soa c.max_seq_len c.n_embd c.cur_len (at z src) (rows src) 0
              _ (get_or_in ok ts layer (make [] z) hi hs))
            hs in
      rw (lt→ltb layer (length c.k_cache) (omega (arith, h.layers))) (record {
        flat = h.flat;
        keys = kept c.k_cache k h.keys (omega (arith, h.layers));
        values = kept c.v_cache v h.values (omega (arith, h.layers));
        layers =
            (length-set c.k_cache layer _ ∙ h.layers.0, length-set c.v_cache layer _ ∙ h.layers.1);
      })
