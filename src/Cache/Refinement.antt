-- ===== src/Cache/Refinement.antt =====
-- src/kv_cache.cpp, the abstract cache, which has no layout, and its operations.
use llm_cpp.Prelude.{
  length, none, ℕ, ◌+◌, ◌-◌, ◌≤◌, ◌<◌, min, ◌≡◌, refl, sym, ap, ◌∙◌, ◌⊎◌, inl, inr, Bool, true,
  false, ◌&&◌, Option, some, arith, ltb, leb, ◌==◌, if◌then◌else◌, lt→ltb, leb→le, Bool-cases, set,
  nat_eq, list_eq, int_eq,
}
use llm_cpp.Tensor.{Tensor, at}
use llm_cpp.Cache.{
  length, none, KvCache, rows, update_contiguous, update_paged, reads_ok, update, set_size, advance,
  clear,
}
use llm_cpp.Cache.Invariant.{
  IsFlat, IsPagedCache, flat_content, paged_content, updated, update_contiguous-content,
  update_contiguous-IsFlat,
}
use llm_cpp.Cache.PagedUpdate.{update_paged-content}

-- What a cache promises: for keys and values, by layer and position, a row of numbers.
pub record Spec (F : Type 0) : Type 0 where
  pub content : Bool → ℕ → ℕ → ℕ → F
  pub len : ℕ

-- The operations of a client.
pub data Op (F : Type 0) : Type 0 where
  updates : ℕ → Tensor F → Tensor F → Op F
  advances resizes : ℕ → Op F
  clears : Op F

module _ {F : Type 0} (z : F) where
  unfoldable pub spec_step : ℕ → ℕ → Spec F → Op F → Spec F
  spec_step n_layers max_len s (updates layer k v) = record s {
    content = λ on l p j.
        let src = if on then k else v in
        if ltb layer n_layers && layer == l && leb s.len p && ltb p (s.len + rows src)
        then at z src (p - s.len) j
        else s.content on l p j;
  }
  spec_step n_layers max_len s (advances n) = record s { len = min (s.len + n) max_len }
  spec_step n_layers max_len s (resizes n) = record s { len = min n max_len }
  spec_step n_layers max_len s clears = record { content = λ on l p j. z; len = 0 }

  unfoldable pub step : KvCache F → Op F → Option (KvCache F)
  step c (updates layer k v) = update z c layer k v
  step c (advances n) = some (advance c n)
  step c (resizes n) = some (set_size c n)
  step c clears = some (clear z c)

  unfoldable pub content_of : KvCache F → Bool → ℕ → ℕ → ℕ → F
  content_of c = if c.cfg.paged then paged_content z c else flat_content z c

  -- A well-formed cache that holds what the specification says.
  pub record Refines (n_layers max_len n_embd : ℕ) (c : KvCache F) (s : Spec F) : Type 0 where
    pub valid : IsFlat c ⊎ IsPagedCache c
    pub sizes : (c.n_layers ≡ n_layers) × (c.max_seq_len ≡ max_len) × (c.n_embd ≡ n_embd)
    pub len : (c.cur_len ≡ s.len) × (s.len ≤ max_len)
    pub holds :
        (on : Bool) (l p j : ℕ)
        → l < n_layers
        → p < max_len
        → j < n_embd
        → content_of c on l p j ≡ s.content on l p j

  pub content_of-flat : (c : KvCache F) → c.cfg.paged ≡ false → content_of c ≡ flat_content z c
  unfolding content_of
  content_of-flat c e = rw e refl

  pub content_of-paged : (c : KvCache F) → c.cfg.paged ≡ true → content_of c ≡ paged_content z c
  unfolding content_of
  content_of-paged c e = rw e refl

  module _ (c : KvCache F) (layer : ℕ) (k v : Tensor F) where
    update-skip : leb c.n_layers layer ≡ true → update z c layer k v ≡ some c
    unfolding update
    update-skip e = rw e refl

    update-paged :
        leb c.n_layers layer ≡ false
        → c.cfg.paged ≡ true
        → reads_ok c k v ≡ true
        → update z c layer k v ≡ update_paged z c layer k v
    unfolding update
    update-paged e e' ok = simp (e, e', ok)

    update-flat :
        leb c.n_layers layer ≡ false
        → c.cfg.paged ≡ false
        → reads_ok c k v ≡ true
        → update z c layer k v ≡ some (update_contiguous z c layer k v)
    unfolding update
    update-flat e e' ok = rw (e, e', ok) (ground arith)

    update-aborts :
        leb c.n_layers layer ≡ false
        → (c.cfg.paged ≡ true) ⊎ (layer < length c.k_cache)
        → reads_ok c k v ≡ false
        → update z c layer k v ≡ none
    unfolding update
    update-aborts e (inl paged) bad = simp (e, paged, bad)
    update-aborts e (inr held) bad = elim (Bool-cases c.cfg.paged) [
      | inl paged ↦ simp (e, paged, bad)
      | inr flat ↦ simp (e, flat, bad, lt→ltb layer (length c.k_cache) held)
    ]

  module _ (n_layers max_len n_embd : ℕ) (c : KvCache F) (s : Spec F) where
    -- `updated` is the step of the specification.
    updated-spec :
        (old : Bool → ℕ → ℕ → ℕ → F) (layer : ℕ) (k v : Tensor F) (on : Bool) (l p j : ℕ)
        → c.cur_len ≡ s.len
        → layer < n_layers
        → old on l p j ≡ s.content on l p j
        → updated z c old layer k v on l p j
          ≡ (spec_step n_layers max_len s (updates layer k v)).content on l p j
    unfolding spec_step
    updated-spec old layer k v on l p j e hl h = rw (e, h, lt→ltb layer n_layers hl) refl

    module _ (layer : ℕ) (k v : Tensor F) (r : Refines n_layers max_len n_embd c s) where
      skipped :
          n_layers ≤ layer
          → Refines n_layers max_len n_embd c (spec_step n_layers max_len s (updates layer k v))
      unfolding spec_step
      skipped h =
          let out : ltb layer n_layers ≡ false = ground arith in
          record {
            valid = r.valid;
            sizes = r.sizes;
            len = r.len;
            holds = λ on l p j hl hp hj. rw out (r.holds on l p j hl hp hj);
          }

      flat_case :
          layer < n_layers
          → IsFlat c
          → Refines n_layers max_len n_embd
              (update_contiguous z c layer k v)
              (spec_step n_layers max_len s (updates layer k v))
      flat_case hl f =
          let g = update_contiguous-IsFlat z c layer k v f (omega (arith, r.sizes)) in
          record {
            valid = inl g;
            sizes = unfold update_contiguous in ground (arith, r.sizes);
            len = unfold update_contiguous spec_step in ground (arith, r.len);
            holds = λ on l p j hl' hp hj.
                ap (λ f. f on l p j) (content_of-flat (update_contiguous z c layer k v) g.flat)
                ∙ update_contiguous-content z c layer k v on l p j f (omega (arith, r.sizes))
                    (omega (arith, r.sizes)) (omega (arith, r.sizes))
                ∙ updated-spec (flat_content z c) layer k v on l p j r.len.0 hl (
                    ap (λ f. f on l p j) (sym (content_of-flat c f.flat))
                    ∙ r.holds on l p j hl' hp hj);
          }

      paged_case :
          layer < n_layers
          → IsPagedCache c
          → (c' : KvCache F) × (update_paged z c layer k v ≡ some c')
            × Refines n_layers max_len n_embd c' (spec_step n_layers max_len s (updates layer k v))
      paged_case hl h =
          let (end, e, g, content) =
            update_paged-content z c layer k v h (omega (arith, r.sizes)) in
          (
            record c {
              pages_k = set c.pages_k layer end.keys;
              pages_v = set c.pages_v layer end.values;
              pool = end.pool;
            },
            e,
            record {
              valid = inr g;
              sizes = r.sizes;
              len = unfold spec_step in r.len;
              holds = λ on l p j hl' hp hj.
                  ap (λ f. f on l p j) (content_of-paged _ g.is_paged)
                  ∙ content on l p j (omega (arith, r.sizes)) (omega (arith, r.sizes))
                  ∙ updated-spec (paged_content z c) layer k v on l p j r.len.0 hl (
                      ap (λ f. f on l p j) (sym (content_of-paged c h.is_paged))
                      ∙ r.holds on l p j hl' hp hj);
            },
          )

      -- What `update` gives on a layer that the cache has.
      abbrev pub Updated : Type 0
      Updated =
          (c' : KvCache F) × (update z c layer k v ≡ some c')
          × Refines n_layers max_len n_embd c' (spec_step n_layers max_len s (updates layer k v))

      pub update-fits : reads_ok c k v ≡ true → Updated
      update-fits ok = elim (Bool-cases (leb c.n_layers layer)) [
        | inl out ↦
            (c, update-skip c layer k v out, skipped (omega (arith, leb→le _ _ out, r.sizes)))
        | inr inside ↦
            let hl : layer < n_layers = ground (arith, r.sizes) in
            elim r.valid [
              | inl f ↦ (
                update_contiguous z c layer k v,
                update-flat c layer k v inside f.flat ok,
                flat_case hl f,
              )
              | inr h ↦
                  let (c', e, g) = paged_case hl h in
                  (c', update-paged c layer k v inside h.is_paged ok ∙ e, g)
            ]
      ]

      pub update-Refines : (update z c layer k v ≡ none) ⊎ Updated
      update-Refines = elim (Bool-cases (reads_ok c k v)) [
        | inl ok ↦ inr (update-fits ok)
        | inr bad ↦ elim (Bool-cases (leb c.n_layers layer)) [
          | inl out ↦
              inr (c, update-skip c layer k v out, skipped (omega (arith, leb→le _ _ out, r.sizes)))
          | inr inside ↦
              let hl : layer < n_layers = ground (arith, r.sizes) in
              inl (
                update-aborts c layer k v inside
                  (elim r.valid [
                    | inl f ↦ inr (omega (arith, f.layers, r.sizes))
                    | inr h ↦ inl h.is_paged
                  ])
                  bad)
        ]
      ]
