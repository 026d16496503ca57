-- ===== src/Cache/Equivalence.antt =====
-- src/kv_cache.cpp, a new cache after a sequence of operations, against the abstract cache and
-- another layout.
use llm_cpp.Prelude.{
  some-injective, none-ne-some, All, ℕ, ◌<◌, ◌≡◌, sym, ap, ◌∙◌, subst, inl, inr, Bool, some, List,
  arith, nat_eq, list_eq, int_eq,
}
use llm_cpp.Tensor.{Tensor, at}
use llm_cpp.Cache.{CacheConfig, KvCache, make_cache}
use llm_cpp.Cache.Slices.{slice, slice-flat, slice-paged}
use llm_cpp.Cache.Fits.{Fits}
use llm_cpp.Cache.Refinement.{Op, Refines, content_of-flat, content_of-paged}
use llm_cpp.Cache.Layouts.{empty_spec, run, spec_run, run-Refines, run-fits}
use llm_cpp.Cache.NewCache.{make-Refines}

module _ {F : Type 0} (z : F) where
  module _ (n_layers max_len n_embd : ℕ) where
    -- Every sequence of updates, advances, resizes and clears on a new cache of any layout without
    -- a pool, in which the tensors of an update are matrices as wide as the cache, succeeds: no
    -- assertion fails, nothing is read outside of a tensor, and it gives a well-formed cache with
    -- the sizes it was made with that holds, at every layer, position and column within them, what
    -- the abstract cache holds, at the same length.
    pub run-make_cache :
        (cfg : CacheConfig) (ops : List (Op F))
        → All (Fits n_embd) ops
        → (c : KvCache F) × (run z (make_cache z n_layers max_len n_embd cfg) ops ≡ some c)
          × Refines z n_layers max_len n_embd c (spec_run z n_layers max_len (empty_spec z) ops)
    run-make_cache cfg ops =
        run-fits z n_layers max_len n_embd (make_cache z n_layers max_len n_embd cfg) (empty_spec z)
          ops (make-Refines z n_layers max_len n_embd cfg)

    module _ (cfg : CacheConfig) (ops : List (Op F)) (c : KvCache F)
        (e : run z (make_cache z n_layers max_len n_embd cfg) ops ≡ some c) where
      reached : Refines z n_layers max_len n_embd c (spec_run z n_layers max_len (empty_spec z) ops)
      reached =
          elim (run-Refines z n_layers max_len n_embd (make_cache z n_layers max_len n_embd cfg)
            (empty_spec z) ops (make-Refines z n_layers max_len n_embd cfg)) [
              | inl stuck ↦ absurd (none-ne-some _ (sym stuck ∙ e))
              | inr (d, e', r) ↦
                  subst
                    (λ x.
                      Refines z n_layers max_len n_embd x
                        (spec_run z n_layers max_len (empty_spec z) ops))
                    (some-injective _ _ (sym e' ∙ e)) r
            ]

      -- After any sequence of updates, advances, resizes and clears that succeeds on a new cache of
      -- any layout without a pool, each cell below the current length of a slice that `get_k_slice`
      -- or `get_v_slice` returns for an existing layer is the cell that the abstract cache, which
      -- has no layout, holds after the same sequence.
      pub slice-spec_run :
          (on : Bool) (l : ℕ) (t : Tensor F) (p j : ℕ)
          → slice z c on l ≡ some t
          → l < n_layers
          → p < c.cur_len
          → j < n_embd
          → at z t p j ≡ (spec_run z n_layers max_len (empty_spec z) ops).content on l p j
      slice-spec_run on l t p j s hl hp hj =
          let r = reached in
          elim r.valid [
            | inl f ↦
                let (t', s', same) = slice-flat z c on l f in
                subst
                  (λ x.
                    at z x p j ≡ (spec_run z n_layers max_len (empty_spec z) ops).content on l p j)
                  (some-injective _ _ (sym s' ∙ s))
                  (same p j (omega (arith, r.len, r.sizes)) (omega (arith, r.sizes))
                    ∙ ap (λ g. g on l p j) (sym (content_of-flat z c f.flat))
                    ∙ r.holds on l p j hl (omega (arith, r.len)) hj)
            | inr h ↦
                slice-paged z c on l t h s p j (omega (arith, r.len, r.sizes))
                  (omega (arith, r.sizes))
                ∙ ap (λ g. g on l p j) (sym (content_of-paged z c h.is_paged))
                ∙ r.holds on l p j hl (omega (arith, r.len)) hj
          ]

    -- Two new caches of the same sizes in any two layouts, without a pool, have equal lengths after
    -- the same sequence of updates, advances, resizes and clears that succeeds on both, and where
    -- both return a slice of the same existing layer, the slices agree in every cell below that
    -- length.
    pub layouts_agree :
        (cfg cfg' : CacheConfig) (ops : List (Op F)) (c c' : KvCache F) (on : Bool) (l : ℕ)
        (t t' : Tensor F) (p j : ℕ)
        → run z (make_cache z n_layers max_len n_embd cfg) ops ≡ some c
        → run z (make_cache z n_layers max_len n_embd cfg') ops ≡ some c'
        → slice z c on l ≡ some t
        → slice z c' on l ≡ some t'
        → l < n_layers
        → p < c.cur_len
        → j < n_embd
        → (c.cur_len ≡ c'.cur_len) × (at z t p j ≡ at z t' p j)
    layouts_agree cfg cfg' ops c c' on l t t' p j e e' s s' hl hp hj =
        let same : c.cur_len ≡ c'.cur_len =
          (reached cfg ops c e).len.0 ∙ sym (reached cfg' ops c' e').len.0 in
        (
          same,
          slice-spec_run cfg ops c e on l t p j s hl hp hj
              ∙ sym
                  (slice-spec_run cfg' ops c' e' on l t' p j s' hl (subst (λ n. p < n) same hp) hj),
        )
