-- ===== src/Cache/Layouts.antt =====
-- src/kv_cache.cpp, sequences of operations on a cache and on the abstract cache.
use llm_cpp.Prelude.{
  ℕ, ◌≡◌, ◌⊎◌, All, refl, ap, ◌∙◌, inl, inr, Option, none, some, List, [], ◌∷◌, arith, nat_eq,
  list_eq, int_eq,
}
use llm_cpp.Cache.{KvCache, set_size, advance, clear}
use llm_cpp.Cache.Fits.{Fits, Fits-reads_ok}
use llm_cpp.Cache.Refinement.{
  Spec, Op, spec_step, step, content_of, Refines, content_of-flat, content_of-paged, update-Refines,
  update-fits,
}
use llm_cpp.Cache.Clear.{clear-IsFlat, clear-IsPagedCache, clear-flat, clear-paged}

module _ {F : Type 0} (z : F) where
  -- A new cache
  abbrev pub empty_spec : Spec F
  empty_spec = record { content = λ on l p j. z; len = 0 }

  module _ (n_layers max_len n_embd : ℕ) where
    module _ (c : KvCache F) (s : Spec F) (r : Refines z n_layers max_len n_embd c s) where
      advance-Refines :
          (n : ℕ)
          → Refines z n_layers max_len n_embd
              (advance c n)
              (spec_step z n_layers max_len s (Op.advances n))
      unfolding advance spec_step content_of
      advance-Refines n = record {
        valid = elim r.valid [
          | inl f ↦
              inl (record { flat = f.flat; keys = f.keys; values = f.values; layers = f.layers })
          | inr h ↦
              inr (record {
                is_paged = h.is_paged;
                size = h.size;
                pages = h.pages;
                layers = h.layers;
              })
        ];
        sizes = r.sizes;
        len = (rw (r.len.0, r.sizes.1) refl, omega arith);
        holds = r.holds;
      }

      resize-Refines :
          (n : ℕ)
          → Refines z n_layers max_len n_embd
              (set_size c n)
              (spec_step z n_layers max_len s (Op.resizes n))
      unfolding set_size spec_step content_of
      resize-Refines n = record {
        valid = elim r.valid [
          | inl f ↦
              inl (record { flat = f.flat; keys = f.keys; values = f.values; layers = f.layers })
          | inr h ↦
              inr (record {
                is_paged = h.is_paged;
                size = h.size;
                pages = h.pages;
                layers = h.layers;
              })
        ];
        sizes = r.sizes;
        len = (rw r.sizes.1 refl, omega arith);
        holds = r.holds;
      }

      clear-Refines :
          Refines z n_layers max_len n_embd (clear z c) (spec_step z n_layers max_len s Op.clears)
      unfolding spec_step
      clear-Refines = record {
        valid = elim r.valid [
          | inl f ↦ inl (clear-IsFlat z c f)
          | inr h ↦ inr (clear-IsPagedCache z c h)
        ];
        sizes = unfold clear in r.sizes;
        len = (unfold clear in refl, omega arith);
        holds = λ on l p j hl hp hj. elim r.valid [
          | inl f ↦
              ap (λ g. g on l p j) (content_of-flat z (clear z c) (clear-IsFlat z c f).flat)
              ∙ clear-flat z c on l p j
          | inr h ↦
              ap (λ g. g on l p j)
                (content_of-paged z (clear z c) (clear-IsPagedCache z c h).is_paged)
              ∙ clear-paged z c on l p j
        ];
      }

    -- An operation that succeeds does what the specification says.
    abbrev Done : KvCache F → Spec F → Op F → Type 0
    Done c s op =
        (c' : KvCache F) × (step z c op ≡ some c')
        × Refines z n_layers max_len n_embd c' (spec_step z n_layers max_len s op)

    step-fits :
        (c : KvCache F) (s : Spec F) (op : Op F)
        → Refines z n_layers max_len n_embd c s
        → Fits n_embd op
        → Done c s op
    unfolding step
    step-fits c s (Op.updates layer k v) r h =
        update-fits z n_layers max_len n_embd c s layer k v r
          (Fits-reads_ok c k v (rw r.sizes.2 h.0) (rw r.sizes.2 h.1))
    step-fits c s (Op.advances n) r h = (advance c n, refl, advance-Refines c s r n)
    step-fits c s (Op.resizes n) r h = (set_size c n, refl, resize-Refines c s r n)
    step-fits c s Op.clears r h = (clear z c, refl, clear-Refines c s r)

    step-Refines :
        (c : KvCache F) (s : Spec F) (op : Op F)
        → Refines z n_layers max_len n_embd c s
        → (step z c op ≡ none) ⊎ Done c s op
    unfolding step
    step-Refines c s (Op.updates layer k v) r =
        update-Refines z n_layers max_len n_embd c s layer k v r
    step-Refines c s (Op.advances n) r = inr (advance c n, refl, advance-Refines c s r n)
    step-Refines c s (Op.resizes n) r = inr (set_size c n, refl, resize-Refines c s r n)
    step-Refines c s Op.clears r = inr (clear z c, refl, clear-Refines c s r)

  -- The operations one after the other
  unfoldable pub run : KvCache F → List (Op F) → Option (KvCache F)
  run c [] = some c
  run c (op ∷ ops) = elim (step z c op) [ none ↦ none | some c' ↦ run c' ops ]

  unfoldable pub spec_run : ℕ → ℕ → Spec F → List (Op F) → Spec F
  spec_run n_layers max_len s [] = s
  spec_run n_layers max_len s (op ∷ ops) =
      spec_run n_layers max_len (spec_step z n_layers max_len s op) ops

  module _ (n_layers max_len n_embd : ℕ) where
    abbrev pub AllDone : KvCache F → Spec F → List (Op F) → Type 0
    AllDone c s ops =
        (c' : KvCache F) × (run c ops ≡ some c')
        × Refines z n_layers max_len n_embd c' (spec_run n_layers max_len s ops)

    run-next :
        (c c' : KvCache F) (s : Spec F) (op : Op F) (ops : List (Op F))
        → step z c op ≡ some c'
        → AllDone c' (spec_step z n_layers max_len s op) ops
        → AllDone c s (op ∷ ops)
    unfolding run spec_run
    run-next c c' s op ops e (c'', e', r) = (c'', rw (e, run) e', r)

    pub run-fits :
        (c : KvCache F) (s : Spec F) (ops : List (Op F))
        → Refines z n_layers max_len n_embd c s
        → All (Fits n_embd) ops
        → AllDone c s ops
    run-fits c s [] r h = (c, unfold run in refl, unfold spec_run in r)
    run-fits c s (op ∷ ops) r h =
        let (c', e, r') = step-fits n_layers max_len n_embd c s op r h.0 in
        run-next c c' s op ops e (run-fits c' (spec_step z n_layers max_len s op) ops r' h.1)

    pub run-Refines :
        (c : KvCache F) (s : Spec F) (ops : List (Op F))
        → Refines z n_layers max_len n_embd c s
        → (run c ops ≡ none) ⊎ AllDone c s ops
    run-Refines c s [] r = inr (c, unfold run in refl, unfold spec_run in r)
    run-Refines c s (op ∷ ops) r = elim (step-Refines n_layers max_len n_embd c s op r) [
      | inl e ↦ inl (unfold run in rw (e, run) refl)
      | inr (c', e, r') ↦ elim (run-Refines c' (spec_step z n_layers max_len s op) ops r') [
        | inl stuck ↦ inl (unfold run in rw (e, run) stuck)
        | inr done ↦ inr (run-next c c' s op ops e done)
      ]
    ]
