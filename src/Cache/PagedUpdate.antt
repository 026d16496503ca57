-- ===== src/Cache/PagedUpdate.antt =====
-- src/kv_cache.cpp, `update` of a paged cache.
use llm_cpp.Prelude.{
  ℕ, ◌+◌, ◌<◌, ◌≡◌, refl, ap, ◌∙◌, inl, inr, Bool, true, false, some, [], arith, ◌==◌,
  if◌then◌else◌, ==_iff, Bool-cases, set, length-set, get_or, nat_eq, list_eq, int_eq,
}
use llm_cpp.Tensor.{Tensor, at}
use llm_cpp.Tensor.Matrix.{get_or-set}
use llm_cpp.Cache.Paging.{PageStore}
use llm_cpp.Cache.PageLaws.{IsPaged, page_cell}
use llm_cpp.Cache.PageWrites.{Written, write_pages-Written}
use llm_cpp.Cache.{KvCache, rows, update_paged}
use llm_cpp.Cache.Invariant.{pages_of, IsPagedCache, paged_content, updated}

module _ {F : Type 0} (z : F) (c : KvCache F) (layer : ℕ) (k v : Tensor F) where
  abbrev after_update : PageStore F → KvCache F
  after_update end = record c {
    pages_k = set c.pages_k layer end.keys;
    pages_v = set c.pages_v layer end.values;
    pool = end.pool;
  }

  abbrev Keys : PageStore F → PageStore F → Type 0
  Keys =
      Written z c.cfg.page_size c.n_embd c.cur_len c.max_seq_len true (c.cur_len + 0)
        (c.cur_len + 0 + rows k) (at z k)

  abbrev Values : PageStore F → PageStore F → Type 0
  Values =
      Written z c.cfg.page_size c.n_embd c.cur_len c.max_seq_len false (c.cur_len + 0)
        (c.cur_len + 0 + rows v) (at z v)

  module _ (h : IsPagedCache c) (hl : layer < c.n_layers) {mid end : PageStore F} where
    after_update-IsPagedCache :
        Keys (pages_of c layer) mid → Values mid end → IsPagedCache (after_update end)
    after_update-IsPagedCache w w' = record {
      is_paged = h.is_paged;
      size = h.size;
      pages = pages;
      layers =
          (length-set c.pages_k layer _ ∙ h.layers.0, length-set c.pages_v layer _ ∙ h.layers.1);
    }
      where
        ek :
            (l : ℕ)
            → get_or (set c.pages_k layer end.keys) l []
              ≡ (if layer == l then end.keys else get_or c.pages_k l [])
        ek l = get_or-set c.pages_k layer l end.keys [] (omega (arith, h.layers))

        ev :
            (l : ℕ)
            → get_or (set c.pages_v layer end.values) l []
              ≡ (if layer == l then end.values else get_or c.pages_v l [])
        ev l = get_or-set c.pages_v layer l end.values [] (omega (arith, h.layers))

        pages : (l : ℕ) → IsPaged c.cfg.page_size c.n_embd (pages_of (after_update end) l)
        pages l = elim (Bool-cases (layer == l)) [
          | inl e ↦ record {
            keys = rw (ek l, e) w'.paged.keys;
            values = rw (ev l, e) w'.paged.values;
            paired = rw (ek l, ev l, e) w'.paged.paired;
            pool = w'.paged.pool;
          }
          | inr e ↦ record {
            keys = rw (ek l, e) (h.pages l).keys;
            values = rw (ev l, e) (h.pages l).values;
            paired = rw (ek l, ev l, e) (h.pages l).paired;
            pool = w'.paged.pool;
          }
        ]

    after_update-content :
        Keys (pages_of c layer) mid
        → Values mid end
        → (on : Bool) (l p j : ℕ) → p < c.max_seq_len
        → j < c.n_embd
        → paged_content z (after_update end) on l p j
          ≡ updated z c (paged_content z c) layer k v on l p j
    after_update-content w w' true l p j hp hj =
        ap (λ ts. page_cell z c.cfg.page_size c.n_embd ts p j)
          (get_or-set c.pages_k layer l end.keys [] (omega (arith, h.layers)))
        ∙ elim (Bool-cases (layer == l)) [
          | inr e ↦ rw e refl
          | inl e ↦
              let d : layer ≡ l = (==_iff layer l).0 e in
              let here : c.cur_len + 0 ≡ c.cur_len = omega arith in
              rw e (w'.others p j ∙ w.rows p j hp hj ∙ rw (here, d) refl)
        ]
    after_update-content w w' false l p j hp hj =
        ap (λ ts. page_cell z c.cfg.page_size c.n_embd ts p j)
          (get_or-set c.pages_v layer l end.values [] (omega (arith, h.layers)))
        ∙ elim (Bool-cases (layer == l)) [
          | inr e ↦ rw e refl
          | inl e ↦
              let d : layer ≡ l = (==_iff layer l).0 e in
              let here : c.cur_len + 0 ≡ c.cur_len = omega arith in
              rw e (w'.rows p j hp hj ∙ rw (w.others p j, here, d) refl)
        ]

  -- The update succeeds, keeps the cache in order, and replaces the rows from `cur_len` on.
  pub update_paged-content :
      IsPagedCache c
      → layer < c.n_layers
      → (end : PageStore F) × (update_paged z c layer k v ≡ some (after_update end))
        × IsPagedCache (after_update end)
        × ((on : Bool) (l p j : ℕ)
            → p < c.max_seq_len
            → j < c.n_embd
            → paged_content z (after_update end) on l p j
              ≡ updated z c (paged_content z c) layer k v on l p j)
  unfolding update_paged
  update_paged-content h hl =
      let (mid, e, w) =
        write_pages-Written z c.cfg.page_size c.n_embd c.max_seq_len c.cur_len true (at z k)
          (rows k) 0 (pages_of c layer) h.size (h.pages layer) in
      let (end, e', w') =
        write_pages-Written z c.cfg.page_size c.n_embd c.max_seq_len c.cur_len false (at z v)
          (rows v) 0 mid h.size w.paged in
      (
        end,
        rw (e, update_paged, e', update_paged) refl,
        after_update-IsPagedCache h hl w w',
        after_update-content h hl w w',
      )
