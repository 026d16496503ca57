-- ===== src/Cache/Paging.antt =====
-- src/kv_cache.cpp, the loops over the pages of one layer, with the pool that pages come from.
use mathlib.Core.Option
use llm_cpp.Prelude.{
  ℕ, zero, suc, ◌+◌, ◌-◌, ◌/◌, ◌%◌, Bool, true, false, Option, none, some, List, [], ◌∷◌, ◌++◌, ltb,
  if◌then◌else◌, length, get_elem?, set, get_or, nat_eq, list_eq, int_eq,
}
use llm_cpp.Tensor.{Tensor, make, at}
use llm_cpp.Pool.{TensorPool, acquire}
use llm_cpp.Cache.Cells.{write_row}

-- The pages of one layer, with the pool that new pages come from.
pub record PageStore (F : Type 0) : Type 0 where
  pub keys : List (Tensor F)
  pub values : List (Tensor F)
  pub pool : Option (TensorPool F)

module _ {F : Type 0} (z : F) where
  -- A page of zeros, from the pool if there is one.
  unfoldable pub new_page :
      ℕ → ℕ → Option (TensorPool F) → Option (Tensor F × Option (TensorPool F))
  new_page page_size n_embd none = some (make (page_size ∷ n_embd ∷ []) z, none)
  new_page page_size n_embd (some p) =
      Option.map (λ r. (r.0, some r.1)) (acquire z p (page_size ∷ n_embd ∷ []))

  -- KVCache::ensure_page, with the rounds of its loop that are left
  unfoldable pub add_pages : ℕ → ℕ → ℕ → PageStore F → Option (PageStore F)
  add_pages page_size n_embd zero ps = some ps
  add_pages page_size n_embd (suc n) ps = elim (new_page page_size n_embd ps.pool) [
    | none ↦ none
    | some (tk, pool) ↦ elim (new_page page_size n_embd pool) [
      | none ↦ none
      | some (tv, pool') ↦
          add_pages page_size n_embd n
            (record { keys = ps.keys ++ tk ∷ []; values = ps.values ++ tv ∷ []; pool = pool' })
    ]
  ]

  unfoldable pub ensure_page : ℕ → ℕ → ℕ → PageStore F → Option (PageStore F)
  ensure_page page_size n_embd page ps = add_pages page_size n_embd (page + 1 - length ps.keys) ps

  abbrev pub page_at : ℕ → ℕ → List (Tensor F) → ℕ → Tensor F
  page_at page_size n_embd pages pg = get_or pages pg (make (page_size ∷ n_embd ∷ []) z)

  -- The row loop of `update` over pages; `on_keys` says which of the two stores is written.
  unfoldable pub write_page : ℕ → ℕ → Bool → (ℕ → F) → ℕ → PageStore F → PageStore F
  write_page page_size n_embd on_keys src p ps =
      let pg = p / page_size in
      let row = λ (pages : List (Tensor F)).
        set pages pg
          (write_row false src n_embd 0 (page_at page_size n_embd pages pg) (p % page_size)) in
      if on_keys then record ps { keys = row ps.keys } else record ps { values = row ps.values }

  unfoldable pub write_pages :
      ℕ → ℕ → ℕ → ℕ → Bool → (ℕ → ℕ → F) → ℕ → ℕ → PageStore F → Option (PageStore F)
  write_pages page_size max_len n_embd cur on_keys src zero i ps = some ps
  write_pages page_size max_len n_embd cur on_keys src (suc r) i ps = elim (ltb (cur + i) max_len) [
    | false ↦ some ps
    | true ↦ elim (ensure_page page_size n_embd ((cur + i) / page_size) ps) [
      | none ↦ none
      | some ps' ↦
          write_pages page_size max_len n_embd cur on_keys src r (i + 1)
            (write_page page_size n_embd on_keys (src i) (cur + i) ps')
    ]
  ]

  -- The same over pages: a page that was never allocated is a read out of bounds, `none`.
  unfoldable pub copy_pages : ℕ → ℕ → List (Tensor F) → ℕ → ℕ → Tensor F → Option (Tensor F)
  copy_pages page_size n_embd pages zero i out = some out
  copy_pages page_size n_embd pages (suc n) i out = elim (get_elem? pages (i / page_size)) [
    | none ↦ none
    | some page ↦
        copy_pages page_size n_embd pages n (i + 1)
          (write_row false (at z page (i % page_size)) n_embd 0 out i)
  ]
