-- ===== src/Cache/Slices.antt =====
-- src/kv_cache.cpp, `get_k_slice` and `get_v_slice`.
use llm_cpp.Prelude.{
  ℕ, zero, suc, ◌+◌, ◌*◌, ◌/◌, ◌%◌, ◌≤◌, ◌<◌, min, ◌≡◌, refl, sym, ap, ◌∙◌, inl, inr, Bool, true,
  false, ◌&&◌, Option, none, some, List, [], ◌∷◌, arith, ltb, leb, if◌then◌else◌, Option-cases,
  length, get_elem?, get_or, nat_eq, list_eq, int_eq,
}
use native.Mathlib.Nat.{div-add-mod}
use llm_cpp.Tensor.{Tensor, make, at}
use llm_cpp.Tensor.Matrix.{IsMatrix, make-IsMatrix}
use llm_cpp.Cache.Cells.{write_row, copy_rows, cell}
use llm_cpp.Cache.Rows.{next_row, write_row-IsStore, cell-write_row, cell-copy_rows}
use llm_cpp.Cache.Paging.{copy_pages}
use llm_cpp.Cache.PageLaws.{stored, page_cell}
use llm_cpp.Cache.{KvCache, get_slice, get_k_slice, get_v_slice}
use llm_cpp.Cache.Invariant.{pages_of, IsFlat, IsPagedCache, flat_content, paged_content}

get_or-get_elem? {ℓ} :
    {A : Type ℓ} (xs : List A) (i : ℕ) (d x : A) → get_elem? xs i ≡ some x → get_or xs i d ≡ x
get_or-get_elem? [] i d x e = cc
get_or-get_elem? (y ∷ xs) zero d x e = ground arith
get_or-get_elem? (y ∷ xs) (suc i) d x e = get_or-get_elem? xs i d x e

get_elem?-some {ℓ} :
    {A : Type ℓ} (xs : List A) (i : ℕ) → i < length xs → (x : A) × (get_elem? xs i ≡ some x)
get_elem?-some [] i h = absurd (omega arith)
get_elem?-some (x ∷ xs) zero h = (x, refl)
get_elem?-some (x ∷ xs) (suc i) h = get_elem?-some xs i (omega arith)

page_below : (i s n : ℕ) → i < s * n → i / s < n
page_below i s n h = grind (arith, div-add-mod)

module _ {F : Type 0} (z : F) (size width len : ℕ) (pages : List (Tensor F)) where
  -- A copy that ends holds the cells of the pages.
  cell-copy_pages :
      (n i : ℕ) (out t : Tensor F) (p j : ℕ)
      → IsMatrix len width out
      → i + n ≤ len
      → copy_pages z size width pages n i out ≡ some t
      → p < len
      → j < width
      → at z t p j
        ≡ (if leb i p && ltb p (i + n) then page_cell z size width pages p j else at z out p j)
  unfolding copy_pages
  cell-copy_pages zero i out t p j h hn e hp hj = ground arith
  cell-copy_pages (suc n) i out t p j h hn e hp hj =
      elim (Option-cases (get_elem? pages (i / size))) [
        | inl none_there ↦ absurd (no_copy none_there)
        | inr (page, there) ↦
            let out' = write_row false (at z page (i % size)) width 0 out i in
            let here : at z page (i % size) j ≡ page_cell z size width pages i j =
              ap (λ q. at z q (i % size) j)
                (sym (get_or-get_elem? pages (i / size) (make (size ∷ width ∷ []) z) page there)) in
            cell-copy_pages n (i + 1) out' t p j
              (write_row-IsStore false len width (at z page (i % size)) width 0 out i h)
              (omega arith) (sym (rw (there, copy_pages) refl) ∙ e) hp hj
            ∙ rw
                (cell-write_row z false len width (at z page (i % size)) out i p j h (omega arith)
                  hp hj)
                (next_row i p n (at z page (i % size) j) (page_cell z size width pages p j)
                  (at z out p j) (λ q. here ∙ ap (λ r. page_cell z size width pages r j) q))
      ]
    where
      no_copy : get_elem? pages (i / size) ≡ none → ⊥
      no_copy h = ground arith

  -- The copy ends if there is a page for every row.
  copy_pages-some :
      (n i : ℕ) (out : Tensor F)
      → 0 < size
      → i + n ≤ size * length pages
      → (t : Tensor F) × (copy_pages z size width pages n i out ≡ some t)
  unfolding copy_pages
  copy_pages-some zero i out hs h = (out, refl)
  copy_pages-some (suc n) i out hs h =
      let (page, there) =
        get_elem?-some pages (i / size) (page_below i size (length pages) (omega arith)) in
      let (t, e) =
        copy_pages-some n (i + 1) (write_row false (at z page (i % size)) width 0 out i) hs
          (omega arith) in
      (t, rw (there, copy_pages) e)

module _ {F : Type 0} (z : F) (c : KvCache F) where
  abbrev pub slice : Bool → ℕ → Option (Tensor F)
  slice true l = get_k_slice z c l
  slice false l = get_v_slice z c l

  get_slice-flat :
      (store : List (Tensor F)) (pages : List (List (Tensor F))) (l : ℕ)
      → c.cfg.paged ≡ false
      → (t : Tensor F) × (get_slice z c store pages l ≡ some t)
        × ((p j : ℕ)
            → p < min c.cur_len c.max_seq_len
            → j < c.n_embd
            → at z t p j ≡ cell z c.cfg.soa (get_or store l (make [] z)) p j)
  unfolding get_slice
  get_slice-flat store pages l flat =
      let n = min c.cur_len c.max_seq_len in
      let read = cell z c.cfg.soa (get_or store l (make [] z)) in
      (
        copy_rows c.n_embd read n 0 (make (n ∷ c.n_embd ∷ []) z),
        rw flat refl,
        λ p j hp hj.
            cell-copy_rows z n c.n_embd read n 0 (make (n ∷ c.n_embd ∷ []) z) p j
              (make-IsMatrix n c.n_embd z) (omega arith) hp hj
            ∙ ground arith,
      )

  -- A contiguous cache always has its slice, row by row what it holds.
  pub slice-flat :
      (on : Bool) (l : ℕ)
      → IsFlat c
      → (t : Tensor F) × (slice on l ≡ some t)
        × ((p j : ℕ)
            → p < min c.cur_len c.max_seq_len
            → j < c.n_embd
            → at z t p j ≡ flat_content z c on l p j)
  unfolding get_k_slice get_v_slice
  slice-flat true l h = get_slice-flat c.k_cache c.pages_k l h.flat
  slice-flat false l h = get_slice-flat c.v_cache c.pages_v l h.flat

  get_slice-paged :
      (store : List (Tensor F)) (pages : List (List (Tensor F))) (l : ℕ) (t : Tensor F)
      → c.cfg.paged ≡ true
      → get_slice z c store pages l ≡ some t
      → (p j : ℕ) → p < min c.cur_len c.max_seq_len
      → j < c.n_embd
      → at z t p j ≡ page_cell z c.cfg.page_size c.n_embd (get_or pages l []) p j
  unfolding get_slice
  get_slice-paged store pages l t paged e p j hp hj =
      let n = min c.cur_len c.max_seq_len in
      cell-copy_pages z c.cfg.page_size c.n_embd n (get_or pages l []) n 0
        (make (n ∷ c.n_embd ∷ []) z) t p j (make-IsMatrix n c.n_embd z) (omega arith) (ground arith)
        hp hj
      ∙ ground arith

  -- A slice that a paged cache returns is, row by row, what it holds.
  pub slice-paged :
      (on : Bool) (l : ℕ) (t : Tensor F)
      → IsPagedCache c
      → slice on l ≡ some t
      → (p j : ℕ) → p < min c.cur_len c.max_seq_len
      → j < c.n_embd
      → at z t p j ≡ paged_content z c on l p j
  unfolding get_k_slice get_v_slice
  slice-paged true l t h e = get_slice-paged c.k_cache c.pages_k l t h.is_paged e
  slice-paged false l t h e = get_slice-paged c.v_cache c.pages_v l t h.is_paged e

  -- It returns one if the pages of the layer reach the current length.
  slice-paged_some :
      (on : Bool) (l : ℕ)
      → IsPagedCache c
      → min c.cur_len c.max_seq_len ≤ c.cfg.page_size * length (stored on (pages_of c l))
      → (t : Tensor F) × (slice on l ≡ some t)
  unfolding get_k_slice get_v_slice get_slice
  slice-paged_some true l h enough = rw h.is_paged (
      copy_pages-some z c.cfg.page_size c.n_embd 0 (get_or c.pages_k l [])
        (min c.cur_len c.max_seq_len) 0 _ h.size (omega arith))
  slice-paged_some false l h enough = rw h.is_paged (
      copy_pages-some z c.cfg.page_size c.n_embd 0 (get_or c.pages_v l [])
        (min c.cur_len c.max_seq_len) 0 _ h.size (omega arith))
