-- ===== src/Cache/PageWrites.antt =====
-- src/kv_cache.cpp, the writes to pages: `write_page` and `write_pages`.
use llm_cpp.Prelude.{
  ℕ, zero, suc, ◌+◌, ◌-◌, ◌/◌, ◌%◌, ◌<◌, ◌≡◌, refl, sym, ap, ap₂, ◌∙◌, inl, inr, Bool, true, false,
  not, ◌&&◌, some, List, [], ◌∷◌, arith, ltb, leb, ◌==◌, if◌then◌else◌, ==_iff, Bool-cases, length,
  set, length-set, All, nat_eq, list_eq, int_eq,
}
use native.Mathlib.Nat.{mod-lt}
use llm_cpp.Tensor.{Tensor, make, at}
use llm_cpp.Tensor.Matrix.{IsMatrix, make-IsMatrix, get_or-set}
use llm_cpp.Cache.Rows.{next_row, write_row-IsStore, cell-write_row}
use llm_cpp.Cache.Cells.{write_row}
use llm_cpp.Cache.Paging.{PageStore, page_at, write_page, write_pages}
use llm_cpp.Cache.PageLaws.{
  IsPaged, stored, page_cell, get_or-All, set-All, same_page, ensure_page-Grown,
}

module _ {F : Type 0} (z : F) (size width : ℕ) where
  -- One row of one store is replaced.
  cell-page_row :
      (pages : List (Tensor F)) (src : ℕ → F) (p p' j : ℕ)
      → All (IsMatrix size width) pages
      → 0 < size
      → p / size < length pages
      → j < width
      → page_cell z size width
          (set pages
            (p / size)
            (write_row false src width 0 (page_at z size width pages (p / size)) (p % size)))
          p'
          j
        ≡ (if p == p' then src j else page_cell z size width pages p' j)
  cell-page_row pages src p p' j h hs hp hj =
      let old = page_at z size width pages (p / size) in
      let new = write_row false src width 0 old (p % size) in
      let m =
        get_or-All (IsMatrix size width) pages (p / size) (make (size ∷ width ∷ []) z)
          (make-IsMatrix size width z) h in
      ap (λ t. at z t (p' % size) j)
        (get_or-set pages (p / size) (p' / size) new (make (size ∷ width ∷ []) z) hp)
      ∙ elim (Bool-cases (p / size == p' / size)) [
        | inl e ↦
            let row : (p % size == p' % size) ≡ (p == p') =
              ground (arith, same_page size p p' hs) in
            let d : p / size ≡ p' / size = (==_iff (p / size) (p' / size)).0 e in
            rw e (
              cell-write_row z false size width src old (p % size) (p' % size) j m (mod-lt p hs)
                (mod-lt p' hs) hj
              ∙ ap₂ (λ b c. if b then src j else c) row
                  (ap (λ k. at z (page_at z size width pages k) (p' % size) j) d))
        | inr e ↦
            let differ : (p == p') ≡ false = ground (arith, same_page size p p' hs) in
            rw e (sym (ap (λ b. if b then src j else page_cell z size width pages p' j) differ))
      ]

  -- The rows from `lo` up to `hi` of one store are replaced; the other store reads as before.
  pub record Written (cur len : ℕ) (on : Bool) (lo hi : ℕ) (src : ℕ → ℕ → F) (ps ps' : PageStore F)
      : Type 0 where
    pub paged : IsPaged size width ps'
    pub rows :
        (p j : ℕ)
        → p < len
        → j < width
        → page_cell z size width (stored on ps') p j ≡ (
            if leb lo p && ltb p hi
            then src (p - cur) j
            else page_cell z size width (stored on ps) p j)
    pub others :
        (p j : ℕ)
        → page_cell z size width (stored (not on) ps') p j
          ≡ page_cell z size width (stored (not on) ps) p j

  write_page-IsPaged :
      (on : Bool) (src : ℕ → F) (p : ℕ) (ps : PageStore F)
      → IsPaged size width ps
      → IsPaged size width (write_page z size width on src p ps)
  unfolding write_page
  write_page-IsPaged true src p ps h =
      let blank_ok = make-IsMatrix size width z in
      record {
        keys =
            set-All (IsMatrix size width) ps.keys (p / size) _
              (write_row-IsStore false size width src width 0 _ (p % size) (
                get_or-All (IsMatrix size width) ps.keys (p / size) (make (size ∷ width ∷ []) z)
                  blank_ok h.keys))
              h.keys;
        values = h.values;
        paired = length-set ps.keys (p / size) _ ∙ h.paired;
        pool = h.pool;
      }
  write_page-IsPaged false src p ps h =
      let blank_ok = make-IsMatrix size width z in
      record {
        keys = h.keys;
        values =
            set-All (IsMatrix size width) ps.values (p / size) _
              (write_row-IsStore false size width src width 0 _ (p % size) (
                get_or-All (IsMatrix size width) ps.values (p / size) (make (size ∷ width ∷ []) z)
                  blank_ok h.values))
              h.values;
        paired = h.paired ∙ sym (length-set ps.values (p / size) _);
        pool = h.pool;
      }

  cell-write_page :
      (on : Bool) (src : ℕ → F) (p p' j : ℕ) (ps : PageStore F)
      → IsPaged size width ps
      → 0 < size
      → p / size < length ps.keys
      → j < width
      → page_cell z size width (stored on (write_page z size width on src p ps)) p' j
        ≡ (if p == p' then src j else page_cell z size width (stored on ps) p' j)
  unfolding write_page
  cell-write_page true src p p' j ps h hs hp hj = cell-page_row ps.keys src p p' j h.keys hs hp hj
  cell-write_page false src p p' j ps h hs hp hj =
      cell-page_row ps.values src p p' j h.values hs (omega (arith, h.paired)) hj

  other-write_page :
      (on : Bool) (src : ℕ → F) (p : ℕ) (ps : PageStore F)
      → stored (not on) (write_page z size width on src p ps) ≡ stored (not on) ps
  unfolding write_page
  other-write_page true src p ps = refl
  other-write_page false src p ps = refl

  -- The loop succeeds, and replaces the rows that have a source and a position.
  pub write_pages-Written :
      (len cur : ℕ) (on : Bool) (src : ℕ → ℕ → F) (r i : ℕ) (ps : PageStore F)
      → 0 < size
      → IsPaged size width ps
      → (ps' : PageStore F) × (write_pages z size len width cur on src r i ps ≡ some ps')
        × Written cur len on (cur + i) (cur + i + r) src ps ps'
  unfolding write_pages
  write_pages-Written len cur on src zero i ps hs h =
      (ps, refl, record { paged = h; rows = λ p j hp hj. ground arith; others = λ p j. refl })
  write_pages-Written len cur on src (suc r) i ps hs h = elim (Bool-cases (ltb (cur + i) len)) [
    | inr full ↦ (
      ps,
      rw (full, write_pages) refl,
      record { paged = h; rows = λ p j hp hj. ground arith; others = λ p j. refl },
    )
    | inl room ↦
        let (ps₁, e₁, h₁, l₁, same) = ensure_page-Grown z size width ((cur + i) / size) ps h in
        let ps₂ = write_page z size width on (src i) (cur + i) ps₁ in
        let h₂ = write_page-IsPaged on (src i) (cur + i) ps₁ h₁ in
        let (ps', e', w) = write_pages-Written len cur on src r (i + 1) ps₂ hs h₂ in
        (
          ps',
          rw (room, write_pages, e₁, write_pages) e',
          record {
            paged = w.paged;
            rows = λ p j hp hj.
                let later : cur + (i + 1) ≡ cur + i + 1 = omega arith in
                w.rows p j hp hj
                ∙ rw (cell-write_page on (src i) (cur + i) p j ps₁ h₁ hs l₁ hj, same on p j, later)
                    (next_row (cur + i) p r (src i j) (src (p - cur) j)
                      (page_cell z size width (stored on ps) p j)
                      (λ e. ap (λ k. src k j) (omega arith)));
            others = λ p j.
                w.others p j
                ∙ ap (λ pages. page_cell z size width pages p j)
                    (other-write_page on (src i) (cur + i) ps₁)
                ∙ same (not on) p j;
          },
        )
  ]
