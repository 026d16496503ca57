-- ===== src/Cache/Rows.antt =====
-- src/kv_cache.cpp, the row loops: `write_row`, `write_rows`, `copy_rows`.
use llm_cpp.Prelude.{
  ℕ, zero, suc, ◌+◌, ◌-◌, ◌≤◌, ◌<◌, ◌≡◌, ap, ◌∙◌, inl, inr, Bool, true, false, ◌&&◌, arith, ltb,
  leb, ◌==◌, if◌then◌else◌, ltb→lt, Bool-cases, nat_eq, list_eq, int_eq,
}
use llm_cpp.Tensor.{Tensor, at}
use llm_cpp.Tensor.Matrix.{IsMatrix, put-IsMatrix, at-put}
use llm_cpp.Cache.Cells.{put_cell, write_row, write_rows, copy_rows, cell}

module _ {F : Type 0} where
  -- A store of `len` positions with `width` cells each.
  abbrev pub IsStore : Bool → ℕ → ℕ → Tensor F → Type 0
  IsStore soa len width t = if soa then IsMatrix width len t else IsMatrix len width t

  put_cell-IsStore :
      (soa : Bool) (len width : ℕ) (t : Tensor F) (p j : ℕ) (v : F)
      → IsStore soa len width t
      → IsStore soa len width (put_cell soa t p j v)
  put_cell-IsStore true len width t p j v h = put-IsMatrix width len t j p v h
  put_cell-IsStore false len width t p j v h = put-IsMatrix len width t p j v h

  pub write_row-IsStore :
      (soa : Bool) (len width : ℕ) (src : ℕ → F) (n j : ℕ) (t : Tensor F) (p : ℕ)
      → IsStore soa len width t
      → IsStore soa len width (write_row soa src n j t p)
  unfolding write_row
  write_row-IsStore soa len width src zero j t p h = h
  write_row-IsStore soa len width src (suc n) j t p h =
      write_row-IsStore soa len width src n (j + 1) (put_cell soa t p j (src j)) p
        (put_cell-IsStore soa len width t p j (src j) h)

  -- The first row of the rest joins the rows behind it.
  pub next_row :
      (i p r : ℕ) (a b c : F)
      → (i ≡ p → a ≡ b)
      → (if leb (i + 1) p && ltb p (i + 1 + r) then b else if i == p then a else c)
        ≡ (if leb i p && ltb p (i + suc r) then b else c)
  next_row i p r a b c same = ground arith

  module _ (z : F) where
    cell-put_cell :
        (soa : Bool) (len width : ℕ) (t : Tensor F) (p j p' j' : ℕ) (v : F)
        → IsStore soa len width t
        → p < len
        → j < width
        → p' < len
        → j' < width
        → cell z soa (put_cell soa t p j v) p' j'
          ≡ (if p == p' && j == j' then v else cell z soa t p' j')
    cell-put_cell true len width t p j p' j' v h hp hj hp' hj' =
        ground (arith, at-put z width len t j p j' p' v h)
    cell-put_cell false len width t p j p' j' v h hp hj hp' hj' =
        at-put z len width t p j p' j' v h hp hj hj'

    write_row_from :
        (soa : Bool) (len width : ℕ) (src : ℕ → F) (n j : ℕ) (t : Tensor F) (p p' j' : ℕ)
        → IsStore soa len width t
        → p < len
        → j + n ≤ width
        → p' < len
        → j' < width
        → cell z soa (write_row soa src n j t p) p' j'
          ≡ (if p == p' && leb j j' && ltb j' (j + n) then src j' else cell z soa t p' j')
    unfolding write_row
    write_row_from soa len width src zero j t p p' j' h hp hn hp' hj' = ground arith
    write_row_from soa len width src (suc n) j t p p' j' h hp hn hp' hj' =
        write_row_from soa len width src n (j + 1) (put_cell soa t p j (src j)) p p' j'
          (put_cell-IsStore soa len width t p j (src j) h) hp (omega arith) hp' hj'
        ∙ rw (cell-put_cell soa len width t p j p' j' (src j) h hp (omega arith) hp' hj')
            (ground arith)

    -- One row is replaced, from its source.
    pub cell-write_row :
        (soa : Bool) (len width : ℕ) (src : ℕ → F) (t : Tensor F) (p p' j : ℕ)
        → IsStore soa len width t
        → p < len
        → p' < len
        → j < width
        → cell z soa (write_row soa src width 0 t p) p' j
          ≡ (if p == p' then src j else cell z soa t p' j)
    cell-write_row soa len width src t p p' j h hp hp' hj =
        write_row_from soa len width src width 0 t p p' j h hp (omega arith) hp' hj ∙ ground arith

    pub write_rows-IsStore :
        (soa : Bool) (len width cur : ℕ) (src : ℕ → ℕ → F) (r i : ℕ) (t : Tensor F)
        → IsStore soa len width t
        → IsStore soa len width (write_rows soa len width cur src r i t)
    unfolding write_rows
    write_rows-IsStore soa len width cur src zero i t h = h
    write_rows-IsStore soa len width cur src (suc r) i t h = elim (Bool-cases (ltb (cur + i) len)) [
      | inr full ↦ rw full h
      | inl room ↦ rw room (
          write_rows-IsStore soa len width cur src r (i + 1)
            (write_row soa (src i) width 0 t (cur + i))
            (write_row-IsStore soa len width (src i) width 0 t (cur + i) h))
    ]

    -- The rows from `cur + i` on are replaced, as far as there are sources and positions.
    pub cell-write_rows :
        (soa : Bool) (len width cur : ℕ) (src : ℕ → ℕ → F) (r i : ℕ) (t : Tensor F) (p j : ℕ)
        → IsStore soa len width t
        → p < len
        → j < width
        → cell z soa (write_rows soa len width cur src r i t) p j
          ≡ (if leb (cur + i) p && ltb p (cur + i + r) then src (p - cur) j else cell z soa t p j)
    unfolding write_rows
    cell-write_rows soa len width cur src zero i t p j h hp hj = ground arith
    cell-write_rows soa len width cur src (suc r) i t p j h hp hj =
        let u = write_row soa (src i) width 0 t (cur + i) in
        let later : cur + (i + 1) ≡ cur + i + 1 = omega arith in
        elim (Bool-cases (ltb (cur + i) len)) [
          | inr full ↦ rw full (ground arith)
          | inl room ↦ rw room (
              cell-write_rows soa len width cur src r (i + 1) u p j
                (write_row-IsStore soa len width (src i) width 0 t (cur + i) h) hp hj
              ∙ rw
                  (
                    cell-write_row soa len width (src i) t (cur + i) p j h (ltb→lt _ _ room) hp hj,
                    later,
                  )
                  (next_row (cur + i) p r (src i j) (src (p - cur) j) (cell z soa t p j)
                    (λ e. ap (λ k. src k j) (omega arith))))
        ]

    -- A copy holds what is read.
    pub cell-copy_rows :
        (len width : ℕ) (read : ℕ → ℕ → F) (n i : ℕ) (t : Tensor F) (p j : ℕ)
        → IsMatrix len width t
        → i + n ≤ len
        → p < len
        → j < width
        → at z (copy_rows width read n i t) p j
          ≡ (if leb i p && ltb p (i + n) then read p j else at z t p j)
    unfolding copy_rows
    cell-copy_rows len width read zero i t p j h hn hp hj = ground arith
    cell-copy_rows len width read (suc n) i t p j h hn hp hj =
        cell-copy_rows len width read n (i + 1) (write_row false (read i) width 0 t i) p j
          (write_row-IsStore false len width (read i) width 0 t i h) (omega arith) hp hj
        ∙ rw (cell-write_row false len width (read i) t i p j h (omega arith) hp hj)
            (next_row i p n (read i j) (read p j) (at z t p j) (λ e. ap (λ k. read k j) e))
