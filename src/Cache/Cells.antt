-- ===== src/Cache/Cells.antt =====
-- src/kv_cache.cpp, the loops over one tensor: rows by position, or columns by position.
use llm_cpp.Prelude.{ℕ, zero, suc, ◌+◌, Bool, false, ltb, if◌then◌else◌, nat_eq, list_eq, int_eq}
use llm_cpp.Tensor.{Tensor, put, at}

module _ {F : Type 0} where
  -- A write and a read at a position: `soa` swaps the two indices.
  abbrev pub put_cell : Bool → Tensor F → ℕ → ℕ → F → Tensor F
  put_cell soa t p j v = if soa then put t j p v else put t p j v

  -- for (j ...) cell(p, j) = src(j), with the rounds that are left
  unfoldable pub write_row : Bool → (ℕ → F) → ℕ → ℕ → Tensor F → ℕ → Tensor F
  write_row soa src zero j t p = t
  write_row soa src (suc n) j t p = write_row soa src n (j + 1) (put_cell soa t p j (src j)) p

  -- for (i ...; cur_len_ + i < max_seq_len_) of `update`, contiguous layouts
  unfoldable pub write_rows : Bool → ℕ → ℕ → ℕ → (ℕ → ℕ → F) → ℕ → ℕ → Tensor F → Tensor F
  write_rows soa max_len n_embd cur src zero i t = t
  write_rows soa max_len n_embd cur src (suc r) i t =
      let rest =
        write_rows soa max_len n_embd cur src r (i + 1)
          (write_row soa (src i) n_embd 0 t (cur + i)) in
      if ltb (cur + i) max_len then rest else t

  -- for (i ...) for (j ...) out(i, j) = read(i, j), with the rows that are left
  unfoldable pub copy_rows : ℕ → (ℕ → ℕ → F) → ℕ → ℕ → Tensor F → Tensor F
  copy_rows n_embd read zero i out = out
  copy_rows n_embd read (suc n) i out =
      copy_rows n_embd read n (i + 1) (write_row false (read i) n_embd 0 out i)

  -- A read at a position.
  abbrev pub cell : F → Bool → Tensor F → ℕ → ℕ → F
  cell z soa t p j = if soa then at z t j p else at z t p j
