-- ===== src/Cache/Tests.antt =====
-- A paged cache and one by columns after the same operations.
use llm_cpp.Prelude.{
  ℕ, ◌≡◌, refl, true, false, none, some, List, [], ◌∷◌, arith, nat_eq, list_eq, int_eq,
}
use llm_cpp.Tensor.{numel, compute_strides, Tensor, DType, at, make, put}
use llm_cpp.Cache.{
  copy_rows, write_rows, copy_pages, write_pages, CacheConfig, KvCache, make_cache, is_readable,
  update, update_paged, update_contiguous, get_k_slice, get_slice, advance,
}
use llm_cpp.Cache.Cells.{write_row, write_rows, copy_rows}
use llm_cpp.Cache.Paging.{write_pages, write_page, ensure_page, add_pages, new_page, copy_pages}
use llm_cpp.Tensor.Matrix.{IsMatrix}
use llm_cpp.Cache.Slices.{slice}
use llm_cpp.Cache.Refinement.{Op, step, Refines}
use llm_cpp.Cache.Layouts.{run, spec_run, empty_spec}
use llm_cpp.Cache.Equivalence.{run-make_cache, slice-spec_run, layouts_agree}

abbrev by_page : CacheConfig
by_page = record { soa = false; paged = true; page_size = 2 }

abbrev by_column : CacheConfig
by_column = record { soa = true; paged = false; page_size = 0 }

-- One row with the numbers 7 and 8
abbrev row : Tensor ℕ
row = record { shape = 1 ∷ 2 ∷ []; strides = 2 ∷ 1 ∷ []; cells = 7 ∷ 8 ∷ []; dtype = DType.f32 }

abbrev ops : List (Op ℕ)
ops = Op.updates 0 row row ∷ Op.advances 1 ∷ []

abbrev page : Tensor ℕ
page = record {
  shape = 2 ∷ 2 ∷ [];
  strides = 2 ∷ 1 ∷ [];
  cells = 7 ∷ 8 ∷ 0 ∷ 0 ∷ [];
  dtype = DType.f32;
}

abbrev columns : Tensor ℕ
columns = record {
  shape = 2 ∷ 4 ∷ [];
  strides = 4 ∷ 1 ∷ [];
  cells = 7 ∷ 0 ∷ 0 ∷ 0 ∷ 8 ∷ 0 ∷ 0 ∷ 0 ∷ [];
  dtype = DType.f32;
}

abbrev paged : KvCache ℕ
paged = record {
  n_layers = 1;
  max_seq_len = 4;
  n_embd = 2;
  cfg = by_page;
  k_cache = [];
  v_cache = [];
  pages_k = (page ∷ []) ∷ [];
  pages_v = (page ∷ []) ∷ [];
  pool = none;
  cur_len = 1;
}

abbrev contiguous : KvCache ℕ
contiguous = record {
  n_layers = 1;
  max_seq_len = 4;
  n_embd = 2;
  cfg = record { soa = true; paged = false; page_size = 16 };
  k_cache = columns ∷ [];
  v_cache = columns ∷ [];
  pages_k = [];
  pages_v = [];
  pool = none;
  cur_len = 1;
}

run-paged : run 0 (make_cache 0 1 4 2 by_page) ops ≡ some paged
unfolding run step update is_readable update_paged advance make_cache write_pages ensure_page
    add_pages new_page write_page write_row make numel compute_strides put at
run-paged = refl

run-contiguous : run 0 (make_cache 0 1 4 2 by_column) ops ≡ some contiguous
unfolding run step update is_readable update_contiguous advance make_cache write_rows write_row make
    numel compute_strides put at
run-contiguous = refl

-- A row that is too narrow is read outside: no result.
narrow : run 0 (make_cache 0 1 4 3 by_page) ops ≡ none
unfolding run step update is_readable make_cache
narrow = refl

slice-of_paged : slice 0 paged true 0 ≡ some row
unfolding get_k_slice get_slice copy_pages write_row make numel compute_strides put at
slice-of_paged = refl

slice-of_contiguous : slice 0 contiguous true 0 ≡ some row
unfolding get_k_slice get_slice copy_rows write_row make numel compute_strides put at
slice-of_contiguous = refl

run-make_cache_example :
    (c : KvCache ℕ) × (run 0 (make_cache 0 1 4 2 by_page) ops ≡ some c)
    × Refines 0 1 4 2 c (spec_run 0 1 4 (empty_spec 0) ops)
run-make_cache_example =
    let fits : IsMatrix 1 2 row = record {
      shape = refl;
      strides = refl;
      size = refl;
      dtype = refl;
    } in
    run-make_cache 0 1 4 2 by_page ops ((fits, fits), (tt, tt))

slice-spec_run_example : at 0 row 0 1 ≡ (spec_run 0 1 4 (empty_spec 0) ops).content true 0 0 1
slice-spec_run_example =
    slice-spec_run 0 1 4 2 by_page ops paged run-paged true 0 row 0 1 slice-of_paged (omega arith)
      (omega arith) (omega arith)

layouts_agree_example : (paged.cur_len ≡ contiguous.cur_len) × (at 0 row 0 1 ≡ at 0 row 0 1)
layouts_agree_example =
    layouts_agree 0 1 4 2 by_page by_column ops paged contiguous true 0 row row 0 1 run-paged
      run-contiguous slice-of_paged slice-of_contiguous (omega arith) (omega arith) (omega arith)
