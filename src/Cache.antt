-- ===== src/Cache.antt =====
-- src/kv_cache.cpp and include/llm/kv_cache.h: KvCache, the keys and values of each layer by
-- position, in one of three layouts: rows by position (AoS), columns by position (SoA), or pages
-- of rows that are allocated when a position of theirs is written. A build without USE_CUDA.
pub mod Cells
pub mod Paging
pub mod Rows
pub mod PageLaws
pub mod PageWrites
pub mod Invariant
pub mod PagedUpdate
pub mod Slices
pub mod Refinement
pub mod Fits
pub mod Clear
pub mod Layouts
pub mod NewCache
pub mod Equivalence
mod Tests
use llm_cpp.Prelude.{
  ℕ, ◌+◌, ◌-◌, min, Bool, true, false, not, ◌||◌, ◌&&◌, Option, none, some, List, [], ◌∷◌, map, ltb,
  leb, ◌==◌, if◌then◌else◌, tests, length, set, get_or, replicate, concat, nat_eq, list_eq, int_eq,
}
use mathlib.Core.Option
use llm_cpp.Tensor.{Tensor, make, fill, put, at, place}
use llm_cpp.Cache.Cells.{write_rows, copy_rows, cell}
use llm_cpp.Cache.Paging.{PageStore, write_pages, copy_pages}
use llm_cpp.Pool.{TensorPool, acquire, release}

pub record CacheConfig : Type 0 where
  pub soa : Bool
  pub paged : Bool
  pub page_size : ℕ

pub record KvCache (F : Type 0) : Type 0 where
  pub n_layers : ℕ
  pub max_seq_len : ℕ
  pub n_embd : ℕ
  pub cfg : CacheConfig
  pub k_cache : List (Tensor F)
  pub v_cache : List (Tensor F)
  pub pages_k : List (List (Tensor F))
  pub pages_v : List (List (Tensor F))
  pub pool : Option (TensorPool F)
  pub cur_len : ℕ

module _ {F : Type 0} where
  -- t.shape[0]
  abbrev pub rows : Tensor F → ℕ
  rows t = get_or t.shape 0 0

  -- Whether all reads of the loops over one of the two tensors, `n` rows of `width` numbers, pass the
  -- assertion of Tensor::operator() and stay inside the tensor, shape[0] included
  unfoldable pub is_readable : Tensor F → ℕ → ℕ → Bool
  is_readable t n width =
      ltb 0 (length t.shape)
      && (n == 0
          || width == 0
          || (length t.shape == 2 && ltb (place t (n - 1) (width - 1)) (length t.cells)))

  abbrev pub reads_ok : KvCache F → Tensor F → Tensor F → Bool
  reads_ok c k v =
      is_readable k (min (rows k) (c.max_seq_len - c.cur_len)) c.n_embd
      && is_readable v (min (rows v) (c.max_seq_len - c.cur_len)) c.n_embd

module _ {F : Type 0} (z : F) where
  -- KVCache::KVCache
  unfoldable pub make_cache : ℕ → ℕ → ℕ → CacheConfig → KvCache F
  make_cache n_layers max_len n_embd cfg =
      let cfg' : CacheConfig = record cfg {
        page_size = if cfg.page_size == 0 then 16 else cfg.page_size;
      } in
      let store : List (Tensor F) =
        if cfg.paged
        then []
        else if cfg.soa
        then replicate n_layers (make (n_embd ∷ max_len ∷ []) z)
        else replicate n_layers (make (max_len ∷ n_embd ∷ []) z) in
      let pages : List (List (Tensor F)) = if cfg.paged then replicate n_layers [] else [] in
      record {
        n_layers = n_layers;
        max_seq_len = max_len;
        n_embd = n_embd;
        cfg = cfg';
        k_cache = store;
        v_cache = store;
        pages_k = pages;
        pages_v = pages;
        pool = none;
        cur_len = 0;
      }

  -- KVCache::update. A layer out of range is ignored; `none` is a failed assertion, in the
  -- pool or on a tensor that is read, or a read outside of it.
  unfoldable pub update_contiguous : KvCache F → ℕ → Tensor F → Tensor F → KvCache F
  update_contiguous c layer k v =
      let store = λ (ts : List (Tensor F)) (src : Tensor F). set ts layer (
        write_rows c.cfg.soa c.max_seq_len c.n_embd c.cur_len (at z src) (rows src) 0
          (get_or ts layer (make [] z))) in
      if ltb layer (length c.k_cache)
      then record c { k_cache = store c.k_cache k; v_cache = store c.v_cache v }
      else c

  unfoldable pub update_paged : KvCache F → ℕ → Tensor F → Tensor F → Option (KvCache F)
  update_paged c layer k v =
      let start : PageStore F = record {
        keys = get_or c.pages_k layer [];
        values = get_or c.pages_v layer [];
        pool = c.pool;
      } in
      elim (write_pages z c.cfg.page_size c.max_seq_len c.n_embd c.cur_len true (at z k) (rows k) 0
        start) [
          | none ↦ none
          | some mid ↦
              elim (write_pages z c.cfg.page_size c.max_seq_len c.n_embd c.cur_len false (at z v)
                (rows v) 0 mid) [
                  | none ↦ none
                  | some end ↦ some (record c {
                    pages_k = set c.pages_k layer end.keys;
                    pages_v = set c.pages_v layer end.values;
                    pool = end.pool;
                  })
                ]
        ]

  unfoldable pub update : KvCache F → ℕ → Tensor F → Tensor F → Option (KvCache F)
  update c layer k v =
      if leb c.n_layers layer
      then some c
      else if c.cfg.paged
      then if reads_ok c k v then update_paged c layer k v else none
      else if ltb layer (length c.k_cache) && not (reads_ok c k v)
      then none
      else some (update_contiguous c layer k v)

  -- KVCache::get_k_slice and get_v_slice, over the stores of one kind
  unfoldable pub get_slice :
      KvCache F → List (Tensor F) → List (List (Tensor F)) → ℕ → Option (Tensor F)
  get_slice c store pages layer =
      let n = min c.cur_len c.max_seq_len in
      let out = make (n ∷ c.n_embd ∷ []) z in
      if c.cfg.paged
      then copy_pages z c.cfg.page_size c.n_embd (get_or pages layer []) n 0 out
      else some (copy_rows c.n_embd (cell z c.cfg.soa (get_or store layer (make [] z))) n 0 out)

  unfoldable pub get_k_slice : KvCache F → ℕ → Option (Tensor F)
  get_k_slice c layer = get_slice c c.k_cache c.pages_k layer

  unfoldable pub get_v_slice : KvCache F → ℕ → Option (Tensor F)
  get_v_slice c layer = get_slice c c.v_cache c.pages_v layer

module _ {F : Type 0} where
  unfoldable pub set_size : KvCache F → ℕ → KvCache F
  set_size c n = record c { cur_len = min n c.max_seq_len }

  unfoldable pub advance : KvCache F → ℕ → KvCache F
  advance c n = record c { cur_len = min (c.cur_len + n) c.max_seq_len }

  unfoldable set_pool : KvCache F → Option (TensorPool F) → KvCache F
  set_pool c p = record c { pool = p }

  unfoldable pub release_all : TensorPool F → List (Tensor F) → TensorPool F
  release_all p [] = p
  release_all p (t ∷ ts) = release_all (release p t) ts

  -- KVCache::evict
  unfoldable pub evict : KvCache F → KvCache F
  evict c = record c {
    pages_k = map (λ pl. []) c.pages_k;
    pages_v = map (λ pl. []) c.pages_v;
    pool =
        Option.map (λ p. release_all (release_all p (concat c.pages_k)) (concat c.pages_v)) c.pool;
  }

  -- KVCache::clear
  unfoldable pub clear : F → KvCache F → KvCache F
  unfolding evict
  clear z c = evict (record c {
    cur_len = 0;
    k_cache = map (λ t. fill t z) c.k_cache;
    v_cache = map (λ t. fill t z) c.v_cache;
  })

  -- KVCache::num_pages
  unfoldable num_pages : KvCache F → ℕ → ℕ
  num_pages c layer =
      if not c.cfg.paged || leb (length c.pages_k) layer
      then 0
      else length (get_or c.pages_k layer [])
