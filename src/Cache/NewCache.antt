-- ===== src/Cache/NewCache.antt =====
-- src/kv_cache.cpp, the constructor, against the empty abstract cache.
use llm_cpp.Prelude.{
  ℕ, zero, suc, ◌<◌, ◌≡◌, refl, ap, ◌∙◌, inl, inr, Bool, true, false, List, [], arith, ◌==◌,
  if◌then◌else◌, get_or, replicate, length-replicate, nat_eq, list_eq, int_eq,
}
use llm_cpp.Tensor.{Tensor, make}
use llm_cpp.Tensor.Matrix.{make-IsMatrix, get_or-replicate}
use llm_cpp.Cache.Cells.{cell}
use llm_cpp.Cache.Rows.{IsStore}
use llm_cpp.Cache.{CacheConfig, make_cache}
use llm_cpp.Cache.Invariant.{IsFlat, IsPagedCache, flat_content, paged_content}
use llm_cpp.Cache.Refinement.{Refines, content_of-flat, content_of-paged}
use llm_cpp.Cache.Clear.{All-replicate, cell-blank, blank_page}
use llm_cpp.Cache.Layouts.{empty_spec}

module _ {F : Type 0} (z : F) where
  module _ (n_layers max_len n_embd : ℕ) where
    no_pages : (n l : ℕ) → get_or {A = List (Tensor F)} (replicate n []) l [] ≡ []
    no_pages n l = get_or-replicate n l []

    page_sized-pos : (n : ℕ) → 0 < (if n == 0 then 16 else n)
    page_sized-pos n = ground arith

    make_cache-IsPagedCache :
        (size : ℕ) (soa : Bool)
        → IsPagedCache (
            make_cache z n_layers max_len n_embd
              (record { soa = soa; paged = true; page_size = size }))
    unfolding make_cache
    make_cache-IsPagedCache size soa = record {
      is_paged = refl;
      size = page_sized-pos size;
      pages = λ l. record {
        keys = rw (no_pages n_layers l) tt;
        values = rw (no_pages n_layers l) tt;
        paired = refl;
        pool = tt;
      };
      layers = (length-replicate n_layers [], length-replicate n_layers []);
    }

    make_cache-IsFlat :
        (size : ℕ) (soa : Bool)
        → IsFlat (
            make_cache z n_layers max_len n_embd
              (record { soa = soa; paged = false; page_size = size }))
    unfolding make_cache
    make_cache-IsFlat size true = record {
      flat = refl;
      keys =
          All-replicate (IsStore true max_len n_embd) n_layers _ (make-IsMatrix n_embd max_len z);
      values =
          All-replicate (IsStore true max_len n_embd) n_layers _ (make-IsMatrix n_embd max_len z);
      layers = (length-replicate n_layers _, length-replicate n_layers _);
    }
    make_cache-IsFlat size false = record {
      flat = refl;
      keys =
          All-replicate (IsStore false max_len n_embd) n_layers _ (make-IsMatrix max_len n_embd z);
      values =
          All-replicate (IsStore false max_len n_embd) n_layers _ (make-IsMatrix max_len n_embd z);
      layers = (length-replicate n_layers _, length-replicate n_layers _);
    }

    make-sizes :
        (cfg : CacheConfig)
        → let c = make_cache z n_layers max_len n_embd cfg in
          (c.n_layers ≡ n_layers) × (c.max_seq_len ≡ max_len) × (c.n_embd ≡ n_embd)
    unfolding make_cache
    make-sizes cfg = (refl, refl, refl)

    make-len : (cfg : CacheConfig) → (make_cache z n_layers max_len n_embd cfg).cur_len ≡ 0
    unfolding make_cache
    make-len cfg = refl

    blank_store :
        (soa : Bool) (shape : List ℕ) (n l p j : ℕ)
        → cell z soa (get_or (replicate n (make shape z)) l (make [] z)) p j ≡ z
    blank_store soa shape zero l p j = cell-blank z soa [] p j
    blank_store soa shape (suc n) zero p j = cell-blank z soa shape p j
    blank_store soa shape (suc n) (suc l) p j = blank_store soa shape n l p j

    blank_flat :
        (on soa : Bool) (size l p j : ℕ)
        → flat_content z
            (make_cache z n_layers max_len n_embd
              (record { soa = soa; paged = false; page_size = size }))
            on
            l
            p
            j
          ≡ z
    unfolding make_cache
    blank_flat true true size l p j = blank_store true _ n_layers l p j
    blank_flat false true size l p j = blank_store true _ n_layers l p j
    blank_flat true false size l p j = blank_store false _ n_layers l p j
    blank_flat false false size l p j = blank_store false _ n_layers l p j

    blank_pages :
        (on soa : Bool) (size l p j : ℕ)
        → paged_content z
            (make_cache z n_layers max_len n_embd
              (record { soa = soa; paged = true; page_size = size }))
            on
            l
            p
            j
          ≡ z
    unfolding make_cache
    blank_pages true soa size l p j = rw (no_pages n_layers l) (blank_page z _ n_embd p j)
    blank_pages false soa size l p j = rw (no_pages n_layers l) (blank_page z _ n_embd p j)

    pub make-Refines :
        (cfg : CacheConfig)
        → Refines z n_layers max_len n_embd
            (make_cache z n_layers max_len n_embd cfg)
            (empty_spec z)
    make-Refines cfg = go cfg.paged cfg.soa cfg.page_size
      where
        go :
            (paged soa : Bool) (size : ℕ)
            → Refines z n_layers max_len n_embd
                (make_cache z n_layers max_len n_embd
                  (record { soa = soa; paged = paged; page_size = size }))
                (empty_spec z)
        go false soa size = record {
          valid = inl (make_cache-IsFlat size soa);
          sizes = make-sizes _;
          len = (make-len _, omega arith);
          holds = λ on l p j hl hp hj.
              ap (λ g. g on l p j) (content_of-flat z _ (make_cache-IsFlat size soa).flat)
              ∙ blank_flat on soa size l p j;
        }
        go true soa size = record {
          valid = inr (make_cache-IsPagedCache size soa);
          sizes = make-sizes _;
          len = (make-len _, omega arith);
          holds = λ on l p j hl hp hj.
              ap (λ g. g on l p j)
                (content_of-paged z _ (make_cache-IsPagedCache size soa).is_paged)
              ∙ blank_pages on soa size l p j;
        }
