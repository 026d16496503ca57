-- ===== src/Cache/Clear.antt =====
-- src/kv_cache.cpp, `clear`, and blank stores in every layout.
use llm_cpp.Prelude.{
  ℕ, zero, suc, ◌%◌, ◌≡◌, refl, sym, ap, ◌∙◌, Bool, true, false, Option, none, some, List, [], ◌∷◌,
  map, length, get_or, replicate, length-map, concat, All, nat_eq, list_eq, int_eq,
}
use mathlib.Core.Option
use llm_cpp.Tensor.{Tensor, make, fill}
use llm_cpp.Tensor.Matrix.{fill-IsMatrix, at-make, at-fill}
use llm_cpp.Pool.{TensorPool, release}
use llm_cpp.Pool.Recycling.{IsSound, release-IsSound}
use llm_cpp.Cache.Cells.{cell}
use llm_cpp.Cache.Rows.{IsStore}
use llm_cpp.Cache.PageLaws.{PoolIsSound, page_cell}
use llm_cpp.Cache.{KvCache, release_all, evict, clear}
use llm_cpp.Cache.Invariant.{IsFlat, IsPagedCache, flat_content, paged_content}

get_or-map {ℓ} :
    {A : Type ℓ} {B : Type ℓ} (f : A → B) (xs : List A) (i : ℕ) (d : A)
    → get_or (map f xs) i (f d) ≡ f (get_or xs i d)
get_or-map f [] i d = refl
get_or-map f (x ∷ xs) zero d = refl
get_or-map f (x ∷ xs) (suc i) d = get_or-map f xs i d

All-map {ℓ κ} :
    {A : Type ℓ} (P : A → Type κ) (f : A → A) (xs : List A)
    → ((x : A) → P x → P (f x))
    → All P xs
    → All P (map f xs)
All-map P f [] g h = h
All-map P f (x ∷ xs) g h = (g x h.0, All-map P f xs g h.1)

pub All-replicate {ℓ κ} :
    {A : Type ℓ} (P : A → Type κ) (n : ℕ) (x : A) → P x → All P (replicate n x)
All-replicate P zero x p = tt
All-replicate P (suc n) x p = (p, All-replicate P n x p)

module _ {F : Type 0} where
  release_all-IsSound :
      (p : TensorPool F) (ts : List (Tensor F)) → IsSound p → IsSound (release_all p ts)
  unfolding release_all
  release_all-IsSound p [] h = h
  release_all-IsSound p (t ∷ ts) h = release_all-IsSound (release p t) ts (release-IsSound p t h)

  fill-IsStore :
      (soa : Bool) (len width : ℕ) (z : F) (t : Tensor F)
      → IsStore soa len width t
      → IsStore soa len width (fill t z)
  fill-IsStore true len width z t h = fill-IsMatrix width len t z h
  fill-IsStore false len width z t h = fill-IsMatrix len width t z h

  cell-fill : (z : F) (soa : Bool) (t : Tensor F) (p j : ℕ) → cell z soa (fill t z) p j ≡ z
  cell-fill z true t p j = at-fill z t j p
  cell-fill z false t p j = at-fill z t p j

  pub cell-blank :
      (z : F) (soa : Bool) (shape : List ℕ) (p j : ℕ) → cell z soa (make shape z) p j ≡ z
  cell-blank z true shape p j = at-make z shape j p
  cell-blank z false shape p j = at-make z shape p j

module _ {F : Type 0} (z : F) where
  emptied :
      (ps : List (List (Tensor F))) (l : ℕ)
      → get_or {A = List (Tensor F)} (map (λ pl. []) ps) l [] ≡ []
  emptied ps l = get_or-map (λ pl. []) ps l []

  pool_after :
      (o : Option (TensorPool F)) (ks vs : List (Tensor F))
      → PoolIsSound o
      → PoolIsSound (Option.map (λ p. release_all (release_all p ks) vs) o)
  pool_after none ks vs h = h
  pool_after (some p) ks vs h =
      release_all-IsSound (release_all p ks) vs (release_all-IsSound p ks h)

  pub clear-IsFlat : (c : KvCache F) → IsFlat c → IsFlat (clear z c)
  unfolding clear evict
  clear-IsFlat c h =
      let ok = IsStore c.cfg.soa c.max_seq_len c.n_embd in
      record {
        flat = h.flat;
        keys =
            All-map ok (λ t. fill t z) c.k_cache (fill-IsStore c.cfg.soa c.max_seq_len c.n_embd z)
              h.keys;
        values =
            All-map ok (λ t. fill t z) c.v_cache (fill-IsStore c.cfg.soa c.max_seq_len c.n_embd z)
              h.values;
        layers = (
          length-map c.k_cache (λ t. fill t z) ∙ h.layers.0,
          length-map c.v_cache (λ t. fill t z) ∙ h.layers.1,
        );
      }

  pub clear-IsPagedCache : (c : KvCache F) → IsPagedCache c → IsPagedCache (clear z c)
  unfolding clear evict
  clear-IsPagedCache c h = record {
    is_paged = h.is_paged;
    size = h.size;
    pages = λ l. record {
      keys = rw (emptied c.pages_k l) tt;
      values = rw (emptied c.pages_v l) tt;
      paired = ap length (emptied c.pages_k l) ∙ ap length (sym (emptied c.pages_v l));
      pool = pool_after c.pool (concat c.pages_k) (concat c.pages_v) (h.pages l).pool;
    };
    layers = (
      length-map c.pages_k (λ pl. []) ∙ h.layers.0,
      length-map c.pages_v (λ pl. []) ∙ h.layers.1,
    );
  }

  filled :
      (soa : Bool) (ts : List (Tensor F)) (l p j : ℕ)
      → cell z soa (get_or (map (λ t. fill t z) ts) l (make [] z)) p j ≡ z
  filled soa [] l p j = cell-blank z soa [] p j
  filled soa (t ∷ ts) zero p j = cell-fill z soa t p j
  filled soa (t ∷ ts) (suc l) p j = filled soa ts l p j

  pub clear-flat : (c : KvCache F) (on : Bool) (l p j : ℕ) → flat_content z (clear z c) on l p j ≡ z
  unfolding clear evict
  clear-flat c true l p j = filled c.cfg.soa c.k_cache l p j
  clear-flat c false l p j = filled c.cfg.soa c.v_cache l p j

  pub blank_page : (size width p j : ℕ) → page_cell z size width [] p j ≡ z
  blank_page size width p j = at-make z (size ∷ width ∷ []) (p % size) j

  pub clear-paged :
      (c : KvCache F) (on : Bool) (l p j : ℕ) → paged_content z (clear z c) on l p j ≡ z
  unfolding clear evict
  clear-paged c true l p j = rw (emptied c.pages_k l) (blank_page c.cfg.page_size c.n_embd p j)
  clear-paged c false l p j = rw (emptied c.pages_v l) (blank_page c.cfg.page_size c.n_embd p j)
