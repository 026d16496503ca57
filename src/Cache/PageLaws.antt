-- ===== src/Cache/PageLaws.antt =====
-- src/kv_cache.cpp, pages and their growth: `add_pages` and `ensure_page`.
use llm_cpp.Prelude.{
  ℕ, zero, suc, ◌+◌, ◌-◌, ◌/◌, ◌%◌, ◌<◌, ◌≡◌, refl, ap, ◌∙◌, Bool, true, false, ◌&&◌, Option, none,
  some, List, [], ◌∷◌, ◌++◌, arith, ◌==◌, length, set, length-append, get_or, All, All-append,
  nat_eq, list_eq, int_eq,
}
use native.Mathlib.Nat.{div-add-mod}
use llm_cpp.Tensor.{Tensor, make, at}
use llm_cpp.Tensor.Matrix.{IsMatrix, make-IsMatrix}
use llm_cpp.Pool.{TensorPool}
use llm_cpp.Pool.Recycling.{IsSound, acquire-make}
use llm_cpp.Cache.Paging.{PageStore, new_page, add_pages, ensure_page, page_at}

module _ {F : Type 0} where
  abbrev pub PoolIsSound : Option (TensorPool F) → Type 0
  PoolIsSound none = Unit {0}
  PoolIsSound (some p) = IsSound p

  -- Pages of one size, as many of keys as of values.
  pub record IsPaged (size width : ℕ) (ps : PageStore F) : Type 0 where
    pub keys : All (IsMatrix size width) ps.keys
    pub values : All (IsMatrix size width) ps.values
    pub paired : length ps.keys ≡ length ps.values
    pub pool : PoolIsSound ps.pool

  abbrev pub stored : Bool → PageStore F → List (Tensor F)
  stored true ps = ps.keys
  stored false ps = ps.values

get_or-append_default {ℓ} :
    {A : Type ℓ} (xs : List A) (i : ℕ) (d : A) → get_or (xs ++ d ∷ []) i d ≡ get_or xs i d
get_or-append_default [] zero d = refl
get_or-append_default [] (suc i) d = refl
get_or-append_default (x ∷ xs) zero d = refl
get_or-append_default (x ∷ xs) (suc i) d = get_or-append_default xs i d

pub get_or-All {ℓ κ} :
    {A : Type ℓ} (P : A → Type κ) (xs : List A) (i : ℕ) (d : A) → P d → All P xs → P (get_or xs i d)
get_or-All P [] i d hd h = hd
get_or-All P (x ∷ xs) zero d hd h = h.0
get_or-All P (x ∷ xs) (suc i) d hd h = get_or-All P xs i d hd h.1

pub set-All {ℓ κ} :
    {A : Type ℓ} (P : A → Type κ) (xs : List A) (i : ℕ) (v : A)
    → P v
    → All P xs
    → All P (set xs i v)
set-All P [] i v hv h = tt
set-All P (x ∷ xs) zero v hv h = (hv, h.1)
set-All P (x ∷ xs) (suc i) v hv h = (h.0, set-All P xs i v hv h.1)

eq_of_div_mod : (s p q : ℕ) → p / s ≡ q / s → p % s ≡ q % s → p ≡ q
eq_of_div_mod s p q d m = grind (arith, div-add-mod)

pub same_page : (s p q : ℕ) → 0 < s → (p / s == q / s && p % s == q % s) ≡ (p == q)
same_page s p q h = ground (arith, eq_of_div_mod s p q, ap (λ k. k / s), ap (λ k. k % s))

module _ {F : Type 0} (z : F) (size width : ℕ) where
  -- The cell of a position; a page that is not there reads as zeros.
  abbrev pub page_cell : List (Tensor F) → ℕ → ℕ → F
  page_cell pages p j = at z (page_at z size width pages (p / size)) (p % size) j

  new_page-make :
      (pool : Option (TensorPool F))
      → PoolIsSound pool
      → (pool' : Option (TensorPool F)) × (new_page z size width pool
          ≡ some (make (size ∷ width ∷ []) z, pool'))
        × PoolIsSound pool'
  unfolding new_page
  new_page-make none h = (none, refl, tt)
  new_page-make (some p) h =
      let (q, e, s, c) = acquire-make z p (size ∷ width ∷ []) h in (some q, rw e refl, s)

  -- More pages read as before.
  record Grown (n : ℕ) (ps ps' : PageStore F) : Type 0 where
    pub paged : IsPaged size width ps'
    pub more : length ps'.keys ≡ length ps.keys + n
    pub same : (on : Bool) (p j : ℕ) → page_cell (stored on ps') p j ≡ page_cell (stored on ps) p j

  abbrev blank : Tensor F
  blank = make (size ∷ width ∷ []) z

  grow_one :
      (ps : PageStore F) (pool : Option (TensorPool F))
      → IsPaged size width ps
      → PoolIsSound pool
      → Grown 1 ps
          (record { keys = ps.keys ++ blank ∷ []; values = ps.values ++ blank ∷ []; pool = pool })
  grow_one ps pool h s =
      let fresh = make-IsMatrix size width z in
      record {
        paged = record {
          keys = All-append (IsMatrix size width) ps.keys (blank ∷ []) h.keys (fresh, tt);
          values = All-append (IsMatrix size width) ps.values (blank ∷ []) h.values (fresh, tt);
          paired = omega (
            arith,
            length-append ps.keys (blank ∷ []),
            length-append ps.values (blank ∷ []),
            h.paired,
          );
          pool = s;
        };
        more = length-append ps.keys (blank ∷ []);
        same = λ on.
            elim on as (λ b. (p j : ℕ) → page_cell (stored b _) p j ≡ page_cell (stored b ps) p j) [
              | true ↦ λ p j.
                  ap (λ t. at z t (p % size) j) (get_or-append_default ps.keys (p / size) blank)
              | false ↦ λ p j.
                  ap (λ t. at z t (p % size) j) (get_or-append_default ps.values (p / size) blank)
            ];
      }

  add_pages-Grown :
      (n : ℕ) (ps : PageStore F)
      → IsPaged size width ps
      → (ps' : PageStore F) × (add_pages z size width n ps ≡ some ps') × Grown n ps ps'
  unfolding add_pages
  add_pages-Grown zero ps h =
      (ps, refl, record { paged = h; more = omega arith; same = λ on p j. refl })
  add_pages-Grown (suc n) ps h =
      let (pool, e, s) = new_page-make ps.pool h.pool in
      let (pool', e', s') = new_page-make pool s in
      let one = grow_one ps pool' h s' in
      let (ps', e'', g) = add_pages-Grown n _ one.paged in
      (
        ps',
        rw (e, add_pages, e', add_pages) e'',
        record {
          paged = g.paged;
          more = omega (arith, g.more, one.more);
          same = λ on p j. g.same on p j ∙ one.same on p j;
        },
      )

  pub ensure_page-Grown :
      (page : ℕ) (ps : PageStore F)
      → IsPaged size width ps
      → (ps' : PageStore F) × (ensure_page z size width page ps ≡ some ps')
        × IsPaged size width ps'
        × (page < length ps'.keys)
        × ((on : Bool) (p j : ℕ) → page_cell (stored on ps') p j ≡ page_cell (stored on ps) p j)
  unfolding ensure_page
  ensure_page-Grown page ps h =
      let (ps', e, g) = add_pages-Grown (page + 1 - length ps.keys) ps h in
      (ps', e, g.paged, omega (arith, g.more), g.same)
