-- ===== src/Tensor/Sparse.antt =====
-- src/tensor.cpp, matmul_sparse: the lists of the entries that are not zero, and the product with them.
pub mod Agreement
use llm_cpp.Prelude.{
  if-Cases, if-Both, ℕ, zero, suc, ◌+◌, ◌-◌, ◌*◌, ◌/◌, ◌%◌, ◌^◌, ◌≤◌, ◌<◌, min, max, ◌≡◌, refl, sym,
  ap, ap₂, ◌∙◌, subst, fun_ext, ◌≢◌, ◌↔◌, ◌⊎◌, inl, inr, Bool, true, false, not, ◌&&◌, ◌||◌, Option,
  none, some, List, [], ◌∷◌, ◌++◌, map, append_assoc, append-nil, arith, dec_lt, ℕ_discrete, ltb,
  leb, ◌==◌, if◌then◌else◌, ltb→lt, lt→ltb, leb→le, ==_iff, tests, Bool-cases, Option-cases, length,
  get_elem?, set, length-append, length-set, get_elem?-set_self, get_elem?-set_ne, get_or, take,
  drop, replicate, take-append-drop, length-take, length-drop, length-replicate, length-map,
  get_elem?-append_left, get_elem?-append_right, take-length, drop-length, concat, concat-append,
  All, All-append, All-mono, Eq, ◌=?◌, nat_eq, list_beq, list_eq, list_beq_iff, beq_refl, beq_eq,
  find, insert, find-insert, length-insert_new, length-insert-le, ℤ, int_beq, int_beq_iff, int_eq,
  List-cases, some-injective, none-ne-some, codes, if-Both, ◌>>=◌,
}
use llm_cpp.Tensor.{DType, Tensor, make, put, at}
use llm_cpp.Tensor.Product.{Arithmetic, rows, cols}

unfoldable pub is_f32 : DType → Bool
is_f32 DType.f32 = true
is_f32 DType.i8 = false

module _ {F : Type 0} (num : Arithmetic F) (a b : Tensor F) where
  -- rows[k], from column j on
  unfoldable pub nonzeros : (k n j : ℕ) → List (ℕ × F)
  nonzeros k zero j = []
  nonzeros k (suc n) j =
      let v = get_or b.cells (k * cols b + j) num.zero in
      let rest = nonzeros k n (j + 1) in if num.is_zero v then rest else (j, v) ∷ rest

  unfoldable pub add_entries : ℕ → F → List (ℕ × F) → Tensor F → Tensor F
  add_entries i v [] out = out
  add_entries i v ((j, w) ∷ entries) out =
      let p = i * cols b + j in
      add_entries i v entries (record out {
        cells = set out.cells p (num.add (get_or out.cells p num.zero) (num.mul v w));
      })

  -- The loop over k, with the rounds that are left
  unfoldable pub sparse_span : (i n k : ℕ) → Tensor F → Tensor F
  sparse_span i zero k out = out
  sparse_span i (suc n) k out =
      let v = get_or a.cells (i * cols a + k) num.zero in
      sparse_span i n (k + 1)
        (if num.is_zero v then out else add_entries i v (nonzeros k (cols b) 0) out)

  unfoldable pub sparse_rows : (n i : ℕ) → Tensor F → Tensor F
  sparse_rows zero i out = out
  sparse_rows (suc n) i out = sparse_rows n (i + 1) (sparse_span i (cols a) 0 out)

  -- `none` where require_f32 throws or an assertion fails
  unfoldable pub matmul_sparse : Option (Tensor F)
  matmul_sparse =
      if (is_f32 a.dtype && is_f32 b.dtype)
        && (length a.shape == 2 && (length b.shape == 2 && cols a == rows b))
      then some (sparse_rows (rows a) 0 (make (rows a ∷ cols b ∷ []) num.zero))
      else none
