-- ===== src/Tensor/Product.antt =====
-- src/tensor.cpp: the tiled loops of matmul without an accelerating library, matmul_sparse and
-- transpose. The floats are an interface.
pub mod Rows
pub mod Blocks
use llm_cpp.Prelude.{
  ℕ, zero, suc, ◌+◌, ◌-◌, ◌*◌, ◌/◌, ◌%◌, ◌^◌, ◌≤◌, ◌<◌, min, max, ◌≡◌, refl, sym, ap, ap₂, ◌∙◌,
  subst, fun_ext, ◌≢◌, ◌↔◌, ◌⊎◌, inl, inr, Bool, true, false, not, ◌&&◌, ◌||◌, Option, none, some,
  List, [], ◌∷◌, ◌++◌, map, append_assoc, append-nil, arith, dec_lt, ℕ_discrete, ltb, leb, ◌==◌,
  if◌then◌else◌, ltb→lt, lt→ltb, leb→le, ==_iff, tests, Bool-cases, Option-cases, length, get_elem?,
  set, length-append, length-set, get_elem?-set_self, get_elem?-set_ne, get_or, take, drop,
  replicate, take-append-drop, length-take, length-drop, length-replicate, length-map,
  get_elem?-append_left, get_elem?-append_right, take-length, drop-length, concat, concat-append,
  All, All-append, All-mono, Eq, ◌=?◌, nat_eq, list_beq, list_eq, list_beq_iff, beq_refl, beq_eq,
  find, insert, find-insert, length-insert_new, length-insert-le, ℤ, int_beq, int_beq_iff, int_eq,
  List-cases, some-injective, none-ne-some, codes, if-Both, ◌>>=◌,
}
use llm_cpp.Tensor.{DType, Tensor, make, put, at}

pub record Arithmetic (F : Type 0) : Type 0 where
  pub zero : F
  pub add : F → F → F
  pub mul : F → F → F
  pub is_zero : F → Bool

abbrev pub rows : {F : Type 0} → Tensor F → ℕ
rows t = get_or t.shape 0 0

abbrev pub cols : {F : Type 0} → Tensor F → ℕ
cols t = get_or t.shape 1 0

-- GEMM_BLOCK_M and GEMM_BLOCK_K
unfoldable pub gemm_block : ℕ
gemm_block = 64

module _ {F : Type 0} (num : Arithmetic F) (a b : Tensor F) where
  -- The loop over j, with the rounds that are left
  unfoldable pub multiply_row : (i k n j : ℕ) → Tensor F → Tensor F
  multiply_row i k zero j out = out
  multiply_row i k (suc n) j out = multiply_row i k n (j + 1) (
      put out i j (num.add (at num.zero out i j) (num.mul (at num.zero a i k) (at num.zero b k j))))

  -- The loop over k within a block
  unfoldable pub multiply_span : (i m k : ℕ) → Tensor F → Tensor F
  multiply_span i zero k out = out
  multiply_span i (suc m) k out = multiply_span i m (k + 1) (multiply_row i k (cols b) 0 out)

  -- The loop over i within a block
  unfoldable pub multiply_rows : (m k r i : ℕ) → Tensor F → Tensor F
  multiply_rows m k zero i out = out
  multiply_rows m k (suc r) i out = multiply_rows m k r (i + 1) (multiply_span i m k out)

  -- The loop over kk, on fuel
  unfoldable pub multiply_depth : (fuel r ii kk : ℕ) → Tensor F → Tensor F
  multiply_depth zero r ii kk out = out
  multiply_depth (suc fuel) r ii kk out =
      let rest =
        multiply_depth fuel r ii (kk + gemm_block)
          (multiply_rows (min (kk + gemm_block) (cols a) - kk) kk r ii out) in
      if ltb kk (cols a) then rest else out

  -- The loop over ii, on fuel
  unfoldable pub multiply_blocks : (fuel ii : ℕ) → Tensor F → Tensor F
  multiply_blocks zero ii out = out
  multiply_blocks (suc fuel) ii out =
      let rest =
        multiply_blocks fuel (ii + gemm_block)
          (multiply_depth (cols a) (min (ii + gemm_block) (rows a) - ii) ii 0 out) in
      if ltb ii (rows a) then rest else out

  -- `none` where an assertion fails
  unfoldable pub matmul : Option (Tensor F)
  matmul =
      if length a.shape == 2 && (length b.shape == 2 && cols a == rows b)
      then some (multiply_blocks (rows a) 0 (make (rows a ∷ cols b ∷ []) num.zero))
      else none
