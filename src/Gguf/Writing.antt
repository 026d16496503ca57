-- ===== src/Gguf/Writing.antt =====
-- src/gguf.cpp, the data section and the offsets of the tensors.
use llm_cpp.Prelude.{
  ℕ, suc, ◌+◌, ◌-◌, ◌*◌, ◌%◌, ◌^◌, ◌≤◌, ◌<◌, ◌≡◌, refl, sym, ap, ◌∙◌, subst, true, false, some,
  List, [], ◌∷◌, ◌++◌, append_assoc, append-nil, arith, ltb, length, length-append, replicate,
  length-replicate, All, ◌=?◌, nat_eq, list_eq, beq_refl, int_eq,
}
use native.Mathlib.Nat.{mod-eq_of_lt}
use llm_cpp.Gguf.{Bytes, Info, Param, align_offset}
use llm_cpp.Gguf.Save.{layout, write_data}
use llm_cpp.Gguf.Load.{is_dtype, is_loadable, all_loadable}
use llm_cpp.Gguf.Primitives.{align_offset-bounds, length-to_string}
use llm_cpp.Gguf.Reading.{IsWritable}

-- Each tensor of a file stands at the offset of its info, from `start` on.
abbrev pub Holds : Bytes → ℕ → List Info → List Param → Type 0
Holds file start [] [] = Unit {0}
Holds file start [] (p ∷ ps) = ⊥
Holds file start (i ∷ is) [] = ⊥
Holds file start (i ∷ is) (p ∷ ps) =
    ((before : Bytes) × (after : Bytes) × (file ≡ before ++ (p.floats ++ after))
      × (length before ≡ start + i.offset))
    × Holds file start is ps

-- The bytes of all floats
unfoldable pub total : List Param → ℕ
total [] = 0
total (p ∷ ps) = length p.floats + total ps

pub length-layout : (i current : ℕ) (ps : List Param) → length (layout i current ps) ≡ length ps
unfolding layout
length-layout i current [] = refl
length-layout i current (p ∷ ps) =
    ap suc (length-layout (i + 1) (align_offset current + length p.floats) ps)

-- Writing succeeds: what is there stays, and the tensors follow it.
pub write_data-Holds :
    (start i current : ℕ) (ps : List Param) (file : Bytes)
    → length file ≡ start + current
    → (body : Bytes) × (write_data start (layout i current ps) ps file ≡ some (file ++ body))
      × Holds (file ++ body) start (layout i current ps) ps
unfolding write_data layout
write_data-Holds start i current [] file h = ([], ap some (sym (append-nil file)), tt)
write_data-Holds start i current (p ∷ ps) file h =
    let target = align_offset current in
    let fits : ltb (start + target) (length file) ≡ false =
      ground (arith, align_offset-bounds current) in
    let pad = replicate (start + target - length file) 0 in
    let file' = (file ++ pad) ++ p.floats in
    let padded : length (file ++ pad) ≡ start + target = omega (
      arith,
      length-append file pad,
      length-replicate {A = ℕ} (start + target - length file) 0,
      align_offset-bounds current,
    ) in
    let (body, e, holds) =
      write_data-Holds start (i + 1) (target + length p.floats) ps file'
        (omega (arith, padded, length-append (file ++ pad) p.floats)) in
    let joined : file ++ (pad ++ (p.floats ++ body)) ≡ file' ++ body =
      sym (append_assoc file pad (p.floats ++ body))
      ∙ sym (append_assoc (file ++ pad) p.floats body) in
    (
      pad ++ (p.floats ++ body),
      rw fits (e ∙ ap some (sym joined)),
      (
        (file ++ pad, body, sym (append_assoc file pad (p.floats ++ body)), padded),
        subst (λ f. Holds f start (layout (i + 1) (target + length p.floats) ps) ps) (sym joined)
            holds,
      ),
    )

-- Shapes that the format can hold, and offsets that fit in 64 bits from `current` on
pub record IsSavable (current : ℕ) (ps : List Param) : Type 0 where
  pub shapes : All (λ p. (length p.shape ≤ 8) × All (λ d. d < 2 ^ 64) p.shape) ps
  pub size : current + length ps * 32 + total ps < 2 ^ 64

-- Parameters of one model and of another with the same shapes and sizes
abbrev pub SameShapes : List Param → List Param → Type 0
SameShapes [] [] = Unit {0}
SameShapes [] (q ∷ qs) = ⊥
SameShapes (p ∷ ps) [] = ⊥
SameShapes (p ∷ ps) (q ∷ qs) =
    ((p.shape ≡ q.shape) × (length p.floats ≡ length q.floats)) × SameShapes ps qs

pub layout-IsWritable :
    (i current : ℕ) (ps : List Param) → IsSavable current ps → All IsWritable (layout i current ps)
unfolding layout total is_dtype
layout-IsWritable i current [] h = tt
layout-IsWritable i current (p ∷ ps) h = (
  record {
    name = omega (arith, length-to_string i);
    few = h.shapes.0.0;
    dims = h.shapes.0.1;
    dtype = (refl, omega arith);
    offset = omega (arith, h.size, align_offset-bounds current);
  },
  layout-IsWritable (i + 1) (align_offset current + length p.floats) ps
      (record { shapes = h.shapes.1; size = omega (arith, h.size, align_offset-bounds current) }),
)

pub all_loadable-layout :
    (i current : ℕ) (ps qs : List Param)
    → IsSavable current ps
    → SameShapes ps qs
    → all_loadable (layout i current ps) qs ≡ true
unfolding layout all_loadable is_loadable total
all_loadable-layout i current [] qs h e = refl
all_loadable-layout i current (p ∷ ps) [] h e = refl
all_loadable-layout i current (p ∷ ps) (q ∷ qs) h e =
    let start = align_offset current in
    let later =
      all_loadable-layout (i + 1) (start + length p.floats) ps qs
        (record { shapes = h.shapes.1; size = omega (arith, h.size, align_offset-bounds current) })
        e.1 in
    let no_wrap : ltb ((start + length q.floats) % 2 ^ 64) start ≡ false =
      let small : start + length q.floats < 2 ^ 64 =
        omega (arith, h.size, e.0.1, align_offset-bounds current) in
      rw (mod-eq_of_lt small) (ground arith) in
    let same : (p.shape =? q.shape) ≡ true =
      ap (λ ds. p.shape =? ds) (sym e.0.0) ∙ beq_refl p.shape in
    rw (same, no_wrap, later) refl
