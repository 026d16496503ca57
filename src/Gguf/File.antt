-- ===== src/Gguf/File.antt =====
-- src/gguf.cpp, save_gguf and load_gguf together.
use llm_cpp.Prelude.{
  ◌≤◌, ℕ, suc, ◌+◌, ◌-◌, ◌*◌, ◌^◌, ◌<◌, ◌≡◌, refl, sym, ap, ◌∙◌, subst, true, Option, some, List,
  [], ◌∷◌, ◌++◌, append_assoc, append-nil, arith, ◌==◌, length, length-append, drop, replicate,
  length-replicate, take-length, drop-length, All, nat_eq, list_eq, int_eq,
}
use llm_cpp.Text.{to_string}
use native.Mathlib.Nat.{mod-eq_of_lt}
use llm_cpp.Gguf.{Bytes, Info, Param, align_offset}
use llm_cpp.Gguf.Save.{metadata, param_dim, layout, write_header, save_gguf}
use llm_cpp.Gguf.Load.{read_header, read_decoded, read_data, load_gguf}
use llm_cpp.Gguf.Primitives.{length-to_string, align_offset-bounds}
use llm_cpp.Gguf.Reading.{IsEntry, read_header-write_header}
use llm_cpp.Gguf.Writing.{
  total, Holds, IsSavable, SameShapes, length-layout, write_data-Holds, layout-IsWritable,
  all_loadable-layout,
}

-- The same shapes, with the floats of the first model
abbrev pub filled : List Param → List Param → List Param
filled [] qs = qs
filled (p ∷ ps) [] = []
filled (p ∷ ps) (q ∷ qs) = record q { floats = p.floats } ∷ filled ps qs

pub metadata-IsEntry : (ps : List Param) → All IsEntry (metadata ps)
unfolding metadata
metadata-IsEntry ps =
    let short : (n : ℕ) → length (to_string n) ≤ 1048576 = λ n. omega (arith, length-to_string n) in
    (
      (omega arith, omega arith),
      (
        (omega arith, omega arith),
        (
          (omega arith, short (param_dim 0 0 ps)),
          (
            (omega arith, short (param_dim 0 1 ps)),
            ((omega arith, short (param_dim 1 0 ps)), ((omega arith, short (length ps)), tt)),
          ),
        ),
      ),
    )

pub few_entries : (ps : List Param) → length (metadata ps) < 2 ^ 64
unfolding metadata
few_entries ps = omega arith

padded_length :
    (header : Bytes)
    → length (header ++ replicate (align_offset (length header) - length header) 0)
      ≡ align_offset (length header) + 0
padded_length header =
    let pad : Bytes = replicate (align_offset (length header) - length header) 0 in
    omega (
      arith,
      length-append header pad,
      length-replicate {A = ℕ} (align_offset (length header) - length header) 0,
      align_offset-bounds (length header),
    )

drop-all : (xs : Bytes) → drop (length xs) xs ≡ []
drop-all [] = refl
drop-all (x ∷ xs) = drop-all xs

module _ (decode : ℕ → ℕ → Bytes → Option Bytes) where
  read_decoded-here :
      (before after floats old : Bytes) (start : ℕ) (i : Info)
      → length before ≡ start + i.offset
      → start + i.offset < 2 ^ 64
      → length old ≡ length floats
      → i.dtype ≡ 0
      → read_decoded decode (before ++ (floats ++ after)) start old i ≡ (true, floats)
  unfolding read_decoded
  read_decoded-here before after floats old start i h small e f32 =
      let is_f32 : (i.dtype == 0) ≡ true = ground arith in
      let whole : (length floats == length floats) ≡ true = ground arith in
      let nothing : drop (length floats) old ≡ [] = subst (λ n. drop n old ≡ []) e (drop-all old) in
      rw
        (
          is_f32,
          mod-eq_of_lt small,
          sym h,
          drop-length before (floats ++ after),
          e,
          take-length floats after,
          whole,
          nothing,
        )
        (ap (λ b. (true, b)) (append-nil floats))

  read_data-step :
      (file : Bytes) (start : ℕ) (i : Info) (is : List Info) (q : Param) (qs later : List Param)
      (b : Bytes)
      → read_decoded decode file start q.floats i ≡ (true, b)
      → read_data decode file start is qs ≡ (true, later)
      → read_data decode file start (i ∷ is) (q ∷ qs) ≡ (true, record q { floats = b } ∷ later)
  unfolding read_data
  read_data-step file start i is q qs later b e h = rw (e, h) refl

  read_data-Holds :
      (file : Bytes) (start i current : ℕ) (ps qs : List Param)
      → start + current + length ps * 32 + total ps < 2 ^ 64
      → Holds file start (layout i current ps) ps
      → SameShapes ps qs
      → read_data decode file start (layout i current ps) qs ≡ (true, filled ps qs)
  unfolding read_data layout total
  read_data-Holds file start i current [] [] b h e = refl
  read_data-Holds file start i current [] (q ∷ qs) b h e = refl
  read_data-Holds file start i current (p ∷ ps) [] b h e = elim e [ ]
  read_data-Holds file start i current (p ∷ ps) (q ∷ qs) b h e =
      let (before, after, f, l) = h.0 in
      let target = align_offset current in
      let info : Info = record {
        name = b't' ∷ b'e' ∷ b'n' ∷ b's' ∷ b'o' ∷ b'r' ∷ b'_' ∷ to_string i;
        dims = p.shape;
        dtype = 0;
        offset = target;
      } in
      let here : read_decoded decode file start q.floats info ≡ (true, p.floats) =
        subst (λ f. read_decoded decode f start q.floats info ≡ (true, p.floats)) (sym f)
          (read_decoded-here before after p.floats q.floats start info l
            (omega (arith, b, align_offset-bounds current)) (sym e.0.1) refl) in
      read_data-step file start info (layout (i + 1) (target + length p.floats) ps) q qs
        (filled ps qs) p.floats here
        (read_data-Holds file start (i + 1) (target + length p.floats) ps qs
          (omega (arith, b, align_offset-bounds current)) h.1 e.1)

  length-SameShapes : (ps qs : List Param) → SameShapes ps qs → length qs ≡ length ps
  length-SameShapes [] [] h = refl
  length-SameShapes [] (q ∷ qs) h = elim h [ ]
  length-SameShapes (p ∷ ps) [] h = elim h [ ]
  length-SameShapes (p ∷ ps) (q ∷ qs) h = ap suc (length-SameShapes ps qs h.1)

  -- If shapes have at most eight dimensions, and each dimension and the size of the whole file with
  -- its padding fit in 64 bits, then save_gguf succeeds, and load_gguf of its file into a model
  -- with the same shapes and sizes succeeds and gives each parameter of it the floats of the saved
  -- one.
  pub load_gguf-save_gguf :
      (ps qs : List Param)
      → IsSavable (length (write_header (metadata ps) (layout 0 0 ps)) + 31) ps
      → SameShapes ps qs
      → (file : Bytes) × (save_gguf ps ≡ some file)
        × (load_gguf decode file qs ≡ (true, filled ps qs))
  unfolding save_gguf load_gguf
  load_gguf-save_gguf ps qs h e =
      let infos = layout 0 0 ps in
      let header = write_header (metadata ps) infos in
      let start = align_offset (length header) in
      let pad : Bytes = replicate (start - length header) 0 in
      let padded : length (header ++ pad) ≡ start + 0 = padded_length header in
      let written : IsSavable 0 ps = record { shapes = h.shapes; size = omega (arith, h.size) } in
      let (body, saved, holds) = write_data-Holds start 0 0 ps (header ++ pad) padded in
      let few : length infos < 2 ^ 64 = omega (arith, h.size, length-layout 0 0 ps) in
      let counted : length infos ≡ length qs =
        length-layout 0 0 ps ∙ sym (length-SameShapes ps qs e) in
      let read : read_header (length qs) ((header ++ pad) ++ body) ≡ some (infos, start) =
        subst (λ n. read_header n ((header ++ pad) ++ body) ≡ some (infos, start)) counted
          (subst (λ f. read_header (length infos) f ≡ some (infos, start))
            (sym (append_assoc header pad body))
            (read_header-write_header (metadata ps) infos (pad ++ body) (metadata-IsEntry ps)
              (layout-IsWritable 0 0 ps written) (few_entries ps) few)) in
      (
        (header ++ pad) ++ body,
        saved,
        rw (read, load_gguf, all_loadable-layout 0 0 ps qs written e)
            (read_data-Holds ((header ++ pad) ++ body) start 0 0 ps qs
              (omega (arith, h.size, align_offset-bounds (length header))) holds e),
      )
