-- ===== src/Tokenizer/MergesFile/Files.antt =====
-- src/tokenizer.cpp, saving and loading merges.
use mathlib.Core.List.{append_cancel_left}
use llm_cpp.Prelude.{
  ◌≡◌, refl, sym, ap, ◌∙◌, ◌≢◌, inl, inr, true, false, List, [], ◌∷◌, ◌++◌, append_assoc,
  append-nil, arith, ltb, ltb→lt, Bool-cases, Option-cases, length, All, nat_eq, list_eq, find,
  length-insert-le, pos, int_eq,
}
use llm_cpp.Tokenizer.{Tokenizer, Bytes, assign}
use llm_cpp.Tokenizer.Vocabulary.{InRange, assign-IdsBelow}
use llm_cpp.Tokenizer.MergesFile.{
  blank, newline, save, lines_from, contains, parse_line, load_line, load_lines, load, parse_lines,
  load_hf_merges, save_hf_merges,
}
use llm_cpp.Tokenizer.MergesFile.Lines.{
  IsLine, parse_line-merge, lines_from-merge_line, parse_line-blank,
}

-- The merges that a line adds do not hang on the vocabulary.
merges-load_line :
    (t : Tokenizer) (l : Bytes) → (load_line t l).merges ≡ t.merges ++ parse_lines (l ∷ [])
unfolding load_line parse_lines assign
merges-load_line t l = ground (arith, append-nil t.merges)

parse_lines-cons :
    (l : Bytes) (ls : List Bytes) → parse_lines (l ∷ ls) ≡ parse_lines (l ∷ []) ++ parse_lines ls
unfolding parse_lines
parse_lines-cons l ls = ground arith

merges-load_lines :
    (ls : List Bytes) (t : Tokenizer) → (load_lines t ls).merges ≡ t.merges ++ parse_lines ls
unfolding load_lines
merges-load_lines [] t = unfold parse_lines in sym (append-nil t.merges)
merges-load_lines (l ∷ ls) t =
    merges-load_lines ls (load_line t l)
    ∙ ap (λ ms. ms ++ parse_lines ls) (merges-load_line t l)
    ∙ append_assoc t.merges (parse_lines (l ∷ [])) (parse_lines ls)
    ∙ ap (◌++◌ t.merges) (sym (parse_lines-cons l ls))

parse_lines-save :
    (ms : List (Bytes × Bytes)) → All IsLine ms → parse_lines (lines_from [] (save ms)) ≡ ms
unfolding save parse_lines
parse_lines-save [] h = unfold lines_from parse_lines in refl
parse_lines-save (m ∷ ms) h =
    rw (lines_from-merge_line m (save ms) h.0.one_line.0 h.0.one_line.1)
      (rw (parse_line-merge m h.0, parse_lines) (ap (◌∷◌ m) (parse_lines-save ms h.1)))

-- Loading a saved merges file appends exactly the saved merges, if in each of them the first token
-- is not empty, does not begin with a hash sign and holds no space, and neither token holds a
-- newline.
pub load-save :
    (t : Tokenizer) (ms : List (Bytes × Bytes))
    → All IsLine ms
    → (load t (save ms)).merges ≡ t.merges ++ ms
unfolding load
load-save t ms h =
    merges-load_lines (lines_from [] (save ms)) t ∙ ap (◌++◌ t.merges) (parse_lines-save ms h)

-- The merges that are written with save_hf and read with load_hf are the same merges, if in each of
-- them the first token is not empty, does not begin with a hash sign and holds no space, and
-- neither token holds a newline.
pub load_hf-save_hf :
    (t : Tokenizer) (ms : List (Bytes × Bytes))
    → All IsLine ms
    → (load_hf_merges t (save_hf_merges ms)).merges ≡ ms
unfolding load_hf_merges save_hf_merges
load_hf-save_hf t ms h = unfold lines_from parse_lines parse_line in parse_lines-save ms h

not_read :
    (m : Bytes × Bytes) (line : Bytes)
    → contains blank m.0 ≡ true
    → parse_lines (line ∷ []) ≢ m ∷ []
unfolding parse_lines
not_read m line h e = ground (arith, parse_line-blank m line h)

-- A merge whose first token holds a space, and neither of whose tokens holds a newline, is never
-- read back as it was from the file that it is saved to.
pub load-save-blank :
    (t : Tokenizer) (m : Bytes × Bytes)
    → contains blank m.0 ≡ true
    → contains newline m.0 ≡ false
    → contains newline m.1 ≡ false
    → (load t (save (m ∷ []))).merges ≢ t.merges ++ m ∷ []
unfolding load save
load-save-blank t m h ha hb e = not_read m (m.0 ++ blank ∷ m.1) h (
    append_cancel_left t.merges _ _ (
      sym (merges-load_lines ((m.0 ++ blank ∷ m.1) ∷ []) t)
      ∙ ap (λ ls. (load_lines t ls).merges)
          (sym (lines_from-merge_line m [] ha hb ∙ unfold lines_from in refl))
      ∙ e))

load_line-InRange : (t : Tokenizer) (l : Bytes) → InRange t → InRange (load_line t l)
unfolding load_line
load_line-InRange t l v = elim (Option-cases (parse_line l)) [
  | inl e ↦ rw (e, load_line) v
  | inr (m, e) ↦ elim (Option-cases (find t.vocab (m.0 ++ m.1))) [
    | inr (i, k) ↦
        rw (e, load_line, k, load_line) (record { ids_below = v.ids_below; fits = v.fits })
    | inl k ↦ elim (Bool-cases (ltb (length t.vocab) t.vocab_size)) [
      | inr full ↦
          rw (e, load_line, k, load_line, full) (record { ids_below = v.ids_below; fits = v.fits })
      | inl room ↦
          rw (e, load_line, k, load_line, room)
            (record {
              ids_below = unfold assign in assign-IdsBelow t (m.0 ++ m.1) k v.ids_below;
              fits =
                  unfold assign in
                  omega (
                    arith,
                    ltb→lt _ _ room,
                    length-insert-le t.vocab (m.0 ++ m.1) (pos (length t.vocab)),
                  );
            })
    ]
  ]
]

load_lines-InRange : (ls : List Bytes) (t : Tokenizer) → InRange t → InRange (load_lines t ls)
unfolding load_lines
load_lines-InRange [] t v = v
load_lines-InRange (l ∷ ls) t v = load_lines-InRange ls (load_line t l) (load_line-InRange t l v)

-- Loading any file of merges keeps every id below the length of the vocabulary, and that length
-- within the vocabulary size.
pub load-InRange : (t : Tokenizer) (file : Bytes) → InRange t → InRange (load t file)
unfolding load
load-InRange t file = load_lines-InRange (lines_from [] file) t
