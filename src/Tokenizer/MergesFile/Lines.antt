-- ===== src/Tokenizer/MergesFile/Lines.antt =====
-- src/tokenizer.cpp, the lines of a merges file and the merges that they give back.
use llm_cpp.Prelude.{
  ℕ, ◌≡◌, refl, ap, ◌∙◌, ◌≢◌, true, false, ◌||◌, some, [], ◌∷◌, ◌++◌, append_assoc, append-nil,
  arith, ◌==◌, nat_eq, list_eq, int_eq,
}
use llm_cpp.Tokenizer.{Bytes, cut_at}
use llm_cpp.Tokenizer.MergesFile.{
  blank, newline, hash, merge_line, lines_from, contains, parse_line,
}

-- A merge that its line gives back.
pub record IsLine (m : Bytes × Bytes) : Type 0 where
  pub head : (c : ℕ) × (s : Bytes) × (m.0 ≡ c ∷ s) × (c ≢ hash)
  pub no_blank : contains blank m.0 ≡ false
  pub one_line : (contains newline m.0 ≡ false) × (contains newline m.1 ≡ false)

contains-append : (c : ℕ) (s r : Bytes) → contains c (s ++ r) ≡ (contains c s || contains c r)
unfolding contains
contains-append c [] r = refl
contains-append c (x ∷ s) r = ground (arith, contains-append c s r)

-- A line runs up to its newline.
lines_from-line :
    (part line rest : Bytes)
    → contains newline line ≡ false
    → lines_from part (line ++ newline ∷ rest) ≡ (part ++ line) ∷ lines_from [] rest
unfolding lines_from contains
lines_from-line part [] rest h = rw (append-nil part) refl
lines_from-line part (c ∷ line) rest h =
    let e : (c == newline) ≡ false = ground arith in
    rw (e) (
      lines_from-line (part ++ c ∷ []) line rest (ground arith)
      ∙ ap (λ s. s ∷ lines_from [] rest) (append_assoc part (c ∷ []) line))

cut_at-first : (c : ℕ) (a b : Bytes) → contains c a ≡ false → cut_at c (a ++ c ∷ b) ≡ (a, b)
unfolding cut_at contains
cut_at-first c [] b h = ground arith
cut_at-first c (x ∷ a) b h = ground (arith, cut_at-first c a b)

pub parse_line-merge : (m : Bytes × Bytes) → IsLine m → parse_line (m.0 ++ blank ∷ m.1) ≡ some m
unfolding parse_line
parse_line-merge (a, b) v =
    let (c, s, e, k) = v.head in
    let has : contains blank (c ∷ (s ++ blank ∷ b)) ≡ true =
      (unfold contains in ground (arith, contains-append blank s (blank ∷ b))) in
    let cut : cut_at blank (c ∷ (s ++ blank ∷ b)) ≡ (c ∷ s, b) =
      cut_at-first blank (c ∷ s) b (rw (← e) v.no_blank) in
    rw e (rw (has, cut) (ground arith))

-- The lines of a saved file are its merges.
line_assoc :
    (m : Bytes × Bytes) (rest : Bytes)
    → merge_line m ++ rest ≡ (m.0 ++ blank ∷ m.1) ++ newline ∷ rest
line_assoc (a, b) rest = simp append_assoc

pub lines_from-merge_line :
    (m : Bytes × Bytes) (rest : Bytes)
    → contains newline m.0 ≡ false
    → contains newline m.1 ≡ false
    → lines_from [] (merge_line m ++ rest) ≡ (m.0 ++ blank ∷ m.1) ∷ lines_from [] rest
lines_from-merge_line (a, b) rest ha hb =
    let none_in : contains newline (a ++ blank ∷ b) ≡ false =
      rw (contains-append newline a (blank ∷ b)) (unfold contains in ground arith) in
    rw (line_assoc (a, b) rest) (lines_from-line [] (a ++ blank ∷ b) rest none_in)

-- What stands before the cut holds no space.
contains-cut_at : (c : ℕ) (s : Bytes) → contains c (cut_at c s).0 ≡ false
unfolding contains cut_at
contains-cut_at c [] = refl
contains-cut_at c (x ∷ s) = ground (arith, contains-cut_at c s)

-- A line gives back no merge whose first token holds a space.
pub parse_line-blank :
    (m : Bytes × Bytes) (line : Bytes) → contains blank m.0 ≡ true → parse_line line ≢ some m
unfolding parse_line
parse_line-blank m [] h e = cc
parse_line-blank m (c ∷ s) h e = ground (arith, contains-cut_at blank (c ∷ s))
