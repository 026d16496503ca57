-- ===== src/Tokenizer/Pretokenize.antt =====
-- src/tokenizer.cpp, `Tokenizer::split_pretokenize`: the GPT-2 pre-tokenizer, approximated on bytes.
pub mod Pieces
use llm_cpp.Prelude.{
  ℕ, zero, suc, ◌+◌, ◌-◌, ◌*◌, ◌/◌, ◌%◌, ◌^◌, ◌≤◌, ◌<◌, min, max, ◌≡◌, refl, sym, ap, ap₂, ◌∙◌,
  subst, fun_ext, ◌≢◌, ◌↔◌, ◌⊎◌, inl, inr, Bool, true, false, not, ◌&&◌, ◌||◌, Option, none, some,
  List, [], ◌∷◌, ◌++◌, map, append_assoc, append-nil, arith, dec_lt, ℕ_discrete, ltb, leb, ◌==◌,
  if◌then◌else◌, ltb→lt, lt→ltb, leb→le, ==_iff, tests, Bool-cases, Option-cases, length, get_elem?,
  set, length-append, length-set, get_elem?-set_self, get_elem?-set_ne, get_or, take, drop,
  replicate, take-append-drop, length-take, length-drop, length-replicate, length-map,
  get_elem?-append_left, get_elem?-append_right, take-length, drop-length, concat, concat-append,
  All, All-append, All-mono, Eq, ◌=?◌, nat_eq, list_beq, list_eq, list_beq_iff, beq_refl, beq_eq,
  find, insert, find-insert, length-insert_new, length-insert-le, ℤ, pos, negsuc, int_beq,
  int_beq_iff, int_eq, List-cases,
}
use llm_cpp.Text.{strip_prefix}
use llm_cpp.Tokenizer.{Bytes}

abbrev pub apostrophe : ℕ
apostrophe = 0x27

abbrev pub space : ℕ
space = 0x20

unfoldable pub is_letter : ℕ → Bool
is_letter c = leb b'A' c && leb c b'Z' || leb b'a' c && leb c b'z' || leb 0x80 c

unfoldable pub is_digit : ℕ → Bool
is_digit c = leb b'0' c && leb c b'9'

unfoldable pub is_space : ℕ → Bool
is_space c = c == space || c == 9 || c == 10 || c == 13

-- What continues a run of other bytes.
unfoldable pub is_other : ℕ → Bool
unfolding is_letter is_digit is_space
is_other c = not (is_space c) && not (is_letter c) && not (is_digit c) && not (c == apostrophe)

-- The longest run of bytes that pass the test, and the rest.
unfoldable pub span : (ℕ → Bool) → Bytes → Bytes × Bytes
span p [] = ([], [])
span p (c ∷ s) = let (run, rest) = span p s in if p c then (c ∷ run, rest) else ([], c ∷ s)

-- text.compare(i + 1, L, c) == 0: the rest behind `c`.
abbrev pub contractions : List Bytes
contractions =
    (b's' ∷ [])
    ∷ (b't' ∷ [])
    ∷ (b'r' ∷ b'e' ∷ [])
    ∷ (b'v' ∷ b'e' ∷ [])
    ∷ (b'm' ∷ [])
    ∷ (b'l' ∷ b'l' ∷ [])
    ∷ (b'd' ∷ [])
    ∷ []

-- The first contraction that the text behind the apostrophe begins with.
unfoldable pub contraction : List Bytes → Bytes → Option (Bytes × Bytes)
contraction [] s = none
contraction (c ∷ cs) s =
    let rest = contraction cs s in elim (strip_prefix c s) [ some s' ↦ some (c, s') | none ↦ rest ]

-- A run of letters, digits or other bytes, behind the leading space that attaches.
unfoldable pub word : Bytes → Bytes → Bytes × Bytes
word lead [] = (lead, [])
word lead (c ∷ s) =
    let (run, rest) =
      span (if is_letter c then is_letter else if is_digit c then is_digit else is_other) s in
    (lead ++ c ∷ run, rest)

unfoldable pub plain_piece : ℕ → Bytes → Bytes × Bytes
plain_piece c s =
    if is_space c
    then (let (run, rest) = span is_space s in (c ∷ run, rest))
    else if c == space
    then word (c ∷ []) s
    else word [] (c ∷ s)

-- One round of the outer loop at a text `c ∷ s`: the piece and the rest.
unfoldable pub next_piece : ℕ → Bytes → Bytes × Bytes
next_piece c s =
    if c == apostrophe
    then elim (contraction contractions s) [
      | some (p, rest) ↦ (c ∷ p, rest)
      | none ↦ plain_piece c s
    ]
    else plain_piece c s

-- The outer loop, with fuel.
unfoldable pub split_loop : ℕ → Bytes → List Bytes
split_loop zero text = []
split_loop (suc f) [] = []
split_loop (suc f) (c ∷ s) = let (piece, rest) = next_piece c s in piece ∷ split_loop f rest

unfoldable pub split_pretokenize : Bytes → List Bytes
split_pretokenize text = split_loop (length text) text
