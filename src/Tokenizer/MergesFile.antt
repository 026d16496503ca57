-- ===== src/Tokenizer/MergesFile.antt =====
-- src/tokenizer.cpp, the merges file: `Tokenizer::save`, `Tokenizer::load`, and the merges part of
-- `load_hf` and `save_hf`. A file is the list of its bytes.
pub mod Lines
pub mod Files
use llm_cpp.Prelude.{
  ℕ, zero, suc, ◌+◌, ◌-◌, ◌*◌, ◌/◌, ◌%◌, ◌^◌, ◌≤◌, ◌<◌, min, max, ◌≡◌, refl, sym, ap, ap₂, ◌∙◌,
  subst, fun_ext, ◌≢◌, ◌↔◌, ◌⊎◌, inl, inr, Bool, true, false, not, ◌&&◌, ◌||◌, Option, none, some,
  List, [], ◌∷◌, ◌++◌, map, append_assoc, append-nil, arith, dec_lt, ℕ_discrete, ltb, leb, ◌==◌,
  if◌then◌else◌, ltb→lt, lt→ltb, leb→le, ==_iff, tests, Bool-cases, Option-cases, length, get_elem?,
  set, length-append, length-set, get_elem?-set_self, get_elem?-set_ne, get_or, take, drop,
  replicate, take-append-drop, length-take, length-drop, length-replicate, length-map,
  get_elem?-append_left, get_elem?-append_right, take-length, drop-length, concat, concat-append,
  All, All-append, All-mono, Eq, ◌=?◌, nat_eq, list_beq, list_eq, list_beq_iff, beq_refl, beq_eq,
  find, insert, find-insert, length-insert_new, length-insert-le, ℤ, pos, negsuc, int_beq,
  int_beq_iff, int_eq, List-cases,
}
use llm_cpp.Tokenizer.{Tokenizer, Bytes, assign, cut_at}

abbrev pub blank : ℕ
blank = 0x20

abbrev pub newline : ℕ
newline = 10

abbrev pub hash : ℕ
hash = b'#'

-- out << m.first << " " << m.second << "\n"
abbrev pub merge_line : Bytes × Bytes → Bytes
merge_line (a, b) = a ++ blank ∷ (b ++ newline ∷ [])

unfoldable pub save : List (Bytes × Bytes) → Bytes
save [] = []
save (m ∷ ms) = merge_line m ++ save ms

-- The calls of std::getline: the lines, with the part of one that is read so far. Text behind the
-- last newline is a line, unless it is empty.
unfoldable pub lines_from : Bytes → Bytes → List Bytes
lines_from part [] = elim part [ [] ↦ [] | c ∷ s ↦ (c ∷ s) ∷ [] ]
lines_from part (c ∷ s) =
    let next = lines_from [] s in
    let more = lines_from (part ++ c ∷ []) s in if c == newline then part ∷ next else more

unfoldable pub contains : ℕ → Bytes → Bool
contains c [] = false
contains c (x ∷ s) = x == c || contains c s

-- One line: blank lines, comments and lines with no space are skipped.
unfoldable pub parse_line : Bytes → Option (Bytes × Bytes)
parse_line [] = none
parse_line (c ∷ s) =
    if c == hash then none else if contains blank (c ∷ s) then some (cut_at blank (c ∷ s)) else none

unfoldable pub load_line : Tokenizer → Bytes → Tokenizer
load_line t line = elim (parse_line line) [
  | none ↦ t
  | some m ↦
      let t' : Tokenizer = record t { merges = t.merges ++ m ∷ [] } in
      elim (find t.vocab (m.0 ++ m.1)) [
        | some i ↦ t'
        | none ↦
            if ltb (length t.vocab) t.vocab_size
            then assign t' (m.0 ++ m.1) (pos (length t.vocab))
            else t'
      ]
]

unfoldable pub load_lines : Tokenizer → List Bytes → Tokenizer
load_lines t [] = t
load_lines t (l ∷ ls) = load_lines (load_line t l) ls

-- Tokenizer::load
unfoldable pub load : Tokenizer → Bytes → Tokenizer
load t file = load_lines t (lines_from [] file)

-- The merges of Tokenizer::load_hf
unfoldable pub parse_lines : List Bytes → List (Bytes × Bytes)
parse_lines [] = []
parse_lines (l ∷ ls) = elim (parse_line l) [ none ↦ parse_lines ls | some m ↦ m ∷ parse_lines ls ]

unfoldable pub load_hf_merges : Tokenizer → Bytes → Tokenizer
load_hf_merges t file = record t { merges = parse_lines (lines_from [] file) }

-- "#version: 0.2\n", and the lines of `save`.
unfoldable pub save_hf_merges : List (Bytes × Bytes) → Bytes
save_hf_merges ms =
    hash
    ∷ b'v'
    ∷ b'e'
    ∷ b'r'
    ∷ b's'
    ∷ b'i'
    ∷ b'o'
    ∷ b'n'
    ∷ b':'
    ∷ blank
    ∷ b'0'
    ∷ b'.'
    ∷ b'2'
    ∷ newline
    ∷ save ms
