-- ===== src/Server/Json.antt =====
-- src/server.cpp, the JSON helpers: json_escape, extract_raw, json_get_string, json_get_bool and the
-- number that json_get_number gives to std::stod.
use llm_cpp.Prelude.{
  ℕ, zero, suc, ◌+◌, ◌-◌, ◌/◌, ◌%◌, Bool, true, false, ◌&&◌, ◌||◌, Option, none, some, [], ◌∷◌,
  ◌++◌, ltb, leb, ◌==◌, if◌then◌else◌, length, take, ◌=?◌, nat_eq, list_eq, int_eq, codes,
}
use llm_cpp.Text.{find_after}
use llm_cpp.Tokenizer.{Bytes}
use llm_cpp.Tokenizer.Stream.{has_bits, all_continuation}

abbrev pub quote : ℕ
quote = b'"'

abbrev pub backslash : ℕ
backslash = 0x5C

abbrev pub newline : ℕ
newline = 10

abbrev pub tab : ℕ
tab = 9

-- One digit of %04x
unfoldable pub hex_digit : ℕ → ℕ
hex_digit d = if ltb d 10 then b'0' + d else b'a' + d - 10

-- The length that a lead byte announces, 0 for another byte
unfoldable pub announced : ℕ → ℕ
announced c =
    if has_bits 0xE0 0xC0 c
    then 2
    else if has_bits 0xF0 0xE0 c
    then 3
    else if has_bits 0xF8 0xF0 c
    then 4
    else 0

-- Is there a whole sequence at the byte `c`?
unfoldable pub is_sequence : ℕ → Bytes → Bool
is_sequence c rest =
    ltb 0 (announced c)
    && leb (announced c) (length rest + 1)
    && all_continuation (take (announced c - 1) rest)

-- The replacement character U+FFFD
abbrev pub replacement : Bytes
replacement = 0xEF ∷ 0xBF ∷ 0xBD ∷ []

-- A byte below 0x80 as json_escape writes it
unfoldable pub escape_ascii : ℕ → Bytes
escape_ascii c =
    if c == quote
    then backslash ∷ quote ∷ []
    else if c == backslash
    then backslash ∷ backslash ∷ []
    else if c == newline
    then backslash ∷ b'n' ∷ []
    else if c == tab
    then backslash ∷ b't' ∷ []
    else if ltb c 0x20
    then backslash ∷ b'u' ∷ b'0' ∷ b'0' ∷ hex_digit (c / 16) ∷ hex_digit (c % 16) ∷ []
    else c ∷ []

-- The loop of json_escape. The bytes of a sequence behind its lead, `k` of them, are copied.
unfoldable pub escape_from : ℕ → Bytes → Bytes
escape_from k [] = []
escape_from (suc k) (c ∷ s) = c ∷ escape_from k s
escape_from zero (c ∷ s) = elim (ltb c 0x80) [
  | true ↦ escape_ascii c ++ escape_from 0 s
  | false ↦ elim (is_sequence c s) [
    | true ↦ c ∷ escape_from (announced c - 1) s
    | false ↦ replacement ++ escape_from 0 s
  ]
]

unfoldable pub json_escape : Bytes → Bytes
json_escape s = escape_from 0 s

-- find_first_not_of(" \t")
unfoldable pub skip_blanks : Bytes → Bytes
skip_blanks [] = []
skip_blanks (c ∷ s) = let rest = skip_blanks s in if c == b' ' || c == tab then rest else c ∷ s

-- The byte behind a backslash
unfoldable pub unescape : ℕ → Bytes
unescape e =
    if e == b'n'
    then newline ∷ []
    else if e == b't'
    then tab ∷ []
    else if e == quote
    then quote ∷ []
    else if e == backslash
    then backslash ∷ []
    else backslash ∷ e ∷ []

-- The loop over a string, up to its closing quote
unfoldable pub scan_string : Bytes → Bytes
scan_string [] = []
scan_string (c ∷ []) = if c == quote then [] else c ∷ []
scan_string (c ∷ e ∷ s) = elim (c == backslash) [
  | true ↦ unescape e ++ scan_string s
  | false ↦ elim (c == quote) [ true ↦ [] | false ↦ c ∷ scan_string (e ∷ s) ]
]

-- find_first_of(",}]")
unfoldable pub scan_plain : Bytes → Bytes
scan_plain [] = []
scan_plain (c ∷ s) =
    let rest = scan_plain s in if c == b',' || (c == b'}' || c == b']') then [] else c ∷ rest

-- The byte that marks a string value
abbrev pub marker : ℕ
marker = 1

unfoldable pub raw_value : Bytes → Bytes
raw_value [] = []
raw_value (c ∷ s) = if c == quote then marker ∷ scan_string s else scan_plain (c ∷ s)

unfoldable pub extract_raw : Bytes → Bytes → Bytes
extract_raw body key = elim (find_after (quote ∷ (key ++ quote ∷ [])) body) [
  | none ↦ []
  | some r ↦ elim (find_after (b':' ∷ []) r) [ none ↦ [] | some v ↦ raw_value (skip_blanks v) ]
]

-- r.substr(1) of a marked value
unfoldable pub marked_string : Bytes → Bytes → Bytes
marked_string def [] = def
marked_string def (c ∷ s) = if c == marker then s else def

unfoldable pub json_get_string : Bytes → Bytes → Bytes → Bytes
json_get_string body key def = marked_string def (extract_raw body key)

-- The text that json_get_number gives to std::stod, if there is one
unfoldable pub number_text : Bytes → Bytes → Option Bytes
number_text body key = elim (extract_raw body key) [
  | [] ↦ none
  | c ∷ s ↦ if c == marker then none else some (c ∷ s)
]

unfoldable pub json_get_bool : Bytes → Bytes → Bool → Bool
json_get_bool body key def =
    if extract_raw body key =? codes "true"
    then true
    else if extract_raw body key =? codes "false"
    then false
    else def
