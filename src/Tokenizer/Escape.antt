-- ===== src/Tokenizer/Escape.antt =====
-- src/tokenizer.cpp, the escapes of vocab.json: `json_escape` and `json_unescape`.
use llm_cpp.Prelude.{
  ℕ, ◌≡◌, refl, ap, ◌∙◌, false, [], ◌∷◌, ◌++◌, arith, ◌==◌, if◌then◌else◌, nat_eq, list_eq, int_eq,
}
use llm_cpp.Tokenizer.{Bytes}

abbrev backslash : ℕ
backslash = 0x5C

abbrev quote : ℕ
quote = b'"'

abbrev newline : ℕ
newline = 10

abbrev tab : ℕ
tab = 9

unfoldable escape_byte : ℕ → Bytes
escape_byte c =
    if c == quote
    then backslash ∷ quote ∷ []
    else if c == backslash
    then backslash ∷ backslash ∷ []
    else if c == newline
    then backslash ∷ b'n' ∷ []
    else if c == tab
    then backslash ∷ b't' ∷ []
    else c ∷ []

unfoldable pub json_escape : Bytes → Bytes
unfolding escape_byte
json_escape [] = []
json_escape (c ∷ s) = escape_byte c ++ json_escape s

-- The byte behind a backslash.
unfoldable unescape_pair : ℕ → Bytes
unescape_pair e =
    if e == b'n'
    then newline ∷ []
    else if e == b't'
    then tab ∷ []
    else if e == quote
    then quote ∷ []
    else if e == backslash
    then backslash ∷ []
    else backslash ∷ e ∷ []

-- A backslash at the end stands for itself.
unfoldable pub json_unescape : Bytes → Bytes
unfolding unescape_pair
json_unescape [] = []
json_unescape (c ∷ []) = c ∷ []
json_unescape (c ∷ e ∷ s) =
    let pair = unescape_pair e ++ json_unescape s in
    let plain = c ∷ json_unescape (e ∷ s) in if c == backslash then pair else plain

-- A byte that is no backslash passes.
unescape_plain :
    (c : ℕ) (s : Bytes) → (c == backslash) ≡ false → json_unescape (c ∷ s) ≡ c ∷ json_unescape s
unfolding json_unescape
unescape_plain c [] h = refl
unescape_plain c (e ∷ s) h = rw h refl

unescape_at :
    (e : ℕ) (s : Bytes) → json_unescape (backslash ∷ e ∷ s) ≡ unescape_pair e ++ json_unescape s
unfolding json_unescape
unescape_at e s = refl

json_unescape-escape_byte :
    (c : ℕ) (s : Bytes) → json_unescape (escape_byte c ++ s) ≡ c ∷ json_unescape s
unfolding escape_byte unescape_pair
json_unescape-escape_byte c s = ground (
  arith,
  unescape_plain c s,
  unescape_at b'n' s,
  unescape_at b't' s,
  unescape_at quote s,
  unescape_at backslash s,
)

-- What is escaped for vocab.json is unescaped to itself, whatever its bytes.
pub json_unescape-json_escape : (s : Bytes) → json_unescape (json_escape s) ≡ s
unfolding json_escape
json_unescape-json_escape [] = unfold json_unescape in refl
json_unescape-json_escape (c ∷ s) =
    json_unescape-escape_byte c (json_escape s) ∙ ap (◌∷◌ c) (json_unescape-json_escape s)
