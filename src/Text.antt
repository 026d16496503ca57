-- ===== src/Text.antt =====
-- What the parts of the program share of std::string: find, std::to_string and std::stoi.
pub mod Numbers
use llm_cpp.Prelude.{
  ℕ, zero, suc, ◌+◌, ◌-◌, ◌*◌, ◌/◌, ◌%◌, ◌^◌, Bool, ◌&&◌, ◌||◌, Option, none, some, List, [], ◌∷◌,
  ltb, leb, ◌==◌, if◌then◌else◌, tests, nat_eq, list_eq, int_eq,
}

unfoldable pub strip_prefix : List ℕ → List ℕ → Option (List ℕ)
strip_prefix [] s = some s
strip_prefix (c ∷ p) [] = none
strip_prefix (c ∷ p) (x ∷ s) = if c == x then strip_prefix p s else none

-- std::string::find of a text, and what stands behind it
unfoldable pub find_after : List ℕ → List ℕ → Option (List ℕ)
find_after q [] = strip_prefix q []
find_after q (c ∷ s) =
    let later = find_after q s in elim (strip_prefix q (c ∷ s)) [ some r ↦ some r | none ↦ later ]

-- std::to_string, on fuel for the digits of a 64-bit number
unfoldable pub digits : ℕ → ℕ → List ℕ → List ℕ
digits zero n acc = acc
digits (suc f) n acc =
    let more = digits f (n / 10) ((b'0' + n % 10) ∷ acc) in
    if ltb n 10 then (b'0' + n) ∷ acc else more

unfoldable pub to_string : ℕ → List ℕ
to_string n = digits 20 n []

unfoldable pub is_digit : ℕ → Bool
is_digit c = leb b'0' c && leb c b'9'

unfoldable pub read_digits : List ℕ → ℕ → ℕ
read_digits [] n = n
read_digits (c ∷ s) n =
    let rest = read_digits s (n * 10 + (c - b'0')) in if is_digit c then rest else n

-- isspace
unfoldable pub is_blank : ℕ → Bool
is_blank c = c == b' ' || (leb 9 c && leb c 13)

unfoldable pub skip_space : List ℕ → List ℕ
skip_space [] = []
skip_space (c ∷ s) = let rest = skip_space s in if is_blank c then rest else c ∷ s

-- The digits up to the first other byte; at least one of them
unfoldable pub read_number : List ℕ → Option ℕ
read_number [] = none
read_number (c ∷ s) = if is_digit c then some (read_digits (c ∷ s) 0) else none

-- std::stoi, `none` where it throws, as what (size_t) makes of it
unfoldable pub signed : List ℕ → Option ℕ
signed [] = none
signed (c ∷ s) =
    if c == b'-'
    then (elim (read_number s) [
      | none ↦ none
      | some n ↦ if leb n (2 ^ 31) then some ((2 ^ 64 - n) % 2 ^ 64) else none
    ])
    else (elim (read_number (if c == b'+' then s else c ∷ s)) [
      | none ↦ none
      | some n ↦ if ltb n (2 ^ 31) then some n else none
    ])

unfoldable pub stoi : List ℕ → Option ℕ
stoi s = signed (skip_space s)
