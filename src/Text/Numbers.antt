-- ===== src/Text/Numbers.antt =====
-- std::to_string and std::stoi: a number that is written is read again.
use llm_cpp.Prelude.{
  ℕ, zero, suc, ◌+◌, ◌*◌, ◌/◌, ◌%◌, ◌^◌, ◌<◌, ◌≡◌, refl, sym, ap, ◌∙◌, inl, inr, true, false, ◌&&◌,
  ◌||◌, Option, none, some, List, [], ◌∷◌, ◌++◌, arith, ltb, leb, ◌==◌, if◌then◌else◌, ltb→lt,
  Bool-cases, nat_eq, list_eq, int_eq,
}
use native.Mathlib.Nat.{pow-suc}
use llm_cpp.Text.{
  strip_prefix, find_after, digits, to_string, is_digit, read_digits, is_blank, skip_space,
  read_number, signed, stoi,
}

pub is_digit-code : (d : ℕ) → d < 10 → is_digit (b'0' + d) ≡ true
unfolding is_digit
is_digit-code d h = ground arith

read_digits-code :
    (d k : ℕ) (s : List ℕ) → d < 10 → read_digits ((b'0' + d) ∷ s) k ≡ read_digits s (k * 10 + d)
unfolding read_digits
read_digits-code d k s h = rw (is_digit-code d h) (ap (read_digits s) (omega arith))

read_digits-digits :
    (f n : ℕ) (acc r : List ℕ)
    → n < 10 ^ f
    → read_digits (digits f n acc ++ r) 0 ≡ read_digits (acc ++ r) n
unfolding digits
read_digits-digits zero n acc r h = ap (read_digits (acc ++ r)) (omega arith)
read_digits-digits (suc f) n acc r h = elim (Bool-cases (ltb n 10)) [
  | inl one ↦ rw one (
      read_digits-code n 0 (acc ++ r) (ltb→lt n 10 one) ∙ ap (read_digits (acc ++ r)) (omega arith))
  | inr more ↦ rw more (
      read_digits-digits f (n / 10) ((b'0' + n % 10) ∷ acc) r (omega (arith, pow-suc 10 f))
      ∙ read_digits-code (n % 10) (n / 10) (acc ++ r) (omega arith)
      ∙ ap (read_digits (acc ++ r)) (omega arith))
]

-- A number begins with a digit.
pub digits-head :
    (f n : ℕ) (acc : List ℕ)
    → (d : ℕ) × (s : List ℕ) × (digits (suc f) n acc ≡ (b'0' + d) ∷ s) × (d < 10)
unfolding digits
digits-head zero n acc = elim (Bool-cases (ltb n 10)) [
  | inl one ↦ (n, acc, rw one refl, ltb→lt n 10 one)
  | inr more ↦ (n % 10, acc, rw more refl, omega arith)
]
digits-head (suc f) n acc = elim (Bool-cases (ltb n 10)) [
  | inl one ↦ (n, acc, rw one refl, ltb→lt n 10 one)
  | inr more ↦
      let h = digits-head f (n / 10) ((b'0' + n % 10) ∷ acc) in (h.0, h.1, rw more h.2, h.3)
]

-- What follows a number and does not belong to it
abbrev pub Ends : List ℕ → Type 0
Ends [] = Unit {0}
Ends (c ∷ s) = is_digit c ≡ false

read_digits-Ends : (r : List ℕ) (n : ℕ) → Ends r → read_digits r n ≡ n
unfolding read_digits
read_digits-Ends [] n h = refl
read_digits-Ends (c ∷ s) n h = rw h refl

-- std::stoi throws for a number that is no int.
abbrev pub in_int : ℕ → Option ℕ
in_int n = if ltb n (2 ^ 31) then some n else none

stoi-code :
    (d : ℕ) (s : List ℕ) → d < 10 → stoi ((b'0' + d) ∷ s) ≡ in_int (read_digits ((b'0' + d) ∷ s) 0)
unfolding stoi skip_space signed read_number is_blank
stoi-code d s h =
    let black : (b'0' + d == b' ' || (leb 9 (b'0' + d) && leb (b'0' + d) 13)) ≡ false =
      ground arith in
    let plain : (b'0' + d == b'-') ≡ false = ground arith in
    let no_plus : (b'0' + d == b'+') ≡ false = ground arith in
    rw (black, plain, no_plus, is_digit-code d h) refl

pub stoi-to_string :
    (n : ℕ) (r : List ℕ) → n < 10 ^ 20 → Ends r → stoi (to_string n ++ r) ≡ in_int n
unfolding to_string
stoi-to_string n r h e =
    let k = read_digits-digits 20 n [] r h ∙ read_digits-Ends r n e in
    let t = digits-head 19 n [] in
    let starts : digits 20 n [] ++ r ≡ (b'0' + t.0) ∷ (t.1 ++ r) = ap (λ x. x ++ r) t.2 in
    let value : read_digits ((b'0' + t.0) ∷ (t.1 ++ r)) 0 ≡ n =
      ap (λ x. read_digits x 0) (sym starts) ∙ k in
    ap stoi starts ∙ stoi-code t.0 (t.1 ++ r) t.3 ∙ ap in_int value

-- A search for a text that begins with no digit passes over the digits of a number.
find_after-code :
    (q d : ℕ) (qs s : List ℕ)
    → is_digit q ≡ false
    → d < 10
    → find_after (q ∷ qs) ((b'0' + d) ∷ s) ≡ find_after (q ∷ qs) s
unfolding find_after strip_prefix is_digit
find_after-code q d qs s h k =
    let other : (q == b'0' + d) ≡ false = ground arith in rw (other, find_after, strip_prefix) refl

find_after-digits :
    (q f n : ℕ) (qs acc r : List ℕ)
    → is_digit q ≡ false
    → find_after (q ∷ qs) (digits f n acc ++ r) ≡ find_after (q ∷ qs) (acc ++ r)
unfolding digits
find_after-digits q zero n qs acc r h = refl
find_after-digits q (suc f) n qs acc r h = elim (Bool-cases (ltb n 10)) [
  | inl one ↦ rw one (find_after-code q n qs (acc ++ r) h (ltb→lt n 10 one))
  | inr more ↦ rw more (
      find_after-digits q f (n / 10) qs ((b'0' + n % 10) ∷ acc) r h
      ∙ find_after-code q (n % 10) qs (acc ++ r) h (omega arith))
]

pub find_after-to_string :
    (q n : ℕ) (qs r : List ℕ)
    → is_digit q ≡ false
    → find_after (q ∷ qs) (to_string n ++ r) ≡ find_after (q ∷ qs) r
unfolding to_string
find_after-to_string q n qs r h = find_after-digits q 20 n qs [] r h

pub to_string-head : (n : ℕ) → (d : ℕ) × (s : List ℕ) × (to_string n ≡ (b'0' + d) ∷ s) × (d < 10)
unfolding to_string
to_string-head n = digits-head 19 n []

pub read_digits-to_string :
    (n : ℕ) (r : List ℕ) → n < 10 ^ 20 → Ends r → read_digits (to_string n ++ r) 0 ≡ n
unfolding to_string
read_digits-to_string n r h e = read_digits-digits 20 n [] r h ∙ read_digits-Ends r n e
