-- ===== src/Server/Connection/Words.antt =====
-- src/server.cpp, serve_connection: the words of a request line, the number and the body.
use llm_cpp.Prelude.{
  ℕ, zero, suc, ◌+◌, ◌^◌, ◌<◌, ◌≡◌, refl, sym, ap, ◌∙◌, inl, inr, true, false, ◌&&◌, ◌||◌, some,
  List, [], ◌∷◌, ◌++◌, append_assoc, append-nil, arith, ltb, leb, ◌==◌, lt→ltb, Bool-cases, length,
  length-append, take, concat, All, nat_eq, list_eq, int_eq,
}
use llm_cpp.Text.{
  strip_prefix, find_after, to_string, is_blank, skip_space, read_digits, read_number,
}
use llm_cpp.Text.Numbers.{Ends, is_digit-code, to_string-head, read_digits-to_string}
use llm_cpp.Server.Connection.{until_blank, next_word, unsigned, stoul, read_body}

-- A word of a request line: not empty, without blanks, and without the letter that begins
-- Content-Length
abbrev pub Plain : ℕ → Type 0
Plain c = (is_blank c ≡ false) × ((b'C' == c) ≡ false)

abbrev pub IsWord : List ℕ → Type 0
IsWord w = (0 < length w) × All Plain w

pub find_after-word {ℓ} :
    {P : ℕ → Type ℓ} (q : ℕ) (qs w t : List ℕ)
    → ((c : ℕ) → P c → (q == c) ≡ false)
    → All P w
    → find_after (q ∷ qs) (w ++ t) ≡ find_after (q ∷ qs) t
unfolding find_after strip_prefix
find_after-word q qs [] t other h = refl
find_after-word q qs (c ∷ w) t other h =
    rw (other c h.0, find_after, strip_prefix) (find_after-word q qs w t other h.1)

pub is_blank-space : is_blank b' ' ≡ true
unfolding is_blank
is_blank-space = refl

until_blank-word : (w t : List ℕ) → All Plain w → until_blank (w ++ b' ' ∷ t) ≡ (w, b' ' ∷ t)
unfolding until_blank
until_blank-word [] t h = rw is_blank-space refl
until_blank-word (c ∷ w) t h = rw (until_blank-word w t h.1, h.0.0) refl

pub next_word-word : (w t : List ℕ) → IsWord w → next_word (w ++ b' ' ∷ t) ≡ (w, b' ' ∷ t)
unfolding next_word skip_space
next_word-word [] t h = absurd (omega (arith, h.0))
next_word-word (c ∷ w) t h = rw h.1.0.0 (until_blank-word (c ∷ w) t h.1)

pub next_word-blank : (s : List ℕ) → next_word (b' ' ∷ s) ≡ next_word s
unfolding next_word skip_space is_blank
next_word-blank s = refl

stoul-code :
    (d : ℕ) (s : List ℕ)
    → d < 10
    → read_digits ((b'0' + d) ∷ s) 0 < 2 ^ 64
    → stoul ((b'0' + d) ∷ s) ≡ some (read_digits ((b'0' + d) ∷ s) 0)
unfolding stoul skip_space unsigned read_number is_blank
stoul-code d s h fits =
    let black : (b'0' + d == b' ' || (leb 9 (b'0' + d) && leb (b'0' + d) 13)) ≡ false =
      ground arith in
    let plain : (b'0' + d == b'-') ≡ false = ground arith in
    let no_plus : (b'0' + d == b'+') ≡ false = ground arith in
    let fit = lt→ltb (read_digits ((b'0' + d) ∷ s) 0) (2 ^ 64) fits in
    rw (black, unsigned, plain, no_plus, read_number, is_digit-code d h, fit, plain) refl

pub stoul-to_string : (n : ℕ) (r : List ℕ) → n < 2 ^ 64 → Ends r → stoul (to_string n ++ r) ≡ some n
stoul-to_string n r h e =
    let t = to_string-head n in
    let starts : to_string n ++ r ≡ (b'0' + t.0) ∷ (t.1 ++ r) = ap (λ x. x ++ r) t.2 in
    let value : read_digits ((b'0' + t.0) ∷ (t.1 ++ r)) 0 ≡ n =
      ap (λ x. read_digits x 0) (sym starts) ∙ read_digits-to_string n r (omega arith) e in
    ap stoul starts ∙ stoul-code t.0 (t.1 ++ r) t.3 (omega (arith, value, h)) ∙ ap some value

take-exact : (xs : List ℕ) (n : ℕ) → length xs ≡ n → take n xs ≡ xs
take-exact [] zero h = refl
take-exact [] (suc n) h = absurd (omega arith)
take-exact (x ∷ xs) zero h = absurd (omega arith)
take-exact (x ∷ xs) (suc n) h = ap (λ ys. x ∷ ys) (take-exact xs n (omega arith))

append-empty : (xs ys : List ℕ) → length ys ≡ 0 → xs ++ ys ≡ xs
append-empty xs [] h = append-nil xs
append-empty xs (y ∷ ys) h = absurd (omega arith)

pub read_body-concat :
    (n : ℕ) (cs : List (List ℕ)) (body : List ℕ)
    → length (body ++ concat cs) ≡ n
    → read_body n cs body ≡ body ++ concat cs
unfolding read_body
read_body-concat n [] body h =
    let size = length-append body [] in
    take-exact body n (omega (arith, size, h)) ∙ sym (append-nil body)
read_body-concat n (c ∷ cs) body h =
    let size = length-append body (c ++ concat cs) in
    elim (Bool-cases (ltb (length body) n)) [
      | inl more ↦ rw more (
          read_body-concat n cs (body ++ c) (ap length (append_assoc body c (concat cs)) ∙ h)
          ∙ append_assoc body c (concat cs))
      | inr full ↦ rw full (
          take-exact body n (ground (arith, size, h))
          ∙ sym (append-empty body (c ++ concat cs) (ground (arith, size, h))))
    ]
