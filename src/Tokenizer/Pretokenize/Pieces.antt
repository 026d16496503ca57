-- ===== src/Tokenizer/Pretokenize/Pieces.antt =====
-- src/tokenizer.cpp, the pieces of split_pretokenize against the text.
use llm_cpp.Prelude.{
  ℕ, zero, suc, ◌≤◌, ◌≡◌, refl, ap, ◌∙◌, inl, inr, Bool, true, false, some, List, [], ◌∷◌, ◌++◌,
  append_assoc, arith, ◌==◌, if◌then◌else◌, Bool-cases, Option-cases, length, length-append, concat,
  All, nat_eq, list_eq, int_eq,
}
use llm_cpp.Text.{strip_prefix}
use llm_cpp.Tokenizer.{Bytes}
use llm_cpp.Tokenizer.Pretokenize.{
  apostrophe, space, is_letter, is_digit, is_space, is_other, span, contractions, contraction, word,
  plain_piece, next_piece, split_loop, split_pretokenize,
}

span-append : (p : ℕ → Bool) (s : Bytes) → (span p s).0 ++ (span p s).1 ≡ s
unfolding span
span-append p [] = refl
span-append p (c ∷ s) = elim (Bool-cases (p c)) [
  | inl h ↦ rw h (ap (◌∷◌ c) (span-append p s))
  | inr h ↦ rw h refl
]

strip_prefix-append : (p s r : Bytes) → strip_prefix p s ≡ some r → p ++ r ≡ s
unfolding strip_prefix
strip_prefix-append [] s r h = ground arith
strip_prefix-append (c ∷ p) [] r h = cc
strip_prefix-append (c ∷ p) (x ∷ s) r h = ground (arith, strip_prefix-append p s r)

contraction-append : (cs : List Bytes) (s p r : Bytes) → contraction cs s ≡ some (p, r) → p ++ r ≡ s
unfolding contraction
contraction-append [] s p r h = cc
contraction-append (c ∷ cs) s p r h =
    ground (arith, strip_prefix-append c s r, contraction-append cs s p r)

word-append : (lead s : Bytes) → (word lead s).0 ++ (word lead s).1 ≡ lead ++ s
unfolding word
word-append lead [] = refl
word-append lead (c ∷ s) =
    let p = if is_letter c then is_letter else if is_digit c then is_digit else is_other in
    append_assoc lead (c ∷ (span p s).0) (span p s).1 ∙ ap (λ r. lead ++ c ∷ r) (span-append p s)

plain_piece-append : (c : ℕ) (s : Bytes) → (plain_piece c s).0 ++ (plain_piece c s).1 ≡ c ∷ s
unfolding plain_piece
plain_piece-append c s =
    ground (arith, span-append is_space s, word-append (c ∷ []) s, word-append [] (c ∷ s))

next_piece-append : (c : ℕ) (s : Bytes) → (next_piece c s).0 ++ (next_piece c s).1 ≡ c ∷ s
unfolding next_piece
next_piece-append c s = elim (Bool-cases (c == apostrophe)) [
  | inr h ↦ rw h (plain_piece-append c s)
  | inl h ↦ elim (Option-cases (contraction contractions s)) [
    | inl e ↦ rw (h, e, next_piece) (plain_piece-append c s)
    | inr ((p, r), e) ↦ rw (h, e, next_piece) (ap (◌∷◌ c) (contraction-append contractions s p r e))
  ]
]

-- A piece begins with the byte that it stands at.
abbrev StartsWith : ℕ → Bytes → Type 0
StartsWith c p = (r : Bytes) × (p ≡ c ∷ r)

plain_piece-StartsWith : (c : ℕ) (s : Bytes) → StartsWith c (plain_piece c s).0
unfolding plain_piece word
plain_piece-StartsWith c [] = elim (Bool-cases (is_space c)) [
  | inl h ↦ rw h ((span is_space []).0, refl)
  | inr h ↦ elim (Bool-cases (c == space)) [
    | inl k ↦ rw (h, k) ([], refl)
    | inr k ↦ rw (h, k) (_, refl)
  ]
]
plain_piece-StartsWith c (d ∷ s) = elim (Bool-cases (is_space c)) [
  | inl h ↦ rw h ((span is_space (d ∷ s)).0, refl)
  | inr h ↦ elim (Bool-cases (c == space)) [
    | inl k ↦ rw (h, k) (_, refl)
    | inr k ↦ rw (h, k) (_, refl)
  ]
]

next_piece-StartsWith : (c : ℕ) (s : Bytes) → StartsWith c (next_piece c s).0
unfolding next_piece
next_piece-StartsWith c s = elim (Bool-cases (c == apostrophe)) [
  | inr h ↦ rw h (plain_piece-StartsWith c s)
  | inl h ↦ elim (Option-cases (contraction contractions s)) [
    | inl e ↦ rw (h, e, next_piece) (plain_piece-StartsWith c s)
    | inr ((p, r), e) ↦ rw (h, e, next_piece) (p, refl)
  ]
]

-- So the rest is shorter, and the length of the text is fuel enough.
length-next_piece : (c : ℕ) (s : Bytes) → length (next_piece c s).1 ≤ length s
length-next_piece c s =
    let (r, e) = next_piece-StartsWith c s in
    omega (
      arith,
      ap length (next_piece-append c s),
      length-append (next_piece c s).0 (next_piece c s).1,
      ap length e,
    )

concat-split_loop : (f : ℕ) (text : Bytes) → length text ≤ f → concat (split_loop f text) ≡ text
unfolding split_loop
concat-split_loop zero [] h = refl
concat-split_loop zero (c ∷ s) h = absurd (omega arith)
concat-split_loop (suc f) [] h = refl
concat-split_loop (suc f) (c ∷ s) h =
    ap (◌++◌ (next_piece c s).0)
      (concat-split_loop f (next_piece c s).1 (omega (arith, length-next_piece c s)))
    ∙ next_piece-append c s

-- The pieces of the pre-tokenizer, one after the other, are the text, so that the fuel of its loop,
-- the length of the text, is enough.
pub concat-split_pretokenize : (text : Bytes) → concat (split_pretokenize text) ≡ text
unfolding split_pretokenize
concat-split_pretokenize text = concat-split_loop (length text) text (omega arith)

span-All : (p : ℕ → Bool) (s : Bytes) → All (λ c. p c ≡ true) (span p s).0
unfolding span
span-All p [] = tt
span-All p (c ∷ s) = elim (Bool-cases (p c)) [ inl h ↦ rw h (h, span-All p s) | inr h ↦ rw h tt ]

-- A piece that begins with white space is white space.
abbrev pub IsPiece : Bytes → Type 0
IsPiece p =
    (c : ℕ) × (r : Bytes) × (p ≡ c ∷ r) × (is_space c ≡ true → All (λ d. is_space d ≡ true) r)

not_apostrophe : (c : ℕ) → is_space c ≡ true → (c == apostrophe) ≡ false
unfolding is_space
not_apostrophe c h = ground arith

next_piece-IsPiece : (c : ℕ) (s : Bytes) → IsPiece (next_piece c s).0
next_piece-IsPiece c s = elim (Bool-cases (is_space c)) [
  | inl h ↦
      let (r, e) = next_piece-StartsWith c s in
      (c, (span is_space s).0, piece h, λ _. span-All is_space s)
  | inr h ↦ let (r, e) = next_piece-StartsWith c s in (c, r, e, λ k. cc)
]
  where
    piece : is_space c ≡ true → (next_piece c s).0 ≡ c ∷ (span is_space s).0
    piece h = unfold next_piece plain_piece in rw (not_apostrophe c h, h) refl

split_loop-IsPiece : (f : ℕ) (text : Bytes) → All IsPiece (split_loop f text)
unfolding split_loop
split_loop-IsPiece zero text = tt
split_loop-IsPiece (suc f) [] = tt
split_loop-IsPiece (suc f) (c ∷ s) =
    (next_piece-IsPiece c s, split_loop-IsPiece f (next_piece c s).1)

-- No piece of the pre-tokenizer is empty, and a piece that begins with white space is all white
-- space, so that no space ever attaches to a word.
pub split_pretokenize-IsPiece : (text : Bytes) → All IsPiece (split_pretokenize text)
unfolding split_pretokenize
split_pretokenize-IsPiece text = split_loop-IsPiece (length text) text
