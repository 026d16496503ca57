-- ===== src/Tokenizer/Stream.antt =====
-- src/tokenizer.cpp, streaming decode: `utf8_need` and `Tokenizer::decode_incremental`.
use Prim.Native.Nat.{bit_and}
use llm_cpp.Prelude.{
  ℕ, ◌+◌, ◌-◌, ◌≤◌, ◌≡◌, refl, sym, ap, ◌∙◌, inl, inr, Bool, true, false, ◌&&◌, ◌||◌, List, [], ◌∷◌,
  ◌++◌, append_assoc, append-nil, arith, ltb, ◌==◌, if◌then◌else◌, Bool-cases, length, take, drop,
  take-append-drop, concat, nat_eq, list_eq, ℤ, int_eq,
}
use llm_cpp.Tokenizer.{Tokenizer, Bytes, decode, id_bytes}

-- (c & mask) == bits
unfoldable pub has_bits : ℕ → ℕ → ℕ → Bool
has_bits mask bits c = bit_and c mask == bits

unfoldable pub is_continuation : ℕ → Bool
unfolding has_bits
is_continuation c = has_bits 0xC0 0x80 c

unfoldable pub all_continuation : Bytes → Bool
unfolding is_continuation
all_continuation [] = true
all_continuation (c ∷ s) = is_continuation c && all_continuation s

-- The bytes p[1] to p[need - 1] that are there.
unfoldable check_tail : ℕ → Bytes → ℕ
unfolding all_continuation
check_tail need rest =
    if ltb (length rest + 1) need
    then need
    else if all_continuation (take (need - 1) rest)
    then need
    else 1

-- The bytes that the sequence at `c` needs, 1 for an invalid lead or a broken sequence.
unfoldable utf8_need : ℕ → Bytes → ℕ
unfolding has_bits check_tail
utf8_need c rest =
    if has_bits 0x80 0 c
    then 1
    else if has_bits 0xE0 0xC0 c
    then check_tail 2 rest
    else if has_bits 0xF0 0xE0 c
    then check_tail 3 rest
    else if has_bits 0xF8 0xF0 c
    then check_tail 4 rest
    else 1

unfoldable is_lead : ℕ → Bool
unfolding has_bits
is_lead c =
    has_bits 0x80 0 c || has_bits 0xE0 0xC0 c || has_bits 0xF0 0xE0 c || has_bits 0xF8 0xF0 c

-- Is everything from `c` on an incomplete sequence?
unfoldable is_incomplete : ℕ → Bytes → Bool
unfolding utf8_need is_lead all_continuation
is_incomplete c rest =
    if ltb (length rest + 1) (utf8_need c rest) then is_lead c && all_continuation rest else false

-- The loop over i, with what stands before i: the text to emit and the text to hold back.
unfoldable hold_back : Bytes → Bytes → Bytes × Bytes
unfolding is_incomplete
hold_back before [] = (before, [])
hold_back before (c ∷ rest) =
    let next = hold_back (before ++ c ∷ []) rest in
    if is_incomplete c rest then (before, c ∷ rest) else next

-- Tokenizer::decode_incremental: the text that is emitted, and the new carry.
unfoldable pub decode_incremental : Tokenizer → List ℤ → Bytes → Bytes × Bytes
unfolding hold_back decode
decode_incremental t ids carry =
    let raw = carry ++ decode t ids in
    let start = if ltb 4 (length raw) then length raw - 4 else 0 in
    hold_back (take start raw) (drop start raw)

hold_back-append :
    (before rest : Bytes) → (hold_back before rest).0 ++ (hold_back before rest).1 ≡ before ++ rest
unfolding hold_back
hold_back-append before [] = refl
hold_back-append before (c ∷ rest) = elim (Bool-cases (is_incomplete c rest)) [
  | inl held ↦ rw held refl
  | inr passed ↦
      rw passed (hold_back-append (before ++ c ∷ []) rest ∙ append_assoc before (c ∷ []) rest)
]

-- What is emitted and what is held back are the old carry and the decoded ids.
decode_incremental-append :
    (t : Tokenizer) (ids : List ℤ) (carry : Bytes)
    → (decode_incremental t ids carry).0 ++ (decode_incremental t ids carry).1
      ≡ carry ++ decode t ids
unfolding decode_incremental
decode_incremental-append t ids carry =
    let raw = carry ++ decode t ids in
    let start = if ltb 4 (length raw) then length raw - 4 else 0 in
    hold_back-append (take start raw) (drop start raw) ∙ take-append-drop start raw

utf8_need-le : (c : ℕ) (rest : Bytes) → utf8_need c rest ≤ 4
unfolding utf8_need
utf8_need-le c rest = ground arith

length-hold_back : (before rest : Bytes) → length (hold_back before rest).1 ≤ 3
unfolding hold_back is_incomplete
length-hold_back before [] = omega arith
length-hold_back before (c ∷ rest) =
    ground (arith, utf8_need-le c rest, length-hold_back (before ++ c ∷ []) rest)

-- Incremental decoding holds back at most three bytes.
pub length-decode_incremental :
    (t : Tokenizer) (ids : List ℤ) (carry : Bytes) → length (decode_incremental t ids carry).1 ≤ 3
unfolding decode_incremental
length-decode_incremental t ids carry =
    let raw = carry ++ decode t ids in
    let start = if ltb 4 (length raw) then length raw - 4 else 0 in
    length-hold_back (take start raw) (drop start raw)

-- A stream of id lists: the pieces that are emitted, and the last carry.
unfoldable pub stream : Tokenizer → Bytes → List (List ℤ) → List Bytes × Bytes
stream t carry [] = ([], carry)
stream t carry (ids ∷ more) =
    let (out, carry') = decode_incremental t ids carry in
    let (outs, last) = stream t carry' more in (out ∷ outs, last)

decode-append : (t : Tokenizer) (xs ys : List ℤ) → decode t (xs ++ ys) ≡ decode t xs ++ decode t ys
unfolding decode
decode-append t [] ys = refl
decode-append t (x ∷ xs) ys =
    rw (decode-append t xs ys) (sym (append_assoc (id_bytes t x) (decode t xs) (decode t ys)))

-- Streaming a list of chunks of ids emits pieces that, one after the other and followed by the last
-- carry, are the first carry followed by the decoding of all the ids at once.
pub concat-stream :
    (t : Tokenizer) (carry : Bytes) (chunks : List (List ℤ))
    → concat (stream t carry chunks).0 ++ (stream t carry chunks).1
      ≡ carry ++ decode t (concat chunks)
unfolding stream
concat-stream t carry [] = unfold decode in sym (append-nil carry)
concat-stream t carry (ids ∷ more) =
    let (out, carry') = decode_incremental t ids carry in
    append_assoc out (concat (stream t carry' more).0) (stream t carry' more).1
    ∙ ap (◌++◌ out) (concat-stream t carry' more)
    ∙ sym (append_assoc out carry' (decode t (concat more)))
    ∙ ap (λ s. s ++ decode t (concat more)) (decode_incremental-append t ids carry)
    ∙ append_assoc carry (decode t ids) (decode t (concat more))
    ∙ ap (◌++◌ carry) (sym (decode-append t ids (concat more)))
