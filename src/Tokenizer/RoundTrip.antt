-- ===== src/Tokenizer/RoundTrip.antt =====
-- src/tokenizer.cpp, encode with decode.
use llm_cpp.Prelude.{
  ℕ, ◌≤◌, ◌<◌, ◌≡◌, refl, subst, some, ap₂, ◌∙◌, List, [], ◌∷◌, ◌++◌, map, arith, length,
  length-map, concat, All, nat_eq, list_eq, find, ℤ, pos, int_eq,
}
use llm_cpp.Tokenizer.{
  Tokenizer, Bytes, singles, segment, encode, token_id, id_bytes, decode, train, init,
}
use llm_cpp.Tokenizer.Merge.{concat-segment, apply_merges-All, length-apply_merges}
use llm_cpp.Tokenizer.Vocabulary.{
  Known, IsValid, InRange, init-IsValid, init-InRange, vocab_size-init,
}
use llm_cpp.Tokenizer.Training.{train-IsValid, train-InRange, vocab_size-train}

abbrev IsByte : ℕ → Type 0
IsByte c = c < 256

singles-All {ℓ} :
    (P : Bytes → Type ℓ) (s : Bytes)
    → ((c : ℕ) → IsByte c → P (c ∷ []))
    → All IsByte s
    → All P (singles s)
singles-All P [] f h = tt
singles-All P (c ∷ s) f h = (f c h.0, singles-All P s f h.1)

-- Every token of a valid tokenizer's cut is known.
segment-Known :
    (t : Tokenizer) (text : Bytes) → IsValid t → All IsByte text → All (Known t) (segment t text)
unfolding segment
segment-Known t text v h =
    apply_merges-All (Known t) t.merges (singles text) v.merges_known
      (singles-All (Known t) text v.bytes_known h)

id_bytes-token_id : (t : Tokenizer) (s : Bytes) → Known t s → id_bytes t (token_id t s) ≡ s
unfolding id_bytes token_id
id_bytes-token_id t s (i, v, w) = rw (v, id_bytes, token_id) (rw (w, id_bytes) refl)

decode_ids :
    (t : Tokenizer) (ts : List Bytes)
    → All (Known t) ts
    → concat (map (id_bytes t) (map (token_id t) ts)) ≡ concat ts
decode_ids t [] h = refl
decode_ids t (s ∷ ts) h = ap₂ ◌++◌ (id_bytes-token_id t s h.0) (decode_ids t ts h.1)

-- Decoding gives the encoded text back.
decode-encode :
    (t : Tokenizer) (text : Bytes) → IsValid t → All IsByte text → decode t (encode t text) ≡ text
unfolding decode encode
decode-encode t text v h =
    decode_ids t (segment t text) (segment-Known t text v h) ∙ concat-segment t text

-- A tokenizer made with a vocabulary size of at least 256 and then trained on any text, with any
-- number of merges and any order of the hash map's entries, decodes what it encodes, for every text
-- of bytes.
pub decode-encode_trained :
    (order : List (Bytes × ℕ) → List (Bytes × ℕ)) (vocab_size : ℕ) (corpus : Bytes) (num_merges : ℕ)
    (text : Bytes)
    → 256 ≤ vocab_size
    → All IsByte text
    → let t = train order (init vocab_size) corpus num_merges in decode t (encode t text) ≡ text
decode-encode_trained order vs corpus n text h =
    decode-encode (train order (init vs) corpus n) text
      (train-IsValid order (init vs) corpus n (init-IsValid vs h))

-- The embedding table of `vs` rows has a row for the id, and the tokenizer a token.
abbrev pub IsRow : Tokenizer → ℕ → ℤ → Type 0
IsRow t vs i = (n : ℕ) × (i ≡ pos n) × (n < vs) × ((s : Bytes) × (find t.inv_vocab i ≡ some s))

token_id-IsRow :
    (t : Tokenizer) (s : Bytes) → InRange t → Known t s → IsRow t t.vocab_size (token_id t s)
unfolding token_id
token_id-IsRow t s v (i, e, w) =
    let (n, e', l) = v.ids_below s i e in rw (e, token_id) (n, e', omega (arith, v.fits), (s, w))

token_ids-IsRow :
    (t : Tokenizer) (ts : List Bytes)
    → InRange t
    → All (Known t) ts
    → All (IsRow t t.vocab_size) (map (token_id t) ts)
token_ids-IsRow t [] v h = tt
token_ids-IsRow t (s ∷ ts) v h = (token_id-IsRow t s v h.0, token_ids-IsRow t ts v h.1)

-- A tokenizer made with a vocabulary size of at least 256 and then trained on any text, with any
-- number of merges and any order of the hash map's entries, encodes every text of bytes in ids that
-- are numbers below that size and stand for a token of its inverse vocabulary.
pub encode-IsRow :
    (order : List (Bytes × ℕ) → List (Bytes × ℕ)) (vocab_size : ℕ) (corpus : Bytes) (num_merges : ℕ)
    (text : Bytes)
    → 256 ≤ vocab_size
    → All IsByte text
    → let t = train order (init vocab_size) corpus num_merges in
      All (IsRow t vocab_size) (encode t text)
unfolding encode
encode-IsRow order vs corpus n text h bytes =
    let t = train order (init vs) corpus n in
    subst (λ k. All (IsRow t k) (encode t text))
      (vocab_size-train order (init vs) corpus n ∙ vocab_size-init vs)
      (token_ids-IsRow t (segment t text) (train-InRange order (init vs) corpus n (init-InRange vs))
        (segment-Known t text (train-IsValid order (init vs) corpus n (init-IsValid vs h)) bytes))

-- An encoding has no more ids than the text has bytes.
pub length-encode : (t : Tokenizer) (text : Bytes) → length (encode t text) ≤ length text
unfolding encode segment
length-encode t text = omega (
  arith,
  length-map (segment t text) (token_id t),
  length-apply_merges t.merges (singles text),
  length-map text (λ c. c ∷ []),
)
