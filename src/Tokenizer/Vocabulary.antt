-- ===== src/Tokenizer/Vocabulary.antt =====
-- src/tokenizer.cpp, the invariant that ties the two vocabularies and the merges together.
use llm_cpp.Prelude.{
  ℕ, zero, suc, ◌+◌, ◌≤◌, ◌<◌, min, ◌≡◌, refl, subst, inl, inr, none, some, [], ◌∷◌, ◌++◌, arith,
  ◌==◌, Bool-cases, length, All, ◌=?◌, nat_eq, list_eq, list_beq_iff, beq_refl, find, find-insert,
  length-insert_new, ℤ, pos, int_beq_iff, int_eq,
}
use llm_cpp.Tokenizer.{Tokenizer, Bytes, assign, init_bytes, init}

-- A token with an id that stands for it in both directions.
abbrev pub Known : Tokenizer → Bytes → Type 0
Known t s = (i : ℤ) × (find t.vocab s ≡ some i) × (find t.inv_vocab i ≡ some s)

-- Ids are numbers below the size of the vocabulary.
abbrev IdsBelow : Tokenizer → Type 0
IdsBelow t =
    (s : Bytes) (i : ℤ) → find t.vocab s ≡ some i → (n : ℕ) × (i ≡ pos n) × (n < length t.vocab)

-- The inverse vocabulary gives every token back.
abbrev Inverts : Tokenizer → Type 0
Inverts t = (s : Bytes) (i : ℤ) → find t.vocab s ≡ some i → find t.inv_vocab i ≡ some s

-- The single bytes and what the merges make are tokens.
pub record IsValid (t : Tokenizer) : Type 0 where
  pub bytes_known : (c : ℕ) → c < 256 → Known t (c ∷ [])
  pub merges_known : All (λ m. Known t (m.0 ++ m.1)) t.merges
  pub ids_below : IdsBelow t
  pub inverse : Inverts t

-- The vocabulary keeps to its limit.
pub record InRange (t : Tokenizer) : Type 0 where
  pub ids_below : IdsBelow t
  pub fits : length t.vocab ≤ t.vocab_size

-- A new token whose id is the size of the vocabulary.
module _ (t : Tokenizer) (s : Bytes) (new : find t.vocab s ≡ none) (below : IdsBelow t) where
  pub assign-IdsBelow : IdsBelow (assign t s (pos (length t.vocab)))
  unfolding assign
  assign-IdsBelow r i h =
      let grown = length-insert_new t.vocab s (pos (length t.vocab)) new in
      elim (Bool-cases (s =? r)) [
        | inl same ↦ (
          length t.vocab,
          ground (arith, find-insert t.vocab s r (pos (length t.vocab))),
          omega (arith, grown),
        )
        | inr other ↦
            let (n, e, l) =
              below r i (ground (arith, find-insert t.vocab s r (pos (length t.vocab)))) in
            (n, e, omega (arith, grown))
      ]

  -- It disturbs no token that was known.
  pub assign-Known : (r : Bytes) → Known t r → Known (assign t s (pos (length t.vocab))) r
  unfolding assign
  assign-Known r (i, v, w) =
      let id = pos (length t.vocab) in
      let (n, e, l) = below r i v in
      (
        i,
        ground (arith, find-insert t.vocab s r id, list_beq_iff s r),
        ground (arith, find-insert t.inv_vocab id i s, int_beq_iff id i),
      )

  pub assign-Inverts : Inverts t → Inverts (assign t s (pos (length t.vocab)))
  unfolding assign
  assign-Inverts inv r i h =
      let id = pos (length t.vocab) in
      elim (Bool-cases (s =? r)) [
        | inl same ↦ ground (
          arith,
          find-insert t.vocab s r id,
          find-insert t.inv_vocab id i s,
          int_beq_iff id i,
          list_beq_iff s r,
        )
        | inr other ↦
            let old : find t.vocab r ≡ some i = ground (arith, find-insert t.vocab s r id) in
            let (n, e, l) = below r i old in
            ground (arith, inv r i old, find-insert t.inv_vocab id i s, int_beq_iff id i)
      ]

pub assign-Known_self : (t : Tokenizer) (s : Bytes) (i : ℤ) → Known (assign t s i) s
unfolding assign
assign-Known_self t s i = (
  i,
  ground (arith, find-insert t.vocab s s i, beq_refl s),
  ground (arith, find-insert t.inv_vocab i i s, beq_refl i),
)

-- The loop of the constructor: after `i` rounds the bytes below `i` are the vocabulary.
record Started (i : ℕ) (t : Tokenizer) : Type 0 where
  known : (c : ℕ) → c < i → Known t (c ∷ [])
  fresh : (c : ℕ) → i ≤ c → find t.vocab (c ∷ []) ≡ none
  below : IdsBelow t
  inverts : Inverts t
  size : length t.vocab ≡ i

assign-Started : (i : ℕ) (t : Tokenizer) → Started i t → Started (i + 1) (assign t (i ∷ []) (pos i))
assign-Started i t h =
    let new = h.fresh i (omega arith) in
    let e : assign t (i ∷ []) (pos (length t.vocab)) ≡ assign t (i ∷ []) (pos i) = rw h.size refl in
    subst (Started (i + 1)) e (record {
      known = λ c l. elim (Bool-cases (c == i)) [
        | inl same ↦
            let here : i ≡ c = ground arith in
            subst (λ k. Known (assign t (i ∷ []) (pos (length t.vocab))) (k ∷ [])) here
              (assign-Known_self t (i ∷ []) (pos (length t.vocab)))
        | inr other ↦ assign-Known t (i ∷ []) new h.below (c ∷ []) (h.known c (ground arith))
      ];
      fresh = λ c l.
          unfold assign in
          rw (find-insert t.vocab (i ∷ []) (c ∷ []) (pos (length t.vocab)))
            (ground (arith, h.fresh c, list_beq_iff (i ∷ []) (c ∷ []), ne i c));
      below = assign-IdsBelow t (i ∷ []) new h.below;
      inverts = assign-Inverts t (i ∷ []) new h.below h.inverts;
      size =
          unfold assign in
          omega (arith, h.size, length-insert_new t.vocab (i ∷ []) (pos (length t.vocab)) new);
    })
  where
    ne : (i c : ℕ) → i ∷ [] ≡ c ∷ [] → i ≡ c
    ne i c e = ground arith

init_bytes-Started :
    (n i j : ℕ) (t : Tokenizer) → i + n ≡ j → Started i t → Started j (init_bytes n i t)
unfolding init_bytes
init_bytes-Started zero i j t e h = let e' : i ≡ j = omega arith in rw (← e') h
init_bytes-Started (suc n) i j t e h =
    init_bytes-Started n (i + 1) j (assign t (i ∷ []) (pos i)) (omega arith) (assign-Started i t h)

init_bytes-merges : (n i : ℕ) (t : Tokenizer) → (init_bytes n i t).merges ≡ t.merges
unfolding init_bytes assign
init_bytes-merges zero i t = refl
init_bytes-merges (suc n) i t = init_bytes-merges n (i + 1) (assign t (i ∷ []) (pos i))

init_bytes-vocab_size : (n i : ℕ) (t : Tokenizer) → (init_bytes n i t).vocab_size ≡ t.vocab_size
unfolding init_bytes assign
init_bytes-vocab_size zero i t = refl
init_bytes-vocab_size (suc n) i t = init_bytes-vocab_size n (i + 1) (assign t (i ∷ []) (pos i))

init-Started : (vs : ℕ) → Started (min 256 vs) (init vs)
unfolding init find
init-Started vs = init_bytes-Started (min 256 vs) 0 (min 256 vs) _ (omega arith) (record {
  known = λ c l. absurd (omega arith);
  fresh = λ c l. refl;
  below = λ s i e. absurd (ground arith);
  inverts = λ s i e. absurd (ground arith);
  size = refl;
})

-- A fresh tokenizer with room for the bytes is valid.
pub init-IsValid : (vs : ℕ) → 256 ≤ vs → IsValid (init vs)
init-IsValid vs h =
    let st = init-Started vs in
    record {
      bytes_known = λ c l. st.known c (omega arith);
      merges_known = unfold init in rw (init_bytes-merges (min 256 vs) 0 _) tt;
      ids_below = st.below;
      inverse = st.inverts;
    }

pub init-InRange : (vs : ℕ) → InRange (init vs)
init-InRange vs =
    let st = init-Started vs in
    record {
      ids_below = st.below;
      fits = rw st.size (unfold init in rw (init_bytes-vocab_size (min 256 vs) 0 _) (omega arith));
    }

pub vocab_size-init : (vs : ℕ) → (init vs).vocab_size ≡ vs
unfolding init
vocab_size-init vs = init_bytes-vocab_size (min 256 vs) 0 _
