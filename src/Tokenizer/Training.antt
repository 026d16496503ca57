-- ===== src/Tokenizer/Training.antt =====
-- src/tokenizer.cpp, train: the vocabulary, and the training text as it is cut.
use llm_cpp.Prelude.{
  List-cases, ℕ, zero, suc, ◌<◌, ◌≡◌, refl, inl, inr, none, some, List, [], ◌∷◌, ◌++◌, arith, ltb,
  ltb→lt, Bool-cases, Option-cases, length, All-append, All-mono, nat_eq, list_eq, find,
  length-insert-le, ℤ, pos, int_eq,
}
use llm_cpp.Tokenizer.{
  Tokenizer, Bytes, assign, learn, train_loop, train, merge_pass, frequencies, max_element, cut_at,
  singles, apply_merges, segment, sep,
}
use llm_cpp.Tokenizer.Merge.{apply_merges-append}
use llm_cpp.Tokenizer.Vocabulary.{
  Known, IsValid, InRange, assign-IdsBelow, assign-Known, assign-Inverts, assign-Known_self,
}

-- `learn` on its two branches.
module _ {ℓ} (P : Tokenizer → Type ℓ) (t : Tokenizer) (a b : Bytes) where
  learn_cases :
      ((i : ℤ) → find t.vocab (a ++ b) ≡ some i → P (record t { merges = t.merges ++ (a, b) ∷ [] }))
      → (find t.vocab (a ++ b) ≡ none
          → P (
              assign
                (record t { merges = t.merges ++ (a, b) ∷ [] })
                (a ++ b)
                (pos (length t.vocab))))
      → P (learn t (a, b))
  unfolding learn
  learn_cases old new = elim (Option-cases (find t.vocab (a ++ b))) [
    | inl e ↦ rw (e, learn) (new e)
    | inr (i, e) ↦ rw (e, learn) (old i e)
  ]

learn-IsValid : (t : Tokenizer) (a b : Bytes) → IsValid t → IsValid (learn t (a, b))
unfolding assign
learn-IsValid t a b v =
    learn_cases IsValid t a b
      (λ i e. record {
        bytes_known = v.bytes_known;
        merges_known =
            All-append (λ m. Known t (m.0 ++ m.1)) t.merges _ v.merges_known
              ((i, e, v.inverse (a ++ b) i e), tt);
        ids_below = v.ids_below;
        inverse = v.inverse;
      })
      (λ new.
        let grow = assign-Known t (a ++ b) new v.ids_below in
        record {
          bytes_known = λ c l. grow (c ∷ []) (v.bytes_known c l);
          merges_known =
              All-append (λ m. Known (assign t (a ++ b) (pos (length t.vocab))) (m.0 ++ m.1))
                t.merges ((a, b) ∷ [])
                (All-mono (λ m. Known t (m.0 ++ m.1))
                  (λ m. Known (assign t (a ++ b) (pos (length t.vocab))) (m.0 ++ m.1)) t.merges
                  (λ m. grow (m.0 ++ m.1)) v.merges_known)
                (assign-Known_self t (a ++ b) (pos (length t.vocab)), tt);
          ids_below = assign-IdsBelow t (a ++ b) new v.ids_below;
          inverse = assign-Inverts t (a ++ b) new v.ids_below v.inverse;
        })

learn-InRange :
    (t : Tokenizer) (a b : Bytes)
    → length t.vocab < t.vocab_size
    → InRange t
    → InRange (learn t (a, b))
unfolding assign
learn-InRange t a b room v =
    learn_cases InRange t a b (λ i e. record { ids_below = v.ids_below; fits = v.fits })
      (λ new. record {
        ids_below = assign-IdsBelow t (a ++ b) new v.ids_below;
        fits = omega (arith, length-insert-le t.vocab (a ++ b) (pos (length t.vocab)));
      })

-- The loop keeps what `learn` keeps while there is room.
train_loop_inv {ℓ} :
    (P : Tokenizer → Type ℓ)
    → ((t : Tokenizer) (a b : Bytes) → length t.vocab < t.vocab_size → P t → P (learn t (a, b)))
    → (order : List (Bytes × ℕ) → List (Bytes × ℕ)) (n : ℕ) (t : Tokenizer) (words : List Bytes)
    → P t
    → P (train_loop order n t words).0
unfolding train_loop
train_loop_inv P keep order zero t words h = h
train_loop_inv P keep order (suc n) t words h =
    elim (Bool-cases (ltb (length t.vocab) t.vocab_size)) [
      | inr full ↦ rw (full, train_loop) h
      | inl room ↦ elim (List-cases (order (frequencies words))) [
        | inl e ↦ rw (room, train_loop) (rw (e, train_loop) h)
        | inr (e, es, eq) ↦
            let pair = cut_at sep (max_element e es).0 in
            rw (room, train_loop, eq, train_loop)
              (train_loop_inv P keep order n (learn t pair) (merge_pass pair words)
                (keep t pair.0 pair.1 (ltb→lt _ _ room) h))
      ]
    ]

-- Training keeps the tokenizer valid: the single bytes and what each merge makes are tokens with an
-- id in both directions, ids are below the length of the vocabulary, and the inverse vocabulary
-- gives every token back.
pub train-IsValid :
    (order : List (Bytes × ℕ) → List (Bytes × ℕ)) (t : Tokenizer) (text : Bytes) (n : ℕ)
    → IsValid t
    → IsValid (train order t text n)
unfolding train
train-IsValid order t text n =
    train_loop_inv IsValid (λ t a b room. learn-IsValid t a b) order n t (singles text)

-- Training keeps every id below the length of the vocabulary, and that length within the vocabulary
-- size.
pub train-InRange :
    (order : List (Bytes × ℕ) → List (Bytes × ℕ)) (t : Tokenizer) (text : Bytes) (n : ℕ)
    → InRange t
    → InRange (train order t text n)
unfolding train
train-InRange order t text n = train_loop_inv InRange learn-InRange order n t (singles text)

pub vocab_size-train :
    (order : List (Bytes × ℕ) → List (Bytes × ℕ)) (t : Tokenizer) (text : Bytes) (n : ℕ)
    → (train order t text n).vocab_size ≡ t.vocab_size
unfolding train
vocab_size-train order t text n =
    train_loop_inv (λ u. u.vocab_size ≡ t.vocab_size)
      (λ u a b room e.
        unfold assign in learn_cases (λ w. w.vocab_size ≡ t.vocab_size) u a b (λ i f. e) (λ new. e))
      order n t (singles text) refl

merges-learn : (t : Tokenizer) (m : Bytes × Bytes) → (learn t m).merges ≡ t.merges ++ m ∷ []
unfolding learn assign
merges-learn t (a, b) = ground arith

-- The words at the end are the first words cut by the merges that were added.
apply_merges-train_loop :
    (order : List (Bytes × ℕ) → List (Bytes × ℕ)) (n : ℕ) (t : Tokenizer) (words chars : List Bytes)
    → apply_merges t.merges chars ≡ words
    → apply_merges (train_loop order n t words).0.merges chars ≡ (train_loop order n t words).1
unfolding train_loop
apply_merges-train_loop order zero t words chars h = h
apply_merges-train_loop order (suc n) t words chars h =
    elim (Bool-cases (ltb (length t.vocab) t.vocab_size)) [
      | inr full ↦ rw (full, train_loop) h
      | inl room ↦ elim (List-cases (order (frequencies words))) [
        | inl e ↦ rw (room, train_loop) (rw (e, train_loop) h)
        | inr (e, es, eq) ↦
            let pair = cut_at sep (max_element e es).0 in
            rw (room, train_loop, eq, train_loop)
              (apply_merges-train_loop order n (learn t pair) (merge_pass pair words) chars (
                rw (merges-learn t pair, apply_merges-append t.merges (pair ∷ []) chars, h)
                  (unfold apply_merges in refl)))
      ]
    ]

-- A tokenizer that is trained from no merges cuts its training text, when it encodes it, as the
-- training had cut it at its end.
pub segment-train :
    (order : List (Bytes × ℕ) → List (Bytes × ℕ)) (t : Tokenizer) (text : Bytes) (n : ℕ)
    → t.merges ≡ []
    → segment (train order t text n) text ≡ (train_loop order n t (singles text)).1
unfolding train segment
segment-train order t text n h =
    apply_merges-train_loop order n t (singles text) (singles text)
      (rw h (unfold apply_merges in refl))
