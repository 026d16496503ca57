-- ===== src/Tokenizer/Merge.antt =====
-- src/tokenizer.cpp, the merging of tokens: `merge_at`, `merge_pass`, `apply_merges`, `segment`.
use llm_cpp.Prelude.{
  ◌+◌, ◌≤◌, ◌≡◌, refl, ap, ◌∙◌, inl, inr, Bool, true, false, ◌&&◌, List, [], ◌∷◌, ◌++◌,
  append_assoc, arith, Bool-cases, length, concat, All, ◌=?◌, nat_eq, list_eq, beq_eq, int_eq,
}
use llm_cpp.Tokenizer.{Tokenizer, Bytes, merge_at, merge_pass, apply_merges, singles, segment}

and_true : (p q : Bool) → (p && q) ≡ true → (p ≡ true) × (q ≡ true)
and_true true q h = (refl, h)
and_true false q h = absurd (ground arith)

-- The text of a token list is unchanged by one pass.
concat-merge_at :
    (a b x : Bytes) (rest : List Bytes) → concat (merge_at a b x rest) ≡ x ++ concat rest
unfolding merge_at
concat-merge_at a b x [] = refl
concat-merge_at a b x (y ∷ rest) = elim (Bool-cases (x =? a && y =? b)) [
  | inl hit ↦
      let (hx, hy) = and_true (x =? a) (y =? b) hit in
      rw hit (
        concat-merge_at a b (a ++ b) rest
        ∙ (rw (beq_eq x a hx, beq_eq y b hy) (append_assoc a b (concat rest))))
  | inr miss ↦ rw miss (ap (◌++◌ x) (concat-merge_at a b y rest))
]

concat-merge_pass : (m : Bytes × Bytes) (ts : List Bytes) → concat (merge_pass m ts) ≡ concat ts
unfolding merge_pass
concat-merge_pass (a, b) [] = refl
concat-merge_pass (a, b) (x ∷ rest) = concat-merge_at a b x rest

concat-apply_merges :
    (ms : List (Bytes × Bytes)) (ts : List Bytes) → concat (apply_merges ms ts) ≡ concat ts
unfolding apply_merges
concat-apply_merges [] ts = refl
concat-apply_merges (m ∷ ms) ts = concat-apply_merges ms (merge_pass m ts) ∙ concat-merge_pass m ts

concat-singles : (s : Bytes) → concat (singles s) ≡ s
concat-singles [] = refl
concat-singles (c ∷ s) = ap (◌∷◌ c) (concat-singles s)

pub concat-segment : (t : Tokenizer) (text : Bytes) → concat (segment t text) ≡ text
unfolding segment
concat-segment t text = concat-apply_merges t.merges (singles text) ∙ concat-singles text

pub apply_merges-append :
    (ms ns : List (Bytes × Bytes)) (ts : List Bytes)
    → apply_merges (ms ++ ns) ts ≡ apply_merges ns (apply_merges ms ts)
unfolding apply_merges
apply_merges-append [] ns ts = refl
apply_merges-append (m ∷ ms) ns ts = apply_merges-append ms ns (merge_pass m ts)

-- What holds of the tokens, and of the token that the merge makes, holds after the pass.
module _ {ℓ} (P : Bytes → Type ℓ) where
  merge_at-All :
      (a b x : Bytes) (rest : List Bytes)
      → P (a ++ b)
      → P x
      → All P rest
      → All P (merge_at a b x rest)
  unfolding merge_at
  merge_at-All a b x [] hm hx h = (hx, tt)
  merge_at-All a b x (y ∷ rest) hm hx h = elim (Bool-cases (x =? a && y =? b)) [
    | inl hit ↦ rw hit (merge_at-All a b (a ++ b) rest hm hm h.1)
    | inr miss ↦ rw miss (hx, merge_at-All a b y rest hm h.0 h.1)
  ]

  merge_pass-All :
      (m : Bytes × Bytes) (ts : List Bytes) → P (m.0 ++ m.1) → All P ts → All P (merge_pass m ts)
  unfolding merge_pass
  merge_pass-All (a, b) [] hm h = tt
  merge_pass-All (a, b) (x ∷ rest) hm h = merge_at-All a b x rest hm h.0 h.1

  pub apply_merges-All :
      (ms : List (Bytes × Bytes)) (ts : List Bytes)
      → All (λ m. P (m.0 ++ m.1)) ms
      → All P ts
      → All P (apply_merges ms ts)
  unfolding apply_merges
  apply_merges-All [] ts hm h = h
  apply_merges-All (m ∷ ms) ts hm h =
      apply_merges-All ms (merge_pass m ts) hm.1 (merge_pass-All m ts hm.0 h)

-- No pass makes the list longer.
length-merge_at :
    (a b x : Bytes) (rest : List Bytes) → length (merge_at a b x rest) ≤ length rest + 1
unfolding merge_at
length-merge_at a b x [] = omega arith
length-merge_at a b x (y ∷ rest) =
    ground (arith, length-merge_at a b (a ++ b) rest, length-merge_at a b y rest)

length-merge_pass : (m : Bytes × Bytes) (ts : List Bytes) → length (merge_pass m ts) ≤ length ts
unfolding merge_pass
length-merge_pass (a, b) [] = omega arith
length-merge_pass (a, b) (x ∷ rest) = omega (arith, length-merge_at a b x rest)

pub length-apply_merges :
    (ms : List (Bytes × Bytes)) (ts : List Bytes) → length (apply_merges ms ts) ≤ length ts
unfolding apply_merges
length-apply_merges [] ts = omega arith
length-apply_merges (m ∷ ms) ts =
    omega (arith, length-merge_pass m ts, length-apply_merges ms (merge_pass m ts))
