-- ===== src/Dataset/Batches.antt =====
-- src/dataset.cpp, the batches of one epoch against the tokens of the data set.
use llm_cpp.Prelude.{
  pos, ℕ, zero, suc, ◌+◌, ◌≤◌, ◌<◌, ◌≡◌, refl, sym, ap, ◌∙◌, inl, inr, true, false, List, [], ◌∷◌,
  ◌++◌, map, arith, ltb, leb, ltb→lt, Bool-cases, length, get_or, take, drop, take-append-drop,
  concat, nat_eq, list_eq, ℤ, int_eq,
}
use mathlib.Core.List.{Perm}
use mathlib.Core.List.Perm as Permutation
use llm_cpp.Dataset.{
  get_batch, DataLoader, starts, build_order, make_loader, has_next, next_batch, epoch,
}

drop_all {ℓ} : {A : Type ℓ} (xs : List A) (i : ℕ) → length xs ≤ i → drop i xs ≡ []
drop_all [] zero h = refl
drop_all [] (suc i) h = refl
drop_all (x ∷ xs) zero h = absurd (omega arith)
drop_all (x ∷ xs) (suc i) h = drop_all xs i (omega arith)

drop_one {ℓ} :
    {A : Type ℓ} (xs : List A) (i : ℕ) (d : A)
    → i < length xs
    → drop i xs ≡ get_or xs i d ∷ drop (suc i) xs
drop_one [] i d h = absurd (omega arith)
drop_one (x ∷ xs) zero d h = refl
drop_one (x ∷ xs) (suc i) d h = drop_one xs i d (omega arith)

suc_sum : (i j : ℕ) → suc (i + j) ≡ suc i + j
suc_sum i j = omega arith

drop-drop {ℓ} : {A : Type ℓ} (xs : List A) (i j : ℕ) → drop j (drop i xs) ≡ drop (i + j) xs
drop-drop xs zero j = ap (λ k. drop k xs) (omega arith)
drop-drop [] (suc i) zero = sym (drop_all [] _ (omega arith))
drop-drop [] (suc i) (suc j) = sym (drop_all [] _ (omega arith))
drop-drop (x ∷ xs) (suc i) j = drop-drop xs i j ∙ ap (λ k. drop k (x ∷ xs)) (suc_sum i j)

one_more : (i : ℕ) → i + 1 ≡ suc i
one_more i = omega arith

-- The batch at a position is the next tokens from there, as many as there are.
pub get_batch-take :
    (tokens : List ℤ) (idx n : ℕ) → get_batch tokens idx n ≡ take n (drop idx tokens)
unfolding get_batch
get_batch-take tokens idx zero = refl
get_batch-take tokens idx (suc n) = elim (Bool-cases (ltb idx (length tokens))) [
  | inl e ↦
      rw (e, drop_one tokens idx (pos 0) (ltb→lt _ _ e), one_more idx)
        (ap (◌∷◌ (get_or tokens idx (pos 0))) (get_batch-take tokens (suc idx) n))
  | inr e ↦ rw (e, drop_all tokens idx (ground arith)) refl
]

pub batches : List ℤ → ℕ → List ℕ → List (List ℤ)
batches tokens batch_size order = map (λ s. get_batch tokens s batch_size) order

concat-starts :
    (tokens : List ℤ) (batch_size n s : ℕ)
    → 0 < batch_size
    → length tokens ≤ s + n
    → concat (batches tokens batch_size (starts (length tokens) batch_size n s)) ≡ drop s tokens
unfolding starts batches
concat-starts tokens batch_size zero s h k = sym (drop_all tokens s (omega arith))
concat-starts tokens batch_size (suc n) s h k = elim (Bool-cases (ltb s (length tokens))) [
  | inl e ↦
      rw
        (
          e,
          get_batch-take tokens s batch_size,
          concat-starts tokens batch_size n (s + batch_size) h (omega arith),
        )
        (ap (λ ts. take batch_size (drop s tokens) ++ ts) (sym (drop-drop tokens s batch_size))
          ∙ take-append-drop batch_size (drop s tokens))
  | inr e ↦ rw e (sym (drop_all tokens s (ground arith)))
]

length-starts : (size batch_size n s : ℕ) → length (starts size batch_size n s) ≤ n
unfolding starts
length-starts size batch_size zero s = omega arith
length-starts size batch_size (suc n) s =
    ground (arith, length-starts size batch_size n (s + batch_size))

epoch-batches :
    (n : ℕ) (d : DataLoader)
    → length d.order ≤ d.cursor + n
    → epoch n d ≡ batches d.tokens d.batch_size (drop d.cursor d.order)
unfolding epoch next_batch has_next batches
epoch-batches zero d h = rw (drop_all d.order d.cursor (omega arith)) refl
epoch-batches (suc n) d h = elim (Bool-cases (ltb d.cursor (length d.order))) [
  | inl e ↦
      let more : leb (length d.order) d.cursor ≡ false = ground arith in
      rw (e, more, drop_one d.order d.cursor 0 (ltb→lt _ _ e))
        (ap (◌∷◌ (get_batch d.tokens (get_or d.order d.cursor 0) d.batch_size)) (
          epoch-batches n (record d { cursor = d.cursor + 1 }) (omega arith)
          ∙ ap (λ k. batches d.tokens d.batch_size (drop k d.order)) (one_more d.cursor)))
  | inr e ↦ rw (e, drop_all d.order d.cursor (ground arith)) refl
]

module _ (shuffle : ℕ → List ℕ → List ℕ) where
  -- The batches of one epoch of an unshuffled loader, one after the other, are the tokens of the
  -- data set, if the batch size is not 0 and the epoch is given a round for each token.
  pub concat-epoch :
      (tokens : List ℤ) (batch_size seed n : ℕ)
      → 0 < batch_size
      → length tokens ≤ n
      → concat (epoch n (make_loader shuffle tokens batch_size false seed)) ≡ tokens
  unfolding make_loader build_order
  concat-epoch tokens batch_size seed n h k =
      ap concat (
        epoch-batches n (make_loader shuffle tokens batch_size false seed)
          (omega (arith, length-starts (length tokens) batch_size (length tokens) 0)))
      ∙ concat-starts tokens batch_size (length tokens) 0 h (omega arith)

  -- If shuffling permutes, an epoch with shuffling has the batches of an epoch without, in some
  -- order, if both are given rounds for all their batches.
  pub epoch-shuffled :
      (tokens : List ℤ) (batch_size seed n : ℕ)
      → ((s : ℕ) (xs : List ℕ) → Perm xs (shuffle s xs))
      → length tokens ≤ n
      → length (make_loader shuffle tokens batch_size true seed).order ≤ n
      → Perm
          (epoch n (make_loader shuffle tokens batch_size false seed))
          (epoch n (make_loader shuffle tokens batch_size true seed))
  unfolding make_loader build_order batches
  epoch-shuffled tokens batch_size seed n permutes h k =
      let order = starts (length tokens) batch_size (length tokens) 0 in
      rw
        (
          epoch-batches n (make_loader shuffle tokens batch_size false seed)
              (omega (arith, length-starts (length tokens) batch_size (length tokens) 0)),
          epoch-batches n (make_loader shuffle tokens batch_size true seed) (omega arith),
        )
        (Permutation.map (λ s. get_batch tokens s batch_size) (permutes seed order))
