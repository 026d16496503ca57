-- ===== src/Checkpoint/Keeping.antt =====
-- src/checkpoint.cpp, BestKeeper over a training: it keeps the first of all that it considered.
use llm_cpp.Prelude.{
  if-Both, if-Cases, All-take, ℕ, zero, suc, ◌≡◌, refl, sym, ap, ◌∙◌, subst, inl, inr, true, false,
  List, [], ◌∷◌, ◌++◌, append_assoc, append-nil, Bool-cases, take, All, All-mono, nat_eq, list_eq,
  int_eq, if-Both,
}
use llm_cpp.Checkpoint.{Ranking, BestKeeper, insert_entry, sort_from, consider}

module _ {F P : Type 0} (r : Ranking F P) where
  unfoldable pub consider_all : BestKeeper F P → List (F × P) → BestKeeper F P
  consider_all b [] = b
  consider_all b (e ∷ es) = consider_all (consider r b e).1 es

  -- Entries in order: a later one is before no earlier one.
  abbrev pub NoneBefore : F × P → List (F × P) → Type 0
  NoneBefore e ks = All (λ k. r.before k e ≡ false) ks

  abbrev pub Sorted : List (F × P) → Type 0
  Sorted [] = Unit {0}
  Sorted (k ∷ ks) = NoneBefore k ks × Sorted ks

  -- `before` is a strict order.
  pub record IsRanking : Type 0 where
    pub not_before :
        (a b c : F × P) → r.before b a ≡ false → r.before c b ≡ false → r.before c a ≡ false
    pub asymmetric : (a b : F × P) → r.before a b ≡ true → r.before b a ≡ false

  take-nil : (n : ℕ) → take {A = F × P} n [] ≡ []
  take-nil zero = refl
  take-nil (suc n) = refl

  take-take : (n : ℕ) (ks : List (F × P)) → take n (take (suc n) ks) ≡ take n ks
  take-take zero ks = refl
  take-take (suc n) [] = refl
  take-take (suc n) (k ∷ ks) = ap (λ x. k ∷ x) (take-take n ks)

  take-first : (n : ℕ) (k : F × P) (ks : List (F × P)) → take n (k ∷ take n ks) ≡ take n (k ∷ ks)
  take-first zero k ks = refl
  take-first (suc n) k ks = ap (λ x. k ∷ x) (take-take n ks)

  -- The first entries of an insertion need the first entries only.
  take-insert_entry :
      (n : ℕ) (e : F × P) (ks : List (F × P))
      → take n (insert_entry r e (take n ks)) ≡ take n (insert_entry r e ks)
  unfolding insert_entry
  take-insert_entry zero e ks = refl
  take-insert_entry (suc n) e [] = refl
  take-insert_entry (suc n) e (k ∷ ks) = elim (Bool-cases (r.before e k)) [
    | inl first ↦ rw first (ap (λ x. e ∷ x) (take-first n k ks))
    | inr later ↦ rw later (ap (λ x. k ∷ x) (take-insert_entry n e ks))
  ]

  insert_entry-last :
      (e : F × P) (ks : List (F × P))
      → All (λ k. r.before e k ≡ false) ks
      → insert_entry r e ks ≡ ks ++ e ∷ []
  unfolding insert_entry
  insert_entry-last e [] h = refl
  insert_entry-last e (k ∷ ks) h = rw h.0 (ap (λ x. k ∷ x) (insert_entry-last e ks h.1))

  All-middle :
      (Q : F × P → Type 0) (xs : List (F × P)) (k : F × P) (ks : List (F × P))
      → All Q (xs ++ k ∷ ks)
      → Q k
  All-middle Q [] k ks h = h.0
  All-middle Q (x ∷ xs) k ks h = All-middle Q xs k ks h.1

  Sorted-middle :
      (xs : List (F × P)) (k : F × P) (ks : List (F × P))
      → Sorted (xs ++ k ∷ ks)
      → All (λ x. r.before k x ≡ false) xs
  Sorted-middle [] k ks h = tt
  Sorted-middle (x ∷ xs) k ks h =
      (All-middle (λ y. r.before y x ≡ false) xs k ks h.0, Sorted-middle xs k ks h.1)

  -- What is in order is left as it is.
  sort_from-Sorted :
      (done ks : List (F × P)) → Sorted (done ++ ks) → sort_from r done ks ≡ done ++ ks
  unfolding sort_from
  sort_from-Sorted done [] h = sym (append-nil done)
  sort_from-Sorted done (k ∷ ks) h =
      let same = append_assoc done (k ∷ []) ks in
      ap (λ x. sort_from r x ks) (insert_entry-last k done (Sorted-middle done k ks h))
      ∙ sort_from-Sorted (done ++ k ∷ []) ks (subst Sorted (sym same) h)
      ∙ same

  sort_from-append :
      (done ks js : List (F × P))
      → sort_from r done (ks ++ js) ≡ sort_from r (sort_from r done ks) js
  unfolding sort_from
  sort_from-append done [] js = refl
  sort_from-append done (k ∷ ks) js = sort_from-append (insert_entry r k done) ks js

  Sorted-take : (n : ℕ) (ks : List (F × P)) → Sorted ks → Sorted (take n ks)
  Sorted-take zero ks h = tt
  Sorted-take (suc n) [] h = tt
  Sorted-take (suc n) (k ∷ ks) h =
      (All-take (λ x. r.before x k ≡ false) n ks h.0, Sorted-take n ks h.1)

  NoneBefore-insert_entry :
      (k e : F × P) (ks : List (F × P))
      → r.before e k ≡ false
      → NoneBefore k ks
      → NoneBefore k (insert_entry r e ks)
  unfolding insert_entry
  NoneBefore-insert_entry k e [] h hs = (h, tt)
  NoneBefore-insert_entry k e (j ∷ js) h hs =
      if-Both (NoneBefore k) (r.before e j) (h, hs) (hs.0, NoneBefore-insert_entry k e js h hs.1)

  Sorted-insert_entry :
      IsRanking → (e : F × P) (ks : List (F × P)) → Sorted ks → Sorted (insert_entry r e ks)
  unfolding insert_entry
  Sorted-insert_entry o e [] h = (tt, tt)
  Sorted-insert_entry o e (k ∷ ks) h =
      if-Cases Sorted (r.before e k)
        (λ first.
          let next = o.asymmetric e k first in
          (
            (
              next,
              All-mono (λ x. r.before x k ≡ false) (λ x. r.before x e ≡ false) ks
                  (λ x hx. o.not_before e k x next hx) h.0,
            ),
            h,
          ))
        (λ later. (NoneBefore-insert_entry k e ks later h.0, Sorted-insert_entry o e ks h.1))

  kept-consider :
      (b : BestKeeper F P) (e : F × P) (all : List (F × P))
      → Sorted all
      → b.kept ≡ take b.keep_n all
      → (consider r b e).1.kept ≡ take b.keep_n (insert_entry r e all)
  unfolding consider sort_from
  kept-consider b e all h same =
      let n = b.keep_n in
      ap (λ ks. take n (sort_from r [] (ks ++ e ∷ []))) same
      ∙ ap (take n) (
          sort_from-append [] (take n all) (e ∷ [])
          ∙ ap (insert_entry r e) (sort_from-Sorted [] (take n all) (Sorted-take n all h)))
      ∙ take-insert_entry n e all

  kept-from :
      IsRanking
      → (b : BestKeeper F P) (es all : List (F × P)) → Sorted all
      → b.kept ≡ take b.keep_n all
      → (consider_all b es).kept ≡ take b.keep_n (sort_from r all es)
  unfolding consider_all sort_from consider
  kept-from o b [] all h same = same
  kept-from o b (e ∷ es) all h same =
      kept-from o (consider r b e).1 es (insert_entry r e all) (Sorted-insert_entry o e all h)
        (kept-consider b e all h same)

  -- If the pairs of a perplexity and a path are ordered, a keeper that starts empty keeps, after
  -- any sequence of checkpoints, exactly the first keep_n of all that it considered, in their
  -- order, though it forgets the others at every step.
  pub kept-consider_all :
      IsRanking
      → (keep_n : ℕ) (best : F) (es : List (F × P))
      → let b : BestKeeper F P = record { keep_n = keep_n; best = best; kept = [] } in
        (consider_all b es).kept ≡ take keep_n (sort_from r [] es)
  kept-consider_all o keep_n best es =
      kept-from o (record { keep_n = keep_n; best = best; kept = [] }) es [] tt
        (sym (take-nil keep_n))
