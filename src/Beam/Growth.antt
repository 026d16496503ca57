-- ===== src/Beam/Growth.antt =====
-- src/beam.cpp, the text that beam search returns: the prompt and as many tokens as were asked for.
use llm_cpp.Prelude.{
  All-take, ℕ, zero, suc, ◌+◌, ◌-◌, ◌<◌, min, ◌≡◌, refl, sym, ap, ◌∙◌, subst, inl, inr, List, [],
  ◌∷◌, ◌++◌, map, append_assoc, append-nil, arith, leb, ◌==◌, Bool-cases, length, length-append,
  get_or, take, drop, take-append-drop, length-take, length-drop, length-map, concat, All,
  All-append, nat_eq, list_eq, ℤ, int_eq, List-cases,
}
use llm_cpp.Generation.{Gpt, generate}
use llm_cpp.Generation.Greedy.{generate-tokens}
use llm_cpp.Beam.{
  pos, BeamState, Scoring, context, candidates, fallback, expand, next_beams, search_beams,
  beam_answer, beam_search,
}
use llm_cpp.Beam.Best.{best_of-All}

-- std::partial_sort gives as many indices as are asked for, and std::sort permutes.
pub record IsSorting {F : Type 0} (v : Scoring F) : Type 1 where
  pub length-top : (row : List F) (k : ℕ) → length (v.top row k) ≡ k
  pub length-sort : (bs : List (BeamState F)) → length (v.sort bs) ≡ length bs
  pub sort-All : (P : BeamState F → Type 0) (bs : List (BeamState F)) → All P bs → All P (v.sort bs)

-- The prompt with n tokens behind it
abbrev pub Extends : List ℤ → ℕ → List ℤ → Type 0
Extends prompt n tokens = (made : List ℤ) × (tokens ≡ prompt ++ made) × (length made ≡ n)

Extends-append :
    (prompt : List ℤ) (n : ℕ) (tokens : List ℤ) (t : ℤ)
    → Extends prompt n tokens
    → Extends prompt (n + 1) (tokens ++ t ∷ [])
Extends-append prompt n tokens t (made, e, h) = (
  made ++ t ∷ [],
  ap (λ x. x ++ t ∷ []) e ∙ append_assoc prompt made (t ∷ []),
  length-append made (t ∷ []) ∙ ap (λ k. k + 1) h,
)

All-map :
    {A B : Type 0} (P : B → Type 0) (f : A → B) (xs : List A)
    → ((x : A) → P (f x))
    → All P (map f xs)
All-map P f [] h = tt
All-map P f (x ∷ xs) h = (h x, All-map P f xs h)

All-concat :
    {A B : Type 0} (P : A → Type 0) (Q : B → Type 0) (f : A → List B) (xs : List A)
    → ((x : A) → P x → All Q (f x))
    → All P xs
    → All Q (concat (map f xs))
All-concat P Q f [] g h = tt
All-concat P Q f (x ∷ xs) g h =
    All-append Q (f x) (concat (map f xs)) (g x h.0) (All-concat P Q f xs g h.1)

module _ {F S : Type 0} (v : Scoring F) (model : Gpt F S) where
  abbrev last_row : List ℤ → List F
  last_row ctx =
      let logits = model.forward ctx in take model.vocab_size (get_or logits (length logits - 1) [])

  expand-fallback :
      (beam_width : ℕ) (b : BeamState F)
      → context v model beam_width b.tokens ≡ []
      → fallback v model beam_width b ∷ [] ≡ expand v model beam_width b
  unfolding expand
  expand-fallback beam_width b e = rw (e, expand) refl

  expand-candidates :
      (beam_width : ℕ) (b : BeamState F) (t : ℤ) (ts : List ℤ)
      → context v model beam_width b.tokens ≡ t ∷ ts
      → candidates v model beam_width b (last_row (t ∷ ts)) ≡ expand v model beam_width b
  unfolding expand
  expand-candidates beam_width b t ts e = rw (e, expand) refl

  search_beams-step :
      (beam_width k : ℕ) (b : BeamState F) (bs : List (BeamState F)) (c : BeamState F)
      (cs : List (BeamState F))
      → next_beams v model beam_width (b ∷ bs) ≡ c ∷ cs
      → search_beams v model beam_width k (c ∷ cs)
        ≡ search_beams v model beam_width (suc k) (b ∷ bs)
  unfolding search_beams
  search_beams-step beam_width k b bs c cs e = rw (e, search_beams) refl

  length-candidates :
      (beam_width : ℕ) (b : BeamState F) (row : List F)
      → length (candidates v model beam_width b row)
        ≡ length (v.top row (min beam_width model.vocab_size))
  unfolding candidates
  length-candidates beam_width b row = length-map (v.top row (min beam_width model.vocab_size)) _

  module _ (sorting : IsSorting v) (prompt : List ℤ) (beam_width : ℕ) where
    abbrev Grown : ℕ → BeamState F → Type 0
    Grown n b = Extends prompt n b.tokens

    -- Beams of one length, at least one
    abbrev AllGrown : ℕ → List (BeamState F) → Type 0
    AllGrown n bs = All (Grown n) bs × (0 < length bs)

    Grown-expand :
        (n : ℕ) (b : BeamState F) → Grown n b → All (Grown (n + 1)) (expand v model beam_width b)
    unfolding candidates fallback
    Grown-expand n b h = elim (List-cases (context v model beam_width b.tokens)) [
      | inl e ↦
          subst (All (Grown (n + 1))) (expand-fallback beam_width b e)
            (Extends-append prompt n b.tokens _ h, tt)
      | inr (t, ts, e) ↦ subst (All (Grown (n + 1))) (expand-candidates beam_width b t ts e) (
          All-map (Grown (n + 1)) _ (v.top (last_row (t ∷ ts)) (min beam_width model.vocab_size))
            (λ tok. Extends-append prompt n b.tokens (pos tok) h))
    ]

    module _ (wide : 0 < beam_width) (vocab : 0 < model.vocab_size) where
      length-expand : (b : BeamState F) → 0 < length (expand v model beam_width b)
      length-expand b = elim (List-cases (context v model beam_width b.tokens)) [
        | inl e ↦ subst (λ x. 0 < length x) (expand-fallback beam_width b e) (omega arith)
        | inr (t, ts, e) ↦
            let row = last_row (t ∷ ts) in
            let k = min beam_width model.vocab_size in
            let size = length-candidates beam_width b row in
            let some_token = sorting.length-top row k in
            subst (λ x. 0 < length x) (expand-candidates beam_width b t ts e)
              (omega (arith, size, some_token, wide, vocab))
      ]

      AllGrown-next_beams :
          (n : ℕ) (b : BeamState F) (bs : List (BeamState F))
          → All (Grown n) (b ∷ bs)
          → AllGrown (n + 1) (next_beams v model beam_width (b ∷ bs))
      unfolding next_beams
      AllGrown-next_beams n b bs h =
          let all = concat (map (expand v model beam_width) (b ∷ bs)) in
          let grown : All (Grown (n + 1)) all =
            All-concat (Grown n) (Grown (n + 1)) (expand v model beam_width) (b ∷ bs)
              (Grown-expand n) h in
          let size =
            length-append (expand v model beam_width b)
              (concat (map (expand v model beam_width) bs)) in
          let first = length-expand b in
          let sorted = sorting.length-sort all in
          (
            All-take (Grown (n + 1)) beam_width (v.sort all)
                (sorting.sort-All (Grown (n + 1)) all grown),
            omega (arith, length-take beam_width (v.sort all), sorted, size, first, wide),
          )

      AllGrown-search_beams :
          (k n : ℕ) (bs : List (BeamState F))
          → AllGrown n bs
          → AllGrown (n + k) (search_beams v model beam_width k bs)
      unfolding search_beams
      AllGrown-search_beams zero n bs h = subst (λ m. AllGrown m bs) (omega arith) h
      AllGrown-search_beams (suc k) n [] h = absurd (omega (arith, h.1))
      AllGrown-search_beams (suc k) n (b ∷ bs) h =
          let next = AllGrown-next_beams n b bs h.0 in
          elim (List-cases (next_beams v model beam_width (b ∷ bs))) [
            | inl e ↦ absurd (omega (arith, next.1, ap length e))
            | inr (c, cs, e) ↦
                let ih =
                  AllGrown-search_beams k (n + 1) (c ∷ cs) (subst (AllGrown (n + 1)) e next) in
                let here : AllGrown (n + suc k) (search_beams v model beam_width k (c ∷ cs)) =
                  subst (λ m. AllGrown m (search_beams v model beam_width k (c ∷ cs))) (omega arith)
                    ih in
                subst (AllGrown (n + suc k)) (search_beams-step beam_width k b bs c cs e) here
          ]

  generate-Extends :
      (prompt : List ℤ) (n : ℕ) → Extends prompt n (generate v.less v.zero model prompt n)
  generate-Extends prompt n =
      let out = generate v.less v.zero model prompt n in
      let (size, start) = generate-tokens v.less v.zero model prompt n in
      (
        drop (length prompt) out,
        sym (take-append-drop (length prompt) out) ∙ ap (λ x. x ++ drop (length prompt) out) start,
        length-drop (length prompt) out ∙ omega (arith, size),
      )

  beam_answer-Extends :
      (prompt : List ℤ) (n : ℕ) (bs : List (BeamState F))
      → All (λ b. Extends prompt n b.tokens) bs
      → 0 < length bs
      → Extends prompt n (beam_answer v prompt bs)
  unfolding beam_answer
  beam_answer-Extends prompt n [] h some_beam = absurd (omega (arith, some_beam))
  beam_answer-Extends prompt n (b ∷ bs) h some_beam =
      best_of-All v (λ b. Extends prompt n b.tokens) b bs h.0 h.1

  -- With a vocabulary that is not empty, and if partial sorting gives as many indices as are asked
  -- for and sorting permutes, beam search of any width returns the prompt followed by exactly as
  -- many tokens as were asked for.
  pub beam_search-Extends :
      IsSorting v
      → 0 < model.vocab_size
      → (prompt : List ℤ) (max_new_tokens beam_width : ℕ)
      → Extends prompt max_new_tokens (beam_search v model prompt max_new_tokens beam_width)
  unfolding beam_search
  beam_search-Extends sorting vocab prompt n beam_width = elim (Bool-cases (leb beam_width 1)) [
    | inl narrow ↦ rw narrow (generate-Extends prompt n)
    | inr wide ↦ elim (Bool-cases (n == 0)) [
      | inl none_asked ↦ rw (wide, none_asked) ([], sym (append-nil prompt), ground arith)
      | inr asked ↦
          let root : BeamState F = record { tokens = prompt; score = v.zero } in
          let found : AllGrown sorting prompt beam_width n
              (search_beams v model beam_width n (root ∷ [])) =
            subst
              (λ m.
                AllGrown sorting prompt beam_width m
                  (search_beams v model beam_width n (root ∷ [])))
              (omega arith)
              (AllGrown-search_beams sorting prompt beam_width (ground arith) vocab n 0 (root ∷ [])
                ((([], sym (append-nil prompt), refl), tt), omega arith)) in
          rw (wide, asked)
            (beam_answer-Extends prompt n (search_beams v model beam_width n (root ∷ [])) found.0
              found.1)
    ]
  ]
