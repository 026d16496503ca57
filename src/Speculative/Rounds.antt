-- ===== src/Speculative/Rounds.antt =====
-- src/speculative.cpp, the rounds together, against the target's own greedy generation.
use llm_cpp.Prelude.{
  pos, ℕ, zero, suc, ◌+◌, ◌-◌, ◌≤◌, ◌<◌, min, ◌≡◌, refl, sym, ap, ◌∙◌, inl, inr, Bool, false, ◌&&◌,
  some, List, [], ◌∷◌, ◌++◌, append-nil, arith, ltb, leb, ◌==◌, if◌then◌else◌, ltb→lt, Bool-cases,
  length, length-append, get_or, take, drop, length-take, length-drop, nat_eq, list_eq, ℤ, int_eq,
}
use llm_cpp.Generation.{Gpt, argmax, generate}
use llm_cpp.Generation.Greedy.{next_token, generate-tokens}
use llm_cpp.Speculative.{
  Verdict, trim, bonus, single_step, verify, finish_round, verify_round, speculate, spec_rounds,
  speculative_generate,
}
use llm_cpp.Speculative.Verify.{
  IsCausal, IsGreedy, IsGreedy-grow, IsGreedy-prompt, IsGreedy-generate, single_step-next,
  length-snoc, IsVerified, row_best, verify-IsVerified,
}

-- Two rounds of trimming are enough, and the proposal gets no longer.
trim-some :
    (out draft : List ℤ)
    → (kept : List ℤ) × (trim 2 out draft ≡ some kept) × (length kept ≤ length draft)
unfolding trim
trim-some out draft = elim (Bool-cases (ltb 4096 (length (out ++ draft)))) [
  | inr fits ↦ (draft, rw fits refl, omega arith)
  | inl big ↦ elim (Bool-cases (leb (length draft) (length (out ++ draft) - 4096))) [
    | inl all ↦ ([], rw (big, all) refl, omega arith)
    | inr part ↦
        let kept = take (length draft - (length (out ++ draft) - 4096)) draft in
        let fits : ltb 4096 (length (out ++ kept)) ≡ false = ground (
          arith,
          length-append out draft,
          length-append out kept,
          length-take (length draft - (length (out ++ draft) - 4096)) draft,
        ) in
        (
          kept,
          rw (big, part, fits) refl,
          omega (arith, length-take (length draft - (length (out ++ draft) - 4096)) draft),
        )
  ]
]

module _ {F S : Type 0} (less : F → F → Bool) (z : F) (m : Gpt F S) (law : IsCausal less z m)
    (prompt : List ℤ) (goal : ℕ) where
  -- A round that adds to the text what the target would generate, within the budget.
  record IsRound (out out' : List ℤ) : Type 0 where
    greedy : IsGreedy less z m prompt out'
    grows : length out < length out'
    below : length out' ≤ goal

  single_step-IsRound :
      (out : List ℤ)
      → length out < goal
      → IsGreedy less z m prompt out
      → IsRound out (single_step less z m out)
  single_step-IsRound out h w = rw (single_step-next less z m out) (record {
    greedy = IsGreedy-grow less z m prompt out _ refl w;
    grows = omega (arith, length-snoc less z m out (next_token less z m out));
    below = omega (arith, length-snoc less z m out (next_token less z m out));
  })

  module _ (out : List ℤ) (draft : List ℤ) (fits : length (out ++ draft) ≤ m.block_size)
      (some_draft : 0 < length draft) where
    abbrev logits : List (List F)
    logits = m.forward (out ++ draft)

    bonus-IsRound :
        (v : Verdict)
        → IsVerified less z m prompt (length out) goal (out ++ draft) v
        → v.mismatch ≡ false
        → IsRound out (bonus less (length out) logits (length draft) v.accepted goal v.out)
    unfolding bonus
    bonus-IsRound v h e =
        elim (Bool-cases (
          v.accepted == length draft
          && ltb (length v.out) goal
          && ltb (length out + length draft - 1) (length logits))) [
            | inr other ↦ rw other (record { greedy = h.greedy; grows = h.grows; below = h.below })
            | inl all ↦
                let whole : v.out ≡ out ++ draft = elim ((h.kept e).1) [
                  | inl w ↦ w
                  | inr full ↦ absurd (ground arith)
                ] in
                let best : pos (argmax less (get_or logits (length out + length draft - 1) []))
                    ≡ next_token less z m v.out =
                  ap (λ k. pos (argmax less (get_or logits (k - 1) [])))
                    (sym (length-append out draft))
                  ∙ row_best less z m law prompt (length out) goal (out ++ draft) fits
                      (out ++ draft) [] (sym (append-nil (out ++ draft)))
                      (omega (arith, length-append out draft)) (omega arith)
                  ∙ ap (next_token less z m) (sym whole) in
                rw all (record {
                  greedy = IsGreedy-grow less z m prompt v.out _ best h.greedy;
                  grows = omega (
                    arith,
                    h.grows,
                    length-snoc less z m v.out
                        (pos (argmax less (get_or logits (length out + length draft - 1) []))),
                  );
                  below = ground (
                    arith,
                    length-snoc less z m v.out
                        (pos (argmax less (get_or logits (length out + length draft - 1) []))),
                  );
                })
          ]

    finish_round-IsRound :
        (v : Verdict)
        → IsVerified less z m prompt (length out) goal (out ++ draft) v
        → IsRound out (finish_round less z m (length out) goal logits (length draft) v)
    unfolding finish_round
    finish_round-IsRound v h = elim (Bool-cases v.mismatch) [
      | inl e ↦ rw e (record { greedy = h.greedy; grows = h.grows; below = h.below })
      | inr e ↦
          let some_accepted : (v.accepted == 0) ≡ false = ground (arith, (h.kept e).0) in
          rw (e, some_accepted) (bonus-IsRound v h e)
    ]

  verify_round-IsRound :
      (out draft : List ℤ)
      → length out < goal
      → length out + length draft ≤ m.block_size
      → IsGreedy less z m prompt out
      → (out' : List ℤ) × (verify_round less z m goal out draft ≡ some out') × IsRound out out'
  unfolding verify_round
  verify_round-IsRound out [] h k w = (single_step less z m out, refl, single_step-IsRound out h w)
  verify_round-IsRound out (t ∷ ts) h k w =
      let (kept, e, shorter) = trim-some out (t ∷ ts) in go kept e (omega (arith, shorter))
    where
      go :
          (kept : List ℤ)
          → trim 2 out (t ∷ ts) ≡ some kept
          → length out + length kept ≤ m.block_size
          → (out' : List ℤ) × (verify_round less z m goal out (t ∷ ts) ≡ some out')
            × IsRound out out'
      go [] e k = (single_step less z m out, rw (e, verify_round) refl, single_step-IsRound out h w)
      go (u ∷ us) e k =
          let fits : length (out ++ u ∷ us) ≤ m.block_size =
            omega (arith, length-append out (u ∷ us)) in
          let v = verify less z m (length out) goal (m.forward (out ++ u ∷ us)) (u ∷ us) 0 out 0 in
          (
            finish_round less z m (length out) goal (m.forward (out ++ u ∷ us)) (length (u ∷ us)) v,
            rw (e, verify_round) refl,
            finish_round-IsRound out (u ∷ us) fits (omega arith) v (
                verify-IsVerified less z m law prompt (length out) goal (out ++ u ∷ us) fits
                  (u ∷ us) 0 out refl (omega arith) h (omega arith) w),
          )

  module _ (draft : Gpt F S) (k : ℕ) (fits : goal ≤ m.block_size) where
    speculate-IsRound :
        (out : List ℤ)
        → length out < goal
        → IsGreedy less z m prompt out
        → (out' : List ℤ) × (speculate less z draft m k goal out ≡ some out') × IsRound out out'
    unfolding speculate
    speculate-IsRound out h w =
        let full = generate less z draft out (min k (goal - length out)) in
        verify_round-IsRound out
          (if ltb (length out) (length full) then drop (length out) full else []) h
          (ground (
            arith,
            generate-tokens less z draft out (min k (goal - length out)),
            length-drop (length out) full,
          ))
          w

    spec_rounds-IsGreedy :
        (n : ℕ) (out : List ℤ)
        → length out ≤ goal
        → goal ≤ length out + n
        → IsGreedy less z m prompt out
        → (out' : List ℤ) × (spec_rounds less z draft m k goal n out ≡ some out')
          × IsGreedy less z m prompt out'
          × (length out' ≡ goal)
    unfolding spec_rounds
    spec_rounds-IsGreedy zero out h h' w =
        let done : ltb (length out) goal ≡ false = ground arith in
        (out, rw done refl, w, omega arith)
    spec_rounds-IsGreedy (suc n) out h h' w = elim (Bool-cases (ltb (length out) goal)) [
      | inr done ↦ (out, rw (done, spec_rounds) refl, w, ground arith)
      | inl open_round ↦
          let (out1, e, r) = speculate-IsRound out (ltb→lt _ _ open_round) w in
          let (out2, e', w', l) =
            spec_rounds-IsGreedy n out1 r.below (omega (arith, r.grows)) r.greedy in
          (out2, rw (open_round, spec_rounds, e, spec_rounds) e', w', l)
    ]

-- Speculative decoding ends within one round for each token of the budget, and returns exactly the
-- tokens that the target alone generates greedily, whatever the draft model proposes and however
-- many tokens at a time, if the target's forward pass is causal (its best token in each row is the
-- one that incremental decoding finds after the tokens up to that row) and the prompt with the
-- budget fits the target's block size.
pub speculative_generate-generate :
    {F S : Type 0} (less : F → F → Bool) (z : F) (draft target : Gpt F S) (k : ℕ) (prompt : List ℤ)
    (max_tokens : ℕ)
    → IsCausal less z target
    → length prompt + max_tokens ≤ target.block_size
    → speculative_generate less z draft target k prompt max_tokens
      ≡ some (generate less z target prompt max_tokens)
unfolding speculative_generate
speculative_generate-generate less z draft target k prompt max_tokens law fits =
    let goal = length prompt + max_tokens in
    let (out, e, w, l) =
      spec_rounds-IsGreedy less z target law prompt goal draft k fits max_tokens prompt
        (omega arith) (omega arith) (IsGreedy-prompt less z target prompt) in
    let done : ltb goal (length out) ≡ false = ground arith in
    rw (e, speculative_generate, done)
      (ap some (IsGreedy-generate less z target prompt out max_tokens w l))
