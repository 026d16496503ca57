-- ===== src/Speculative/Verify.antt =====
-- src/speculative.cpp, the verification of a proposal, against the target's own steps.
use llm_cpp.Prelude.{
  pos, ℕ, zero, suc, ◌+◌, ◌-◌, ◌≤◌, ◌<◌, ◌≡◌, refl, sym, ap, ◌∙◌, ◌⊎◌, inl, inr, Bool, true, false,
  ◌&&◌, List, [], ◌∷◌, ◌++◌, append_assoc, append-nil, arith, leb, ◌==◌, leb→le, Bool-cases, length,
  length-append, get_or, take, take-length, ◌=?◌, nat_eq, list_eq, beq_eq, ℤ, int_eq,
}
use llm_cpp.Generation.{Gpt, argmax, generate}
use llm_cpp.Generation.Greedy.{next_token, extend, generate-extend, length-extend}
use llm_cpp.Speculative.{Verdict, back, single_step, verify}

module _ {F S : Type 0} (less : F → F → Bool) (z : F) where
  -- The forward pass has a row for each token, and its best token is the one that incremental
  -- decoding would find after the tokens up to that row: attention is causal, and both ways of
  -- computing the logits agree on the largest.
  pub record IsCausal (m : Gpt F S) : Type 0 where
    pub rows : (ts : List ℤ) → length (m.forward ts) ≡ length ts
    pub best :
        (ts : List ℤ) (r : ℕ)
        → length ts ≤ m.block_size
        → r < length ts
        → pos (argmax less (get_or (m.forward ts) r [])) ≡ next_token less z m (take (r + 1) ts)

  module _ (m : Gpt F S) where
    -- A text that the model would generate from the prompt.
    pub IsGreedy : List ℤ → List ℤ → Type 0
    IsGreedy prompt out = (n : ℕ) × (out ≡ extend less z m n prompt)

    extend-snoc :
        (n : ℕ) (ts : List ℤ)
        → extend less z m (suc n) ts
          ≡ extend less z m n ts ++ next_token less z m (extend less z m n ts) ∷ []
    unfolding extend
    extend-snoc zero ts = refl
    extend-snoc (suc n) ts = extend-snoc n (ts ++ next_token less z m ts ∷ [])

    pub IsGreedy-grow :
        (prompt out : List ℤ) (t : ℤ)
        → t ≡ next_token less z m out
        → IsGreedy prompt out
        → IsGreedy prompt (out ++ t ∷ [])
    unfolding IsGreedy
    IsGreedy-grow prompt out t e (n, g) = (
      suc n,
      ap (λ u. out ++ u ∷ []) e
          ∙ ap (λ us. us ++ next_token less z m us ∷ []) g
          ∙ sym (extend-snoc n prompt),
    )

    pub IsGreedy-prompt : (prompt : List ℤ) → IsGreedy prompt prompt
    unfolding IsGreedy extend
    IsGreedy-prompt prompt = (0, refl)

    pub IsGreedy-generate :
        (prompt out : List ℤ) (n : ℕ)
        → IsGreedy prompt out
        → length out ≡ length prompt + n
        → out ≡ generate less z m prompt n
    unfolding IsGreedy
    IsGreedy-generate prompt out n (k, e) l =
        let same : k ≡ n = omega (arith, l, ap length e, length-extend less z m k prompt) in
        e ∙ ap (λ j. extend less z m j prompt) same ∙ sym (generate-extend less z m n prompt)

    back-append : (ts : List ℤ) (t : ℤ) → back (ts ++ t ∷ []) ≡ t
    unfolding back
    back-append [] t = refl
    back-append (u ∷ []) t = refl
    back-append (u ∷ v ∷ ts) t = back-append (v ∷ ts) t

    pub single_step-next :
        (out : List ℤ) → single_step less z m out ≡ out ++ next_token less z m out ∷ []
    unfolding single_step extend
    single_step-next out =
        ap (λ us. out ++ back us ∷ []) (generate-extend less z m 1 out ∙ extend-snoc 0 out)
        ∙ ap (λ t. out ++ t ∷ []) (back-append out (next_token less z m out))

    pub length-snoc : (out : List ℤ) (t : ℤ) → length (out ++ t ∷ []) ≡ length out + 1
    length-snoc out t = length-append out (t ∷ [])

    -- What a round leaves, of a proposal that would give `whole`.
    pub record IsVerified (prompt : List ℤ) (start goal : ℕ) (whole : List ℤ) (v : Verdict)
        : Type 0 where
      pub greedy : IsGreedy prompt v.out
      pub grows : start < length v.out
      pub below : length v.out ≤ goal
      pub kept : v.mismatch ≡ false → (0 < v.accepted) × ((v.out ≡ whole) ⊎ (goal ≤ length v.out))

    module _ (law : IsCausal m) (prompt : List ℤ) (start goal : ℕ) (whole : List ℤ)
        (fits : length whole ≤ m.block_size) where
      -- The row before the next position predicts it.
      pub row_best :
          (out us : List ℤ)
          → whole ≡ out ++ us
          → 0 < length out
          → length out ≤ length whole
          → pos (argmax less (get_or (m.forward whole) (length out - 1) []))
            ≡ next_token less z m out
      row_best out us e h h' =
          let row : length out - 1 + 1 ≡ length out = omega arith in
          law.best whole (length out - 1) fits (omega arith)
          ∙ ap (next_token less z m) (rw row (ap (take (length out)) e ∙ take-length out us))

      -- One more token that the target would generate, at the end of the round.
      corrected :
          (out : List ℤ) (t : ℤ) (n : ℕ) (b : Bool)
          → start ≤ length out
          → length out < goal
          → t ≡ next_token less z m out
          → IsGreedy prompt out
          → (b ≡ false → (0 < n) × ((out ++ t ∷ [] ≡ whole) ⊎ (goal ≤ length (out ++ t ∷ []))))
          → IsVerified prompt start goal whole
              (record { out = out ++ t ∷ []; accepted = n; mismatch = b })
      corrected out t n b h g e w k = record {
        greedy = IsGreedy-grow prompt out t e w;
        grows = omega (arith, length-snoc out t);
        below = omega (arith, length-snoc out t);
        kept = k;
      }

      pub verify-IsVerified :
          (ts : List ℤ) (i : ℕ) (out : List ℤ)
          → whole ≡ out ++ ts
          → length out ≡ start + i
          → length out < goal
          → 0 < i + length ts
          → IsGreedy prompt out
          → IsVerified prompt start goal whole
              (verify less z m start goal (m.forward whole) ts i out i)
      unfolding verify
      verify-IsVerified [] i out e l g h w = record {
        greedy = w;
        grows = omega arith;
        below = omega arith;
        kept = λ _. (omega arith, inl (sym (e ∙ append-nil out)));
      }
      verify-IsVerified (t ∷ ts) i out e l g h w =
          let len : length whole ≡ length out + suc (length ts) =
            ap length e ∙ length-append out (t ∷ ts) in
          let best : 0 < length out
              → pos (argmax less (get_or (m.forward whole) (start + i - 1) []))
                ≡ next_token less z m out =
            λ h.
              ap (λ k. pos (argmax less (get_or (m.forward whole) (k - 1) []))) (sym l)
              ∙ row_best out (t ∷ ts) e h (omega (arith, len)) in
          elim (Bool-cases (start == 0 && i == 0)) [
            | inl empty ↦
                rw (empty, single_step-next out)
                  (corrected out (next_token less z m out) 0 true (omega (arith, l)) g refl w
                    (λ q. absurd (ground arith)))
            | inr started ↦ elim (Bool-cases (leb (length (m.forward whole)) (start + i - 1))) [
              | inl short ↦ absurd (ground (arith, law.rows whole, len))
              | inr there ↦
                  elim (Bool-cases
                    (pos (argmax less (get_or (m.forward whole) (start + i - 1) [])) =? t)) [
                      | inr other ↦
                          rw (started, there, other)
                            (corrected out _ (i + 1) true (omega (arith, l)) g (best (ground arith))
                              w (λ q. absurd (ground arith)))
                      | inl hit ↦ elim (Bool-cases (leb goal (length (out ++ t ∷ [])))) [
                        | inl full ↦
                            rw (started, there, hit, full)
                              (corrected out t (i + 1) false (omega (arith, l)) g
                                (sym (beq_eq _ t hit) ∙ best (ground arith)) w
                                (λ q. (omega arith, inr (leb→le _ _ full))))
                        | inr more ↦
                            rw (started, there, hit, more)
                              (verify-IsVerified ts (i + 1) (out ++ t ∷ [])
                                (e ∙ sym (append_assoc out (t ∷ []) ts))
                                (omega (arith, l, length-snoc out t)) (ground arith) (omega arith)
                                (IsGreedy-grow prompt out t
                                  (sym (beq_eq _ t hit) ∙ best (ground arith)) w))
                      ]
                    ]
            ]
          ]
