-- ===== src/Speculative.antt =====
-- src/speculative.cpp: SpeculativeDecoder, greedy decoding in which a draft model proposes tokens
-- and one forward pass of the target verifies them.
pub mod Verify
pub mod Rounds
mod Tests
use llm_cpp.Prelude.{
  pos, ℕ, zero, suc, ◌+◌, ◌-◌, min, Bool, true, false, ◌&&◌, Option, none, some, List, [], ◌∷◌,
  ◌++◌, ltb, leb, ◌==◌, if◌then◌else◌, tests, length, get_or, take, drop, ◌=?◌, nat_eq, list_eq, ℤ,
  int_eq,
}
use llm_cpp.Generation.{Gpt, argmax, generate}

-- What the verification of one proposal leaves.
pub record Verdict : Type 0 where
  pub out : List ℤ
  pub accepted : ℕ
  pub mismatch : Bool

-- t.back()
unfoldable pub back : List ℤ → ℤ
back [] = pos 0
back (t ∷ []) = t
back (t ∷ u ∷ ts) = back (u ∷ ts)

-- The loop that trims the proposal until it fits 4096 tokens with what there is, on fuel.
unfoldable pub trim : ℕ → List ℤ → List ℤ → Option (List ℤ)
trim zero out draft = none
trim (suc n) out draft =
    let size = length (out ++ draft) in
    let excess = size - 4096 in
    let again = trim n out (take (length draft - excess) draft) in
    if ltb 4096 size then if leb (length draft) excess then some [] else again else some draft

module _ {F : Type 0} (less : F → F → Bool) where
  -- The bonus token, after a proposal that was accepted as a whole.
  unfoldable pub bonus : ℕ → List (List F) → ℕ → ℕ → ℕ → List ℤ → List ℤ
  bonus start logits proposed accepted goal out =
      let bonus_row = start + proposed - 1 in
      if accepted == proposed && ltb (length out) goal && ltb bonus_row (length logits)
      then out ++ pos (argmax less (get_or logits bonus_row [])) ∷ []
      else out

module _ {F S : Type 0} (less : F → F → Bool) (z : F) where
  -- The fallback: one token of the target.
  unfoldable pub single_step : Gpt F S → List ℤ → List ℤ
  single_step target out = out ++ back (generate less z target out 1) ∷ []

  -- for (i = 0; i < draft_tokens.size(); ++i), from the i-th proposed token on. `start` is the
  -- length before the round, `goal` the length at which the budget is used up.
  unfoldable pub verify : Gpt F S → ℕ → ℕ → List (List F) → List ℤ → ℕ → List ℤ → ℕ → Verdict
  verify target start goal logits [] i out accepted = record {
    out = out;
    accepted = accepted;
    mismatch = false;
  }
  verify target start goal logits (t ∷ ts) i out accepted =
      let row = start + i - 1 in
      let pred : ℤ = pos (argmax less (get_or logits row [])) in
      let more = verify target start goal logits ts (i + 1) (out ++ t ∷ []) (accepted + 1) in
      if start == 0 && i == 0
      then record { out = single_step target out; accepted = 0; mismatch = true }
      else if leb (length logits) row
      then record { out = out; accepted = accepted; mismatch = true }
      else if pred =? t
      then if leb goal (length (out ++ t ∷ []))
        then record { out = out ++ t ∷ []; accepted = accepted + 1; mismatch = false }
        else more
      else record { out = out ++ pred ∷ []; accepted = accepted + 1; mismatch = true }

  unfoldable pub finish_round : Gpt F S → ℕ → ℕ → List (List F) → ℕ → Verdict → List ℤ
  finish_round target start goal logits proposed v =
      let out = bonus less start logits proposed v.accepted goal v.out in
      if v.mismatch then v.out else if v.accepted == 0 then single_step target out else out

  -- One round, with the tokens that the draft proposed: with none, a single step.
  unfoldable pub verify_round : Gpt F S → ℕ → List ℤ → List ℤ → Option (List ℤ)
  verify_round target goal out [] = some (single_step target out)
  verify_round target goal out (t ∷ ts) = elim (trim 2 out (t ∷ ts)) [
    | none ↦ none
    | some [] ↦ some (single_step target out)
    | some (u ∷ us) ↦
        let logits = target.forward (out ++ u ∷ us) in
        some (
          finish_round target (length out) goal logits (length (u ∷ us))
            (verify target (length out) goal logits (u ∷ us) 0 out 0))
  ]

  unfoldable pub speculate : Gpt F S → Gpt F S → ℕ → ℕ → List ℤ → Option (List ℤ)
  speculate draft target k goal out =
      let remaining = goal - length out in
      let draft_full = generate less z draft out (min k remaining) in
      let proposed =
        if ltb (length out) (length draft_full) then drop (length out) draft_full else [] in
      verify_round target goal out proposed

  -- while (out.size() < prompt.size() + total_budget), on fuel
  unfoldable pub spec_rounds : Gpt F S → Gpt F S → ℕ → ℕ → ℕ → List ℤ → Option (List ℤ)
  spec_rounds draft target k goal zero out = if ltb (length out) goal then none else some out
  spec_rounds draft target k goal (suc n) out = elim (ltb (length out) goal) [
    | false ↦ some out
    | true ↦ elim (speculate draft target k goal out) [
      | none ↦ none
      | some out' ↦ spec_rounds draft target k goal n out'
    ]
  ]

  -- SpeculativeDecoder::generate; a round for each token of the budget is enough.
  unfoldable pub speculative_generate : Gpt F S → Gpt F S → ℕ → List ℤ → ℕ → Option (List ℤ)
  speculative_generate draft target k prompt max_tokens =
      let goal = length prompt + max_tokens in
      elim (spec_rounds draft target k goal max_tokens prompt) [
        | none ↦ none
        | some out ↦ some (if ltb goal (length out) then take goal out else out)
      ]
