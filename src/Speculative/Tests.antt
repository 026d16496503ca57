-- ===== src/Speculative/Tests.antt =====
-- A bigram target with a draft that always proposes token 2.
use llm_cpp.Prelude.{
  pos, ℕ, zero, suc, ◌+◌, ◌<◌, ◌≡◌, refl, sym, ap, ◌∙◌, some, List, [], ◌∷◌, map, arith, ltb,
  length, get_or, take, length-map, nat_eq, list_eq, ℤ, int_eq,
}
use llm_cpp.Generation.{Gpt, argmax, prefill, prefilled, generate}
use llm_cpp.Generation.Greedy.{next_token}
use llm_cpp.Generation.Tests.{logits_after, bigram}
use llm_cpp.Speculative.{speculative_generate}
use llm_cpp.Speculative.Verify.{IsCausal}
use llm_cpp.Speculative.Rounds.{speculative_generate-generate}

abbrev stubborn : Gpt ℕ ℕ
stubborn = record bigram { incremental = λ s t p. (0 ∷ 0 ∷ 5 ∷ [], s) }

-- The logits after a text are those after its last token.
bigram-prefill :
    (ts : List ℤ) (r : ℕ) (p : ℕ) (s : List ℕ × ℕ)
    → r < length ts
    → (prefill ltb 0 bigram p (take (suc r) ts) s).0 ≡ get_or (map logits_after ts) r []
unfolding prefill
bigram-prefill [] r p s h = absurd (omega arith)
bigram-prefill (t ∷ ts) zero p s h = refl
bigram-prefill (t ∷ ts) (suc r) p s h = bigram-prefill ts r (p + 1) _ (omega arith)

one_more : (r : ℕ) → suc r ≡ r + 1
one_more r = omega arith

bigram-IsCausal : IsCausal ltb 0 bigram
unfolding next_token prefilled
bigram-IsCausal = record {
  rows = λ ts. length-map ts logits_after;
  best = λ ts r fits h.
      ap (λ row. pos (argmax ltb row)) (sym (bigram-prefill ts r 0 _ h))
      ∙ ap (λ k. next_token ltb 0 bigram (take k ts)) (one_more r);
}

speculative_generate-generate_example :
    speculative_generate ltb 0 stubborn bigram 3 (pos 0 ∷ []) 5
    ≡ some (generate ltb 0 bigram (pos 0 ∷ []) 5)
speculative_generate-generate_example =
    speculative_generate-generate ltb 0 stubborn bigram 3 (pos 0 ∷ []) 5 bigram-IsCausal
      (omega arith)
