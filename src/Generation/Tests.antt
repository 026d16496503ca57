-- ===== src/Generation/Tests.antt =====
-- A model of three tokens: the best token after a token is the next one, modulo 3.
use llm_cpp.Prelude.{
  pos, negsuc, ℕ, zero, suc, ◌+◌, ◌≡◌, List, [], ◌∷◌, map, ltb, nat_eq, list_eq, ℤ, int_eq,
}
use llm_cpp.Generation.{Gpt, generate}
use llm_cpp.Generation.Greedy.{generate-generate}

-- The logits after a token
unfoldable pub logits_after : ℤ → List ℕ
logits_after (pos zero) = 0 ∷ 5 ∷ 1 ∷ []
logits_after (pos (suc zero)) = 0 ∷ 1 ∷ 5 ∷ []
logits_after (pos (suc (suc n))) = 5 ∷ 1 ∷ 0 ∷ []
logits_after (negsuc n) = 5 ∷ 1 ∷ 0 ∷ []

abbrev pub bigram : Gpt ℕ ℕ
bigram = record {
  cleared = 0;
  incremental = λ s t p. (logits_after t, s + 1);
  forward = λ ts. map logits_after ts;
  vocab_size = 3;
  block_size = 16;
}

generate-generate_example :
    generate ltb 0 bigram (generate ltb 0 bigram (pos 1 ∷ []) 2) 3
    ≡ generate ltb 0 bigram (pos 1 ∷ []) (2 + 3)
generate-generate_example = generate-generate ltb 0 bigram (pos 1 ∷ []) 2 3
