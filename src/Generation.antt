-- ===== src/Generation.antt =====
-- src/model.cpp: GPT::generate, generate_streaming and generate_batch at temperature 0 with no
-- repetition penalty, on the transformer path; src/tensor.cpp: Tensor::argmax;
-- src/sampling.cpp: sample_greedy. One incremental step of the network and its forward pass are
-- the fields of an interface.
pub mod Greedy
pub mod Tests
use llm_cpp.Prelude.{
  pos, pos, ℕ, zero, suc, ◌+◌, ◌-◌, Bool, true, false, List, [], ◌∷◌, ◌++◌, map, ◌==◌,
  if◌then◌else◌, tests, length, get_or, replicate, nat_eq, list_eq, ℤ, int_eq,
}

-- A model: `cleared` is a cleared cache of `block_size` positions, `incremental` runs
-- `incremental_step` on a token at a position and advances the cache, `forward` gives one row of
-- logits for each token.
pub record Gpt (F S : Type 0) : Type 0 where
  pub cleared : S
  pub incremental : S → ℤ → ℕ → List F × S
  pub forward : List ℤ → List (List F)
  pub vocab_size : ℕ
  pub block_size : ℕ

module _ {F : Type 0} (less : F → F → Bool) where
  -- for (i ...) if (logits[i] > bestv) { bestv = logits[i]; best = i; }
  unfoldable pub best_from : ℕ → ℕ → F → List F → ℕ
  best_from i best bestv [] = best
  best_from i best bestv (x ∷ xs) = elim (less bestv x) [
    | true ↦ best_from (i + 1) i x xs
    | false ↦ best_from (i + 1) best bestv xs
  ]

  -- Tensor::argmax on one row, and the same loop in GPT::generate. A row is not empty.
  unfoldable pub argmax : List F → ℕ
  argmax [] = 0
  argmax (x ∷ xs) = best_from 1 0 x xs

  -- std::max_element(first, last) - first: the rounds left, the position and the largest so far
  unfoldable pub max_from : List F → F → ℕ → ℕ → ℕ → ℕ
  max_from row z zero i largest = largest
  max_from row z (suc n) i largest =
      max_from row z n (i + 1) (if less (get_or row largest z) (get_or row i z) then i else largest)

  unfoldable pub sample_greedy : F → List F → ℕ
  sample_greedy z row = max_from row z (length row - 1) 1 0

module _ {F S : Type 0} (less : F → F → Bool) (z : F) where
  -- for (pos = 0; pos < prompt.size(); ++pos)
  unfoldable pub prefill : Gpt F S → ℕ → List ℤ → List F × S → List F × S
  prefill m p [] r = r
  prefill m p (t ∷ ts) r = prefill m (p + 1) ts (m.incremental r.1 t p)

  -- The logits and the cache after the prompt: of an empty one, zeros.
  unfoldable pub prefilled : Gpt F S → List ℤ → List F × S
  prefilled m prompt = prefill m 0 prompt (replicate m.vocab_size z, m.cleared)

  -- for (step = 0; step < max_new_tokens; ++step), with the rounds that are left
  unfoldable pub decode : Gpt F S → ℕ → List F × S → List ℤ → List ℤ
  decode m zero r out = out
  decode m (suc n) r out =
      let next_id : ℤ = pos (argmax less r.0) in
      let out' = out ++ next_id ∷ [] in
      let rest = decode m n (m.incremental r.1 next_id (length out' - 1)) out' in
      if n == 0 then out' else rest

  -- GPT::generate(prompt, max_new_tokens, 0.0f, 0)
  unfoldable pub generate : Gpt F S → List ℤ → ℕ → List ℤ
  generate m prompt max_new_tokens = decode m max_new_tokens (prefilled m prompt) prompt

  -- GPT::generate_streaming: the tokens and the calls of `cb`
  unfoldable pub stream_steps : Gpt F S → ℕ → List F × S → List ℤ → List ℤ → List ℤ × List ℤ
  stream_steps m zero r out calls = (out, calls)
  stream_steps m (suc n) r out calls =
      let next_id : ℤ = pos (sample_greedy less z r.0) in
      let out' = out ++ next_id ∷ [] in
      let calls' = calls ++ next_id ∷ [] in
      let rest = stream_steps m n (m.incremental r.1 next_id (length out' - 1)) out' calls' in
      if n == 0 then (out', calls') else rest

  unfoldable pub generate_streaming : Gpt F S → List ℤ → ℕ → List ℤ × List ℤ
  generate_streaming m prompt max_new_tokens =
      stream_steps m max_new_tokens (prefilled m prompt) prompt []

  -- GPT::generate_batch
  unfoldable generate_batch : Gpt F S → List (List ℤ) → ℕ → List (List ℤ)
  generate_batch m prompts max_new_tokens = map (λ p. generate m p max_new_tokens) prompts
