-- ===== src/Generation/Greedy.antt =====
-- src/model.cpp, greedy generation against a plain recursion on the best next token.
use llm_cpp.Prelude.{
  pos, ℕ, zero, suc, ◌+◌, ◌-◌, ◌≡◌, refl, sym, ap, ◌∙◌, inl, inr, Bool, false, List, [], ◌∷◌, ◌++◌,
  append_assoc, append-nil, arith, ◌==◌, Bool-cases, length, length-append, get_or, take, drop,
  replicate, take-length, drop-length, nat_eq, list_eq, ℤ, int_eq,
}
use llm_cpp.Generation.{
  Gpt, best_from, argmax, max_from, sample_greedy, prefill, prefilled, decode, generate,
  stream_steps, generate_streaming,
}

module _ {F S : Type 0} (less : F → F → Bool) (z : F) (m : Gpt F S) where
  -- The token that the model finds best after a text.
  unfoldable pub next_token : List ℤ → ℤ
  next_token ts = pos (argmax less (prefilled less z m ts).0)

  -- The text after n more tokens, each of them the best after those before it.
  unfoldable pub extend : ℕ → List ℤ → List ℤ
  extend zero ts = ts
  extend (suc n) ts = extend n (ts ++ next_token ts ∷ [])

  prefill-append :
      (p : ℕ) (ts us : List ℤ) (r : List F × S)
      → prefill less z m p (ts ++ us) r
        ≡ prefill less z m (p + length ts) us (prefill less z m p ts r)
  unfolding prefill
  prefill-append p [] us r = ap (λ k. prefill less z m k us r) (omega arith)
  prefill-append p (t ∷ ts) us r =
      prefill-append (p + 1) ts us (m.incremental r.1 t p)
      ∙ ap (λ k. prefill less z m k us (prefill less z m (p + 1) ts (m.incremental r.1 t p)))
          (omega arith)

  prefilled-append :
      (ts : List ℤ) (t : ℤ)
      → prefilled less z m (ts ++ t ∷ []) ≡ m.incremental (prefilled less z m ts).1 t (length ts)
  unfolding prefilled prefill
  prefilled-append ts t =
      let here : 0 + length ts ≡ length ts = omega arith in
      prefill-append 0 ts (t ∷ []) (replicate m.vocab_size z, m.cleared)
      ∙ ap (λ k. m.incremental (prefilled less z m ts).1 t k) here

  -- The test that ends the loop early changes nothing.
  decode-suc :
      (n : ℕ) (r : List F × S) (out : List ℤ)
      → let t : ℤ = pos (argmax less r.0) in
        decode less z m (suc n) r out
        ≡ decode less z m n (m.incremental r.1 t (length out)) (out ++ t ∷ [])
  unfolding decode
  decode-suc zero r out = refl
  decode-suc (suc n) r out =
      let t : ℤ = pos (argmax less r.0) in
      let here : length (out ++ t ∷ []) - 1 ≡ length out =
        omega (arith, length-append out (t ∷ [])) in
      let more : (suc n == 0) ≡ false = ground arith in rw (more, here) refl

  decode-extend : (n : ℕ) (ts : List ℤ) → decode less z m n (prefilled less z m ts) ts ≡ extend n ts
  unfolding extend next_token
  decode-extend zero ts = unfold decode in refl
  decode-extend (suc n) ts =
      let t = next_token ts in
      decode-suc n (prefilled less z m ts) ts
      ∙ ap (λ r. decode less z m n r (ts ++ t ∷ [])) (sym (prefilled-append ts t))
      ∙ decode-extend n (ts ++ t ∷ [])

  pub generate-extend : (n : ℕ) (ts : List ℤ) → generate less z m ts n ≡ extend n ts
  unfolding generate
  generate-extend n ts = decode-extend n ts

  zero_plus : (k : ℕ) → k ≡ 0 + k
  zero_plus k = omega arith

  one_plus : (k : ℕ) → 1 + k ≡ suc k
  one_plus k = omega arith

  the_sum : (n k : ℕ) → suc (n + k) ≡ suc n + k
  the_sum n k = omega arith

  extend-add : (n k : ℕ) (ts : List ℤ) → extend k (extend n ts) ≡ extend (n + k) ts
  unfolding extend
  extend-add zero k ts = ap (λ n. extend n ts) (zero_plus k)
  extend-add (suc n) k ts =
      extend-add n k (ts ++ next_token ts ∷ []) ∙ ap (λ j. extend j ts) (the_sum n k)

  pub length-extend : (n : ℕ) (ts : List ℤ) → length (extend n ts) ≡ length ts + n
  unfolding extend
  length-extend zero ts = omega arith
  length-extend (suc n) ts =
      omega
        (arith, length-extend n (ts ++ next_token ts ∷ []), length-append ts (next_token ts ∷ []))

  -- Greedy generation composes: to generate n tokens and then k more from that text, which prefills
  -- the cache anew, gives what generating n + k tokens at once gives.
  pub generate-generate :
      (ts : List ℤ) (n k : ℕ)
      → generate less z m (generate less z m ts n) k ≡ generate less z m ts (n + k)
  generate-generate ts n k =
      generate-extend k (generate less z m ts n)
      ∙ ap (extend k) (generate-extend n ts)
      ∙ extend-add n k ts
      ∙ sym (generate-extend (n + k) ts)

  -- The two loops for the largest logit find the same one.
  max_from-best_from :
      (row xs : List F) (i best : ℕ)
      → ((k : ℕ) → get_or row (i + k) z ≡ get_or xs k z)
      → max_from less row z (length xs) i best ≡ best_from less i best (get_or row best z) xs
  unfolding max_from best_from
  max_from-best_from row [] i best h = refl
  max_from-best_from row (x ∷ xs) i best h =
      let here : get_or row i z ≡ x = ap (λ k. get_or row k z) (omega arith) ∙ h 0 in
      let later : (k : ℕ) → get_or row (i + 1 + k) z ≡ get_or xs k z =
        λ k. ap (λ j. get_or row j z) (omega arith) ∙ h (suc k) in
      elim (Bool-cases (less (get_or row best z) x)) [
        | inl e ↦
            rw (max_from, here, e, best_from)
              (max_from-best_from row xs (i + 1) i later
                ∙ ap (λ v. best_from less (i + 1) i v xs) here)
        | inr e ↦ rw (max_from, here, e, best_from) (max_from-best_from row xs (i + 1) best later)
      ]

  sample_greedy-argmax : (row : List F) → sample_greedy less z row ≡ argmax less row
  unfolding sample_greedy argmax
  sample_greedy-argmax [] = unfold max_from in refl
  sample_greedy-argmax (x ∷ xs) =
      let rounds : length (x ∷ xs) - 1 ≡ length xs = omega arith in
      rw rounds
        (max_from-best_from (x ∷ xs) xs 1 0 (λ k. ap (λ j. get_or (x ∷ xs) j z) (one_plus k)))

  stream_steps-suc :
      (n : ℕ) (r : List F × S) (out calls : List ℤ)
      → let t : ℤ = pos (argmax less r.0) in
        stream_steps less z m (suc n) r out calls
        ≡ stream_steps less z m n
            (m.incremental r.1 t (length out))
            (out ++ t ∷ [])
            (calls ++ t ∷ [])
  unfolding stream_steps
  stream_steps-suc zero r out calls = rw (sample_greedy-argmax r.0) refl
  stream_steps-suc (suc n) r out calls =
      let t : ℤ = pos (argmax less r.0) in
      let here : length (out ++ t ∷ []) - 1 ≡ length out =
        omega (arith, length-append out (t ∷ [])) in
      let more : (suc n == 0) ≡ false = ground arith in
      rw (more, sample_greedy-argmax r.0, here) refl

  stream_steps-decode :
      (n : ℕ) (r : List F × S) (out calls : List ℤ)
      → (made : List ℤ) × (stream_steps less z m n r out calls ≡ (out ++ made, calls ++ made))
        × (decode less z m n r out ≡ out ++ made)
  stream_steps-decode zero r out calls = (
    [],
    unfold stream_steps in rw (append-nil out, append-nil calls) refl,
    unfold decode in sym (append-nil out),
  )
  stream_steps-decode (suc n) r out calls =
      let t : ℤ = pos (argmax less r.0) in
      let (made, e, e') =
        stream_steps-decode n (m.incremental r.1 t (length out)) (out ++ t ∷ [])
          (calls ++ t ∷ []) in
      (
        t ∷ made,
        stream_steps-suc n r out calls
            ∙ e
            ∙ rw (append_assoc out (t ∷ []) made, append_assoc calls (t ∷ []) made) refl,
        decode-suc n r out ∙ e' ∙ append_assoc out (t ∷ []) made,
      )

  -- Streaming generation returns what greedy generation returns, and calls back with each new token
  -- in its order; the two loops for the largest logit, by value and by position, find the same one.
  pub generate_streaming-generate :
      (prompt : List ℤ) (n : ℕ)
      → generate_streaming less z m prompt n
        ≡ (generate less z m prompt n, drop (length prompt) (generate less z m prompt n))
  unfolding generate_streaming generate
  generate_streaming-generate prompt n =
      let (made, e, e') = stream_steps-decode n (prefilled less z m prompt) prompt [] in
      rw (e, e', drop-length prompt made) refl

  -- Greedy generation returns the prompt followed by exactly the number of tokens that were asked
  -- for.
  pub generate-tokens :
      (prompt : List ℤ) (n : ℕ)
      → (length (generate less z m prompt n) ≡ length prompt + n)
        × (take (length prompt) (generate less z m prompt n) ≡ prompt)
  unfolding generate
  generate-tokens prompt n =
      let (made, e, e') = stream_steps-decode n (prefilled less z m prompt) prompt [] in
      (
        ap length (generate-extend n prompt) ∙ length-extend n prompt,
        ap (take (length prompt)) e' ∙ take-length prompt made,
      )
