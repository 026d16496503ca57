-- ===== src/Server/Loop.antt =====
-- src/server.cpp, serve_chat: the loop that looks for the prompt.
use llm_cpp.Prelude.{
  ℕ, zero, suc, ◌+◌, ◌≤◌, ◌<◌, ◌≡◌, refl, sym, ◌∙◌, subst, ◌⊎◌, inl, inr, none, some, [], ◌∷◌,
  arith, ◌==◌, Bool-cases, Option-cases, length, nat_eq, list_eq, int_eq, some-injective,
}
use llm_cpp.Text.{find_after, strip_prefix}
use llm_cpp.Tokenizer.{Bytes}
use llm_cpp.Server.Json.{quote}
use llm_cpp.Server.Http.{content_key, value_start, scan_content, chat_prompt}

-- The search that comes back to the start of the body
abbrev pub Unclosed : Bytes → Type 0
Unclosed r =
    (find_after (b':' ∷ []) r ≡ none)
    ⊎ ((v : Bytes) × (find_after (b':' ∷ []) r ≡ some v) × (find_after (quote ∷ []) v ≡ none))

value_start-Unclosed : (body r : Bytes) → Unclosed r → value_start body r ≡ body
unfolding value_start
value_start-Unclosed body r (inl e) = rw (e, value_start) refl
value_start-Unclosed body r (inr (v, e, e')) = rw (e, value_start, e') refl

length-strip_prefix : (q s r : Bytes) → strip_prefix q s ≡ some r → length r + length q ≡ length s
unfolding strip_prefix
length-strip_prefix [] s r h =
    subst (λ x. length x + 0 ≡ length s) (some-injective s r h) (omega arith)
length-strip_prefix (c ∷ q) [] r h = absurd cc
length-strip_prefix (c ∷ q) (x ∷ s) r h = elim (Bool-cases (c == x)) [
  | inl e ↦
      let ih = length-strip_prefix q s r (subst (λ o. o ≡ some r) (rw (e) refl) h) in omega arith
  | inr e ↦ absurd cc
]

length-find_after : (q s r : Bytes) → find_after q s ≡ some r → length r + length q ≤ length s
unfolding find_after
length-find_after q [] r h = let k = length-strip_prefix q [] r h in omega arith
length-find_after q (c ∷ s) r h = elim (Option-cases (strip_prefix q (c ∷ s))) [
  | inl e ↦
      let h' : find_after q s ≡ some r = subst (λ o. o ≡ some r) (rw (e, find_after) refl) h in
      let ih = length-find_after q s r h' in omega arith
  | inr (r', e) ↦
      let h' : some r' ≡ some r = subst (λ o. o ≡ some r) (rw (e, find_after) refl) h in
      let k = length-strip_prefix q (c ∷ s) r (e ∙ h') in omega arith
]

value_start-some :
    (body r v w : Bytes)
    → find_after (b':' ∷ []) r ≡ some v
    → find_after (quote ∷ []) v ≡ some w
    → value_start body r ≡ w
unfolding value_start
value_start-some body r v w e e' = rw (e, value_start, e') refl

-- Where a round goes on: at the start of the body, or at a shorter rest
length-value_start :
    (body r : Bytes) → (value_start body r ≡ body) ⊎ (length (value_start body r) < length r)
length-value_start body r = elim (Option-cases (find_after (b':' ∷ []) r)) [
  | inl e ↦ inl (value_start-Unclosed body r (inl e))
  | inr (v, e) ↦ elim (Option-cases (find_after (quote ∷ []) v)) [
    | inl e' ↦ inl (value_start-Unclosed body r (inr (v, e, e')))
    | inr (w, e') ↦
        let k = length-find_after (b':' ∷ []) r v e in
        let k' = length-find_after (quote ∷ []) v w e' in
        inr
          (subst (λ x. length x < length r) (sym (value_start-some body r v w e e')) (omega arith))
  ]
]

-- No fewer rounds than f end the loop at the start of the body.
abbrev Stuck : Bytes → ℕ → Type 0
Stuck body f = (g : ℕ) → g < f → (p : Bytes) → chat_prompt g body body p ≡ none

abbrev Halts : ℕ → Bytes → Bytes → Type 0
Halts n body rest = (p : Bytes) → (x : Bytes) × (chat_prompt n body rest p ≡ some x)

abbrev Returns : Bytes → Bytes → Type 0
Returns body rest = (f : ℕ) (p : Bytes) → Stuck body f → chat_prompt f body rest p ≡ none

round_last :
    (n : ℕ) (body rest p : Bytes)
    → find_after content_key rest ≡ none
    → chat_prompt (suc n) body rest p ≡ some p
unfolding chat_prompt
round_last n body rest p e = rw (e, chat_prompt) refl

round :
    (n : ℕ) (body rest r p : Bytes)
    → find_after content_key rest ≡ some r
    → chat_prompt (suc n) body rest p
      ≡ chat_prompt n body (value_start body r) (scan_content (value_start body r))
unfolding chat_prompt
round n body rest r p e = rw (e, chat_prompt) refl

later-Returns :
    (body rest r : Bytes)
    → find_after content_key rest ≡ some r
    → ((f : ℕ) (p : Bytes) → Stuck body (suc f) → chat_prompt f body (value_start body r) p ≡ none)
    → Returns body rest
unfolding chat_prompt
later-Returns body rest r e y zero p u = refl
later-Returns body rest r e y (suc f) p u =
    round f body rest r p e ∙ y f (scan_content (value_start body r)) u

-- The search from `rest` ends within as many rounds as the bytes that are left, or it comes back.
search_outcome :
    (n : ℕ) (body rest : Bytes) → length rest < n → Halts n body rest ⊎ Returns body rest
search_outcome zero body rest h = absurd (omega arith)
search_outcome (suc n) body rest h = elim (Option-cases (find_after content_key rest)) [
  | inl e ↦ inl (λ p. (p, round_last n body rest p e))
  | inr (r, e) ↦ elim (length-value_start body r) [
    | inl e' ↦ inr (later-Returns body rest r e (λ f p u. rw (e') (u f (omega arith) p)))
    | inr k ↦
        let l = length-find_after content_key rest r e in
        elim (search_outcome n body (value_start body r) (omega arith)) [
          | inl y ↦ inl (λ p.
              subst (λ o. (x : Bytes) × (o ≡ some x)) (sym (round n body rest r p e))
                (y (scan_content (value_start body r))))
          | inr y ↦ inr (later-Returns body rest r e (λ f p u. y f p (λ g k'. u g (omega arith))))
        ]
  ]
]

-- If no colon follows the first "content" of a body, or no quotation mark follows that colon, the
-- loop of serve_chat that looks for the prompt never ends: it runs out of any number of rounds.
pub chat_prompt-loops :
    (body r : Bytes)
    → find_after content_key body ≡ some r
    → Unclosed r
    → (f : ℕ) (prompt : Bytes) → chat_prompt f body body prompt ≡ none
unfolding chat_prompt
chat_prompt-loops body r e u zero prompt = refl
chat_prompt-loops body r e u (suc f) prompt =
    round f body body r prompt e
    ∙ (rw (value_start-Unclosed body r u) (chat_prompt-loops body r e u f (scan_content body)))

Stuck-Returns : (body : Bytes) → Returns body body → (f : ℕ) → Stuck body f
Stuck-Returns body y zero g k p = absurd (omega arith)
Stuck-Returns body y (suc f) g k p = y g p (λ g' k' q. Stuck-Returns body y f g' (omega arith) q)

-- The loop of serve_chat that looks for the prompt either ends within one round more than the body
-- has bytes, or never ends.
pub chat_prompt-halts :
    (body : Bytes)
    → ((p : Bytes) → (x : Bytes) × (chat_prompt (length body + 1) body body p ≡ some x))
      ⊎ ((f : ℕ) (p : Bytes) → chat_prompt f body body p ≡ none)
chat_prompt-halts body = elim (search_outcome (length body + 1) body body (omega arith)) [
  | inl y ↦ inl y
  | inr y ↦ inr (λ f p. Stuck-Returns body y (f + 1) f (omega arith) p)
]
