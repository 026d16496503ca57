-- ===== src/Server/Requests.antt =====
-- src/server.cpp, the answers of serve_completions and dispatch, and the counters.
use llm_cpp.Prelude.{
  ℕ, ◌+◌, ◌≤◌, ◌≡◌, refl, sym, ap, ◌∙◌, subst, ◌⊎◌, inl, inr, Bool, true, false, not, ◌&&◌, Option,
  none, some, List, [], ◌∷◌, arith, ltb, ◌==◌, if◌then◌else◌, Bool-cases, Option-cases, length,
  ◌=?◌, nat_eq, list_beq, list_eq, beq_eq, ℤ, int_eq, some-injective, none-ne-some, codes,
}
use llm_cpp.Tokenizer.{Bytes, encode}
use llm_cpp.Generation.{generate}
use llm_cpp.Generation.Greedy.{generate-tokens}
use llm_cpp.Server.Json.{json_get_string, json_get_bool}
use llm_cpp.Server.Http.{
  Service, health_page, metrics_page, HttpResponse, Metrics, json_get_number, refusal, answer,
  complete, serve_completions, serve_chat, dispatch, chat_prompt, chat_request,
}

-- The answers of status 200 to requests by POST
unfoldable pub count_completions : List (Bytes × Bytes × Bytes × ℕ) → List HttpResponse → ℕ
count_completions [] answers = 0
count_completions (q ∷ qs) [] = 0
count_completions ((method, path, body, ms) ∷ qs) (r ∷ rs) =
    (if method =? codes "POST" && r.status == 200 then 1 else 0) + count_completions qs rs

module _ {N F S : Type 0} (v : Service N F S) where
  -- An answer of serve_completions: a refusal that changes no counter, or a text
  abbrev pub Outcome :
      (ids : List ℤ) (n ms : ℕ) (greedy : Bool) (c : Metrics) → HttpResponse × Metrics → Type 0
  Outcome ids n ms greedy c r =
      ((r.0.status ≡ 400) × (r.1 ≡ c))
      ⊎ ((r.0.status ≡ 200)
          × (r.1.requests_total ≡ c.requests_total + 1)
          × (r.1.latency_ms_total ≡ c.latency_ms_total + ms)
          × (length ids + n ≤ v.model.block_size)
          × (greedy ≡ true → r.1.tokens_total ≡ c.tokens_total + n))

  answer-Outcome :
      (ms : ℕ) (c : Metrics) (stream : Bool) (ids out : List ℤ) (n : ℕ) (greedy : Bool)
      → length ids + n ≤ v.model.block_size
      → (greedy ≡ true → length out ≡ length ids + n)
      → Outcome ids n ms greedy c (answer v ms c stream ids out)
  unfolding answer
  answer-Outcome ms c true ids out n greedy fits h =
      inr (refl, refl, refl, fits, λ g. omega (arith, h g))
  answer-Outcome ms c false ids out n greedy fits h =
      inr (refl, refl, refl, fits, λ g. omega (arith, h g))

  complete-Outcome :
      (ms : ℕ) (c : Metrics) (stream : Bool) (ids : List ℤ) (max_t temp top_p top_k : N)
      → Outcome ids
          (v.dbl.truncate max_t)
          ms
          (v.dbl.is_zero temp)
          c
          (complete v ms c stream ids max_t temp top_p top_k)
  unfolding complete
  complete-Outcome ms c stream ids max_t temp top_p top_k =
      elim (Option-cases (refusal v max_t temp top_p top_k)) [
        | inr (msg, e) ↦ rw (e, complete) (inl (refl, refl))
        | inl e ↦ elim (Bool-cases (ltb v.model.block_size (length ids + v.dbl.truncate max_t))) [
          | inl over ↦ rw (e, complete, over) (inl (refl, refl))
          | inr fits ↦
              rw (e, complete, fits)
                (answer-Outcome ms c stream ids
                  (if v.dbl.is_zero temp
                    then generate v.less v.z v.model ids (v.dbl.truncate max_t)
                    else v.sample ids (v.dbl.truncate max_t) temp top_k top_p)
                  (v.dbl.truncate max_t) (v.dbl.is_zero temp) (ground arith)
                  (λ g.
                    ap length (
                      ap
                        (λ b.
                          if b
                          then generate v.less v.z v.model ids (v.dbl.truncate max_t)
                          else v.sample ids (v.dbl.truncate max_t) temp top_k top_p)
                        g)
                    ∙ (generate-tokens v.less v.z v.model ids (v.dbl.truncate max_t)).0))
        ]
      ]

  -- serve_completions either answers with status 400 and leaves the counters as they were, or with
  -- status 200; then it counts one more request and the time, the prompt with the tokens asked for
  -- fits the block size, and with temperature 0 it counts exactly the tokens asked for.
  pub serve_completions-Outcome :
      (ms : ℕ) (c : Metrics) (body : Bytes) (stream : Bool)
      → Outcome
          (encode v.tok (json_get_string body (codes "prompt") []))
          (v.dbl.truncate
            (json_get_number v body (codes "max_tokens") (v.dbl.of_nat v.default_tokens)))
          ms
          (v.dbl.is_zero (json_get_number v body (codes "temperature") (v.dbl.of_nat 1)))
          c
          (serve_completions v ms c body stream)
  unfolding serve_completions
  serve_completions-Outcome ms c body stream =
      complete-Outcome ms c stream (encode v.tok (json_get_string body (codes "prompt") []))
        (json_get_number v body (codes "max_tokens") (v.dbl.of_nat v.default_tokens))
        (json_get_number v body (codes "temperature") (v.dbl.of_nat 1))
        (json_get_number v body (codes "top_p") (v.dbl.of_nat 1))
        (json_get_number v body (codes "top_k") (v.dbl.of_nat 0))

  -- The completions among the answers
  abbrev counted : Bytes → HttpResponse × Metrics → ℕ
  counted method r = if method =? codes "POST" && r.0.status == 200 then 1 else 0

  abbrev Counted : Bytes → Metrics → HttpResponse × Metrics → Type 0
  Counted method c r = r.1.requests_total ≡ c.requests_total + counted method r

  abbrev Each : (HttpResponse × Metrics → Type 0) → Option (HttpResponse × Metrics) → Type 0
  Each P none = Unit {0}
  Each P (some r) = P r

  Outcome-Counted :
      (ids : List ℤ) (n ms : ℕ) (greedy : Bool) (c : Metrics) (method : Bytes)
      (r : HttpResponse × Metrics)
      → (method =? codes "POST") ≡ true
      → Outcome ids n ms greedy c r
      → Counted method c r
  Outcome-Counted ids n ms greedy c method r post (inl (bad, same)) =
      let no : (r.0.status == 200) ≡ false = ground arith in
      rw (post, no) (omega (arith, ap (λ k. k.requests_total) same))
  Outcome-Counted ids n ms greedy c method r post (inr (good, more, late, fits, made)) =
      let done : (r.0.status == 200) ≡ true = ground arith in rw (post, done) more

  serve-Counted :
      (ms : ℕ) (c : Metrics) (method body : Bytes) (stream : Bool)
      → (method =? codes "POST") ≡ true
      → Counted method c (serve_completions v ms c body stream)
  serve-Counted ms c method body stream post =
      Outcome-Counted (encode v.tok (json_get_string body (codes "prompt") []))
        (v.dbl.truncate
          (json_get_number v body (codes "max_tokens") (v.dbl.of_nat v.default_tokens)))
        ms (v.dbl.is_zero (json_get_number v body (codes "temperature") (v.dbl.of_nat 1))) c method
        (serve_completions v ms c body stream) post (serve_completions-Outcome ms c body stream)

  chat-Counted :
      (fuel ms : ℕ) (c : Metrics) (method body : Bytes) (stream : Bool)
      → (method =? codes "POST") ≡ true
      → Each (Counted method c) (serve_chat v fuel ms c body stream)
  unfolding serve_chat
  chat-Counted fuel ms c method body stream post =
      elim (Option-cases (chat_prompt fuel body body [])) [
        | inl e ↦ rw (e, serve_chat) tt
        | inr (prompt, e) ↦
            let r = serve_completions v ms c (chat_request body prompt stream) stream in
            let k : Counted method c r =
              serve-Counted ms c method (chat_request body prompt stream) stream post in
            elim (Bool-cases (not stream && r.0.status == 200)) [
              | inl reshaped ↦ rw (e, serve_chat, reshaped) k
              | inr as_is ↦ rw (e, serve_chat, as_is) k
            ]
      ]

  get-Counted :
      (method : Bytes) (c : Metrics) (r : HttpResponse)
      → (method =? codes "GET") ≡ true
      → Counted method c (r, c)
  unfolding list_beq
  get-Counted method c r get =
      let post : (method =? codes "POST") ≡ false =
        ap (λ k. k =? codes "POST") (beq_eq method (codes "GET") get) in
      rw post (omega arith)

  dispatch-Counted :
      (fuel ms : ℕ) (c : Metrics) (method path body : Bytes)
      → Each (Counted method c) (dispatch v fuel ms c method path body)
  unfolding dispatch
  dispatch-Counted fuel ms c method path body =
      elim (Bool-cases (method =? codes "GET" && path =? codes "/healthz")) [
        | inl e ↦ rw e (get-Counted method c (health_page v.info) (ground arith))
        | inr n1 ↦ elim (Bool-cases (method =? codes "GET" && path =? codes "/metrics")) [
          | inl e ↦
              rw (n1, e)
                (get-Counted method c (metrics_page v.info v.model.block_size c) (ground arith))
          | inr n2 ↦ elim (Bool-cases (method =? codes "POST" && path =? codes "/v1/completions")) [
            | inl e ↦
                rw (n1, n2, e)
                  (serve-Counted ms c method body (json_get_bool body (codes "stream") false)
                    (ground arith))
            | inr n3 ↦
                elim (Bool-cases (method =? codes "POST" && path =? codes "/v1/chat/completions")) [
                  | inl e ↦
                      rw (n1, n2, n3, e)
                        (chat-Counted fuel ms c method body
                          (json_get_bool body (codes "stream") false) (ground arith))
                  | inr n4 ↦ rw (n1, n2, n3, n4) (ground arith)
                ]
          ]
        ]
      ]

  -- The requests of a server, one after the other, with their times: the answers and the counters
  unfoldable pub handle :
      ℕ → Metrics → List (Bytes × Bytes × Bytes × ℕ) → Option (List HttpResponse × Metrics)
  handle fuel c [] = some ([], c)
  handle fuel c ((method, path, body, ms) ∷ rs) = elim (dispatch v fuel ms c method path body) [
    | none ↦ none
    | some (r, c') ↦ elim (handle fuel c' rs) [
      | none ↦ none
      | some (answers, c'') ↦ some (r ∷ answers, c'')
    ]
  ]

  -- After any sequence of requests that dispatch answers, whose rounds of the chat loop suffice,
  -- the counter of requests has grown by the number of requests by POST that were answered with
  -- status 200.
  pub requests_total-handle :
      (fuel : ℕ) (c : Metrics) (qs : List (Bytes × Bytes × Bytes × ℕ)) (answers : List HttpResponse)
      (c' : Metrics)
      → handle fuel c qs ≡ some (answers, c')
      → c'.requests_total ≡ c.requests_total + count_completions qs answers
  unfolding handle count_completions
  requests_total-handle fuel c [] answers c' e =
      omega (arith, ap (λ k. k.1.requests_total) (some-injective _ _ e))
  requests_total-handle fuel c ((method, path, body, ms) ∷ qs) answers c' e =
      elim (Option-cases (dispatch v fuel ms c method path body)) [
        | inl d ↦
            let stopped : handle fuel c ((method, path, body, ms) ∷ qs) ≡ none =
              rw (d, handle) refl in
            absurd (none-ne-some (answers, c') (sym stopped ∙ e))
        | inr ((r, c₁), d) ↦ elim (Option-cases (handle fuel c₁ qs)) [
          | inl h ↦
              let stopped : handle fuel c ((method, path, body, ms) ∷ qs) ≡ none =
                rw (d, handle, h) refl in
              absurd (none-ne-some (answers, c') (sym stopped ∙ e))
          | inr ((rs, c₂), h) ↦
              let made : handle fuel c ((method, path, body, ms) ∷ qs) ≡ some (r ∷ rs, c₂) =
                rw (d, handle, h) refl in
              let same = some-injective (r ∷ rs, c₂) (answers, c') (sym made ∙ e) in
              let one =
                subst (Each (Counted method c)) d (dispatch-Counted fuel ms c method path body) in
              let rest = requests_total-handle fuel c₁ qs rs c₂ h in
              subst
                (λ k.
                  k.1.requests_total
                  ≡ c.requests_total + count_completions ((method, path, body, ms) ∷ qs) k.0)
                same (omega (arith, one, rest))
        ]
      ]
