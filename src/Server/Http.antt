-- ===== src/Server/Http.antt =====
-- src/server.cpp, the request router: serve_completions, serve_chat, dispatch and reason. Doubles and
-- std::stod are an interface; the sampler for a temperature other than 0 is a parameter. The time that
-- a request takes is an argument; the audit log is left out.
use llm_cpp.Prelude.{
  ℕ, zero, suc, ◌+◌, ◌-◌, ◌*◌, ◌%◌, ◌^◌, Bool, true, false, not, ◌&&◌, ◌||◌, Option, none, some,
  List, [], ◌∷◌, ◌++◌, ltb, ◌==◌, if◌then◌else◌, length, drop, ◌=?◌, nat_eq, list_eq, ℤ, int_eq,
  codes,
}
use llm_cpp.Text.{find_after, to_string}
use llm_cpp.Tokenizer.{Tokenizer, Bytes, encode, decode}
use llm_cpp.Generation.{Gpt, generate}
use llm_cpp.Server.Json.{quote, backslash, json_escape, json_get_string, json_get_bool, number_text}

pub record Doubles (N : Type 0) : Type 0 where
  pub stod : Bytes → Option N
  pub of_nat : ℕ → N
  pub less : N → N → Bool
  pub at_most : N → N → Bool
  pub is_zero : N → Bool
  pub truncate : N → ℕ

pub record HttpResponse : Type 0 where
  pub status : ℕ
  pub content_type : Bytes
  pub body : Bytes

pub record Metrics : Type 0 where
  pub requests_total : ℕ
  pub tokens_total : ℕ
  pub latency_ms_total : ℕ

-- What dispatch reports of the model
pub record ModelInfo : Type 0 where
  pub num_parameters : ℕ
  pub n_layers : ℕ
  pub n_embd : ℕ

abbrev pub json_type : Bytes
json_type = codes "application/json"

abbrev pub err400 : Bytes → HttpResponse
err400 msg = record {
  status = 400;
  content_type = json_type;
  body = codes "{\"error\":\"" ++ (json_escape msg ++ codes "\"}");
}

unfoldable pub reason : ℕ → Bytes
reason s =
    if s == 200
    then codes "OK"
    else if s == 400
    then codes "Bad Request"
    else if s == 404
    then codes "Not Found"
    else if s == 429
    then codes "Too Many Requests"
    else codes "Error"

-- The requests of serve_chat. In one pass of its loop: the text of a string, where a backslash gives
-- the byte behind it
unfoldable pub scan_content : Bytes → Bytes
scan_content [] = []
scan_content (c ∷ []) = if c == quote then [] else c ∷ []
scan_content (c ∷ e ∷ s) = elim (c == backslash) [
  | true ↦ e ∷ scan_content s
  | false ↦ elim (c == quote) [ true ↦ [] | false ↦ c ∷ scan_content (e ∷ s) ]
]

abbrev pub content_key : Bytes
content_key = codes "\"content\""

-- What stands behind the quote that opens the value: the second search begins at the key itself. If
-- there is no colon or no quote, the position is npos, and npos + 1 is the start of the body.
unfoldable pub value_start : Bytes → Bytes → Bytes
value_start body r = elim (find_after (b':' ∷ []) r) [
  | none ↦ body
  | some v ↦ elim (find_after (quote ∷ []) v) [ none ↦ body | some w ↦ w ]
]

-- while (true), on fuel: `none` when it runs out. `rest` is the body from `pos` on.
unfoldable pub chat_prompt : ℕ → Bytes → Bytes → Bytes → Option Bytes
chat_prompt zero body rest prompt = none
chat_prompt (suc f) body rest prompt = elim (find_after content_key rest) [
  | none ↦ some prompt
  | some r ↦ chat_prompt f body (value_start body r) (scan_content (value_start body r))
]

-- A number of the body, as it stands there
unfoldable pub copied_field : Bytes → Bytes → Bytes
copied_field body key = elim (number_text body key) [
  | none ↦ []
  | some r ↦ codes ",\"" ++ (key ++ (codes "\":" ++ r))
]

unfoldable pub copied_fields : Bytes → Bytes
copied_fields body =
    copied_field body (codes "max_tokens")
    ++ (copied_field body (codes "temperature")
        ++ (copied_field body (codes "top_p") ++ copied_field body (codes "top_k")))

unfoldable pub chat_request : Bytes → Bytes → Bool → Bytes
chat_request body prompt stream =
    codes "{\"prompt\":\""
    ++ (json_escape prompt
        ++ (quote
            ∷ (copied_fields body
                ++ ((if stream then codes ",\"stream\":true" else []) ++ codes "}"))))

unfoldable pub completion_body : Bytes → Bytes
completion_body text =
    codes "{\"id\":\"cmpl-1\",\"object\":\"text_completion\",\"choices\":[{\"text\":\""
    ++ (json_escape text ++ codes "\",\"index\":0,\"finish_reason\":\"length\"}]}")

unfoldable pub chat_body : Bytes → Bytes
chat_body text =
    codes
      "{\"id\":\"chat-1\",\"object\":\"chat.completion\",\"choices\":[{\"message\":{\"role\":\"assistant\",\"content\":\""
    ++ (json_escape text ++ codes "\"},\"finish_reason\":\"length\"}]}")

-- One event for each token
unfoldable pub sse_events : Tokenizer → List ℤ → Bytes
sse_events tok [] = codes "data: [DONE]\n\n"
sse_events tok (i ∷ is) =
    codes "data: {\"choices\":[{\"text\":\""
    ++ (json_escape (decode tok (i ∷ [])) ++ (codes "\"}]}\n\n" ++ sse_events tok is))

unfoldable pub health_body : ModelInfo → Bytes
health_body info =
    codes "{\"status\":\"ok\",\"version\":\"0.1.0\",\"params\":"
    ++ (to_string info.num_parameters ++ codes "}")

-- One metric: help, type and value
abbrev pub metric : Bytes → Bytes → Bytes → ℕ → Bytes
metric name help kind value =
    codes "# HELP "
    ++ (name
        ++ (codes " "
            ++ (help
                ++ (codes "\n# TYPE "
                    ++ (name
                        ++ (codes " "
                            ++ (kind
                                ++ (codes "\n"
                                    ++ (name
                                        ++ (codes " " ++ (to_string value ++ codes "\n")))))))))))

unfoldable pub metrics_body : ModelInfo → ℕ → Metrics → Bytes
metrics_body info block_size c =
    metric (codes "llm_requests_total") (codes "Total completion requests") (codes "counter")
      c.requests_total
    ++ (metric (codes "llm_tokens_total") (codes "Total generated tokens") (codes "counter")
          c.tokens_total
        ++ (metric (codes "llm_latency_ms_total") (codes "Total generate latency ms")
              (codes "counter") c.latency_ms_total
            ++ metric (codes "llm_kv_cache_bytes")
                (codes "Reserved KV-cache bytes (contiguous layout)") (codes "gauge")
                (info.n_layers * block_size * info.n_embd * 4 * 2 % 2 ^ 64)))

abbrev pub health_page : ModelInfo → HttpResponse
health_page info = record { status = 200; content_type = json_type; body = health_body info }

abbrev pub metrics_page : ModelInfo → ℕ → Metrics → HttpResponse
metrics_page info block_size c = record {
  status = 200;
  content_type = codes "text/plain; version=0.0.4";
  body = metrics_body info block_size c;
}

abbrev pub not_found : HttpResponse
not_found = record {
  status = 404;
  content_type = json_type;
  body = codes "{\"error\":\"not found\"}";
}

-- What a server is made with: the doubles, the model with its order of logits, the tokenizer, the
-- sampler and the configuration
pub record Service (N F S : Type 0) : Type 0 where
  pub dbl : Doubles N
  pub less : F → F → Bool
  pub z : F
  pub model : Gpt F S
  pub tok : Tokenizer
  pub sample : List ℤ → ℕ → N → N → N → List ℤ
  pub default_tokens : ℕ
  pub info : ModelInfo

module _ {N F S : Type 0} (v : Service N F S) where
  unfoldable pub json_get_number : Bytes → Bytes → N → N
  json_get_number body key def = elim (number_text body key) [
    | none ↦ def
    | some t ↦ elim (v.dbl.stod t) [ none ↦ def | some x ↦ x ]
  ]

  -- The checks of serve_completions on the numbers of a request, in their order
  unfoldable pub refusal : N → N → N → N → Option Bytes
  refusal max_t temp top_p top_k =
      if v.dbl.less temp (v.dbl.of_nat 0)
      then some (codes "temperature must be >= 0")
      else if v.dbl.at_most top_p (v.dbl.of_nat 0) || v.dbl.less (v.dbl.of_nat 1) top_p
      then some (codes "top_p must be in (0, 1]")
      else if v.dbl.less top_k (v.dbl.of_nat 0)
      then some (codes "top_k must be >= 0")
      else if v.dbl.at_most max_t (v.dbl.of_nat 0) || v.dbl.less (v.dbl.of_nat 4096) max_t
      then some (codes "max_tokens must be in [1, 4096]")
      else none

  -- The answer after a generation that took `ms`, with the counters after it
  unfoldable pub answer : ℕ → Metrics → Bool → List ℤ → List ℤ → HttpResponse × Metrics
  answer ms c stream ids out =
      let completion = drop (length ids) out in
      let c' : Metrics = record {
        requests_total = c.requests_total + 1;
        tokens_total = c.tokens_total + (length out - length ids);
        latency_ms_total = c.latency_ms_total + ms;
      } in
      let plain : HttpResponse = record {
        status = 200;
        content_type = json_type;
        body = completion_body (decode v.tok completion);
      } in
      let events : HttpResponse = record {
        status = 200;
        content_type = codes "text/event-stream";
        body = sse_events v.tok completion;
      } in
      (if stream then events else plain, c')

  unfoldable pub complete : ℕ → Metrics → Bool → List ℤ → N → N → N → N → HttpResponse × Metrics
  complete ms c stream ids max_t temp top_p top_k = elim (refusal max_t temp top_p top_k) [
    | some msg ↦ (err400 msg, c)
    | none ↦
        let n = v.dbl.truncate max_t in
        let out =
          if v.dbl.is_zero temp
          then generate v.less v.z v.model ids n
          else v.sample ids n temp top_k top_p in
        if ltb v.model.block_size (length ids + n)
        then (err400 (codes "prompt + max_tokens exceeds block_size"), c)
        else answer ms c stream ids out
  ]

  unfoldable pub serve_completions : ℕ → Metrics → Bytes → Bool → HttpResponse × Metrics
  serve_completions ms c body stream =
      complete ms c stream (encode v.tok (json_get_string body (codes "prompt") []))
        (json_get_number body (codes "max_tokens") (v.dbl.of_nat v.default_tokens))
        (json_get_number body (codes "temperature") (v.dbl.of_nat 1))
        (json_get_number body (codes "top_p") (v.dbl.of_nat 1))
        (json_get_number body (codes "top_k") (v.dbl.of_nat 0))

  -- serve_chat with the rounds of its loop: `none` when they run out
  unfoldable pub serve_chat : ℕ → ℕ → Metrics → Bytes → Bool → Option (HttpResponse × Metrics)
  serve_chat fuel ms c body stream = elim (chat_prompt fuel body body []) [
    | none ↦ none
    | some prompt ↦
        let r = serve_completions ms c (chat_request body prompt stream) stream in
        let text = json_get_string r.0.body (codes "text") [] in
        if not stream && r.0.status == 200
        then some (record r.0 { body = chat_body text }, r.1)
        else some r
  ]

  unfoldable pub dispatch :
      ℕ → ℕ → Metrics → Bytes → Bytes → Bytes → Option (HttpResponse × Metrics)
  dispatch fuel ms c method path body =
      if method =? codes "GET" && path =? codes "/healthz"
      then some (health_page v.info, c)
      else if method =? codes "GET" && path =? codes "/metrics"
      then some (metrics_page v.info v.model.block_size c, c)
      else if method =? codes "POST" && path =? codes "/v1/completions"
      then some (serve_completions ms c body (json_get_bool body (codes "stream") false))
      else if method =? codes "POST" && path =? codes "/v1/chat/completions"
      then serve_chat fuel ms c body (json_get_bool body (codes "stream") false)
      else some (not_found, c)
