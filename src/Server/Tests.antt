-- ===== src/Server/Tests.antt =====
-- Two threads at a gate for one; requests to a model of three tokens; a chat request without an end.
use llm_cpp.Prelude.{
  ℕ, ◌+◌, ◌≤◌, ◌≡◌, refl, ◌≢◌, ◌⊎◌, inr, Bool, false, none, some, List, [], ◌∷◌, ◌++◌, arith, ltb,
  leb, ◌==◌, if◌then◌else◌, length, concat, ◌=?◌, nat_eq, list_beq, list_eq, find, insert, int_beq,
  int_eq, codes,
}
use llm_cpp.Text.{is_blank}
use llm_cpp.Server.Connection.{Request, read_request}
use llm_cpp.Server.Connection.Headers.{request}
use llm_cpp.Server.Connection.Reading.{read_request-request}
use llm_cpp.Text.{digits, find_after, strip_prefix, to_string}
use llm_cpp.Server.{run, make_server, count_inside}
use llm_cpp.Server.Gate.{gate-bounded}
use llm_cpp.Generation
use llm_cpp.Tokenizer
use llm_cpp.Tokenizer.Stream.{has_bits, is_continuation, all_continuation}
use llm_cpp.Tokenizer.{
  token_id, segment, apply_merges, id_bytes, raw_byte, Tokenizer, Bytes, encode, init,
}
use llm_cpp.Generation.{argmax, best_from, generate, prefill, prefilled}
use llm_cpp.Generation.Tests.{bigram, logits_after}
use llm_cpp.Server.Json.{
  announced, is_sequence, number_text, extract_raw, raw_value, skip_blanks, scan_plain, escape_from,
  escape_ascii, json_get_bool, marked_string, hex_digit, quote, json_escape, json_get_string,
  scan_string,
}
use llm_cpp.Server.Strings.{received, scan_string-json_escape}
use llm_cpp.Server.Controls.{count_controls, is_control, json_escape-control}
use llm_cpp.Server.Http.{
  complete, refusal, answer, health_body, Doubles, Service, Metrics, HttpResponse, health_page,
  completion_body, chat_prompt, serve_completions, dispatch, json_get_number,
}
use llm_cpp.Server.Requests.{
  Outcome, serve_completions-Outcome, handle, count_completions, requests_total-handle,
}
use llm_cpp.Server.Chat.{text-completion_body}
use llm_cpp.Server.Loop.{chat_prompt-loops, chat_prompt-halts}

-- Both load the counter; the second enters first.
abbrev race : List (ℕ × Bool)
race = (0, false) ∷ (1, false) ∷ (1, false) ∷ (0, false) ∷ (0, false) ∷ []

gate-bounded_example :
    let s = run race (make_server 1 2) in
    (s.in_flight ≡ count_inside s.threads) × (count_inside s.threads ≤ 1)
gate-bounded_example = gate-bounded 1 2 race

-- Doubles that are numbers: std::stod reads "0" and "2".
abbrev whole : Doubles ℕ
whole = record {
  stod = λ s. if s =? codes "0" then some 0 else if s =? codes "2" then some 2 else none;
  of_nat = λ n. n;
  less = ltb;
  at_most = leb;
  is_zero = λ n. n == 0;
  truncate = λ n. n;
}

abbrev service : Service ℕ ℕ ℕ
service = record {
  dbl = whole;
  less = ltb;
  z = 0;
  model = bigram;
  tok = init 256;
  sample = λ ids n temp top_k top_p. ids;
  default_tokens = 2;
  info = record { num_parameters = 1; n_layers = 1; n_embd = 1 };
}

abbrev metrics : Metrics
metrics = record { requests_total = 0; tokens_total = 0; latency_ms_total = 0 }

abbrev greedy_request : Bytes
greedy_request = codes "{\"prompt\":\"a\",\"temperature\":0}"

serve_completions-Outcome_example :
    Outcome service
      (encode (init 256) (json_get_string greedy_request (codes "prompt") []))
      (json_get_number service greedy_request (codes "max_tokens") 2)
      5
      (json_get_number service greedy_request (codes "temperature") 1 == 0)
      metrics
      (serve_completions service 5 metrics greedy_request false)
serve_completions-Outcome_example = serve_completions-Outcome service 5 metrics greedy_request false

scan_string-json_escape_example :
    scan_string (json_escape (codes "a\"\n") ++ quote ∷ codes "}") ≡ received (codes "a\"\n")
scan_string-json_escape_example = scan_string-json_escape (codes "a\"\n") (codes "}")

json_escape-control_example : scan_string (json_escape (97 ∷ 13 ∷ []) ++ quote ∷ []) ≢ 97 ∷ 13 ∷ []
unfolding count_controls is_control
json_escape-control_example = json_escape-control (97 ∷ 13 ∷ []) [] (omega arith)

text-completion_body_example :
    json_get_string (completion_body (codes "hi")) (codes "text") [] ≡ received (codes "hi")
text-completion_body_example = text-completion_body (codes "hi")

-- A number where the text of a message is expected, and no string behind it
abbrev numeric_content : Bytes
numeric_content = codes "{\"content\":5}"

chat_prompt-loops_example : chat_prompt 100 numeric_content numeric_content [] ≡ none
unfolding find_after strip_prefix
chat_prompt-loops_example =
    chat_prompt-loops numeric_content (codes ":5}") refl (inr (codes "5}", refl, refl)) 100 []

chat_prompt-halts_example :
    ((p : Bytes)
      → (x : Bytes) × (chat_prompt (length numeric_content + 1) numeric_content numeric_content p
          ≡ some x))
    ⊎ ((f : ℕ) (p : Bytes) → chat_prompt f numeric_content numeric_content p ≡ none)
chat_prompt-halts_example = chat_prompt-halts numeric_content

-- A request that the server refuses, one that it completes and one for its health
abbrev traffic : List (Bytes × Bytes × Bytes × ℕ)
traffic =
    (
      codes "POST",
      codes "/v1/completions",
      codes "{\"top_k\":2,\"temperature\":0,\"max_tokens\":0}",
      1,
    )
    ∷ (codes "POST", codes "/v1/completions", codes "{\"temperature\":0}", 7)
    ∷ (codes "GET", codes "/healthz", [], 0)
    ∷ []

abbrev answers : List HttpResponse
answers =
    record {
      status = 400;
      content_type = codes "application/json";
      body = codes "{\"error\":\"max_tokens must be in [1, 4096]\"}";
    }
    ∷ record {
      status = 200;
      content_type = codes "application/json";
      body = completion_body (0 ∷ 1 ∷ []);
    }
    ∷ health_page service.info
    ∷ []

abbrev counters : Metrics
counters = record { requests_total = 1; tokens_total = 2; latency_ms_total = 7 }

served : handle service 9 metrics traffic ≡ some (answers, counters)
unfolding handle dispatch list_beq serve_completions complete refusal json_get_number number_text
    extract_raw find_after strip_prefix raw_value skip_blanks scan_plain json_escape encode
    escape_from segment escape_ascii apply_merges argmax best_from Generation.decode generate
    prefill prefilled digits to_string int_beq find answer completion_body health_body json_get_bool
    json_get_string marked_string Tokenizer.decode id_bytes hex_digit raw_byte init
    Tokenizer.init_bytes Tokenizer.assign insert announced is_sequence token_id has_bits
    is_continuation all_continuation logits_after
served = refl

requests_total-handle_example :
    counters.requests_total ≡ metrics.requests_total + count_completions traffic answers
requests_total-handle_example =
    requests_total-handle service 9 metrics traffic answers counters served

-- A request with two other headers, whose body comes in two pieces
abbrev host : List ℕ
host = codes "Host: x"

abbrev accept : List ℕ
accept = codes "Accept: */*"

read_request-request_example :
    let body = codes "{\"a\":" in
    let more = codes "1}" ∷ [] in
    let size = length (body ++ concat more) in
    read_request (request (codes "GET") (codes "/x") (host ∷ []) size (accept ∷ []) body ∷ more)
    ≡ Request.parsed (codes "GET") (codes "/x") (body ++ concat more)
unfolding is_blank
read_request-request_example =
    read_request-request (codes "GET") (codes "/x") (host ∷ []) (accept ∷ []) (codes "{\"a\":")
      (codes "1}" ∷ []) (omega arith, ((refl, refl), ((refl, refl), ((refl, refl), tt))))
      (omega arith, ((refl, refl), ((refl, refl), tt)))
      (
        (
          (omega arith, (refl, (refl, (refl, (refl, (refl, (refl, (refl, tt)))))))),
          (refl, (refl, (refl, (refl, (refl, (refl, (refl, tt))))))),
        ),
        tt,
      )
      (
        (
          omega arith,
          (
            refl,
            (refl, (refl, (refl, (refl, (refl, (refl, (refl, (refl, (refl, (refl, tt)))))))))),
          ),
        ),
        tt,
      )
      (omega arith)
