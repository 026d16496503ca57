-- ===== src/Server/Connection.antt =====
-- src/server.cpp, serve_connection: what it makes of the pieces that recv delivers. The gate's answer
-- and the time are arguments; send is left out, the answer is the text that is sent.
pub mod Words
pub mod Headers
pub mod Reading
use llm_cpp.Prelude.{
  ℕ, zero, suc, ◌+◌, ◌-◌, ◌*◌, ◌/◌, ◌%◌, ◌^◌, ◌≤◌, ◌<◌, min, max, ◌≡◌, refl, sym, ap, ap₂, ◌∙◌,
  subst, fun_ext, ◌≢◌, ◌↔◌, ◌⊎◌, inl, inr, Bool, true, false, not, ◌&&◌, ◌||◌, Option, none, some,
  List, [], ◌∷◌, ◌++◌, map, append_assoc, append-nil, arith, dec_lt, ℕ_discrete, ltb, leb, ◌==◌,
  if◌then◌else◌, ltb→lt, lt→ltb, leb→le, ==_iff, tests, Bool-cases, Option-cases, length, get_elem?,
  set, length-append, length-set, get_elem?-set_self, get_elem?-set_ne, get_or, take, drop,
  replicate, take-append-drop, length-take, length-drop, length-replicate, length-map,
  get_elem?-append_left, get_elem?-append_right, take-length, drop-length, concat, concat-append,
  All, All-append, All-mono, Eq, ◌=?◌, nat_eq, list_beq, list_eq, list_beq_iff, beq_refl, beq_eq,
  find, insert, find-insert, length-insert_new, length-insert-le, ℤ, int_beq, int_beq_iff, int_eq,
  List-cases, some-injective, none-ne-some, codes, if-Both, ◌>>=◌,
}
use llm_cpp.Text.{find_after, to_string, is_blank, skip_space, read_number}
use llm_cpp.Server.Http.{Service, HttpResponse, Metrics, json_type, reason, dispatch}

abbrev pub blank_line : List ℕ
blank_line = 13 ∷ 10 ∷ 13 ∷ 10 ∷ []

-- The loop over the headers: the text with the blank line, and the pieces that are left
unfoldable pub read_headers : List (List ℕ) → List ℕ → Option (List ℕ × List (List ℕ))
read_headers [] req = none
read_headers (c ∷ cs) req =
    let more = read_headers cs (req ++ c) in
    elim (find_after blank_line (req ++ c)) [
      | some body ↦ some (req ++ c, cs)
      | none ↦ if ltb (2 ^ 20) (length (req ++ c)) then none else more
    ]

-- hs >> word: the word, and what stands behind it
unfoldable pub until_blank : List ℕ → List ℕ × List ℕ
until_blank [] = ([], [])
until_blank (c ∷ s) = let r = until_blank s in if is_blank c then ([], c ∷ s) else (c ∷ r.0, r.1)

unfoldable pub next_word : List ℕ → List ℕ × List ℕ
next_word s = until_blank (skip_space s)

-- std::stoul, `none` where it throws
unfoldable pub unsigned : List ℕ → Option ℕ
unsigned [] = none
unsigned (c ∷ s) = elim (read_number (if c == b'-' || c == b'+' then s else c ∷ s)) [
  | none ↦ none
  | some n ↦ if ltb n (2 ^ 64) then some (if c == b'-' then (2 ^ 64 - n) % 2 ^ 64 else n) else none
]

unfoldable pub stoul : List ℕ → Option ℕ
stoul s = unsigned (skip_space s)

abbrev pub length_key : List ℕ
length_key = codes "Content-Length:"

-- The first Content-Length, if it stands before `header_end`; 0 without one
unfoldable pub content_length : List ℕ → ℕ → Option (List ℕ) → Option ℕ
content_length req header_end none = some 0
content_length req header_end (some r) =
    if ltb (length req - length r - length length_key) header_end then stoul r else some 0

-- The loop over the rest of the body, with the cut at its end
unfoldable pub read_body : ℕ → List (List ℕ) → List ℕ → List ℕ
read_body cl [] body = take cl body
read_body cl (c ∷ cs) body =
    let more = read_body cl cs (body ++ c) in if ltb (length body) cl then more else take cl body

-- Method, path and body; `closed` without the end of the headers, `thrown` for a length that is none
pub data Request : Type 0 where
  closed : Request
  thrown : Request
  parsed : (method path body : List ℕ) → Request

unfoldable pub read_request : List (List ℕ) → Request
read_request pieces = elim (read_headers pieces []) [
  | none ↦ Request.closed
  | some (req, cs) ↦ elim (find_after blank_line req) [
    | none ↦ Request.closed
    | some body ↦
        let header_end = length req - length body - 4 in
        let method = next_word (take header_end req) in
        let path = next_word method.1 in
        elim (content_length req header_end (find_after length_key req)) [
          | none ↦ Request.thrown
          | some cl ↦ Request.parsed method.0 path.0 (read_body cl cs body)
        ]
  ]
]

abbrev pub overloaded : HttpResponse
overloaded = record {
  status = 429;
  content_type = json_type;
  body = codes "{\"error\":\"overloaded\"}";
}

unfoldable pub render : HttpResponse → List ℕ
render r =
    codes "HTTP/1.1 "
    ++ (to_string r.status
        ++ (codes " "
            ++ (reason r.status
                ++ (codes "\r\nContent-Type: "
                    ++ (r.content_type
                        ++ (codes "\r\nContent-Length: "
                            ++ (to_string (length r.body)
                                ++ (codes "\r\nConnection: close\r\n\r\n" ++ r.body))))))))

-- The text that is sent, if one is, and the counters; `none` if the chat loop runs out of rounds or
-- the thread ends the program
unfoldable pub serve_connection :
    {N F S : Type 0}
    → Service N F S
    → ℕ
    → ℕ
    → Bool
    → Metrics
    → List (List ℕ)
    → Option (List ℕ × Metrics)
serve_connection v fuel ms admitted c pieces = elim (read_request pieces) [
  | closed ↦ some ([], c)
  | thrown ↦ none
  | parsed method path body ↦ elim admitted [
    | false ↦ some (render overloaded, c)
    | true ↦ elim (dispatch v fuel ms c method path body) [
      | none ↦ none
      | some (r, c') ↦ some (render r, c')
    ]
  ]
]
