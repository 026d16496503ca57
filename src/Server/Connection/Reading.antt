-- ===== src/Server/Connection/Reading.antt =====
-- src/server.cpp, serve_connection: a request that is well formed is read as it was sent.
use llm_cpp.Prelude.{
  ℕ, ◌+◌, ◌-◌, ◌^◌, ◌<◌, ◌≡◌, refl, sym, ap, ap₂, ◌∙◌, true, false, some, List, [], ◌∷◌, ◌++◌,
  arith, ltb, ◌==◌, lt→ltb, length, length-append, take, take-length, concat, All, All-mono, nat_eq,
  list_eq, int_eq, codes,
}
use llm_cpp.Text.{strip_prefix, find_after, to_string, is_digit, is_blank, skip_space}
use llm_cpp.Text.Numbers.{find_after-to_string}
use llm_cpp.Server.Connection.{
  blank_line, read_headers, next_word, stoul, length_key, content_length, read_body, Request,
  read_request,
}
use llm_cpp.Server.Connection.Words.{
  Plain, IsWord, find_after-word, next_word-word, next_word-blank, stoul-to_string,
  read_body-concat,
}
use llm_cpp.Server.Connection.Headers.{
  IsHeader, IsOther, lines, headers, request, after_length, after_method, request-flat,
  find-blank_lines, find-key_lines, Ends-lines,
}

Plain-return : (c : ℕ) → Plain c → (13 == c) ≡ false
unfolding is_blank
Plain-return c h = ground arith

Plain-capital : (c : ℕ) → Plain c → (b'C' == c) ≡ false
Plain-capital c h = h.1

module _ (method path : List ℕ) (before : List (List ℕ)) (n : ℕ) (after : List (List ℕ))
    (hm : IsWord method) (hp : IsWord path) (hb : All IsOther before)
    (ha : All IsHeader after) where
  find-blank_line :
      (body : List ℕ) → find_after blank_line (request method path before n after body) ≡ some body
  unfolding find_after strip_prefix is_digit after_method after_length
  find-blank_line body =
      let fields = codes "\r\nContent-Length: " ++ after_length n after body in
      ap (find_after blank_line) (request-flat method path before n after body)
      ∙ find_after-word 13 (10 ∷ 13 ∷ 10 ∷ []) method (b' ' ∷ after_method path before n after body)
          Plain-return hm.1
      ∙ find_after-word 13 (10 ∷ 13 ∷ 10 ∷ []) path _ Plain-return hp.1
      ∙ find-blank_lines before fields (All-mono IsOther IsHeader before (λ w h. h.0) hb)
      ∙ find_after-to_string 13 n (10 ∷ 13 ∷ 10 ∷ []) (lines after ++ (blank_line ++ body)) refl
      ∙ find-blank_lines after (blank_line ++ body) ha

  find-length_key :
      (body : List ℕ)
      → find_after length_key (request method path before n after body)
        ≡ some (b' ' ∷ after_length n after body)
  unfolding find_after strip_prefix after_method
  find-length_key body =
      let fields = codes "\r\nContent-Length: " ++ after_length n after body in
      ap (find_after length_key) (request-flat method path before n after body)
      ∙ find_after-word b'C' (codes "ontent-Length:") method
          (b' ' ∷ after_method path before n after body) Plain-capital hm.1
      ∙ find_after-word b'C' (codes "ontent-Length:") path _ Plain-capital hp.1
      ∙ find-key_lines before fields hb

  -- The bytes of the headers, and those behind them
  length-request :
      (body : List ℕ)
      → length (request method path before n after body)
        ≡ length (headers method path before n after) + (4 + length body)
  length-request body =
      omega (arith, length-append (headers method path before n after) (blank_line ++ body))

  length-headers :
      length (headers method path before n after)
      ≡ length method
        + (1
            + (length path
                + (9
                    + (length (lines before)
                        + (18 + (length (to_string n) + length (lines after)))))))
  length-headers =
      let d = to_string n ++ lines after in
      let c = codes "\r\nContent-Length: " ++ d in
      let b = codes " HTTP/1.1" ++ (lines before ++ c) in
      omega (
        arith,
        length-append method (b' ' ∷ (path ++ b)),
        length-append path b,
        length-append (codes " HTTP/1.1") (lines before ++ c),
        length-append (lines before) c,
        length-append (codes "\r\nContent-Length: ") d,
        length-append (to_string n) (lines after),
      )

  length-after_length :
      (body : List ℕ)
      → length (after_length n after body)
        ≡ length (to_string n) + (length (lines after) + (4 + length body))
  unfolding after_length
  length-after_length body = omega (
    arith,
    length-append (to_string n) (lines after ++ (blank_line ++ body)),
    length-append (lines after) (blank_line ++ body),
  )

  content_length-request :
      (body : List ℕ)
      → n < 2 ^ 64
      → content_length
          (request method path before n after body)
          (length (headers method path before n after))
          (find_after length_key (request method path before n after body))
        ≡ some n
  unfolding content_length stoul skip_space is_blank after_length
  content_length-request body h =
      let req = request method path before n after body in
      let r = b' ' ∷ after_length n after body in
      let size = length-request body in
      let top = length-headers in
      let tail = length-after_length body in
      let in_headers : ltb (length req - length r - length length_key)
            (length (headers method path before n after))
          ≡ true =
        lt→ltb _ _ (omega (arith, size, top, tail)) in
      ap (content_length req (length (headers method path before n after))) (find-length_key body)
      ∙ rw in_headers
          (stoul-to_string n (lines after ++ (blank_line ++ body)) h (Ends-lines after body))

  words-headers :
      let r = next_word (headers method path before n after) in
      (r.0 ≡ method) × ((next_word r.1).0 ≡ path)
  words-headers =
      let fields = lines before ++ (codes "\r\nContent-Length: " ++ (to_string n ++ lines after)) in
      let first = next_word-word method (path ++ (codes " HTTP/1.1" ++ fields)) hm in
      let second = next_word-word path (codes "HTTP/1.1" ++ fields) hp in
      (
        ap (λ r. r.0) first,
        ap (λ r. (next_word r.1).0) first
            ∙ ap (λ r. r.0) (next_word-blank (path ++ (codes " HTTP/1.1" ++ fields)))
            ∙ ap (λ r. r.0) second,
      )

read_request-parsed :
    (req body : List ℕ) (cs : List (List ℕ)) (cl : ℕ)
    → find_after blank_line req ≡ some body
    → content_length req (length req - length body - 4) (find_after length_key req) ≡ some cl
    → let method = next_word (take (length req - length body - 4) req) in
      read_request (req ∷ cs)
      ≡ Request.parsed method.0 (next_word method.1).0 (read_body cl cs body)
unfolding read_request read_headers
read_request-parsed req body cs cl e h = rw (e, read_request, read_headers, e, h) refl

-- A request of the version HTTP/1.1 with a Content-Length among any other header lines, all of them
-- in the first piece, and with a body of that length in any pieces, is read with its method, its
-- path and its whole body, if method and path are not empty and hold neither a blank nor the
-- capital letter C, the other header lines are not empty and hold no carriage return, those before
-- Content-Length hold no capital letter C either, and the length fits in 64 bits.
pub read_request-request :
    (method path : List ℕ) (before after : List (List ℕ)) (body : List ℕ) (cs : List (List ℕ))
    → IsWord method
    → IsWord path
    → All IsOther before
    → All IsHeader after
    → length (body ++ concat cs) < 2 ^ 64
    → read_request (request method path before (length (body ++ concat cs)) after body ∷ cs)
      ≡ Request.parsed method path (body ++ concat cs)
read_request-request method path before after body cs hm hp hb ha h =
    let n = length (body ++ concat cs) in
    let req = request method path before n after body in
    let top = headers method path before n after in
    let end : length top ≡ length req - length body - 4 =
      omega (arith, length-request method path before n after hm hp hb ha body) in
    let words = words-headers method path before n after hm hp hb ha in
    let cut : take (length req - length body - 4) req ≡ top =
      ap (λ k. take k req) (sym end) ∙ take-length top (blank_line ++ body) in
    let size = content_length-request method path before n after hm hp hb ha body h in
    read_request-parsed req body cs n (find-blank_line method path before n after hm hp hb ha body)
      (ap (λ k. content_length req k (find_after length_key req)) (sym end) ∙ size)
    ∙ ap (λ t. Request.parsed (next_word t).0 (next_word (next_word t).1).0 (read_body n cs body))
        cut
    ∙ ap₂ (λ x y. Request.parsed x y (read_body n cs body)) words.0 words.1
    ∙ ap (Request.parsed method path) (read_body-concat n cs body refl)
