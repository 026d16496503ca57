-- ===== src/Server/Connection/Headers.antt =====
-- src/server.cpp, serve_connection: the text of a request, and the searches in its header lines.
use llm_cpp.Prelude.{
  ℕ, ◌<◌, ◌≡◌, refl, ap, ◌∙◌, false, none, List, [], ◌∷◌, ◌++◌, append_assoc, arith, ◌==◌, length,
  All, nat_eq, list_eq, int_eq, codes,
}
use llm_cpp.Text.{strip_prefix, find_after, to_string, is_digit}
use llm_cpp.Text.Numbers.{Ends}
use llm_cpp.Server.Connection.{blank_line, length_key}
use llm_cpp.Server.Connection.Words.{find_after-word}

-- A header line: not empty, and without a carriage return
abbrev pub IsHeader : List ℕ → Type 0
IsHeader w = (0 < length w) × All (λ c. (13 == c) ≡ false) w

-- A header line that also lacks the letter that begins Content-Length
abbrev pub IsOther : List ℕ → Type 0
IsOther w = IsHeader w × All (λ c. (b'C' == c) ≡ false) w

abbrev pub lines : List (List ℕ) → List ℕ
lines [] = []
lines (w ∷ ws) = 13 ∷ 10 ∷ (w ++ lines ws)

-- The text of a request, with header lines before and after its Content-Length, up to some bytes of
-- its body
abbrev pub headers : List ℕ → List ℕ → List (List ℕ) → ℕ → List (List ℕ) → List ℕ
headers method path before n after =
    method
    ++ (b' '
        ∷ (path
            ++ (codes " HTTP/1.1"
                ++ (lines before
                    ++ (codes "\r\nContent-Length: " ++ (to_string n ++ lines after))))))

abbrev pub request : List ℕ → List ℕ → List (List ℕ) → ℕ → List (List ℕ) → List ℕ → List ℕ
request method path before n after body = headers method path before n after ++ (blank_line ++ body)

unfoldable pub after_length : ℕ → List (List ℕ) → List ℕ → List ℕ
after_length n after body = to_string n ++ (lines after ++ (blank_line ++ body))

unfoldable pub after_method : List ℕ → List (List ℕ) → ℕ → List (List ℕ) → List ℕ → List ℕ
after_method path before n after body =
    path
    ++ (codes " HTTP/1.1"
        ++ (lines before ++ (codes "\r\nContent-Length: " ++ after_length n after body)))

-- The pieces of a request without their brackets
pub request-flat :
    (method path : List ℕ) (before : List (List ℕ)) (n : ℕ) (after : List (List ℕ)) (body : List ℕ)
    → request method path before n after body
      ≡ method ++ b' ' ∷ after_method path before n after body
unfolding after_method after_length
request-flat method path before n after body =
    let end = blank_line ++ body in
    append_assoc method _ end
    ∙ ap (λ x. method ++ b' ' ∷ x)
        (append_assoc path _ end
          ∙ ap (λ x. path ++ (codes " HTTP/1.1" ++ x))
              (append_assoc (lines before) _ end
                ∙ ap (λ x. lines before ++ (codes "\r\nContent-Length: " ++ x))
                    (append_assoc (to_string n) (lines after) end)))

find_after-tail :
    (p : List ℕ) (x : ℕ) (s : List ℕ)
    → strip_prefix p (x ∷ s) ≡ none
    → find_after p (x ∷ s) ≡ find_after p s
unfolding find_after
find_after-tail p x s e = rw (e, find_after) refl

-- A line does not start the blank line.
strip_prefix-blank_line :
    (c : ℕ) (t : List ℕ) → (13 == c) ≡ false → strip_prefix blank_line (13 ∷ 10 ∷ c ∷ t) ≡ none
unfolding strip_prefix
strip_prefix-blank_line c t h = rw h refl

strip_prefix-feed : (t : List ℕ) → strip_prefix blank_line (10 ∷ t) ≡ none
unfolding strip_prefix
strip_prefix-feed t = refl

-- No blank line ends in the header lines.
pub find-blank_lines :
    (ws : List (List ℕ)) (t : List ℕ)
    → All IsHeader ws
    → find_after blank_line (lines ws ++ t) ≡ find_after blank_line t
find-blank_lines [] t h = refl
find-blank_lines ([] ∷ ws) t h = absurd (omega (arith, h.0.0))
find-blank_lines ((c ∷ w) ∷ ws) t h =
    let rest = (w ++ lines ws) ++ t in
    find_after-tail blank_line 13 (10 ∷ c ∷ rest) (strip_prefix-blank_line c rest h.0.1.0)
    ∙ find_after-tail blank_line 10 (c ∷ rest) (strip_prefix-feed (c ∷ rest))
    ∙ ap (find_after blank_line) (append_assoc (c ∷ w) (lines ws) t)
    ∙ find_after-word 13 (10 ∷ 13 ∷ 10 ∷ []) (c ∷ w) (lines ws ++ t) (λ k e. e) h.0.1
    ∙ find-blank_lines ws t h.1

pub find-key_lines :
    (ws : List (List ℕ)) (t : List ℕ)
    → All IsOther ws
    → find_after length_key (lines ws ++ t) ≡ find_after length_key t
unfolding find_after strip_prefix
find-key_lines [] t h = refl
find-key_lines (w ∷ ws) t h =
    ap (find_after length_key) (append_assoc w (lines ws) t)
    ∙ find_after-word b'C' (codes "ontent-Length:") w (lines ws ++ t) (λ k e. e) h.0.1
    ∙ find-key_lines ws t h.1

pub Ends-lines : (ws : List (List ℕ)) (body : List ℕ) → Ends (lines ws ++ (blank_line ++ body))
unfolding is_digit
Ends-lines [] body = refl
Ends-lines (w ∷ ws) body = refl
