-- ===== src/Server/Strings.antt =====
-- src/server.cpp, json_escape with the strings that extract_raw reads.
use llm_cpp.Prelude.{
  ℕ, zero, suc, ◌-◌, ◌/◌, ◌%◌, ◌≤◌, ◌<◌, ◌≡◌, refl, sym, ap, ◌∙◌, subst, ◌≢◌, inl, inr, true, false,
  not, ◌&&◌, [], ◌∷◌, ◌++◌, append_assoc, arith, ℕ_discrete, ltb, ◌==◌, if◌then◌else◌, ==_iff,
  Bool-cases, length, take, nat_eq, list_eq, int_eq,
}
use llm_cpp.Tokenizer.{Bytes}
use llm_cpp.Tokenizer.Stream.{is_continuation, all_continuation}
use llm_cpp.Server.Json.{
  quote, backslash, newline, tab, hex_digit, announced, is_sequence, replacement, escape_ascii,
  escape_from, json_escape, unescape, scan_string,
}

-- What a reader gets of a byte below 0x80
unfoldable pub received_ascii : ℕ → Bytes
received_ascii c =
    if ltb c 0x20 && (not (c == newline) && not (c == tab))
    then backslash ∷ b'u' ∷ b'0' ∷ b'0' ∷ hex_digit (c / 16) ∷ hex_digit (c % 16) ∷ []
    else c ∷ []

-- What a reader gets of a text: control characters stay escaped, and bytes that are no part of a
-- UTF-8 sequence are replaced.
unfoldable pub received_from : ℕ → Bytes → Bytes
received_from k [] = []
received_from (suc k) (c ∷ s) = c ∷ received_from k s
received_from zero (c ∷ s) = elim (ltb c 0x80) [
  | true ↦ received_ascii c ++ received_from 0 s
  | false ↦ elim (is_sequence c s) [
    | true ↦ c ∷ received_from (announced c - 1) s
    | false ↦ replacement ++ received_from 0 s
  ]
]

unfoldable pub received : Bytes → Bytes
received s = received_from 0 s

scan_plain_byte :
    (c : ℕ) (s : Bytes)
    → (c == quote) ≡ false
    → (c == backslash) ≡ false
    → scan_string (c ∷ s) ≡ c ∷ scan_string s
unfolding scan_string
scan_plain_byte c [] q b = rw (q, scan_string) refl
scan_plain_byte c (e ∷ s) q b = rw (b, scan_string, q, scan_string) refl

scan_escape : (e : ℕ) (s : Bytes) → scan_string (backslash ∷ e ∷ s) ≡ unescape e ++ scan_string s
unfolding scan_string
scan_escape e s = refl

hex_digit_plain :
    (d : ℕ) → d < 16 → ((hex_digit d == quote) ≡ false) × ((hex_digit d == backslash) ≡ false)
unfolding hex_digit
hex_digit_plain d h = (ground arith, ground arith)

scan_digits :
    (a b : ℕ) (s : Bytes)
    → a < 16
    → b < 16
    → scan_string (b'0' ∷ b'0' ∷ hex_digit a ∷ hex_digit b ∷ s)
      ≡ b'0' ∷ b'0' ∷ hex_digit a ∷ hex_digit b ∷ scan_string s
scan_digits a b s ha hb =
    let (qa, ba) = hex_digit_plain a ha in
    let (qb, bb) = hex_digit_plain b hb in
    scan_plain_byte b'0' (b'0' ∷ hex_digit a ∷ hex_digit b ∷ s) refl refl
    ∙ ap (◌∷◌ b'0') (
        scan_plain_byte b'0' (hex_digit a ∷ hex_digit b ∷ s) refl refl
        ∙ ap (◌∷◌ b'0') (
            scan_plain_byte (hex_digit a) (hex_digit b ∷ s) qa ba
            ∙ ap (◌∷◌ (hex_digit a)) (scan_plain_byte (hex_digit b) s qb bb)))

-- A control character without an escape of its own, or a plain byte
scan_other :
    (c : ℕ) (s : Bytes)
    → c ≢ quote
    → c ≢ backslash
    → c ≢ newline
    → c ≢ tab
    → c < 0x80
    → scan_string (escape_ascii c ++ s) ≡ received_ascii c ++ scan_string s
unfolding escape_ascii received_ascii unescape
scan_other c s nq nb nn nt h =
    let q : (c == quote) ≡ false = ground arith in
    let b : (c == backslash) ≡ false = ground arith in
    let n : (c == newline) ≡ false = ground arith in
    let t : (c == tab) ≡ false = ground arith in
    elim (Bool-cases (ltb c 0x20)) [
      | inl e ↦
          rw (q, b, n, t, e)
            (scan_escape b'u' (b'0' ∷ b'0' ∷ hex_digit (c / 16) ∷ hex_digit (c % 16) ∷ s)
              ∙ ap (λ r. backslash ∷ b'u' ∷ r)
                  (scan_digits (c / 16) (c % 16) s (omega arith) (omega arith)))
      | inr e ↦ rw (q, b, n, t, e) (scan_plain_byte c s q b)
    ]

scan-escape_ascii :
    (c : ℕ) (s : Bytes)
    → c < 0x80
    → scan_string (escape_ascii c ++ s) ≡ received_ascii c ++ scan_string s
unfolding escape_ascii received_ascii scan_string unescape
scan-escape_ascii c s h =
    let Reads = λ (k : ℕ). scan_string (escape_ascii k ++ s) ≡ received_ascii k ++ scan_string s in
    elim (ℕ_discrete c quote) [
      | yes p ↦ subst Reads (sym p) refl
      | no nq ↦ elim (ℕ_discrete c backslash) [
        | yes p ↦ subst Reads (sym p) refl
        | no nb ↦ elim (ℕ_discrete c newline) [
          | yes p ↦ subst Reads (sym p) refl
          | no nn ↦ elim (ℕ_discrete c tab) [
            | yes p ↦ subst Reads (sym p) refl
            | no nt ↦ scan_other c s nq nb nn nt h
          ]
        ]
      ]
    ]

continuation_plain :
    (c : ℕ) → is_continuation c ≡ true → ((c == quote) ≡ false) × ((c == backslash) ≡ false)
unfolding is_continuation
continuation_plain c h =
    let apart : (k : ℕ) → is_continuation k ≡ false → (c == k) ≡ false = λ k n.
      elim (Bool-cases (c == k)) [
        | inl e ↦ cc (ap is_continuation ((==_iff c k).0 e))
        | inr e ↦ e
      ] in
    (apart quote refl, apart backslash refl)

module _ (c : ℕ) (s : Bytes) where
  pub ascii_step :
      ltb c 0x80 ≡ true
      → (escape_from 0 (c ∷ s) ≡ escape_ascii c ++ escape_from 0 s)
        × (received_from 0 (c ∷ s) ≡ received_ascii c ++ received_from 0 s)
  unfolding escape_from received_from
  ascii_step e = (rw (e, escape_from) refl, rw (e, received_from) refl)

  pub sequence_step :
      ltb c 0x80 ≡ false
      → is_sequence c s ≡ true
      → (escape_from 0 (c ∷ s) ≡ c ∷ escape_from (announced c - 1) s)
        × (received_from 0 (c ∷ s) ≡ c ∷ received_from (announced c - 1) s)
  unfolding escape_from received_from
  sequence_step e w = (rw (e, escape_from, w) refl, rw (e, received_from, w) refl)

  pub replaced_step :
      ltb c 0x80 ≡ false
      → is_sequence c s ≡ false
      → (escape_from 0 (c ∷ s) ≡ replacement ++ escape_from 0 s)
        × (received_from 0 (c ∷ s) ≡ replacement ++ received_from 0 s)
  unfolding escape_from received_from
  replaced_step e w = (rw (e, escape_from, w) refl, rw (e, received_from, w) refl)

scan_end : (rest : Bytes) → scan_string (quote ∷ rest) ≡ []
unfolding scan_string
scan_end [] = refl
scan_end (c ∷ rest) = refl

pub sequence_tail :
    (c : ℕ) (s : Bytes)
    → is_sequence c s ≡ true
    → (announced c - 1 ≤ length s) × (all_continuation (take (announced c - 1) s) ≡ true)
unfolding is_sequence
sequence_tail c s f = ground arith

scan_replacement : (s : Bytes) → scan_string (replacement ++ s) ≡ replacement ++ scan_string s
scan_replacement s =
    scan_plain_byte 0xEF (0xBF ∷ 0xBD ∷ s) refl refl
    ∙ ap (◌∷◌ 0xEF) (
        scan_plain_byte 0xBF (0xBD ∷ s) refl refl
        ∙ ap (◌∷◌ 0xBF) (scan_plain_byte 0xBD s refl refl))

scan-escape_from :
    (k : ℕ) (s rest : Bytes)
    → all_continuation (take k s) ≡ true
    → k ≤ length s
    → scan_string (escape_from k s ++ quote ∷ rest) ≡ received_from k s
unfolding escape_from received_from all_continuation
scan-escape_from zero [] rest h le = scan_end rest
scan-escape_from (suc k) [] rest h le = absurd (omega arith)
scan-escape_from (suc k) (c ∷ s) rest h le =
    let (q, b) = continuation_plain c (ground arith) in
    scan_plain_byte c (escape_from k s ++ quote ∷ rest) q b
    ∙ ap (◌∷◌ c) (scan-escape_from k s rest (ground arith) (omega arith))
scan-escape_from zero (c ∷ s) rest h le =
    let tail = scan-escape_from 0 s rest refl (omega arith) in
    elim (Bool-cases (ltb c 0x80)) [
      | inl e ↦
          let (f, g) = ascii_step c s e in
          ap (λ r. scan_string (r ++ quote ∷ rest)) f
          ∙ ap scan_string (append_assoc (escape_ascii c) (escape_from 0 s) (quote ∷ rest))
          ∙ scan-escape_ascii c (escape_from 0 s ++ quote ∷ rest) (ground arith)
          ∙ ap (λ r. received_ascii c ++ r) tail
          ∙ sym g
      | inr e ↦ elim (Bool-cases (is_sequence c s)) [
        | inl w ↦
            let (f, g) = sequence_step c s e w in
            let (le', all) = sequence_tail c s w in
            ap (λ r. scan_string (r ++ quote ∷ rest)) f
            ∙ scan_plain_byte c (escape_from (announced c - 1) s ++ quote ∷ rest) (ground arith)
                (ground arith)
            ∙ ap (◌∷◌ c) (scan-escape_from (announced c - 1) s rest all le')
            ∙ sym g
        | inr w ↦
            let (f, g) = replaced_step c s e w in
            ap (λ r. scan_string (r ++ quote ∷ rest)) f
            ∙ scan_replacement (escape_from 0 s ++ quote ∷ rest)
            ∙ ap (λ r. replacement ++ r) tail
            ∙ sym g
      ]
    ]

-- A text that json_escape writes in a string is read by extract_raw up to the closing quote,
-- whatever follows, as the text that `received` describes: each control character other than a
-- newline or a tabulator in its six escaped bytes, each byte of no UTF-8 sequence as U+FFFD, and
-- all else as it was.
pub scan_string-json_escape :
    (s rest : Bytes) → scan_string (json_escape s ++ quote ∷ rest) ≡ received s
unfolding json_escape received all_continuation
scan_string-json_escape s rest = scan-escape_from 0 s rest refl (omega arith)
