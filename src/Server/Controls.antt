-- ===== src/Server/Controls.antt =====
-- src/server.cpp, json_escape and control characters, which extract_raw does not decode.
use llm_cpp.Prelude.{
  ℕ, zero, suc, ◌+◌, ◌-◌, ◌*◌, ◌≤◌, ◌<◌, ◌≡◌, refl, sym, ap, ◌∙◌, ◌≢◌, inl, inr, Bool, true, false,
  not, ◌&&◌, [], ◌∷◌, ◌++◌, arith, ℕ_discrete, ltb, ◌==◌, if◌then◌else◌, ltb→lt, Bool-cases, length,
  length-append, take, nat_eq, list_eq, int_eq,
}
use llm_cpp.Tokenizer.{Bytes}
use llm_cpp.Tokenizer.Stream.{has_bits, is_continuation, all_continuation}
use llm_cpp.Server.Json.{quote, newline, tab, is_sequence, announced, json_escape, scan_string}
use llm_cpp.Server.Strings.{
  received, received_from, received_ascii, ascii_step, sequence_step, replaced_step, sequence_tail,
  scan_string-json_escape,
}

-- A control character that has no short escape
unfoldable pub is_control : ℕ → Bool
is_control c = ltb c 0x20 && (not (c == newline) && not (c == tab))

unfoldable pub count_controls : Bytes → ℕ
count_controls [] = 0
count_controls (c ∷ s) = (if is_control c then 1 else 0) + count_controls s

-- How many bytes below `n` continue a sequence
continuations : ℕ → ℕ
continuations zero = 0
continuations (suc n) = continuations n + (if is_continuation n then 1 else 0)

none_continue : (n : ℕ) → continuations n ≡ 0 → (c : ℕ) → c < n → is_continuation c ≡ false
unfolding continuations
none_continue zero clear c below = absurd (omega arith)
none_continue (suc n) clear c below = elim (Bool-cases (is_continuation n)) [
  | inl last ↦ absurd (grind (arith, last))
  | inr last ↦
      let before : continuations n ≡ 0 = omega arith in
      elim (ℕ_discrete c n) [
        | yes same ↦ ap is_continuation same ∙ last
        | no other ↦ none_continue n before c (omega arith)
      ]
]

no_low_continuation : continuations 0x20 ≡ 0
unfolding continuations is_continuation has_bits
no_low_continuation = refl

continuation_no_control : (c : ℕ) → is_continuation c ≡ true → is_control c ≡ false
unfolding is_control
continuation_no_control c h = elim (Bool-cases (ltb c 0x20)) [
  | inl low ↦
      let clear = none_continue 0x20 no_low_continuation c (ltb→lt c 0x20 low) in cc (clear, h)
  | inr high ↦ rw high refl
]

high_no_control : (c : ℕ) → ltb c 0x80 ≡ false → is_control c ≡ false
unfolding is_control
high_no_control c h = ground arith

length-received_ascii :
    (c : ℕ) → length (received_ascii c) ≡ 1 + 5 * (if is_control c then 1 else 0)
unfolding received_ascii is_control
length-received_ascii c = ground arith

length-received_from :
    (k : ℕ) (s : Bytes)
    → all_continuation (take k s) ≡ true
    → length s + 5 * count_controls s ≤ length (received_from k s)
unfolding count_controls all_continuation received_from
length-received_from zero [] h = omega arith
length-received_from (suc k) [] h = omega arith
length-received_from (suc k) (c ∷ s) h =
    rw (continuation_no_control c (ground arith))
      (omega (arith, length-received_from k s (ground arith)))
length-received_from zero (c ∷ s) h =
    let rest = length-received_from 0 s refl in
    elim (Bool-cases (ltb c 0x80)) [
      | inl e ↦
          let grown = ap length (ascii_step c s e).1 in
          omega (
            arith,
            rest,
            grown,
            length-received_ascii c,
            length-append (received_ascii c) (received_from 0 s),
          )
      | inr e ↦
          let plain = high_no_control c e in
          elim (Bool-cases (is_sequence c s)) [
            | inl w ↦
                let grown = ap length (sequence_step c s e w).1 in
                let tail = length-received_from (announced c - 1) s (sequence_tail c s w).1 in
                rw plain (omega (arith, grown, tail))
            | inr w ↦
                let grown = ap length (replaced_step c s e w).1 in
                rw plain (omega (arith, rest, grown))
          ]
    ]

-- A text with a control character other than a newline or a tabulator is never read back as it was
-- from the string that json_escape writes.
pub json_escape-control :
    (s rest : Bytes) → 0 < count_controls s → scan_string (json_escape s ++ quote ∷ rest) ≢ s
unfolding received all_continuation
json_escape-control s rest h e =
    let same = ap length (sym (scan_string-json_escape s rest) ∙ e) in
    omega (arith, length-received_from 0 s refl, same)
