-- ===== src/Trainer/State.antt =====
-- src/trainer.cpp, the file of the training state: what is saved is loaded.
use llm_cpp.Prelude.{
  ℕ, ◌^◌, ◌<◌, ◌≡◌, refl, ap, ◌∙◌, inl, inr, none, some, List, ◌++◌, arith, ltb, if◌then◌else◌,
  lt→ltb, Bool-cases, nat_eq, list_eq, int_eq, codes,
}
use llm_cpp.Text.{strip_prefix, find_after, to_string, is_digit}
use llm_cpp.Text.Numbers.{in_int, stoi-to_string, find_after-to_string}
use llm_cpp.Server.Json.{quote}
use llm_cpp.Trainer.{state_json, number_behind, state_number, load_state_json}

module _ (step skipped seed : ℕ) where
  abbrev behind_skipped : List ℕ
  behind_skipped = codes ",\"seed\":" ++ (to_string seed ++ codes "}\n")

  abbrev behind_step : List ℕ
  behind_step = codes ",\"skipped\":" ++ (to_string skipped ++ behind_skipped)

  state_number-step :
      step < 2 ^ 64 → state_number (state_json step skipped seed) (codes "\"step\"") ≡ in_int step
  unfolding state_number number_behind state_json find_after strip_prefix is_digit
  state_number-step h = stoi-to_string step behind_step (omega arith) refl

  state_number-skipped :
      skipped < 2 ^ 64
      → state_number (state_json step skipped seed) (codes "\"skipped\"") ≡ in_int skipped
  unfolding state_number number_behind state_json find_after strip_prefix is_digit
  state_number-skipped h =
      ap (number_behind (state_json step skipped seed))
        (find_after-to_string quote step (codes "skipped\"") behind_step refl)
      ∙ stoi-to_string skipped behind_skipped (omega arith) refl

  state_number-seed :
      seed < 2 ^ 64 → state_number (state_json step skipped seed) (codes "\"seed\"") ≡ in_int seed
  unfolding state_number number_behind state_json find_after strip_prefix is_digit
  state_number-seed h =
      ap (number_behind (state_json step skipped seed)) (
        find_after-to_string quote step (codes "seed\"") behind_step refl
        ∙ find_after-to_string quote skipped (codes "seed\"") behind_skipped refl)
      ∙ stoi-to_string seed (codes "}\n") (omega arith) refl

in_int-small : (n : ℕ) → n < 2 ^ 31 → in_int n ≡ some n
in_int-small n h = rw (lt→ltb _ _ h) refl

-- If the numbers of steps are ints and the seed fits in 64 bits, the file of the training state is
-- read back as the same steps and seed if the seed is an int, and throws if it is not.
pub load_state_json-state_json :
    (step skipped seed : ℕ)
    → step < 2 ^ 31
    → skipped < 2 ^ 31
    → seed < 2 ^ 64
    → load_state_json (state_json step skipped seed)
      ≡ (if ltb seed (2 ^ 31) then some (step, skipped, seed) else none)
unfolding load_state_json
load_state_json-state_json step skipped seed h h' h'' =
    let a = state_number-step step skipped seed (omega arith) ∙ in_int-small step h in
    let b = state_number-skipped step skipped seed (omega arith) ∙ in_int-small skipped h' in
    let c = state_number-seed step skipped seed h'' in
    rw (a, b, c) (elim (Bool-cases (ltb seed (2 ^ 31))) [ inl e ↦ rw e refl | inr e ↦ rw e refl ])
