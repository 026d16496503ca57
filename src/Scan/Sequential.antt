-- ===== src/Scan/Sequential.antt =====
-- src/mamba_scan.cpp, selective_scan_sequential against the recurrence.
use llm_cpp.Prelude.{
  ℕ, zero, suc, ◌+◌, ◌-◌, ◌*◌, ◌<◌, ◌≡◌, sym, ap, ◌∙◌, subst, inl, inr, true, false, ◌&&◌, arith,
  ltb, leb, ◌==◌, if◌then◌else◌, ==_iff, Bool-cases, nat_eq, list_eq, int_eq,
}
use llm_cpp.Scan.{
  Scalars, Cells, update, ScanInput, decay, input, scan_row, emit, scan_channels, scan_steps,
  selective_scan_sequential,
}
use llm_cpp.Scan.Index.{same_cell, in_row}
use llm_cpp.Scan.Reference.{state, weigh, output, RowAt, sum-scan_row, scan_row-cells}

module _ {F : Type 0} (s : Scalars F) (v : ScanInput F) where
  -- During step `t`, the channels below `d` have the states after it.
  abbrev StateAt : (t d : ℕ) → Cells F → Type 0
  StateAt t d h =
      (d' n : ℕ)
      → d' < v.D
      → n < v.N
      → h (d' * v.N + n) ≡ state s v d' n (if ltb d' d then suc t else t)

  row : (t d : ℕ) (h : Cells F) → d < v.D → StateAt t d h → RowAt s v t d (d * v.N) v.N 0 h
  row t d h hd k m lo hi =
      let early : ltb d d ≡ false = ground arith in
      k d m hd (omega arith) ∙ ap (λ b. state s v d m (if b then suc t else t)) early

  StateAt-scan_row :
      (t d : ℕ) (h : Cells F) (acc : F)
      → d < v.D
      → StateAt t d h
      → StateAt t (d + 1) (scan_row s v t d (d * v.N) v.N 0 h acc).0
  unfolding state
  StateAt-scan_row t d h acc hd k d' n hd' hn =
      let step = λ (m : ℕ). s.add (s.mul (decay s v t d m) (h (d' * v.N + n))) (input s v t d m) in
      scan_row-cells s v t d (d * v.N) v.N 0 h acc (d' * v.N + n)
      ∙ ap (λ b. if b then step (d' * v.N + n - d * v.N) else h (d' * v.N + n))
          (in_row v.N d d' n hn)
      ∙ elim (Bool-cases (d' == d)) [
        | inl e ↦
            let early : ltb d' d ≡ false = ground arith in
            let late : ltb d' (d + 1) ≡ true = ground arith in
            let d_eq : d' ≡ d = (==_iff d' d).0 e in
            let place : d' * v.N + n - d * v.N ≡ n = omega (arith, ap (λ k. k * v.N) d_eq) in
            let held : h (d' * v.N + n) ≡ state s v d' n t =
              k d' n hd' hn ∙ ap (λ b. state s v d' n (if b then suc t else t)) early in
            rw (e, late, place, held)
              (ap (λ c. s.add (s.mul (decay s v t c n) (state s v d' n t)) (input s v t c n))
                (sym d_eq))
        | inr e ↦
            let same : ltb d' (d + 1) ≡ ltb d' d = ground arith in rw (e, same) (k d' n hd' hn)
      ]

  StateAt-scan_channels :
      (t r d : ℕ) (h y : Cells F)
      → d + r ≡ v.D
      → StateAt t d h
      → StateAt (suc t) 0 (scan_channels s v t r d h y).0
  unfolding scan_channels
  StateAt-scan_channels t zero d h y e k d' n hd hn =
      let all : ltb d' d ≡ true = ground arith in
      let none_yet : ltb d' 0 ≡ false = ground arith in
      k d' n hd hn
      ∙ ap (λ b. state s v d' n (if b then suc t else t)) all
      ∙ sym (ap (λ b. state s v d' n (if b then suc (suc t) else suc t)) none_yet)
  StateAt-scan_channels t (suc r) d h y e k d' n hd hn =
      let row = scan_row s v t d (d * v.N) v.N 0 h s.zero in
      StateAt-scan_channels t r (d + 1) row.0 (update y (t * v.D + d) (emit s v t d row.1))
        (omega arith) (StateAt-scan_row t d h s.zero (omega arith) k) d' n hd hn

  scan_channels-cells :
      (t r d : ℕ) (h y : Cells F) (t' d' : ℕ)
      → d + r ≡ v.D
      → StateAt t d h
      → d' < v.D
      → (scan_channels s v t r d h y).1 (t' * v.D + d')
        ≡ (if t' == t && leb d d' then output s v t d' else y (t' * v.D + d'))
  unfolding scan_channels output
  scan_channels-cells t zero d h y t' d' e k hd = ground arith
  scan_channels-cells t (suc r) d h y t' d' e k hd =
      let hd₀ : d < v.D = omega arith in
      let after = scan_row s v t d (d * v.N) v.N 0 h s.zero in
      let sum : after.1 ≡ weigh s v t d v.N 0 s.zero =
        sum-scan_row s v t d (d * v.N) v.N 0 h s.zero (row t d h hd₀ k) in
      let y' = update y (t * v.D + d) (emit s v t d after.1) in
      scan_channels-cells t r (d + 1) after.0 y' t' d' (omega arith)
        (StateAt-scan_row t d h s.zero hd₀ k) hd
      ∙ ap
          (λ b.
            if t' == t && leb (d + 1) d'
            then output s v t d'
            else (if b then emit s v t d after.1 else y (t' * v.D + d')))
          (same_cell v.D t' d' t d hd hd₀)
      ∙ elim (Bool-cases (d' == d)) [
        | inl e ↦
            let made : emit s v t d after.1 ≡ output s v t d' =
              ap (emit s v t d) sum ∙ ap (output s v t) (sym ((==_iff d' d).0 e)) in
            ground arith
        | inr e ↦ ground arith
      ]

  after_step :
      (t : ℕ) (h y : Cells F) → StateAt t 0 h → StateAt (t + 1) 0 (scan_channels s v t v.D 0 h y).0
  after_step t h y k =
      let e : suc t ≡ t + 1 = omega arith in
      subst (λ u. StateAt u 0 (scan_channels s v t v.D 0 h y).0) e
        (StateAt-scan_channels t v.D 0 h y (omega arith) k)

  scan_steps-cells :
      (r t : ℕ) (h y : Cells F) (t' d' : ℕ)
      → StateAt t 0 h
      → d' < v.D
      → (scan_steps s v r t h y).1 (t' * v.D + d')
        ≡ (if leb t t' && ltb t' (t + r) then output s v t' d' else y (t' * v.D + d'))
  unfolding scan_steps
  scan_steps-cells zero t h y t' d' k hd = ground arith
  scan_steps-cells (suc r) t h y t' d' k hd =
      let next = scan_channels s v t v.D 0 h y in
      scan_steps-cells r (t + 1) next.0 next.1 t' d' (after_step t h y k) hd
      ∙ ap (λ c. if leb (t + 1) t' && ltb t' (t + 1 + r) then output s v t' d' else c)
          (scan_channels-cells t v.D 0 h y t' d' (omega arith) k hd)
      ∙ ground arith

  scan_steps-StateAt :
      (r t : ℕ) (h y : Cells F) → StateAt t 0 h → StateAt (t + r) 0 (scan_steps s v r t h y).0
  unfolding scan_steps
  scan_steps-StateAt zero t h y k =
      let e : t ≡ t + 0 = omega arith in subst (λ u. StateAt u 0 h) e k
  scan_steps-StateAt (suc r) t h y k =
      let next = scan_channels s v t v.D 0 h y in
      let e : t + 1 + r ≡ t + suc r = omega arith in
      subst (λ u. StateAt u 0 (scan_steps s v r (t + 1) next.0 next.1).0) e
        (scan_steps-StateAt r (t + 1) next.0 next.1 (after_step t h y k))

  start : StateAt 0 0 v.h0
  unfolding state
  start d n hd hn =
      let no : ltb d 0 ≡ false = ground arith in
      sym (ap (λ b. state s v d n (if b then 1 else 0)) no)

  -- The state after all steps is what the recurrence gives.
  pub output-selective_scan_sequential :
      (y : Cells F) (t d : ℕ)
      → t < v.T
      → d < v.D
      → (selective_scan_sequential s v y).1 (t * v.D + d) ≡ output s v t d
  unfolding selective_scan_sequential
  output-selective_scan_sequential y t d ht hd =
      let within : (leb 0 t && ltb t (0 + v.T)) ≡ true = ground arith in
      scan_steps-cells v.T 0 v.h0 y t d start hd
      ∙ ap (λ b. if b then output s v t d else y (t * v.D + d)) within

  -- The state that the sequential scan leaves holds at each channel and place what the recurrence,
  -- which multiplies by the decay of each step and adds its input, gives from the first state after
  -- all steps.
  pub state-selective_scan_sequential :
      (y : Cells F) (d n : ℕ)
      → d < v.D
      → n < v.N
      → (selective_scan_sequential s v y).0 (d * v.N + n) ≡ state s v d n v.T
  unfolding selective_scan_sequential
  state-selective_scan_sequential y d n hd hn =
      let no : ltb d 0 ≡ false = ground arith in
      scan_steps-StateAt v.T 0 v.h0 y start d n hd hn
      ∙ ap (λ b. state s v d n (if b then suc (0 + v.T) else 0 + v.T)) no
      ∙ ap (state s v d n) (omega arith)
