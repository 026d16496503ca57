-- ===== src/Trainer/Loop.antt =====
-- src/trainer.cpp, Trainer::train: the number of its steps.
use llm_cpp.Prelude.{
  if-Both, ℕ, zero, suc, ◌+◌, ◌-◌, ◌<◌, min, ◌≡◌, refl, ap, ◌∙◌, inl, inr, true, false, ◌&&◌, some,
  List, [], ◌∷◌, arith, ltb, leb, ◌==◌, Bool-cases, length, get_or, nat_eq, list_eq, ℤ, int_eq,
}
use llm_cpp.Dataset.{DataLoader, get_batch, has_next, next_batch}
use llm_cpp.Trainer.{
  Learning, TrainConfig, Trainer, train, train_step, apply_grads, gradients, has_nonfinite,
}

-- The batches that are left
abbrev pub left_over : DataLoader → ℕ
left_over d = length d.order - d.cursor

abbrev batch_at : DataLoader → List ℤ
batch_at d = get_batch d.tokens (get_or d.order d.cursor 0) d.batch_size

next_batch-has_next :
    (d : DataLoader)
    → has_next d ≡ true
    → next_batch d ≡ (batch_at d ∷ [], record d { cursor = d.cursor + 1 })
unfolding next_batch has_next
next_batch-has_next d h =
    let more : leb (length d.order) d.cursor ≡ false = ground arith in rw more refl

module _ {F D O : Type 0} (v : Learning F D O) (cfg : TrainConfig F) where
  step-train_step : (t : Trainer F O) (batch : List ℤ) → (train_step v cfg t batch).1.step ≡ t.step
  unfolding train_step apply_grads
  step-train_step t batch =
      if-Both (λ (r : F × Trainer F O). r.1.step ≡ t.step) cfg.allow_untrained_params refl
        (if-Both (λ (r : F × Trainer F O). r.1.step ≡ t.step)
          (has_nonfinite v.num (gradients v cfg t.params batch)) refl refl)

  abbrev stepped : Trainer F O → List ℤ → Trainer F O
  stepped t batch = let t' = (train_step v cfg t batch).1 in record t' { step = t'.step + 1 }

  train-stop :
      (fuel : ℕ) (t : Trainer F O) (d : DataLoader)
      → (ltb t.step cfg.max_iters && has_next d) ≡ false
      → train v cfg (suc fuel) t d ≡ some t
  unfolding train
  train-stop fuel t d e = rw (e, train) refl

  train-go :
      (fuel : ℕ) (t : Trainer F O) (d : DataLoader)
      → (ltb t.step cfg.max_iters && has_next d) ≡ true
      → has_next d ≡ true
      → (cfg.eval_interval == 0) ≡ false
      → train v cfg (suc fuel) t d
        ≡ train v cfg fuel (stepped t (batch_at d)) (record d { cursor = d.cursor + 1 })
  unfolding train
  train-go fuel t d e has every =
      rw (e, train, next_batch-has_next d has, every)
        (ap (λ r. train v cfg fuel (stepped t (batch_at d)) r.1) (next_batch-has_next d has))

  -- With an interval between evaluations that is not 0, training ends, and it has then advanced by
  -- as many steps as there are batches left in the loader, at most up to the maximum.
  pub step-train :
      (fuel : ℕ) (t : Trainer F O) (d : DataLoader)
      → 0 < cfg.eval_interval
      → left_over d < fuel
      → (t' : Trainer F O) × (train v cfg fuel t d ≡ some t')
        × (t'.step ≡ t.step + min (cfg.max_iters - t.step) (left_over d))
  unfolding has_next
  step-train zero t d pos h = absurd (omega arith)
  step-train (suc fuel) t d pos h = elim (Bool-cases (ltb t.step cfg.max_iters && has_next d)) [
    | inr stop ↦ (t, train-stop fuel t d stop, ground arith)
    | inl go ↦
        let has : has_next d ≡ true = ground arith in
        let every : (cfg.eval_interval == 0) ≡ false = ground arith in
        let t₁ = stepped t (batch_at d) in
        let r = step-train fuel t₁ (record d { cursor = d.cursor + 1 }) pos (ground arith) in
        let next : t₁.step ≡ t.step + 1 = ap (λ k. k + 1) (step-train_step t (batch_at d)) in
        let below : t.step < cfg.max_iters = ground arith in
        let more : d.cursor < length d.order = ground arith in
        let rest : r.0.step
            ≡ t₁.step + min (cfg.max_iters - t₁.step) (length d.order - (d.cursor + 1)) =
          r.2 in
        (r.0, train-go fuel t d go has every ∙ r.1, omega (arith, rest, next, below, more))
  ]
