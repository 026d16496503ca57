-- ===== src/Trainer/Safety.antt =====
-- src/trainer.cpp, sequences of training steps, and the rollback after them.
use llm_cpp.Prelude.{
  if-Both, if-Cases, ◌+◌, ◌≡◌, refl, sym, ap, ap₂, ◌∙◌, Bool, true, false, not, ◌||◌, List, [], ◌∷◌,
  arith, ltb, length, nat_eq, list_eq, ℤ, int_eq, if-Both,
}
use llm_cpp.Trainer.{
  has_nonfinite, Learning, TrainConfig, Trainer, Params, train_step, train_step_accum, finish_accum,
  apply_grads, gradients, has_nonfinite, divide, micro_steps, restore, snapshot_params,
  rollback_if_nonfinite,
}

-- One step of training on a batch: a whole one, or a micro-batch
pub data Action : Type 0 where
  whole : List ℤ → Action
  micro : List ℤ → Action

module _ {F D O : Type 0} (v : Learning F D O) (cfg : TrainConfig F) where
  unfoldable pub act : Trainer F O → List Action → Trainer F O
  act t [] = t
  act t (Action.whole b ∷ more) = act (train_step v cfg t b).1 more
  act t (Action.micro b ∷ more) = act (train_step_accum v cfg t b).1 more

  -- What holds after each step holds after all of them.
  act-Invariant {ℓ} :
      (P : Trainer F O → Type ℓ)
      → ((t : Trainer F O) (b : List ℤ) → P t → P (train_step v cfg t b).1)
      → ((t : Trainer F O) (b : List ℤ) → P t → P (train_step_accum v cfg t b).1)
      → (t : Trainer F O) (steps : List Action) → P t
      → P (act t steps)
  unfolding act
  act-Invariant P w m t [] h = h
  act-Invariant P w m t (Action.whole b ∷ more) h =
      act-Invariant P w m (train_step v cfg t b).1 more (w t b h)
  act-Invariant P w m t (Action.micro b ∷ more) h =
      act-Invariant P w m (train_step_accum v cfg t b).1 more (m t b h)

  -- The optimizer and the tying of the weights keep the number of the parameters.
  pub record KeepsCount : Type 0 where
    pub step : (o : O) (p g : Params F) → length (v.optim_step o p g).1 ≡ length p
    pub tie : (p : Params F) → length (v.tie_weights p) ≡ length p

  module _ (k : KeepsCount) (good : Params F) where
    -- The snapshot is there, of as many parameters.
    abbrev Snapshot : Trainer F O → Type 0
    Snapshot t = (length t.params ≡ length good) × (t.last_good ≡ good) × (t.has_snapshot ≡ true)

    Snapshot-apply_grads :
        (t : Trainer F O) (g : Params F) → Snapshot t → Snapshot (apply_grads v cfg t g)
    unfolding apply_grads
    Snapshot-apply_grads t g h = (k.tie _ ∙ k.step _ _ _ ∙ h.0, h.1, h.2)

    Snapshot-train_step :
        (t : Trainer F O) (b : List ℤ) → Snapshot t → Snapshot (train_step v cfg t b).1
    unfolding train_step
    Snapshot-train_step t b h =
        if-Both (λ (r : F × Trainer F O). Snapshot r.1) cfg.allow_untrained_params
          (Snapshot-apply_grads t (v.noise t.params b t.step) h)
          (if-Both (λ (r : F × Trainer F O). Snapshot r.1)
            (has_nonfinite v.num (gradients v cfg t.params b)) h
            (Snapshot-apply_grads t (gradients v cfg t.params b) h))

    Snapshot-finish_accum : (t : Trainer F O) → Snapshot t → Snapshot (finish_accum v cfg t)
    unfolding finish_accum
    Snapshot-finish_accum t h =
        let grads = divide v.num t.accum (v.num.of_nat (micro_steps v cfg)) in
        if-Both Snapshot (has_nonfinite v.num grads) h (Snapshot-apply_grads t grads h)

    Snapshot-train_step_accum :
        (t : Trainer F O) (b : List ℤ) → Snapshot t → Snapshot (train_step_accum v cfg t b).1
    unfolding train_step_accum
    Snapshot-train_step_accum t b h =
        if-Both Snapshot (ltb (t.accum_count + 1) (micro_steps v cfg)) h (Snapshot-finish_accum _ h)

  restore-same : (ps good : Params F) → length ps ≡ length good → restore ps good ≡ good
  unfolding restore
  restore-same [] [] h = refl
  restore-same [] (q ∷ good) h = absurd (omega arith)
  restore-same (p ∷ ps) [] h = absurd (omega arith)
  restore-same (p ∷ ps) (q ∷ good) h = ap (λ x. q ∷ x) (restore-same ps good (omega arith))

  -- If the optimizer and the tying of weights keep the number of the parameters, then after a
  -- snapshot and any sequence of training steps and micro-batches a loss that is not finite brings
  -- the parameters of the snapshot back, and halves the rate.
  pub rollback-snapshot :
      KeepsCount
      → (t : Trainer F O) (steps : List Action) (loss : F) → v.num.is_finite loss ≡ false
      → let t' = act (snapshot_params t) steps in
        let r = rollback_if_nonfinite v t' loss in
        (r.0 ≡ true)
        × (r.1.params ≡ t.params)
        × (r.1.optim ≡ v.set_lr t'.optim (v.num.mul (v.get_lr t'.optim) v.num.half))
  unfolding snapshot_params rollback_if_nonfinite
  rollback-snapshot k t steps loss h =
      let t' = act (snapshot_params t) steps in
      let s : Snapshot k t.params t' =
        act-Invariant (Snapshot k t.params) (Snapshot-train_step k t.params)
          (Snapshot-train_step_accum k t.params) (snapshot_params t) steps (refl, refl, refl) in
      let go : (v.num.is_finite loss || not t'.has_snapshot) ≡ false =
        ap₂ (λ a b. a || not b) h s.2 in
      if-Cases
        (λ (r : Bool × Trainer F O).
          (r.0 ≡ true)
          × (r.1.params ≡ t.params)
          × (r.1.optim ≡ v.set_lr t'.optim (v.num.mul (v.get_lr t'.optim) v.num.half)))
        (v.num.is_finite loss || not t'.has_snapshot) (λ stop. absurd (cc (stop, go)))
        (λ e. (refl, restore-same t'.params t'.last_good (s.0 ∙ sym (ap length s.1)) ∙ s.1, refl))
