-- ===== src/Trainer/Updates.antt =====
-- src/trainer.cpp, what the optimizer gets from a sequence of steps.
use llm_cpp.Prelude.{
  if-Cases, ℕ, ◌+◌, ◌≡◌, refl, sym, ap₂, ◌∙◌, subst, inl, inr, false, List, [], ◌∷◌, ◌++◌, arith,
  ltb, if◌then◌else◌, Bool-cases, length, length-append, All, All-append, nat_eq, list_eq, ℤ,
  int_eq, if-Both,
}
use llm_cpp.Trainer.{
  has_nonfinite, Learning, TrainConfig, Trainer, Params, train_step, train_step_accum, finish_accum,
  apply_grads, gradients, divide, add_grads, buffer, micro_steps,
}
use llm_cpp.Trainer.Safety.{Action, act}

module _ {F D O : Type 0} (v : Learning F D O) (cfg : TrainConfig F) where
  -- The optimizer and its parameters after steps with the given gradients, at one rate
  pub replay : F → List (Params F) → O × Params F → O × Params F
  replay rate [] s = s
  replay rate (g ∷ gs) s =
      let r = v.optim_step (v.set_lr s.0 rate) s.1 (v.clip_grads g) in
      replay rate gs (r.0, v.tie_weights r.1)

  -- The number of steps that are due: one for each batch, and one for each full cycle of
  -- micro-batches, of which `c` are there at the start
  pub due : ℕ → List Action → ℕ
  due c [] = 0
  due c (Action.whole b ∷ more) = 1 + due c more
  due c (Action.micro b ∷ more) =
      if ltb (c + 1) (micro_steps v cfg) then due (c + 1) more else 1 + due 0 more

  abbrev pub learned : Trainer F O → O × Params F
  learned t = (t.optim, t.params)

  -- From `t` to `u` the optimizer took steps with finite gradients, which together with the skipped
  -- ones are `k`.
  pub record Updates (t u : Trainer F O) (k : ℕ) : Type 0 where
    pub grads : List (Params F)
    pub finite : All (λ g. has_nonfinite v.num g ≡ false) grads
    pub state : learned u ≡ replay (v.schedule t.step) grads (learned t)
    pub count : length grads + u.skipped ≡ t.skipped + k
    pub step : u.step ≡ t.step

  replay-append :
      (rate : F) (gs hs : List (Params F)) (s : O × Params F)
      → replay rate (gs ++ hs) s ≡ replay rate hs (replay rate gs s)
  unfolding replay
  replay-append rate [] hs s = refl
  replay-append rate (g ∷ gs) hs s = replay-append rate gs hs _

  Updates-join :
      (t u w : Trainer F O) (k m : ℕ) {n : ℕ}
      → k + m ≡ n
      → Updates t u k
      → Updates u w m
      → Updates t w n
  Updates-join t u w k m e a b = record {
    grads = a.grads ++ b.grads;
    finite = All-append _ a.grads b.grads a.finite b.finite;
    state =
        b.state
        ∙ ap₂ (λ n s. replay (v.schedule n) b.grads s) a.step a.state
        ∙ sym (replay-append (v.schedule t.step) a.grads b.grads (learned t));
    count = omega (arith, e, a.count, b.count, length-append a.grads b.grads);
    step = b.step ∙ a.step;
  }

  -- The optimizer, the parameters, the step and the skipped steps are those of `t`.
  Updates-none :
      (t u : Trainer F O)
      → learned u ≡ learned t
      → u.skipped ≡ t.skipped
      → u.step ≡ t.step
      → Updates t u 0
  unfolding replay
  Updates-none t u s e f = record {
    grads = [];
    finite = tt;
    state = s;
    count = omega (arith, e);
    step = f;
  }

  Updates-skip :
      (t u : Trainer F O)
      → learned u ≡ learned t
      → u.skipped ≡ t.skipped + 1
      → u.step ≡ t.step
      → Updates t u 1
  unfolding replay
  Updates-skip t u s e f = record {
    grads = [];
    finite = tt;
    state = s;
    count = omega (arith, e);
    step = f;
  }

  Updates-one :
      (t u : Trainer F O) (g : Params F)
      → has_nonfinite v.num g ≡ false
      → learned u ≡ learned (apply_grads v cfg t g)
      → u.skipped ≡ t.skipped
      → u.step ≡ t.step
      → Updates t u 1
  unfolding replay apply_grads
  Updates-one t u g h s e f = record {
    grads = g ∷ [];
    finite = (h, tt);
    state = s;
    count = omega (arith, e);
    step = f;
  }

  accum_count-train_step :
      (t : Trainer F O) (b : List ℤ) → (train_step v cfg t b).1.accum_count ≡ t.accum_count
  unfolding train_step apply_grads
  accum_count-train_step t b =
      let same = λ (r : F × Trainer F O). r.1.accum_count ≡ t.accum_count in
      if-Both same cfg.allow_untrained_params refl
        (if-Both same (has_nonfinite v.num (gradients v cfg t.params b)) refl refl)

  accum_count-finish_accum : (t : Trainer F O) → (finish_accum v cfg t).accum_count ≡ 0
  unfolding finish_accum
  accum_count-finish_accum t =
      if-Both (λ (u : Trainer F O). u.accum_count ≡ 0)
        (has_nonfinite v.num (divide v.num t.accum (v.num.of_nat (micro_steps v cfg)))) refl refl

  -- The trainer with the gradients of one more micro-batch
  abbrev with_micro : Trainer F O → List ℤ → Trainer F O
  with_micro t b = record t {
    accum =
        add_grads v.num (buffer v.num t.params t.accum) t.params
          (v.backward t.params b (v.dlogits t.params b));
    accum_count = t.accum_count + 1;
    last_loss = v.loss t.params b;
  }

  module _ (honest : cfg.allow_untrained_params ≡ false) where
    train_step-Updates : (t : Trainer F O) (b : List ℤ) → Updates t (train_step v cfg t b).1 1
    unfolding train_step apply_grads
    train_step-Updates t b =
        if-Cases (λ (r : F × Trainer F O). Updates t r.1 1) cfg.allow_untrained_params
          (λ noisy. absurd cc)
          (λ e.
            if-Cases (λ (r : F × Trainer F O). Updates t r.1 1)
              (has_nonfinite v.num (gradients v cfg t.params b))
              (λ bad. Updates-skip t _ refl refl refl)
              (λ good. Updates-one t _ (gradients v cfg t.params b) good refl refl refl))

    finish_accum-Updates : (t : Trainer F O) → Updates t (finish_accum v cfg t) 1
    unfolding finish_accum apply_grads
    finish_accum-Updates t =
        let grads = divide v.num t.accum (v.num.of_nat (micro_steps v cfg)) in
        if-Cases (λ (u : Trainer F O). Updates t u 1) (has_nonfinite v.num grads)
          (λ bad. Updates-skip t _ refl refl refl)
          (λ good. Updates-one t _ grads good refl refl refl)

    with_micro-Updates : (t : Trainer F O) (b : List ℤ) → Updates t (with_micro t b) 0
    with_micro-Updates t b = Updates-none t _ refl refl refl

    -- If training with noise is not allowed, then any sequence of batches and micro-batches leaves
    -- the optimizer and the parameters as a sequence of optimizer steps with clipped finite
    -- gradients does, at the rate of the trainer's step, and these steps together with those that
    -- are counted as skipped are one for each batch and one for each full cycle of micro-batches,
    -- whatever gradients the network gives.
    pub act-Updates :
        (t : Trainer F O) (steps : List Action)
        → Updates t (act v cfg t steps) (due t.accum_count steps)
    unfolding act due
    act-Updates t [] = Updates-none t t refl refl refl
    act-Updates t (Action.whole b ∷ more) =
        let u = (train_step v cfg t b).1 in
        Updates-join t u (act v cfg u more) 1 (due t.accum_count more) refl (train_step-Updates t b)
          (subst (λ c. Updates u (act v cfg u more) (due c more)) (accum_count-train_step t b)
            (act-Updates u more))
    act-Updates t (Action.micro b ∷ more) =
        elim (Bool-cases (ltb (t.accum_count + 1) (micro_steps v cfg))) [
          | inl below ↦
              let same : (train_step_accum v cfg t b).1 ≡ with_micro t b =
                unfold train_step_accum in rw below refl in
              rw (below, same)
                (Updates-join t (with_micro t b) (act v cfg (with_micro t b) more) 0
                  (due (t.accum_count + 1) more) (omega arith) (with_micro-Updates t b)
                  (act-Updates (with_micro t b) more))
          | inr full ↦
              let u = with_micro t b in
              let w = finish_accum v cfg u in
              let same : (train_step_accum v cfg t b).1 ≡ w =
                unfold train_step_accum in rw full refl in
              rw (full, same)
                (Updates-join t w (act v cfg w more) 1 (due 0 more) refl
                  (Updates-join t u w 0 1 (omega arith) (with_micro-Updates t b)
                    (finish_accum-Updates u))
                  (subst (λ c. Updates w (act v cfg w more) (due c more))
                    (accum_count-finish_accum u) (act-Updates w more)))
        ]
