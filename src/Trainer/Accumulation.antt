-- ===== src/Trainer/Accumulation.antt =====
-- src/trainer.cpp, train_step_accum: one step of the optimizer for all micro-batches of a cycle.
use llm_cpp.Prelude.{
  ℕ, suc, ◌+◌, ◌%◌, ◌<◌, ◌≡◌, refl, sym, ap, ◌∙◌, subst, inl, inr, true, false, List, [], ◌∷◌,
  arith, ltb, if◌then◌else◌, Bool-cases, length, length-map, nat_eq, list_eq, ℤ, int_eq,
}
use native.Mathlib.Nat.{mod-eq_of_lt, add-mod_left}
use llm_cpp.Trainer.{
  Learning, TrainConfig, Trainer, Params, train_step_accum, finish_accum, apply_grads,
  has_nonfinite, divide, micro_steps, buffer, add_grads, zeros,
}

module _ {F D O : Type 0} (v : Learning F D O) (cfg : TrainConfig F) where
  unfoldable pub accumulate : Trainer F O → List (List ℤ) → Trainer F O
  accumulate t [] = t
  accumulate t (b ∷ bs) = accumulate (train_step_accum v cfg t b).1 bs

  -- The sum of the gradients at parameters that stay
  unfoldable pub summed : Params F → List (List ℤ) → Params F → Params F
  summed ps [] acc = acc
  summed ps (b ∷ bs) acc = summed ps bs (add_grads v.num acc ps (v.backward ps b (v.dlogits ps b)))

  abbrev last_batch : List ℤ → List (List ℤ) → List ℤ
  last_batch b [] = b
  last_batch b (c ∷ cs) = last_batch c cs

  buffer-same : (ps acc : Params F) → length acc ≡ length ps → buffer v.num ps acc ≡ acc
  unfolding buffer zeros
  buffer-same [] [] h = refl
  buffer-same (p ∷ ps) [] h = absurd (omega arith)
  buffer-same ps (a ∷ acc) h = refl

  length-add_grads : (acc ps gs : Params F) → length (add_grads v.num acc ps gs) ≡ length acc
  unfolding add_grads
  length-add_grads [] ps gs = refl
  length-add_grads (a ∷ acc) [] gs = refl
  length-add_grads (a ∷ acc) (p ∷ ps) [] = refl
  length-add_grads (a ∷ acc) (p ∷ ps) (g ∷ gs) = ap suc (length-add_grads acc ps gs)

  accumulate-finish :
      (t : Trainer F O) (acc : Params F) (b : List ℤ) (bs : List (List ℤ))
      → buffer v.num t.params t.accum ≡ acc
      → length acc ≡ length t.params
      → t.accum_count + suc (length bs) ≡ micro_steps v cfg
      → accumulate t (b ∷ bs)
        ≡ finish_accum v cfg (record t {
          accum = summed t.params (b ∷ bs) acc;
          accum_count = micro_steps v cfg;
          last_loss = v.loss t.params (last_batch b bs);
        })
  unfolding accumulate summed train_step_accum
  accumulate-finish t acc b [] start len h =
      let full : ltb (t.accum_count + 1) (micro_steps v cfg) ≡ false = ground (arith, h) in
      rw (full, start)
        (ap
          (λ k. finish_accum v cfg (record t {
            accum = summed t.params (b ∷ []) acc;
            accum_count = k;
            last_loss = v.loss t.params b;
          }))
          (omega (arith, h)))
  accumulate-finish t acc b (c ∷ bs) start len h =
      let more : ltb (t.accum_count + 1) (micro_steps v cfg) ≡ true = ground (arith, h) in
      let acc' = add_grads v.num acc t.params (v.backward t.params b (v.dlogits t.params b)) in
      let same = length-add_grads acc t.params (v.backward t.params b (v.dlogits t.params b)) in
      let t' : Trainer F O = record t {
        accum = acc';
        accum_count = t.accum_count + 1;
        last_loss = v.loss t.params b;
      } in
      rw (more, start)
        (accumulate-finish t' acc' c bs (buffer-same t.params acc' (same ∙ len)) (same ∙ len)
          (omega (arith, h)))

  abbrev pub mean : Params F → List (List ℤ) → Params F
  mean ps bs = divide v.num (summed ps bs (zeros v.num ps)) (v.num.of_nat (micro_steps v cfg))

  -- What a cycle of micro-batches makes of a trainer
  abbrev pub OneStep : Trainer F O → Params F → Trainer F O → Type 0
  OneStep t grads t' =
      (t'.accum_count ≡ 0)
      × (if has_nonfinite v.num grads
          then (t'.params ≡ t.params) × (t'.optim ≡ t.optim) × (t'.skipped ≡ t.skipped + 1)
          else (t'.params ≡ (apply_grads v cfg t grads).params)
            × (t'.optim ≡ (apply_grads v cfg t grads).optim)
            × (t'.skipped ≡ t.skipped))

  finish_accum-OneStep :
      (t : Trainer F O) (acc : Params F) (k : ℕ) (loss : F)
      → OneStep t
          (divide v.num acc (v.num.of_nat (micro_steps v cfg)))
          (finish_accum v cfg (record t { accum = acc; accum_count = k; last_loss = loss }))
  unfolding finish_accum apply_grads
  finish_accum-OneStep t acc k loss =
      let grads = divide v.num acc (v.num.of_nat (micro_steps v cfg)) in
      elim (Bool-cases (has_nonfinite v.num grads)) [
        | inl bad ↦ rw (bad) (refl, (refl, refl, refl))
        | inr good ↦ rw (good) (refl, (refl, refl, refl))
      ]

  length-zeros : (ps : Params F) → length (zeros v.num ps) ≡ length ps
  unfolding zeros
  length-zeros ps = length-map ps _

  -- A cycle of micro-batches on a trainer with an empty or zero buffer makes exactly one step of
  -- the optimizer, with the mean of the gradients of all of them at the parameters before the
  -- cycle, and empties the count; if that mean is not finite, it changes neither the parameters nor
  -- the optimizer and counts one skipped step.
  pub accumulate-OneStep :
      (t : Trainer F O) (bs : List (List ℤ))
      → buffer v.num t.params t.accum ≡ zeros v.num t.params
      → t.accum_count ≡ 0
      → length bs ≡ micro_steps v cfg
      → OneStep t (mean t.params bs) (accumulate t bs)
  unfolding micro_steps
  accumulate-OneStep t [] fresh none_yet h = absurd (ground (arith, h))
  accumulate-OneStep t (b ∷ bs) fresh none_yet h =
      subst (OneStep t (mean t.params (b ∷ bs)))
        (sym (
          accumulate-finish t (zeros v.num t.params) b bs fresh (length-zeros t.params)
            (omega (arith, none_yet, h))))
        (finish_accum-OneStep t (summed t.params (b ∷ bs) (zeros v.num t.params))
          (micro_steps v cfg) (v.loss t.params (last_batch b bs)))

  accum_count-step :
      (t : Trainer F O) (b : List ℤ)
      → (train_step_accum v cfg t b).1.accum_count
        ≡ (if ltb (t.accum_count + 1) (micro_steps v cfg) then t.accum_count + 1 else 0)
  unfolding train_step_accum finish_accum
  accum_count-step t b = elim (Bool-cases (ltb (t.accum_count + 1) (micro_steps v cfg))) [
    | inl more ↦ rw more refl
    | inr full ↦ rw full (finish_accum-OneStep t _ (t.accum_count + 1) _).0
  ]

  -- The count after some micro-batches
  pub accum_count-accumulate :
      (t : Trainer F O) (bs : List (List ℤ))
      → t.accum_count < micro_steps v cfg
      → (accumulate t bs).accum_count ≡ (t.accum_count + length bs) % micro_steps v cfg
  unfolding accumulate
  accum_count-accumulate t [] h =
      sym (mod-eq_of_lt (omega (arith, h))) ∙ ap (λ k. k % micro_steps v cfg) (omega arith)
  accum_count-accumulate t (b ∷ bs) h =
      let t' = (train_step_accum v cfg t b).1 in
      let k = micro_steps v cfg in
      elim (Bool-cases (ltb (t.accum_count + 1) k)) [
        | inl more ↦
            let one : t'.accum_count ≡ t.accum_count + 1 = accum_count-step t b ∙ rw more refl in
            accum_count-accumulate t' bs (ground (arith, one))
            ∙ ap (λ x. x % k) (omega (arith, one))
        | inr full ↦
            let none_left : t'.accum_count ≡ 0 = accum_count-step t b ∙ rw full refl in
            accum_count-accumulate t' bs (omega (arith, none_left, h))
            ∙ sym (add-mod_left k (t'.accum_count + length bs))
            ∙ ap (λ x. x % k) (ground (arith, none_left))
      ]
