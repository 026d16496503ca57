-- ===== src/Trainer/Tests.antt =====
-- A trainer whose floats are numbers, those below 1000 finite, and whose optimizer takes its gradient
-- from each parameter.
use llm_cpp.Prelude.{
  suc, ap, pos, ℕ, ◌+◌, ◌-◌, ◌*◌, ◌/◌, ◌^◌, min, ◌≡◌, refl, true, false, none, some, List, [], ◌∷◌,
  map, arith, ltb, ◌==◌, if◌then◌else◌, length, nat_eq, list_eq, ℤ, int_eq,
}
use llm_cpp.Dataset.{DataLoader}
use llm_cpp.Trainer.{
  Floats, Learning, TrainConfig, Trainer, Params, buffer, state_json, load_state_json, train,
  snapshot_params, rollback_if_nonfinite, micro_steps,
}
use llm_cpp.Trainer.State.{load_state_json-state_json}
use llm_cpp.Trainer.Loop.{left_over, step-train}
use llm_cpp.Trainer.Safety.{Action, act, KeepsCount, rollback-snapshot}
use llm_cpp.Trainer.Updates.{Updates, due, act-Updates}
use llm_cpp.Trainer.Accumulation.{accumulate, mean, OneStep, accumulate-OneStep}

abbrev counts : Floats ℕ
counts = record {
  zero = 0;
  half = 0;
  add = ◌+◌;
  mul = ◌*◌;
  div = ◌/◌;
  of_nat = λ n. n;
  is_one = λ n. n == 1;
  is_finite = λ n. ltb n 1000;
}

-- Each parameter less its gradient
abbrev descend_floats : List ℕ → List ℕ → List ℕ
descend_floats [] gs = []
descend_floats (x ∷ xs) [] = x ∷ xs
descend_floats (x ∷ xs) (g ∷ gs) = (x - g) ∷ descend_floats xs gs

abbrev descend : Params ℕ → Params ℕ → Params ℕ
descend [] gs = []
descend (p ∷ ps) [] = p ∷ ps
descend (p ∷ ps) (g ∷ gs) = descend_floats p g ∷ descend ps gs

length-descend : (ps gs : Params ℕ) → length (descend ps gs) ≡ length ps
length-descend [] gs = refl
length-descend (p ∷ ps) [] = refl
length-descend (p ∷ ps) (g ∷ gs) = ap suc (length-descend ps gs)

abbrev learning : Learning ℕ ℕ ℕ
learning = record {
  num = counts;
  loss = λ ps b. length b;
  dlogits = λ ps b. length b;
  scale = ◌*◌;
  backward = λ ps b d. map (map (λ x. x + d)) ps;
  noise = λ ps b n. ps;
  tie_weights = λ ps. ps;
  clip_grads = λ gs. gs;
  norm = λ gs. length gs;
  schedule = λ n. n + 1;
  set_lr = λ o r. r;
  get_lr = λ o. o;
  optim_step = λ o ps gs. (o, descend ps gs);
}

abbrev settings : TrainConfig ℕ
settings = record {
  max_iters = 3;
  eval_interval = 2;
  grad_accum_steps = 2;
  allow_untrained_params = false;
  loss_scale = 1;
}

abbrev trainer : Trainer ℕ ℕ
trainer = record {
  params = (5 ∷ 7 ∷ []) ∷ (9 ∷ []) ∷ [];
  optim = 1;
  step = 0;
  skipped = 0;
  accum = [];
  accum_count = 0;
  last_loss = 0;
  last_grad_norm = 0;
  last_good = [];
  has_snapshot = false;
}

abbrev loader : DataLoader
loader = record {
  tokens = pos 1 ∷ pos 2 ∷ pos 3 ∷ [];
  batch_size = 2;
  cursor = 0;
  shuffle = false;
  seed = 0;
  order = 0 ∷ 2 ∷ [];
}

abbrev two_batches : List (List ℤ)
two_batches = (pos 1 ∷ []) ∷ (pos 2 ∷ pos 3 ∷ []) ∷ []

abbrev steps : List Action
steps = Action.whole (pos 1 ∷ []) ∷ Action.micro (pos 2 ∷ []) ∷ Action.micro [] ∷ []

learning-KeepsCount : KeepsCount learning settings
learning-KeepsCount = record { step = λ o p g. length-descend p g; tie = λ p. refl }

load_state_json-state_json_example :
    load_state_json (state_json 3 1 5000000000)
    ≡ (if ltb 5000000000 (2 ^ 31) then some (3, 1, 5000000000) else none)
load_state_json-state_json_example =
    load_state_json-state_json 3 1 5000000000 (omega arith) (omega arith) (omega arith)

step-train_example :
    (t' : Trainer ℕ ℕ) × (train learning settings 4 trainer loader ≡ some t')
    × (t'.step ≡ 0 + min (3 - 0) (left_over loader))
step-train_example = step-train learning settings 4 trainer loader (omega arith) (omega arith)

act-Updates_example :
    Updates learning settings trainer
      (act learning settings trainer steps)
      (due learning settings trainer.accum_count steps)
act-Updates_example = act-Updates learning settings refl trainer steps

rollback-snapshot_example :
    let t' = act learning settings (snapshot_params trainer) steps in
    let r = rollback_if_nonfinite learning t' 1000 in
    (r.0 ≡ true) × (r.1.params ≡ trainer.params) × (r.1.optim ≡ t'.optim * 0)
rollback-snapshot_example =
    rollback-snapshot learning settings learning-KeepsCount trainer steps 1000 refl

accumulate-OneStep_example :
    OneStep learning settings trainer
      (mean learning settings trainer.params two_batches)
      (accumulate learning settings trainer two_batches)
unfolding buffer micro_steps
accumulate-OneStep_example = accumulate-OneStep learning settings trainer two_batches refl refl refl
