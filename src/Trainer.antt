-- ===== src/Trainer.antt =====
-- src/trainer.cpp: train, train_step, train_step_accum, the snapshot of the parameters and the file
-- of the training state. The network with its gradients, the optimizer, the schedule and clipping
-- are an interface, and so are the floats. Output and the evaluation, which change nothing, are left
-- out.
pub mod Accumulation
pub mod Safety
pub mod Updates
pub mod Loop
pub mod State
mod Tests
use llm_cpp.Prelude.{
  ◌>>=◌, ℕ, zero, suc, ◌+◌, Bool, true, false, not, ◌&&◌, ◌||◌, Option, none, some, List, [], ◌∷◌,
  ◌++◌, map, ltb, ◌==◌, if◌then◌else◌, tests, length, replicate, nat_eq, list_eq, ℤ, int_eq, codes,
}
use llm_cpp.Text.{find_after, to_string, stoi}
use llm_cpp.Dataset.{DataLoader, has_next, next_batch}

pub record Floats (F : Type 0) : Type 0 where
  pub zero : F
  pub half : F
  pub add : F → F → F
  pub mul : F → F → F
  pub div : F → F → F
  pub of_nat : ℕ → F
  pub is_one : F → Bool
  pub is_finite : F → Bool

-- The parameters of the model, and their gradients, are lists of lists of floats.
abbrev pub Params : Type 0 → Type 0
Params F = List (List F)

-- What a trainer is made with: `loss`, `dlogits` and `backward` of the model, the step of the
-- optimizer, the rates of the schedule, clip_by_global_norm with its norm, and the noise in place of
-- gradients
pub record Learning (F D O : Type 0) : Type 0 where
  pub num : Floats F
  pub loss : Params F → List ℤ → F
  pub dlogits : Params F → List ℤ → D
  pub scale : D → F → D
  pub backward : Params F → List ℤ → D → Params F
  pub noise : Params F → List ℤ → ℕ → Params F
  pub tie_weights : Params F → Params F
  pub clip_grads : Params F → Params F
  pub norm : Params F → F
  pub schedule : ℕ → F
  pub set_lr : O → F → O
  pub get_lr : O → F
  pub optim_step : O → Params F → Params F → O × Params F

pub record TrainConfig (F : Type 0) : Type 0 where
  pub max_iters : ℕ
  pub eval_interval : ℕ
  pub grad_accum_steps : ℕ
  pub allow_untrained_params : Bool
  pub loss_scale : F

pub record Trainer (F O : Type 0) : Type 0 where
  pub params : Params F
  pub optim : O
  pub step : ℕ
  pub skipped : ℕ
  pub accum : Params F
  pub accum_count : ℕ
  pub last_loss : F
  pub last_grad_norm : F
  pub last_good : Params F
  pub has_snapshot : Bool

module _ {F : Type 0} (num : Floats F) where
  -- The gradient of each parameter, or zeros where its size is another
  unfoldable pub collect : Params F → Params F → Params F
  collect [] gs = []
  collect (p ∷ ps) [] = replicate (length p) num.zero ∷ collect ps []
  collect (p ∷ ps) (g ∷ gs) =
      (if length g == length p then g else replicate (length p) num.zero) ∷ collect ps gs

  unfoldable pub zeros : Params F → Params F
  zeros ps = map (λ p. replicate (length p) num.zero) ps

  unfoldable pub add_floats : List F → List F → List F
  add_floats [] gs = []
  add_floats (a ∷ vs) [] = a ∷ vs
  add_floats (a ∷ vs) (g ∷ gs) = num.add a g ∷ add_floats vs gs

  -- accum_, made of zeros when it is empty
  unfoldable pub buffer : Params F → Params F → Params F
  buffer ps [] = zeros ps
  buffer ps (a ∷ acc) = a ∷ acc

  -- accum_[i].data[j] += p->grad[j], for the gradients that have the size of their parameter
  unfoldable pub add_grads : Params F → Params F → Params F → Params F
  add_grads [] ps gs = []
  add_grads (a ∷ acc) [] gs = a ∷ acc
  add_grads (a ∷ acc) (p ∷ ps) [] = a ∷ acc
  add_grads (a ∷ acc) (p ∷ ps) (g ∷ gs) =
      (if length g == length p then add_floats a g else a) ∷ add_grads acc ps gs

  unfoldable pub divide : Params F → F → Params F
  divide gs k = map (map (λ v. num.div v k)) gs

  unfoldable pub any_nonfinite : List F → Bool
  any_nonfinite [] = false
  any_nonfinite (v ∷ vs) = not (num.is_finite v) || any_nonfinite vs

  unfoldable pub has_nonfinite : Params F → Bool
  has_nonfinite [] = false
  has_nonfinite (g ∷ gs) = any_nonfinite g || has_nonfinite gs

-- params[i]->data = last_good_[i].data, as far as both go
unfoldable pub restore {ℓ} : {A : Type ℓ} → List A → List A → List A
restore [] good = []
restore (p ∷ ps) [] = p ∷ ps
restore (p ∷ ps) (q ∷ good) = q ∷ restore ps good

module _ {F D O : Type 0} (v : Learning F D O) (cfg : TrainConfig F) where
  -- From clip_grads on: one step of the optimizer
  unfoldable pub apply_grads : Trainer F O → Params F → Trainer F O
  apply_grads t grads =
      let r = v.optim_step (v.set_lr t.optim (v.schedule t.step)) t.params (v.clip_grads grads) in
      record t { params = v.tie_weights r.1; optim = r.0 }

  -- The gradients of the model, scaled and unscaled
  unfoldable pub gradients : Params F → List ℤ → Params F
  gradients ps batch =
      let d = v.dlogits ps batch in
      let d' = if v.num.is_one cfg.loss_scale then d else v.scale d cfg.loss_scale in
      let g = collect v.num ps (v.backward ps batch d') in
      if v.num.is_one cfg.loss_scale then g else divide v.num g cfg.loss_scale

  -- The loss, and the trainer after it
  unfoldable pub train_step : Trainer F O → List ℤ → F × Trainer F O
  train_step t batch =
      let loss = v.loss t.params batch in
      let grads = gradients t.params batch in
      if cfg.allow_untrained_params
      then (loss, apply_grads t (v.noise t.params batch t.step))
      else if has_nonfinite v.num grads
      then (loss, record t { skipped = t.skipped + 1 })
      else (
        loss,
        record (apply_grads t grads) {
          last_loss = loss;
          last_grad_norm = v.norm (v.clip_grads grads);
        },
      )

  -- cfg_.grad_accum_steps, at least 1
  unfoldable pub micro_steps : ℕ
  micro_steps = if ltb cfg.grad_accum_steps 1 then 1 else cfg.grad_accum_steps

  -- The end of train_step_accum, when the buffer holds the gradients of all micro-batches
  unfoldable pub finish_accum : Trainer F O → Trainer F O
  finish_accum t =
      let grads = divide v.num t.accum (v.num.of_nat micro_steps) in
      if has_nonfinite v.num grads
      then record t { skipped = t.skipped + 1; accum_count = 0; accum = zeros v.num t.accum }
      else record (apply_grads t grads) {
        last_grad_norm = v.norm (v.clip_grads grads);
        accum_count = 0;
        accum = zeros v.num t.accum;
      }

  unfoldable pub train_step_accum : Trainer F O → List ℤ → F × Trainer F O
  train_step_accum t batch =
      let loss = v.loss t.params batch in
      let start = buffer v.num t.params t.accum in
      let t' : Trainer F O = record t {
        accum =
            add_grads v.num start t.params (v.backward t.params batch (v.dlogits t.params batch));
        accum_count = t.accum_count + 1;
        last_loss = loss;
      } in
      (loss, if ltb (t.accum_count + 1) micro_steps then t' else finish_accum t')

  -- Trainer::train, on fuel; `none` for the remainder by an interval of 0
  unfoldable pub train : ℕ → Trainer F O → DataLoader → Option (Trainer F O)
  train zero t d = none
  train (suc fuel) t d = elim (ltb t.step cfg.max_iters && has_next d) [
    | false ↦ some t
    | true ↦ elim (next_batch d).0 [
      | [] ↦ some t
      | batch ∷ more ↦ elim (cfg.eval_interval == 0) [
        | true ↦ none
        | false ↦
            let t' = (train_step t batch).1 in
            train fuel (record t' { step = t'.step + 1 }) (next_batch d).1
      ]
    ]
  ]

module _ {F O : Type 0} where
  unfoldable pub snapshot_params : Trainer F O → Trainer F O
  snapshot_params t = record t { last_good = t.params; has_snapshot = true }

  unfoldable pub rollback_if_nonfinite :
      {D : Type 0} → Learning F D O → Trainer F O → F → Bool × Trainer F O
  rollback_if_nonfinite v t loss =
      if v.num.is_finite loss || not t.has_snapshot then (false, t) else (
        true,
        record t {
          params = restore t.params t.last_good;
          optim = v.set_lr t.optim (v.num.mul (v.get_lr t.optim) v.num.half);
        },
      )

-- The file <prefix>.json of save_train_state
unfoldable pub state_json : ℕ → ℕ → ℕ → List ℕ
state_json step skipped seed =
    codes "{\"step\":"
    ++ (to_string step
        ++ (codes ",\"skipped\":"
            ++ (to_string skipped ++ (codes ",\"seed\":" ++ (to_string seed ++ codes "}\n")))))

-- The lambda `num` of load_train_state: `none` where std::stoi throws. Without a colon, the search
-- gives npos, and npos + 1 is the start of the text.
unfoldable pub number_behind : List ℕ → Option (List ℕ) → Option ℕ
number_behind s none = some 0
number_behind s (some r) = elim (find_after (b':' ∷ []) r) [ none ↦ stoi s | some w ↦ stoi w ]

unfoldable pub state_number : List ℕ → List ℕ → Option ℕ
state_number s k = number_behind s (find_after k s)

-- The step, the number of skipped steps and the seed
unfoldable pub load_state_json : List ℕ → Option (ℕ × ℕ × ℕ)
load_state_json s = do
  step ← state_number s (codes "\"step\"")
  skipped ← state_number s (codes "\"skipped\"")
  seed ← state_number s (codes "\"seed\"")
  some (step, skipped, seed)
