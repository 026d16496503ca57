-- ===== src/Prefetch/Turns.antt =====
-- src/prefetch.cpp, the outcomes of the threads' turns, and their loader without the sleeping.
use llm_cpp.Prelude.{
  ℕ, zero, suc, ◌≡◌, refl, sym, ap, ◌∙◌, subst, inl, inr, Bool, true, false, not, ◌&&◌, none, some,
  List, [], ◌++◌, append-nil, Bool-cases, Option-cases, nat_eq, list_eq, ℤ, int_eq, some-injective,
  none-ne-some,
}
use llm_cpp.Prefetch.{Worker, PrefetchLoader, reserve, deliver, next, Reachable}
use llm_cpp.Prefetch.Steps.{worker_step-waiting, worker_step-loading}
use llm_cpp.Prefetch.Signals.{
  Threads, notifies_end, run_turn, worker_turn, notifies_room, consumer_turn, stop_all,
  Interleaving, worker_turns,
}

-- The outcomes of the turns
module _ (t : Threads) where
  pub run_turn-waits :
      reserve t.loader ≡ none → run_turn Worker.waiting t ≡ some (record t { worker_asleep = true })
  unfolding run_turn
  run_turn-waits e = rw (e, run_turn) refl

  pub run_turn-moves :
      (s : PrefetchLoader)
      → reserve t.loader ≡ some s
      → run_turn Worker.waiting t
        ≡ some (record t {
          loader = s;
          consumer_asleep = t.consumer_asleep && not (notifies_end t.loader);
        })
  unfolding run_turn
  run_turn-moves s e = rw (e, run_turn) refl

  pub consumer_turn-waits :
      t.consumer_asleep ≡ false
      → next t.loader ≡ none
      → consumer_turn t ≡ some ([], record t { consumer_asleep = true })
  unfolding consumer_turn
  consumer_turn-waits up e = rw (up, e, consumer_turn) refl

  pub consumer_turn-moves :
      (xs : List (List ℤ)) (s : PrefetchLoader)
      → t.consumer_asleep ≡ false
      → next t.loader ≡ some (xs, s)
      → consumer_turn t
        ≡ some (
          xs,
          record {
            loader = s;
            worker_asleep = t.worker_asleep && not (notifies_room t.loader);
            consumer_asleep = false;
          },
        )
  unfolding consumer_turn
  consumer_turn-moves xs s up e =
      let woken : Bool = t.worker_asleep && not (notifies_room t.loader) in
      rw (up, e, consumer_turn)
        (ap
          (λ down. some (xs, record { loader = s; worker_asleep = woken; consumer_asleep = down }))
          up)

  pub worker_turn-awake : t.worker_asleep ≡ false → worker_turn t ≡ run_turn t.loader.worker t
  unfolding worker_turn
  worker_turn-awake up = rw up refl

-- A step of a thread is a step of the loader, or none.
worker_turn-Reachable :
    (start : PrefetchLoader) (t t' : Threads) (got : List (List ℤ))
    → worker_turn t ≡ some t'
    → Reachable start t.loader got
    → Reachable start t'.loader got
unfolding worker_turn run_turn
worker_turn-Reachable start t t' got e r = elim (Bool-cases t.worker_asleep) [
  | inl down ↦ absurd (none-ne-some _ (sym (rw down refl) ∙ e))
  | inr up ↦ go t.loader.worker refl (sym (rw up refl) ∙ e)
]
  where
    go : (w : Worker) → t.loader.worker ≡ w → run_turn w t ≡ some t' → Reachable start t'.loader got
    go Worker.finished at_w e' = absurd (none-ne-some _ e')
    go (Worker.loading cur) at_w e' =
        subst (λ u. Reachable start u got) (ap (λ u. u.loader) (some-injective _ _ e'))
          (Reachable.works t.loader (deliver t.loader cur) got r
            (worker_step-loading t.loader cur at_w))
    go Worker.waiting at_w e' = elim (Option-cases (reserve t.loader)) [
      | inl waits ↦
          subst (λ u. Reachable start u got)
            (ap (λ u. u.loader) (some-injective _ _ (sym (run_turn-waits t waits) ∙ e'))) r
      | inr (s, moves) ↦
          subst (λ u. Reachable start u got)
            (ap (λ u. u.loader) (some-injective _ _ (sym (run_turn-moves t s moves) ∙ e')))
            (Reachable.works t.loader s got r (worker_step-waiting t.loader at_w ∙ moves))
    ]

consumer_turn-Reachable :
    (start : PrefetchLoader) (t t' : Threads) (got batches : List (List ℤ))
    → consumer_turn t ≡ some (batches, t')
    → Reachable start t.loader got
    → Reachable start t'.loader (got ++ batches)
unfolding consumer_turn
consumer_turn-Reachable start t t' got batches e r = elim (Bool-cases t.consumer_asleep) [
  | inl down ↦ absurd (none-ne-some _ (sym (rw down refl) ∙ e))
  | inr up ↦ elim (Option-cases (next t.loader)) [
    | inl waits ↦
        subst (λ u. Reachable start u.1.loader (got ++ u.0))
          (some-injective _ _ (sym (consumer_turn-waits t up waits) ∙ e)) (rw (append-nil got) r)
    | inr ((xs, s), moves) ↦
        subst (λ u. Reachable start u.1.loader (got ++ u.0))
          (some-injective _ _ (sym (consumer_turn-moves t xs s up moves) ∙ e))
          (Reachable.takes t.loader s got xs r moves)
  ]
]

module _ {start : PrefetchLoader} where
  stop_all-Reachable :
      (t : Threads) (got : List (List ℤ))
      → Reachable start t.loader got
      → Reachable start (stop_all t).loader got
  unfolding stop_all
  stop_all-Reachable t got r = Reachable.stops t.loader got r

  pub Interleaving-Reachable :
      {t : Threads} {got : List (List ℤ)} → Interleaving start t got → Reachable start t.loader got
  Interleaving-Reachable Interleaving.begin = Reachable.begin
  Interleaving-Reachable (Interleaving.works t t' got r e) =
      worker_turn-Reachable _ t t' got e (Interleaving-Reachable r)
  Interleaving-Reachable (Interleaving.takes t t' got batches r e) =
      consumer_turn-Reachable _ t t' got batches e (Interleaving-Reachable r)
  Interleaving-Reachable (Interleaving.wakes t got r) = Interleaving-Reachable r
  Interleaving-Reachable (Interleaving.stops t got r) =
      stop_all-Reachable t got (Interleaving-Reachable r)

-- The worker of a loader that is to stop
worker_turns-some :
    (n : ℕ) (t u : Threads) → worker_turn t ≡ some u → worker_turns (suc n) t ≡ worker_turns n u
unfolding worker_turns
worker_turns-some n t u e = rw (e, worker_turns) refl

pub worker_turns-finished :
    (n : ℕ) (t : Threads)
    → t.loader.worker ≡ Worker.finished
    → (worker_turns n t).loader.worker ≡ Worker.finished
unfolding worker_turns worker_turn run_turn
worker_turns-finished zero t h = h
worker_turns-finished (suc n) t h = rw (gone, worker_turns) h
  where
    gone : worker_turn t ≡ none
    gone = elim (Bool-cases t.worker_asleep) [
      | inl down ↦ rw down refl
      | inr up ↦ worker_turn-awake t up ∙ ap (λ w. run_turn w t) h
    ]

reserve_stops :
    (s : PrefetchLoader) → s.stop ≡ true → reserve s ≡ some (record s { worker = Worker.finished })
unfolding reserve
reserve_stops s stopped = rw stopped refl

pub waiting_leaves :
    (n : ℕ) (t : Threads)
    → t.loader.stop ≡ true
    → t.worker_asleep ≡ false
    → t.loader.worker ≡ Worker.waiting
    → (worker_turns (suc n) t).loader.worker ≡ Worker.finished
waiting_leaves n t stopped up at_w =
    let turn =
      worker_turn-awake t up
      ∙ ap (λ w. run_turn w t) at_w
      ∙ run_turn-moves t _ (reserve_stops t.loader stopped) in
    rw (worker_turns-some n t _ turn) (worker_turns-finished n _ refl)

pub loading_leaves :
    (n cur : ℕ) (t : Threads)
    → t.loader.stop ≡ true
    → t.worker_asleep ≡ false
    → t.loader.worker ≡ Worker.loading cur
    → (worker_turns (suc (suc n)) t).loader.worker ≡ Worker.finished
unfolding run_turn deliver
loading_leaves n cur t stopped up at_w =
    let turn = worker_turn-awake t up ∙ ap (λ w. run_turn w t) at_w in
    rw (worker_turns-some (suc n) t _ turn) (waiting_leaves n _ stopped up refl)
