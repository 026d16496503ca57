-- ===== src/Prefetch/Wakeups.antt =====
-- src/prefetch.cpp, the threads that sleep, and what wakes them.
use llm_cpp.Prelude.{
  ℕ, ◌<◌, ◌≡◌, refl, sym, ap, ◌∙◌, subst, ◌⊎◌, inl, inr, true, false, ◌||◌, some, List, arith, ltb,
  ◌==◌, Bool-cases, Option-cases, length, nat_eq, list_eq, ℤ, int_eq, some-injective, none-ne-some,
}
use llm_cpp.Prefetch.{Worker, PrefetchLoader, make_loader, reserve, worker_step, next}
use llm_cpp.Prefetch.Steps.{
  reserve_elim, next_elim, worker_step-waiting, reserve_waits, next_waits, reserve_stays,
  next_stays,
}
use llm_cpp.Prefetch.Turns.{
  run_turn-waits, run_turn-moves, consumer_turn-waits, consumer_turn-moves, waiting_leaves,
  loading_leaves, worker_turns-finished, Interleaving-Reachable,
}
use llm_cpp.Prefetch.Delivery.{either_runs}
use llm_cpp.Prefetch.Signals.{
  Threads, notifies_end, run_turn, worker_turn, notifies_room, consumer_turn, stop_all,
  Interleaving, worker_turns,
}

-- The predicates of the two waits are false.
abbrev WorkerWaits : PrefetchLoader → Type 0
WorkerWaits s =
    (s.worker ≡ Worker.waiting) × ((s.stop || ltb (length s.queue) s.prefetch || s.done) ≡ false)

abbrev ConsumerWaits : PrefetchLoader → Type 0
ConsumerWaits s = (0 < s.prefetch) × (length s.queue ≡ 0) × (s.done ≡ false)

-- A thread that sleeps waits for what the other has still to do.
record NoneLost (t : Threads) : Type 0 where
  worker : t.worker_asleep ≡ true → WorkerWaits t.loader
  consumer : t.consumer_asleep ≡ true → ConsumerWaits t.loader

reserve_consumer :
    (s s' : PrefetchLoader)
    → reserve s ≡ some s'
    → notifies_end s ≡ false
    → ConsumerWaits s
    → ConsumerWaits s'
unfolding notifies_end
reserve_consumer s s' e quiet h =
    reserve_elim ConsumerWaits s s' e (λ why. h)
      (λ runs more at_end. absurd (ground (arith, runs, more, at_end, quiet))) h
      (λ more left room. h)

next_worker :
    (s s' : PrefetchLoader) (batches : List (List ℤ))
    → next s ≡ some (batches, s')
    → notifies_room s ≡ false
    → WorkerWaits s
    → WorkerWaits s'
unfolding notifies_room
next_worker s s' batches e quiet h =
    next_elim (λ xs x. WorkerWaits x) s s' batches e (λ sync at_end. h) (λ sync left. h)
      (λ drained done. h)
      (λ front rest threaded q.
        (let some_left : (length s.queue == 0) ≡ false = rw q (ground arith) in
          absurd (ground arith)))

run_turn-NoneLost :
    (w : Worker) (t t' : Threads)
    → t.loader.worker ≡ w
    → t.worker_asleep ≡ false
    → run_turn w t ≡ some t'
    → NoneLost t
    → NoneLost t'
unfolding run_turn
run_turn-NoneLost Worker.waiting t t' at_w up e h = elim (Option-cases (reserve t.loader)) [
  | inl waits ↦
      subst NoneLost (some-injective _ _ (sym (run_turn-waits t waits) ∙ e))
        (record { worker = λ q. (at_w, reserve_waits t.loader waits); consumer = h.consumer })
  | inr (s, moves) ↦
      subst NoneLost (some-injective _ _ (sym (run_turn-moves t s moves) ∙ e)) (record {
        worker = λ q. absurd cc;
        consumer =
            λ q. reserve_consumer t.loader s moves (ground arith) (h.consumer (ground arith));
      })
]
run_turn-NoneLost (Worker.loading cur) t t' at_w up e h =
    subst NoneLost (some-injective _ _ e)
      (record { worker = λ q. absurd cc; consumer = λ q. absurd cc })
run_turn-NoneLost Worker.finished t t' at_w up e h = absurd (none-ne-some _ e)

worker_turn-NoneLost : (t t' : Threads) → worker_turn t ≡ some t' → NoneLost t → NoneLost t'
unfolding worker_turn
worker_turn-NoneLost t t' e h = elim (Bool-cases t.worker_asleep) [
  | inl down ↦ absurd (none-ne-some _ (sym (rw down refl) ∙ e))
  | inr up ↦ run_turn-NoneLost t.loader.worker t t' refl up (sym (rw up refl) ∙ e) h
]

consumer_turn-NoneLost :
    (t t' : Threads) (batches : List (List ℤ))
    → consumer_turn t ≡ some (batches, t')
    → NoneLost t
    → NoneLost t'
unfolding consumer_turn
consumer_turn-NoneLost t t' batches e h = elim (Bool-cases t.consumer_asleep) [
  | inl down ↦ absurd (none-ne-some _ (sym (rw down refl) ∙ e))
  | inr up ↦ elim (Option-cases (next t.loader)) [
    | inl waits ↦
        subst NoneLost
          (ap (λ r. r.1) (some-injective _ _ (sym (consumer_turn-waits t up waits) ∙ e)))
          (record { worker = h.worker; consumer = λ q. next_waits t.loader waits })
    | inr ((xs, s), moves) ↦
        subst NoneLost
          (ap (λ r. r.1) (some-injective _ _ (sym (consumer_turn-moves t xs s up moves) ∙ e)))
          (record {
            worker = λ q. next_worker t.loader s xs moves (ground arith) (h.worker (ground arith));
            consumer = λ q. absurd cc;
          })
  ]
]

module _ {start : PrefetchLoader} where
  Interleaving-NoneLost :
      {t : Threads} {got : List (List ℤ)} → Interleaving start t got → NoneLost t
  Interleaving-NoneLost Interleaving.begin = record {
    worker = λ q. absurd cc;
    consumer = λ q. absurd cc;
  }
  Interleaving-NoneLost (Interleaving.works t t' got r e) =
      worker_turn-NoneLost t t' e (Interleaving-NoneLost r)
  Interleaving-NoneLost (Interleaving.takes t t' got batches r e) =
      consumer_turn-NoneLost t t' batches e (Interleaving-NoneLost r)
  Interleaving-NoneLost (Interleaving.wakes t got r) = record {
    worker = λ q. absurd cc;
    consumer = λ q. absurd cc;
  }
  Interleaving-NoneLost (Interleaving.stops t got r) =
      unfold stop_all in record { worker = λ q. absurd cc; consumer = λ q. absurd cc }

module _ (tokens : List ℤ) (b p : ℕ) (t : Threads) (got : List (List ℤ))
    (r : Interleaving (make_loader tokens b p) t got) where
  -- In every state that an interleaving of the threads reaches from a new loader, where a thread
  -- whose wait fails sleeps until a notification or a spurious wakeup, before the destructor asks
  -- to stop: the worker is awake and can do a step of its loop, or the consumer is awake and its
  -- call of `next` returns.
  pub no_deadlock :
      t.loader.stop ≡ false
      → ((t.worker_asleep ≡ false) × (s : PrefetchLoader) × (worker_step t.loader ≡ some s))
        ⊎ ((t.consumer_asleep ≡ false)
            × (n : List (List ℤ) × PrefetchLoader) × (next t.loader ≡ some n))
  no_deadlock runs = elim (either_runs tokens b p t.loader got (Interleaving-Reachable r) runs) [
    | inl (s, e) ↦ inl (worker_up s e, s, e)
    | inr (n, e) ↦ inr (consumer_up n e, n, e)
  ]
    where
      worker_up : (s : PrefetchLoader) → worker_step t.loader ≡ some s → t.worker_asleep ≡ false
      worker_up s e = elim (Bool-cases t.worker_asleep) [
        | inr up ↦ up
        | inl down ↦
            let (at_w, waits) = (Interleaving-NoneLost r).worker down in
            absurd (
              none-ne-some _
                (sym (reserve_stays t.loader waits) ∙ sym (worker_step-waiting t.loader at_w) ∙ e))
      ]

      consumer_up :
          (n : List (List ℤ) × PrefetchLoader) → next t.loader ≡ some n → t.consumer_asleep ≡ false
      consumer_up n e = elim (Bool-cases t.consumer_asleep) [
        | inr up ↦ up
        | inl down ↦ absurd (
            none-ne-some _
              (sym (next_stays t.loader ((Interleaving-NoneLost r).consumer down)) ∙ e))
      ]

  -- Once the destructor has asked to stop, in every state that an interleaving of the threads
  -- reaches from a new loader the worker has left after at most two more steps of its own: it does
  -- not sleep, and the join returns.
  pub worker_leaves : t.loader.stop ≡ true → (worker_turns 2 t).loader.worker ≡ Worker.finished
  worker_leaves stopped = elim (Bool-cases t.worker_asleep) [
    | inl down ↦
        let (at_w, waits) = (Interleaving-NoneLost r).worker down in
        absurd (ground (arith, stopped, waits))
    | inr up ↦ go up t.loader.worker refl
  ]
    where
      go :
          t.worker_asleep ≡ false
          → (w : Worker) → t.loader.worker ≡ w
          → (worker_turns 2 t).loader.worker ≡ Worker.finished
      go up Worker.waiting at_w = waiting_leaves 1 t stopped up at_w
      go up (Worker.loading cur) at_w = loading_leaves 0 cur t stopped up at_w
      go up Worker.finished at_w = worker_turns-finished 2 t at_w
