-- ===== src/Prefetch/Delivery.antt =====
-- src/prefetch.cpp, what a consumer gets: the batches in total, the queue, and the waits.
use llm_cpp.Prelude.{
  ℕ, ◌+◌, ◌≤◌, ◌<◌, ◌≡◌, refl, sym, ap, ap₂, ◌∙◌, subst, ◌⊎◌, inl, inr, true, false, some, List, [],
  ◌++◌, append-nil, arith, ltb, leb, ◌==◌, Bool-cases, length, take, concat, All, nat_eq, list_eq,
  ℤ, int_eq,
}
use llm_cpp.Dataset.{get_batch}
use llm_cpp.Dataset.Batches.{get_batch-take}
use llm_cpp.Prefetch.{
  Worker, PrefetchLoader, make_loader, reserve, deliver, worker_step, next, has_next, Reachable,
}
use llm_cpp.Prefetch.Steps.{
  next_elim, worker_step-waiting, worker_step-loading, reserve_runs, next_returns,
}
use llm_cpp.Prefetch.Taking.{take_all, empty}
use llm_cpp.Prefetch.Order.{flight, pending, IsOrdered, Reachable-IsOrdered}

module _ (tokens : List ℤ) (b p : ℕ) where
  -- In every state that an interleaving of the worker, the consumer and the destructor's stop
  -- request reaches from a new loader, the batches that `next` returned, followed by those in the
  -- queue and the one that the worker is reading, are the tokens before the cursor, in order and
  -- each of them once.
  pub delivered_in_order :
      (s : PrefetchLoader) (got : List (List ℤ))
      → Reachable (make_loader tokens b p) s got
      → concat (got ++ pending s) ≡ take s.cursor tokens
  delivered_in_order s got r = (Reachable-IsOrdered tokens b p r).all

  -- In every state that an interleaving reaches from a new loader, the queue together with the
  -- batch that is being read holds no more batches than are to be prefetched.
  pub queue_bounded :
      (s : PrefetchLoader) (got : List (List ℤ))
      → Reachable (make_loader tokens b p) s got
      → length s.queue + length (flight s.tokens s.batch_size s.worker) ≤ p
  queue_bounded s got r = (Reachable-IsOrdered tokens b p r).room

  -- In every state that an interleaving of the worker, the consumer and the destructor's stop
  -- request reaches from a new loader, if `next` returns no batch, then the batches that it
  -- returned before are, one after the other, all the tokens of the data set.
  pub all_delivered :
      (s s' : PrefetchLoader) (got : List (List ℤ))
      → Reachable (make_loader tokens b p) s got
      → next s ≡ some ([], s')
      → concat got ≡ tokens
  unfolding pending
  all_delivered s s' got r e =
      let i = Reachable-IsOrdered tokens b p r in
      next_elim (λ xs x. xs ≡ [] → concat got ≡ tokens) s s' [] e
        (λ sync at_end q.
          ended i (omega (arith, i.room, i.fixed)) (omega (arith, i.room, i.fixed))
            (omega (arith, at_end, ap length i.fixed.0)))
        (λ sync left q. absurd cc)
        (λ drained done q. ended i (ap length drained) (i.over done).1 (i.over done).0)
        (λ front rest threaded q none_in.
          absurd (omega (arith, (subst (All (λ bs. 0 < length bs)) q i.full).0, ap length none_in)))
        refl
    where
      ended :
          IsOrdered tokens b p s got
          → length s.queue ≡ 0
          → length (flight s.tokens s.batch_size s.worker) ≡ 0
          → length tokens ≤ s.cursor
          → concat got ≡ tokens
      ended i no_queue no_flight h =
          ap concat (sym (append-nil got))
          ∙ ap₂ (λ qs fs. concat (got ++ (concat qs ++ fs))) (sym (empty s.queue no_queue))
              (sym (empty _ no_flight))
          ∙ i.all
          ∙ take_all tokens s.cursor h

  -- The worker's next step or the next call of `next` does not wait.
  pub either_runs :
      (s : PrefetchLoader) (got : List (List ℤ))
      → Reachable (make_loader tokens b p) s got
      → s.stop ≡ false
      → ((s' : PrefetchLoader) × (worker_step s ≡ some s'))
        ⊎ ((r : List (List ℤ) × PrefetchLoader) × (next s ≡ some r))
  either_runs s got r runs = go s.worker refl
    where
      i : IsOrdered tokens b p s got
      i = Reachable-IsOrdered tokens b p r

      Goal : Type 0
      Goal =
          ((s' : PrefetchLoader) × (worker_step s ≡ some s'))
          ⊎ ((r : List (List ℤ) × PrefetchLoader) × (next s ≡ some r))

      -- The worker waits for room: then the consumer has something to take.
      room :
          s.worker ≡ Worker.waiting
          → (ltb (length s.queue) s.prefetch ≡ true) ⊎ (ltb (length s.queue) s.prefetch ≡ false)
          → Goal
      room w (inl h) =
          let (s', e) = reserve_runs s (rw h (ground arith)) in
          inl (s', worker_step-waiting s w ∙ e)
      room w (inr h) = elim (Bool-cases (s.prefetch == 0)) [
        | inl sync ↦ inr (next_returns s (inl (ground arith)))
        | inr threaded ↦ inr (next_returns s (inr (inl (ground arith))))
      ]

      go : (w : Worker) → s.worker ≡ w → Goal
      go (Worker.loading cur) w = inl (deliver s cur, worker_step-loading s cur w)
      go Worker.waiting w = room w (Bool-cases _)
      go Worker.finished w = elim (i.gone w) [
        | inl sync ↦ inr (next_returns s (inl (omega (arith, i.fixed))))
        | inr (inl stopped) ↦ absurd cc
        | inr (inr done) ↦ inr (next_returns s (inr (inr done)))
      ]

  -- `has_next` does not see the batch that the worker is reading: from a data set of one batch,
  -- with prefetching, a state is reachable in which nothing was returned yet and `has_next` is
  -- false, while all the tokens are still to come.
  pub has_next-misses :
      0 < p
      → 0 < length tokens
      → length tokens ≤ b
      → (s : PrefetchLoader) × Reachable (make_loader tokens b p) s []
        × (has_next s ≡ false)
        × (concat (pending s) ≡ tokens)
  unfolding make_loader has_next pending flight reserve
  has_next-misses hp ht hb =
      let s = make_loader tokens b p in
      let threaded : ltb 0 p ≡ true = ground arith in
      let first : worker_step s ≡ reserve s = worker_step-waiting s (rw threaded refl) in
      let left : leb (length tokens) 0 ≡ false = ground arith in
      let room : leb p 0 ≡ false = ground arith in
      let reserved : reserve s ≡ some (record s { cursor = 0 + b; worker = Worker.loading 0 }) =
        rw (threaded, left, room) refl in
      (
        record s { cursor = 0 + b; worker = Worker.loading 0 },
        Reachable.works s _ [] Reachable.begin (first ∙ reserved),
        ground arith,
        append-nil (get_batch tokens 0 b) ∙ get_batch-take tokens 0 b ∙ take_all tokens b hb,
      )
