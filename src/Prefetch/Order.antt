-- ===== src/Prefetch/Order.antt =====
-- src/prefetch.cpp, the invariant of the interleavings of worker and consumer.
use llm_cpp.Prelude.{
  none-ne-some, ℕ, ◌+◌, ◌≤◌, ◌<◌, ◌≡◌, refl, sym, ap, ap₂, ◌∙◌, subst, ◌⊎◌, inl, inr, true, some,
  List, [], ◌∷◌, ◌++◌, append_assoc, append-nil, arith, ltb, leb, leb→le, Bool-cases, length,
  length-append, take, concat, concat-append, All, All-append, nat_eq, list_eq, ℤ, int_eq,
  some-injective,
}
use llm_cpp.Dataset.{get_batch}
use llm_cpp.Prefetch.Taking.{take-get_batch, empty}
use llm_cpp.Prefetch.Steps.{
  reserve_elim, next_elim, worker_step-waiting, worker_step-loading, worker_step-finished,
}
use llm_cpp.Prefetch.{
  Worker, PrefetchLoader, make_loader, reserve, deliver, worker_step, next, request_stop, Reachable,
}

-- The batch that the worker is reading
unfoldable pub flight : List ℤ → ℕ → Worker → List (List ℤ)
flight tokens b Worker.waiting = []
flight tokens b (Worker.loading cur) = get_batch tokens cur b ∷ []
flight tokens b Worker.finished = []

-- The batches that the loader still has: those in the queue, and the one that is being read.
unfoldable pub pending : PrefetchLoader → List (List ℤ)
pending s = concat s.queue ++ flight s.tokens s.batch_size s.worker

module _ (tokens : List ℤ) (b p : ℕ) where
  pub record IsOrdered (s : PrefetchLoader) (got : List (List ℤ)) : Type 0 where
    pub fixed : (s.tokens ≡ tokens) × (s.batch_size ≡ b) × (s.prefetch ≡ p)
    pub all : concat (got ++ pending s) ≡ take s.cursor tokens
    pub over :
        s.done ≡ true
        → (length tokens ≤ s.cursor) × (length (flight s.tokens s.batch_size s.worker) ≡ 0)
    pub room : length s.queue + length (flight s.tokens s.batch_size s.worker) ≤ p
    pub full : All (λ bs. 0 < length bs) s.queue
    pub gone : s.worker ≡ Worker.finished → (p ≡ 0) ⊎ (s.stop ≡ true) ⊎ (s.done ≡ true)

  make_loader-IsOrdered : IsOrdered (make_loader tokens b p) []
  unfolding make_loader pending flight
  make_loader-IsOrdered = elim (Bool-cases (ltb 0 p)) [
    | inl e ↦ rw e (record {
      fixed = (refl, refl, refl);
      all = refl;
      over = λ q. absurd (ground arith);
      room = omega arith;
      full = tt;
      gone = λ q. absurd cc;
    })
    | inr e ↦ rw e (record {
      fixed = (refl, refl, refl);
      all = refl;
      over = λ q. absurd (ground arith);
      room = omega arith;
      full = tt;
      gone = λ q. inl (ground arith);
    })
  ]

  module _ (s : PrefetchLoader) (got : List (List ℤ)) (h : IsOrdered s got) where
    -- The batches with another flight, and the cursor after it.
    with_flight :
        (fs : List (List ℤ))
        → fs ≡ flight s.tokens s.batch_size s.worker
        → concat (got ++ (concat s.queue ++ fs)) ≡ take s.cursor tokens
    with_flight fs e = ap (λ f. concat (got ++ (concat s.queue ++ f))) e ∙ unfold pending in h.all

    -- One more batch, after those that were produced.
    concat-one_more :
        (x : List ℤ)
        → flight s.tokens s.batch_size s.worker ≡ []
        → concat (got ++ (concat s.queue ++ x ∷ [])) ≡ take s.cursor tokens ++ x
    concat-one_more x e =
        ap concat (sym (append_assoc got (concat s.queue) (x ∷ [])))
        ∙ concat-append (got ++ concat s.queue) (x ∷ [])
        ∙ ap₂ (λ ys zs. ys ++ zs)
            (ap (λ qs. concat (got ++ qs)) (sym (append-nil (concat s.queue)))
              ∙ with_flight [] (sym e))
            (append-nil x)

    reserve-IsOrdered :
        (s' : PrefetchLoader) → s.worker ≡ Worker.waiting → reserve s ≡ some s' → IsOrdered s' got
    unfolding pending flight
    reserve-IsOrdered s' w e =
        let idle : flight s.tokens s.batch_size s.worker ≡ [] =
          ap (flight s.tokens s.batch_size) w in
        reserve_elim (λ x. IsOrdered x got) s s' e
          (λ why. record {
            fixed = h.fixed;
            all = with_flight [] (sym idle);
            over = λ q. ((h.over q).0, refl);
            room = omega (arith, h.room);
            full = h.full;
            gone = λ q. inr why;
          })
          (λ runs more at_end. record {
            fixed = h.fixed;
            all = with_flight [] (sym idle);
            over = λ q. (omega (arith, ap length h.fixed.0, at_end), refl);
            room = omega (arith, h.room);
            full = h.full;
            gone = λ q. inr (inr refl);
          })
          h
          (λ more left room. record {
            fixed = h.fixed;
            all =
                concat-one_more (get_batch s.tokens s.cursor s.batch_size) idle
                ∙ ap (λ ts. take s.cursor tokens ++ get_batch ts s.cursor s.batch_size) h.fixed.0
                ∙ take-get_batch tokens s.cursor s.batch_size;
            over = λ q. absurd (ground arith);
            room = omega (arith, h.fixed, room);
            full = h.full;
            gone = λ q. absurd cc;
          })

    deliver-IsOrdered : (cur : ℕ) → s.worker ≡ Worker.loading cur → IsOrdered (deliver s cur) got
    unfolding deliver pending flight
    deliver-IsOrdered cur w =
        let busy : get_batch s.tokens cur s.batch_size ∷ []
            ≡ flight s.tokens s.batch_size s.worker =
          ap (flight s.tokens s.batch_size) (sym w) in
        record {
          fixed = h.fixed;
          all =
              ap (λ qs. concat (got ++ qs))
                (append-nil (concat (s.queue ++ (get_batch s.tokens cur s.batch_size ∷ []) ∷ []))
                  ∙ concat-append s.queue ((get_batch s.tokens cur s.batch_size ∷ []) ∷ []))
              ∙ with_flight (get_batch s.tokens cur s.batch_size ∷ []) busy;
          over = λ q. (
            elim (Bool-cases (leb (length s.tokens) s.cursor)) [
              | inl e ↦ omega (arith, leb→le _ _ e, ap length h.fixed.0)
              | inr e ↦ (h.over (ground arith)).0
            ],
            refl,
          );
          room = omega (
            arith,
            h.room,
            ap length busy,
            length-append s.queue ((get_batch s.tokens cur s.batch_size ∷ []) ∷ []),
          );
          full =
              All-append (λ bs. 0 < length bs) s.queue
                ((get_batch s.tokens cur s.batch_size ∷ []) ∷ []) h.full (omega arith, tt);
          gone = λ q. absurd cc;
        }

    works-IsOrdered : (s' : PrefetchLoader) → worker_step s ≡ some s' → IsOrdered s' got
    works-IsOrdered s' e = go s.worker refl
      where
        go : (w : Worker) → s.worker ≡ w → IsOrdered s' got
        go Worker.finished w = absurd (none-ne-some _ (sym (worker_step-finished s w) ∙ e))
        go (Worker.loading cur) w =
            subst (λ x. IsOrdered x got)
              (some-injective _ _ (sym (worker_step-loading s cur w) ∙ e)) (deliver-IsOrdered cur w)
        go Worker.waiting w = reserve-IsOrdered s' w (sym (worker_step-waiting s w) ∙ e)

    -- `next` without a worker
    direct :
        p ≡ 0
        → IsOrdered
            (record s { cursor = s.cursor + s.batch_size })
            (got ++ get_batch s.tokens s.cursor s.batch_size ∷ [])
    unfolding pending
    direct sync =
        let x = get_batch s.tokens s.cursor s.batch_size in
        let no_queue : s.queue ≡ [] = empty s.queue (omega (arith, h.room)) in
        let no_flight : flight s.tokens s.batch_size s.worker ≡ [] =
          empty _ (omega (arith, h.room)) in
        let no_queued : concat s.queue ≡ [] = ap concat no_queue in
        record {
          fixed = h.fixed;
          all =
              ap₂ (λ qs fs. concat ((got ++ x ∷ []) ++ (qs ++ fs))) no_queued no_flight
              ∙ ap concat (append-nil (got ++ x ∷ []))
              ∙ ap (λ qs. concat (got ++ (qs ++ x ∷ []))) (sym no_queued)
              ∙ concat-one_more x no_flight
              ∙ ap (λ ts. take s.cursor tokens ++ get_batch ts s.cursor s.batch_size) h.fixed.0
              ∙ take-get_batch tokens s.cursor s.batch_size;
          over = λ q. (omega (arith, (h.over q).0), (h.over q).1);
          room = h.room;
          full = h.full;
          gone = h.gone;
        }

    takes-IsOrdered :
        (s' : PrefetchLoader) (batches : List (List ℤ))
        → next s ≡ some (batches, s')
        → IsOrdered s' (got ++ batches)
    unfolding pending
    takes-IsOrdered s' batches e =
        next_elim (λ xs x. IsOrdered x (got ++ xs)) s s' batches e
          (λ sync at_end. rw (append-nil got) h) (λ sync left. direct (omega (arith, h.fixed)))
          (λ drained done. rw (append-nil got) h)
          (λ front rest threaded q. record {
            fixed = h.fixed;
            all =
                ap concat (
                  append_assoc got front (concat rest ++ flight s.tokens s.batch_size s.worker)
                  ∙ ap (λ qs. got ++ qs)
                      (sym
                        (append_assoc front (concat rest) (flight s.tokens s.batch_size s.worker)))
                  ∙ ap (λ qs. got ++ (concat qs ++ flight s.tokens s.batch_size s.worker)) (sym q))
                ∙ h.all;
            over = h.over;
            room = omega (arith, h.room, ap length q);
            full = (subst (All (λ bs. 0 < length bs)) q h.full).1;
            gone = h.gone;
          })

    stops-IsOrdered : IsOrdered (request_stop s) got
    unfolding request_stop pending
    stops-IsOrdered = record {
      fixed = h.fixed;
      all = h.all;
      over = h.over;
      room = h.room;
      full = h.full;
      gone = λ q. inr (inl refl);
    }

  pub Reachable-IsOrdered :
      {s : PrefetchLoader} {got : List (List ℤ)}
      → Reachable (make_loader tokens b p) s got
      → IsOrdered s got
  Reachable-IsOrdered Reachable.begin = make_loader-IsOrdered
  Reachable-IsOrdered (Reachable.works s s' got r e) =
      works-IsOrdered s got (Reachable-IsOrdered r) s' e
  Reachable-IsOrdered (Reachable.takes s s' got batches r e) =
      takes-IsOrdered s got (Reachable-IsOrdered r) s' batches e
  Reachable-IsOrdered (Reachable.stops s got r) = stops-IsOrdered s got (Reachable-IsOrdered r)
