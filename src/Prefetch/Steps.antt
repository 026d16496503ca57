-- ===== src/Prefetch/Steps.antt =====
-- src/prefetch.cpp, the outcomes of one step of the worker and of one call of `next`.
use llm_cpp.Prelude.{
  ℕ_discrete, ℕ, ◌+◌, ◌≤◌, ◌<◌, ◌≡◌, refl, sym, ap, ◌∙◌, subst, ◌⊎◌, inl, inr, Bool, true, false,
  not, ◌||◌, Option, none, some, List, [], ◌∷◌, arith, ltb, leb, ◌==◌, if◌then◌else◌, leb→le,
  Bool-cases, length, nat_eq, list_eq, ℤ, int_eq, some-injective, none-ne-some,
}
use llm_cpp.Dataset.{get_batch}
use llm_cpp.Prefetch.Taking.{empty}
use llm_cpp.Prefetch.{Worker, PrefetchLoader, reserve, deliver, run_worker, worker_step, next}

-- The outcomes of the locked part of a round.
pub reserve_elim {ℓ} :
    (P : PrefetchLoader → Type ℓ) (s s' : PrefetchLoader)
    → reserve s ≡ some s'
    → ((s.stop ≡ true) ⊎ (s.done ≡ true) → P (record s { worker = Worker.finished }))
    → (s.stop ≡ false
        → s.done ≡ false
        → length s.tokens ≤ s.cursor
        → P (record s { done = true; worker = Worker.finished }))
    → P s
    → (s.done ≡ false
        → s.cursor < length s.tokens
        → length s.queue < s.prefetch
        → P (record s { cursor = s.cursor + s.batch_size; worker = Worker.loading s.cursor }))
    → P s'
unfolding reserve
reserve_elim P s s' e leaves ends stays starts =
    elim (Bool-cases (not (s.stop || ltb (length s.queue) s.prefetch || s.done))) [
      | inl waits ↦
          (let stuck : reserve s ≡ none = rw waits refl in absurd (none-ne-some _ (sym stuck ∙ e)))
      | inr ready ↦ elim (Bool-cases s.stop) [
        | inl stops ↦
            subst P (some-injective _ _ (sym (rw (ready, stops) refl) ∙ e)) (leaves (inl stops))
        | inr runs ↦ elim (Bool-cases s.done) [
          | inl done ↦
              subst P (some-injective _ _ (sym (rw (ready, runs, done) refl) ∙ e))
                (leaves (inr done))
          | inr more ↦ elim (Bool-cases (leb (length s.tokens) s.cursor)) [
            | inl at_end ↦
                subst P (some-injective _ _ (sym (rw (ready, runs, more, at_end) refl) ∙ e))
                  (ends runs more (leb→le _ _ at_end))
            | inr left ↦ elim (Bool-cases (leb s.prefetch (length s.queue))) [
              | inl full ↦
                  subst P (some-injective _ _ (sym (rw (ready, runs, more, left, full) refl) ∙ e))
                    stays
              | inr room ↦
                  subst P (some-injective _ _ (sym (rw (ready, runs, more, left, room) refl) ∙ e))
                    (starts more (ground arith) (ground arith))
            ]
          ]
        ]
      ]
    ]

pub next_elim {ℓ} :
    (P : List (List ℤ) → PrefetchLoader → Type ℓ) (s s' : PrefetchLoader) (batches : List (List ℤ))
    → next s ≡ some (batches, s')
    → (s.prefetch ≡ 0 → length s.tokens ≤ s.cursor → P [] s)
    → (s.prefetch ≡ 0
        → s.cursor < length s.tokens
        → P
            (get_batch s.tokens s.cursor s.batch_size ∷ [])
            (record s { cursor = s.cursor + s.batch_size }))
    → (s.queue ≡ [] → s.done ≡ true → P [] s)
    → ((front : List (List ℤ)) (rest : List (List (List ℤ)))
        → (s.prefetch == 0) ≡ false
        → s.queue ≡ front ∷ rest
        → P front (record s { queue = rest }))
    → P batches s'
unfolding next
next_elim P s s' batches e ended direct drained popped = elim (Bool-cases (s.prefetch == 0)) [
  | inl sync ↦ elim (Bool-cases (leb (length s.tokens) s.cursor)) [
    | inl at_end ↦ became [] s (rw (sync, at_end) refl) (ended (ground arith) (leb→le _ _ at_end))
    | inr left ↦ became _ _ (rw (sync, left) refl) (direct (ground arith) (ground arith))
  ]
  | inr threaded ↦ from_queue threaded s.queue refl
]
  where
    became :
        (xs : List (List ℤ)) (t : PrefetchLoader) → next s ≡ some (xs, t) → P xs t → P batches s'
    became xs t q h =
        let same : (xs, t) ≡ (batches, s') = some-injective _ _ (sym q ∙ e) in
        subst (λ r. P r.0 r.1) same h

    from_queue :
        (s.prefetch == 0) ≡ false → (qs : List (List (List ℤ))) → s.queue ≡ qs → P batches s'
    from_queue threaded (front ∷ rest) q =
        became front (record s { queue = rest }) (simp (threaded, q)) (popped front rest threaded q)
    from_queue threaded [] q = elim (Bool-cases s.done) [
      | inl done ↦ became [] s (simp (threaded, q, done)) (drained q done)
      | inr waits ↦
          let stuck : next s ≡ none = simp (threaded, q, waits) in
          absurd (none-ne-some _ (sym stuck ∙ e))
    ]

any_branch {ℓ} :
    {A : Type ℓ} (b : Bool) (x : A) (o : Option A)
    → (a : A) × (o ≡ some a)
    → (a : A) × ((if b then some x else o) ≡ some a)
any_branch true x o h = (x, refl)
any_branch false x o h = h

module _ (s : PrefetchLoader) where
  pub worker_step-waiting : s.worker ≡ Worker.waiting → worker_step s ≡ reserve s
  unfolding worker_step run_worker
  worker_step-waiting e = ap (λ w. run_worker w s) e

  pub worker_step-loading :
      (cur : ℕ) → s.worker ≡ Worker.loading cur → worker_step s ≡ some (deliver s cur)
  unfolding worker_step run_worker
  worker_step-loading cur e = ap (λ w. run_worker w s) e

  pub worker_step-finished : s.worker ≡ Worker.finished → worker_step s ≡ none
  unfolding worker_step run_worker
  worker_step-finished e = ap (λ w. run_worker w s) e

  pub reserve_runs :
      (s.stop || ltb (length s.queue) s.prefetch || s.done) ≡ true
      → (s' : PrefetchLoader) × (reserve s ≡ some s')
  unfolding reserve
  reserve_runs e = rw e (
      any_branch s.stop _ _ (
        any_branch s.done _ _ (
          any_branch (leb (length s.tokens) s.cursor) _ _
            (any_branch (leb s.prefetch (length s.queue)) s _ (_, refl)))))

  pub reserve_waits :
      reserve s ≡ none → (s.stop || ltb (length s.queue) s.prefetch || s.done) ≡ false
  reserve_waits e = elim (Bool-cases (s.stop || ltb (length s.queue) s.prefetch || s.done)) [
    | inl ready ↦ (let (s', e') = reserve_runs ready in absurd (none-ne-some _ (sym e ∙ e')))
    | inr waits ↦ waits
  ]

  pub reserve_stays :
      (s.stop || ltb (length s.queue) s.prefetch || s.done) ≡ false → reserve s ≡ none
  unfolding reserve
  reserve_stays e = rw e refl

  next_taken :
      (qs : List (List (List ℤ)))
      → (0 < length qs) ⊎ (s.done ≡ true)
      → (r : List (List ℤ) × PrefetchLoader) × ((elim qs [
        | [] ↦ if s.done then some ([], s) else none
        | front ∷ rest ↦ some (front, record s { queue = rest })
      ])
          ≡ some r)
  next_taken (front ∷ rest) why = ((front, record s { queue = rest }), refl)
  next_taken [] (inl h) = absurd (omega arith)
  next_taken [] (inr done) = (([], s), simp done)

  -- `next` returns without a worker, from a queue that is not empty, and when all is done.
  pub next_returns :
      (s.prefetch ≡ 0) ⊎ (0 < length s.queue) ⊎ (s.done ≡ true)
      → (r : List (List ℤ) × PrefetchLoader) × (next s ≡ some r)
  unfolding next
  next_returns (inl sync) =
      let yes_sync : (s.prefetch == 0) ≡ true = ground arith in
      rw yes_sync (any_branch (leb (length s.tokens) s.cursor) _ _ (_, refl))
  next_returns (inr why) = elim (Bool-cases (s.prefetch == 0)) [
    | inl sync ↦ rw sync (any_branch (leb (length s.tokens) s.cursor) _ _ (_, refl))
    | inr threaded ↦ rw threaded (next_taken s.queue why)
  ]

  pub next_waits : next s ≡ none → (0 < s.prefetch) × (length s.queue ≡ 0) × (s.done ≡ false)
  next_waits e =
      let not_returned = λ (why : (s.prefetch ≡ 0) ⊎ (0 < length s.queue) ⊎ (s.done ≡ true)).
        let (r, e') = next_returns why in none-ne-some _ (sym e ∙ e') in
      (
        elim (ℕ_discrete s.prefetch 0) [
          | yes sync ↦ absurd (not_returned (inl sync))
          | no threaded ↦ omega arith
        ],
        elim (ℕ_discrete (length s.queue) 0) [
          | yes none_left ↦ none_left
          | no left ↦ absurd (not_returned (inr (inl (omega arith))))
        ],
        elim (Bool-cases s.done) [
          | inl done ↦ absurd (not_returned (inr (inr done)))
          | inr more ↦ more
        ],
      )

  pub next_stays : (0 < s.prefetch) × (length s.queue ≡ 0) × (s.done ≡ false) → next s ≡ none
  unfolding next
  next_stays (h, e, more) =
      let threaded : (s.prefetch == 0) ≡ false = ground arith in
      let q : s.queue ≡ [] = empty s.queue e in simp (threaded, q, more)
