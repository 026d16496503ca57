-- ===== src/Prefetch/Signals.antt =====
-- src/prefetch.cpp, the two condition variables: a wait whose predicate is false puts its thread to
-- sleep, and it goes on only after a notification by the other thread or a spurious wakeup. One
-- thread calls `next`, so notify_one and notify_all wake the same.
use llm_cpp.Prelude.{
  ℕ, zero, suc, ◌≡◌, Bool, true, false, not, ◌&&◌, Option, none, some, List, [], ◌++◌, leb, ◌==◌,
  if◌then◌else◌, length, nat_eq, list_eq, ℤ, int_eq,
}
use llm_cpp.Prefetch.{Worker, PrefetchLoader, reserve, deliver, next, request_stop}

-- The loader, and whether its threads sleep, the worker on cv_producer_ and the consumer on
-- cv_consumer_
pub record Threads : Type 0 where
  pub loader : PrefetchLoader
  pub worker_asleep : Bool
  pub consumer_asleep : Bool

-- The branch of worker_loop that calls cv_consumer_.notify_all() before it leaves
unfoldable pub notifies_end : PrefetchLoader → Bool
notifies_end s = not s.stop && not s.done && leb (length s.tokens) s.cursor

-- What worker_loop does at a program point; after the push it calls cv_consumer_.notify_one().
unfoldable pub run_turn : Worker → Threads → Option Threads
run_turn Worker.waiting t = elim (reserve t.loader) [
  | none ↦ some (record t { worker_asleep = true })
  | some s ↦
      some (record t {
        loader = s;
        consumer_asleep = t.consumer_asleep && not (notifies_end t.loader);
      })
]
run_turn (Worker.loading cur) t =
    some (record t { loader = deliver t.loader cur; consumer_asleep = false })
run_turn Worker.finished t = none

-- A step of the worker, `none` while it sleeps and when it has left
unfoldable pub worker_turn : Threads → Option Threads
worker_turn t = if t.worker_asleep then none else run_turn t.loader.worker t

-- The branch of `next` that calls cv_producer_.notify_one()
unfoldable pub notifies_room : PrefetchLoader → Bool
notifies_room s = not (s.prefetch == 0) && not (length s.queue == 0)

-- A step of the consumer in `next`: what it returned, if it did, and the threads after it
unfoldable pub consumer_turn : Threads → Option (List (List ℤ) × Threads)
consumer_turn t = if t.consumer_asleep then none else elim (next t.loader) [
  | none ↦ some ([], record t { consumer_asleep = true })
  | some (batches, s) ↦ some (
    batches,
    record t { loader = s; worker_asleep = t.worker_asleep && not (notifies_room t.loader) },
  )
]

-- The destructor up to its join: stop_, and then notify_all on both
unfoldable pub stop_all : Threads → Threads
stop_all t = record {
  loader = request_stop t.loader;
  worker_asleep = false;
  consumer_asleep = false;
}

abbrev pub awake : PrefetchLoader → Threads
awake s = record { loader = s; worker_asleep = false; consumer_asleep = false }

-- The batches that `next` returned so far, after any interleaving of the threads and any spurious
-- wakeups
pub data Interleaving (start : PrefetchLoader) : Threads → List (List ℤ) → Type 0 where
  begin : Interleaving start (awake start) []
  works :
      (t t' : Threads) (got : List (List ℤ))
      → Interleaving start t got
      → worker_turn t ≡ some t'
      → Interleaving start t' got
  takes :
      (t t' : Threads) (got batches : List (List ℤ))
      → Interleaving start t got
      → consumer_turn t ≡ some (batches, t')
      → Interleaving start t' (got ++ batches)
  wakes :
      (t : Threads) (got : List (List ℤ))
      → Interleaving start t got
      → Interleaving start (awake t.loader) got
  stops :
      (t : Threads) (got : List (List ℤ))
      → Interleaving start t got
      → Interleaving start (stop_all t) got

-- The worker alone, for a number of steps
unfoldable pub worker_turns : ℕ → Threads → Threads
worker_turns zero t = t
worker_turns (suc n) t = elim (worker_turn t) [ none ↦ t | some t' ↦ worker_turns n t' ]
