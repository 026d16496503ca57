-- ===== src/Prefetch.antt =====
-- src/prefetch.cpp and include/llm/prefetch.h: PrefetchLoader, a worker thread that fills a queue
-- of batches which a consumer takes. The mutex makes each section of the code that holds it one
-- step; a wait on a condition variable is a step that can be taken when its predicate holds, and
-- Signals adds the notifications.
pub mod Steps
pub mod Taking
pub mod Order
pub mod Delivery
pub mod Signals
pub mod Turns
pub mod Wakeups
mod Tests
use llm_cpp.Prelude.{
  pos, ℕ, ◌+◌, ◌≡◌, Bool, true, false, not, ◌||◌, Option, none, some, List, [], ◌∷◌, ◌++◌, ltb, leb,
  ◌==◌, if◌then◌else◌, tests, length, nat_eq, list_eq, ℤ, int_eq,
}
use llm_cpp.Dataset.{get_batch}

-- Where the worker is: about to lock and wait, reading the batch at a position without the lock,
-- or gone.
pub data Worker : Type 0 where
  waiting : Worker
  loading : ℕ → Worker
  finished : Worker

pub record PrefetchLoader : Type 0 where
  pub tokens : List ℤ
  pub batch_size : ℕ
  pub prefetch : ℕ
  pub cursor : ℕ
  pub queue : List (List (List ℤ))
  pub stop : Bool
  pub done : Bool
  pub worker : Worker

-- PrefetchLoader::PrefetchLoader; without prefetching there is no worker.
unfoldable pub make_loader : List ℤ → ℕ → ℕ → PrefetchLoader
make_loader tokens batch_size prefetch = record {
  tokens = tokens;
  batch_size = batch_size;
  prefetch = prefetch;
  cursor = 0;
  queue = [];
  stop = false;
  done = false;
  worker = if ltb 0 prefetch then Worker.waiting else Worker.finished;
}

-- The locked part of a round of worker_loop, after the wait: `none` if the wait goes on.
unfoldable pub reserve : PrefetchLoader → Option PrefetchLoader
reserve s =
    if not (s.stop || ltb (length s.queue) s.prefetch || s.done)
    then none
    else if s.stop
    then some (record s { worker = Worker.finished })
    else if s.done
    then some (record s { worker = Worker.finished })
    else if leb (length s.tokens) s.cursor
    then some (record s { done = true; worker = Worker.finished })
    else if leb s.prefetch (length s.queue)
    then some s
    else some (record s { cursor = s.cursor + s.batch_size; worker = Worker.loading s.cursor })

-- The rest of the round: the batch is read, the lock is taken again, and the batch is pushed.
unfoldable pub deliver : PrefetchLoader → ℕ → PrefetchLoader
deliver s cur = record s {
  queue = s.queue ++ (get_batch s.tokens cur s.batch_size ∷ []) ∷ [];
  done = if leb (length s.tokens) s.cursor then true else s.done;
  worker = Worker.waiting;
}

unfoldable pub run_worker : Worker → PrefetchLoader → Option PrefetchLoader
run_worker Worker.waiting s = reserve s
run_worker (Worker.loading cur) s = some (deliver s cur)
run_worker Worker.finished s = none

unfoldable pub worker_step : PrefetchLoader → Option PrefetchLoader
worker_step s = run_worker s.worker s

-- PrefetchLoader::next: what it returns and the loader after it, `none` while it waits
unfoldable pub next : PrefetchLoader → Option (List (List ℤ) × PrefetchLoader)
next s =
    if s.prefetch == 0
    then if leb (length s.tokens) s.cursor
      then some ([], s)
      else some (
        get_batch s.tokens s.cursor s.batch_size ∷ [],
        record s { cursor = s.cursor + s.batch_size },
      )
    else elim s.queue [
      | [] ↦ if s.done then some ([], s) else none
      | front ∷ rest ↦ some (front, record s { queue = rest })
    ]

-- PrefetchLoader::has_next
unfoldable pub has_next : PrefetchLoader → Bool
has_next s = not (length s.queue == 0) || ltb s.cursor (length s.tokens)

-- The first statement of the destructor.
unfoldable pub request_stop : PrefetchLoader → PrefetchLoader
request_stop s = record s { stop = true }

-- The batches that `next` returned so far, after any interleaving of the two threads.
pub data Reachable (start : PrefetchLoader) : PrefetchLoader → List (List ℤ) → Type 0 where
  begin : Reachable start start []
  works :
      (s s' : PrefetchLoader) (got : List (List ℤ))
      → Reachable start s got
      → worker_step s ≡ some s'
      → Reachable start s' got
  takes :
      (s s' : PrefetchLoader) (got batches : List (List ℤ))
      → Reachable start s got
      → next s ≡ some (batches, s')
      → Reachable start s' (got ++ batches)
  stops :
      (s : PrefetchLoader) (got : List (List ℤ))
      → Reachable start s got
      → Reachable start (request_stop s) got
