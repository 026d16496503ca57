-- ===== src/Prefetch/Tests.antt =====
-- A loader of three tokens, run to its end.
use llm_cpp.Prelude.{
  pos, ◌≡◌, refl, ◌⊎◌, true, false, some, List, [], ◌∷◌, ◌++◌, take, concat, nat_eq, list_eq, ℤ,
  int_eq,
}
use llm_cpp.Dataset.{get_batch}
use llm_cpp.Prefetch.{
  Worker, PrefetchLoader, make_loader, reserve, deliver, run_worker, worker_step, next,
  request_stop, Reachable,
}
use llm_cpp.Prefetch.Order.{pending}
use llm_cpp.Prefetch.Delivery.{delivered_in_order, all_delivered}
use llm_cpp.Prefetch.Signals.{
  Threads, notifies_end, run_turn, worker_turn, consumer_turn, stop_all, awake, Interleaving,
  worker_turns,
}
use llm_cpp.Prefetch.Wakeups.{no_deadlock, worker_leaves}

abbrev tokens : List ℤ
tokens = pos 1 ∷ pos 2 ∷ []

abbrev fresh : PrefetchLoader
fresh = make_loader tokens 2 1

-- The worker reads the only batch, then pushes it; the consumer takes it.
abbrev reading : PrefetchLoader
reading = record {
  tokens = tokens;
  batch_size = 2;
  prefetch = 1;
  cursor = 2;
  queue = [];
  stop = false;
  done = false;
  worker = Worker.loading 0;
}

abbrev queued : PrefetchLoader
queued = record {
  tokens = tokens;
  batch_size = 2;
  prefetch = 1;
  cursor = 2;
  queue = (tokens ∷ []) ∷ [];
  stop = false;
  done = true;
  worker = Worker.waiting;
}

abbrev taken : PrefetchLoader
taken = record {
  tokens = tokens;
  batch_size = 2;
  prefetch = 1;
  cursor = 2;
  queue = [];
  stop = false;
  done = true;
  worker = Worker.waiting;
}

read : worker_step fresh ≡ some reading
unfolding make_loader worker_step run_worker reserve
read = refl

push : worker_step reading ≡ some queued
unfolding worker_step run_worker deliver get_batch
push = refl

take_first : next queued ≡ some (tokens ∷ [], taken)
unfolding next
take_first = refl

reading-Reachable : Reachable fresh reading []
reading-Reachable = Reachable.works fresh reading [] Reachable.begin read

taken-Reachable : Reachable fresh taken (tokens ∷ [])
taken-Reachable =
    Reachable.takes queued taken [] (tokens ∷ [])
      (Reachable.works reading queued [] reading-Reachable push) take_first

delivered_in_order_example : concat ([] ++ pending reading) ≡ take reading.cursor tokens
delivered_in_order_example = delivered_in_order tokens 2 1 reading [] reading-Reachable

last_call : next taken ≡ some ([], taken)
unfolding next
last_call = refl

all_delivered_example : concat (tokens ∷ []) ≡ tokens
all_delivered_example = all_delivered tokens 2 1 taken taken (tokens ∷ []) taken-Reachable last_call

-- The consumer goes to sleep before the worker takes the batch to read.
abbrev sleeping : Threads
sleeping = record { loader = fresh; worker_asleep = false; consumer_asleep = true }

abbrev reading_alone : Threads
reading_alone = record { loader = reading; worker_asleep = false; consumer_asleep = true }

sleep : consumer_turn (awake fresh) ≡ some ([], sleeping)
unfolding consumer_turn make_loader next
sleep = refl

read_alone : worker_turn sleeping ≡ some reading_alone
unfolding worker_turn run_turn make_loader reserve notifies_end
read_alone = refl

reading_alone-Interleaving : Interleaving fresh reading_alone []
reading_alone-Interleaving =
    Interleaving.works sleeping reading_alone []
      (Interleaving.takes (awake fresh) sleeping [] [] Interleaving.begin sleep) read_alone

no_deadlock_example :
    ((reading_alone.worker_asleep ≡ false)
      × (s : PrefetchLoader) × (worker_step reading_alone.loader ≡ some s))
    ⊎ ((reading_alone.consumer_asleep ≡ false)
        × (n : List (List ℤ) × PrefetchLoader) × (next reading_alone.loader ≡ some n))
no_deadlock_example = no_deadlock tokens 2 1 reading_alone [] reading_alone-Interleaving refl

worker_leaves_example : (worker_turns 2 (stop_all reading_alone)).loader.worker ≡ Worker.finished
unfolding stop_all request_stop
worker_leaves_example =
    worker_leaves tokens 2 1 (stop_all reading_alone) []
      (Interleaving.stops reading_alone [] reading_alone-Interleaving) refl
