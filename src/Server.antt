-- ===== src/Server.antt =====
-- src/server.cpp: Server::try_enter and Server::leave, the gate of the connection threads, step by
-- step: the load of the counter and each compare-and-exchange are atomic, and other threads run
-- between them.
pub mod Json
pub mod Strings
pub mod Controls
pub mod Http
pub mod Requests
pub mod Chat
pub mod Loop
pub mod Connection
pub mod Gate
mod Tests
use llm_cpp.Prelude.{
  ℕ, ◌+◌, ◌-◌, Bool, not, ◌&&◌, List, [], ◌∷◌, ltb, ◌==◌, if◌then◌else◌, tests, set, get_or,
  replicate, nat_eq, list_eq, int_eq,
}

-- A connection thread: before try_enter, in its loop with the value last seen, in dispatch, or
-- answered with 429.
pub data Phase : Type 0 where
  outside : Phase
  trying : ℕ → Phase
  inside : Phase
  refused : Phase

pub record Server : Type 0 where
  pub max_concurrency : ℕ
  pub in_flight : ℕ
  pub threads : List Phase

-- What one thread does in one step, with the counter after it. A weak exchange may fail although
-- the counter is what the thread saw last.
unfoldable pub thread_step : ℕ → ℕ → Bool → Phase → ℕ × Phase
thread_step max_concurrency in_flight spurious Phase.outside = (in_flight, Phase.trying in_flight)
thread_step max_concurrency in_flight spurious (Phase.trying cur) =
    if ltb cur max_concurrency
    then if in_flight == cur && not spurious
      then (cur + 1, Phase.inside)
      else (in_flight, Phase.trying in_flight)
    else (in_flight, Phase.refused)
thread_step max_concurrency in_flight spurious Phase.inside = (in_flight - 1, Phase.outside)
thread_step max_concurrency in_flight spurious Phase.refused = (in_flight, Phase.refused)

-- The step of thread i
unfoldable pub step : ℕ → Bool → Server → Server
step i spurious s =
    let r = thread_step s.max_concurrency s.in_flight spurious (get_or s.threads i Phase.refused) in
    record s { in_flight = r.0; threads = set s.threads i r.1 }

-- A schedule: which thread runs, and whether its exchange fails without cause
unfoldable pub run : List (ℕ × Bool) → Server → Server
run [] s = s
run (c ∷ cs) s = run cs (step c.0 c.1 s)

unfoldable pub make_server : ℕ → ℕ → Server
make_server max_concurrency n = record {
  max_concurrency = max_concurrency;
  in_flight = 0;
  threads = replicate n Phase.outside;
}

-- The threads that are in dispatch
unfoldable pub count_inside : List Phase → ℕ
count_inside [] = 0
count_inside (Phase.inside ∷ ts) = count_inside ts + 1
count_inside (Phase.outside ∷ ts) = count_inside ts
count_inside (Phase.trying cur ∷ ts) = count_inside ts
count_inside (Phase.refused ∷ ts) = count_inside ts
