-- ===== src/Server/Gate.antt =====
-- src/server.cpp, the invariant of the gate.
use llm_cpp.Prelude.{
  ℕ, zero, suc, ◌+◌, ◌≤◌, ◌<◌, ◌≡◌, refl, sym, ap, ◌∙◌, inl, inr, Bool, false, not, ◌&&◌, List, [],
  ◌∷◌, arith, ltb, ◌==◌, if◌then◌else◌, ltb→lt, Bool-cases, length, set, length-set, get_or,
  replicate, nat_eq, list_eq, int_eq,
}
use llm_cpp.Server.{Phase, Server, thread_step, step, run, make_server, count_inside}

weight : Phase → ℕ
weight Phase.inside = 1
weight Phase.outside = 0
weight (Phase.trying cur) = 0
weight Phase.refused = 0

count_inside-cons :
    (t : Phase) (ts : List Phase) → count_inside (t ∷ ts) ≡ weight t + count_inside ts
unfolding count_inside weight
count_inside-cons Phase.inside ts = omega arith
count_inside-cons Phase.outside ts = omega arith
count_inside-cons (Phase.trying cur) ts = omega arith
count_inside-cons Phase.refused ts = omega arith

-- A thread that changes its phase; a thread that does not exist counts as refused.
count_inside-set :
    (ts : List Phase) (i : ℕ) (t : Phase)
    → (i < length ts
        → count_inside (set ts i t) + weight (get_or ts i Phase.refused)
          ≡ count_inside ts + weight t)
      × (length ts ≤ i → count_inside (set ts i t) ≡ count_inside ts)
count_inside-set [] i t = (λ h. absurd (omega arith), λ h. refl)
count_inside-set (u ∷ ts) zero t =
    (λ h. omega (arith, count_inside-cons u ts, count_inside-cons t ts), λ h. absurd (omega arith))
count_inside-set (u ∷ ts) (suc i) t = (
  λ h. omega (
    arith,
    count_inside-cons u ts,
    count_inside-cons u (set ts i t),
    (count_inside-set ts i t).0 (omega arith),
  ),
  λ h. omega (
    arith,
    count_inside-cons u ts,
    count_inside-cons u (set ts i t),
    (count_inside-set ts i t).1 (omega arith),
  ),
)

weight-inside : (ts : List Phase) (i : ℕ) → weight (get_or ts i Phase.refused) ≤ count_inside ts
weight-inside [] i = unfold weight in omega arith
weight-inside (u ∷ ts) zero = omega (arith, count_inside-cons u ts)
weight-inside (u ∷ ts) (suc i) = omega (arith, count_inside-cons u ts, weight-inside ts i)

thread_step-weight :
    (limit n : ℕ) (spurious : Bool) (t : Phase)
    → weight t ≤ n
    → n ≤ limit
    → ((thread_step limit n spurious t).0 + weight t
        ≡ n + weight (thread_step limit n spurious t).1)
      × ((thread_step limit n spurious t).0 ≤ limit)
unfolding thread_step weight
thread_step-weight limit n spurious Phase.outside h k = (refl, k)
thread_step-weight limit n spurious Phase.inside h k = (omega arith, omega arith)
thread_step-weight limit n spurious Phase.refused h k = (refl, k)
thread_step-weight limit n spurious (Phase.trying cur) h k = elim (Bool-cases (ltb cur limit)) [
  | inr full ↦ rw full (refl, k)
  | inl room ↦ elim (Bool-cases (n == cur && not spurious)) [
    | inl entered ↦ rw (room, entered) (ground arith, ground arith)
    | inr failed ↦ rw (room, failed) (refl, k)
  ]
]

get_or_out {ℓ} : {A : Type ℓ} (xs : List A) (i : ℕ) (d : A) → length xs ≤ i → get_or xs i d ≡ d
get_or_out [] i d h = refl
get_or_out (x ∷ xs) zero d h = absurd (omega arith)
get_or_out (x ∷ xs) (suc i) d h = get_or_out xs i d (omega arith)

record IsGated (s : Server) : Type 0 where
  pub counted : s.in_flight ≡ count_inside s.threads
  limited : s.in_flight ≤ s.max_concurrency

step-IsGated : (i : ℕ) (spurious : Bool) (s : Server) → IsGated s → IsGated (step i spurious s)
unfolding step
step-IsGated i spurious s h =
    let t = get_or s.threads i Phase.refused in
    let (w, l) =
      thread_step-weight s.max_concurrency s.in_flight spurious t
        (omega (arith, h.counted, weight-inside s.threads i)) h.limited in
    let t' = (thread_step s.max_concurrency s.in_flight spurious t).1 in
    elim (Bool-cases (ltb i (length s.threads))) [
      | inl there ↦ record {
        counted =
            omega (arith, h.counted, w, (count_inside-set s.threads i t').0 (ltb→lt _ _ there));
        limited = l;
      }
      | inr gone ↦
          let out : length s.threads ≤ i = ground arith in
          let same : (thread_step s.max_concurrency s.in_flight spurious t).0 ≡ s.in_flight =
            ap (λ u. (thread_step s.max_concurrency s.in_flight spurious u).0)
              (get_or_out s.threads i Phase.refused out)
            ∙ unfold thread_step in refl in
          record {
            counted = omega (arith, h.counted, same, (count_inside-set s.threads i t').1 out);
            limited = l;
          }
    ]

count_inside-outside : (n : ℕ) → count_inside (replicate n Phase.outside) ≡ 0
unfolding count_inside
count_inside-outside zero = refl
count_inside-outside (suc n) = count_inside-outside n

run-IsGated : (cs : List (ℕ × Bool)) (s : Server) → IsGated s → IsGated (run cs s)
unfolding run
run-IsGated [] s h = h
run-IsGated (c ∷ cs) s h = run-IsGated cs (step c.0 c.1 s) (step-IsGated c.0 c.1 s h)

max_concurrency-run :
    (cs : List (ℕ × Bool)) (s : Server) → (run cs s).max_concurrency ≡ s.max_concurrency
unfolding run step
max_concurrency-run [] s = refl
max_concurrency-run (c ∷ cs) s = max_concurrency-run cs (step c.0 c.1 s)

-- After any interleaving of any number of connection threads at the gate, with exchanges that may
-- fail without cause, the counter is the number of threads in dispatch, and that number is at most
-- the limit.
pub gate-bounded :
    (limit n : ℕ) (cs : List (ℕ × Bool))
    → let s = run cs (make_server limit n) in
      (s.in_flight ≡ count_inside s.threads) × (count_inside s.threads ≤ limit)
unfolding make_server
gate-bounded limit n cs =
    let h =
      run-IsGated cs (make_server limit n)
        (record { counted = sym (count_inside-outside n); limited = omega arith }) in
    (h.counted, omega (arith, h.counted, h.limited, max_concurrency-run cs (make_server limit n)))

get_or-set_self {ℓ} :
    {A : Type ℓ} (xs : List A) (i : ℕ) (v d : A) → i < length xs → get_or (set xs i v) i d ≡ v
get_or-set_self [] i v d h = absurd (omega arith)
get_or-set_self (x ∷ xs) zero v d h = refl
get_or-set_self (x ∷ xs) (suc i) v d h = get_or-set_self xs i v d (omega arith)

-- A connection thread before the gate that runs undisturbed, and whose exchange does not fail
-- without cause, is in dispatch after two steps if the counter was below the limit, and refused
-- otherwise.
pub try_enter-alone :
    (s : Server) (i : ℕ)
    → i < length s.threads
    → get_or s.threads i Phase.refused ≡ Phase.outside
    → get_or (run ((i, false) ∷ (i, false) ∷ []) s).threads i Phase.refused
      ≡ (if ltb s.in_flight s.max_concurrency then Phase.inside else Phase.refused)
unfolding run step thread_step
try_enter-alone s i h e =
    let seen = set s.threads i (Phase.trying s.in_flight) in
    rw (e, get_or-set_self s.threads i (Phase.trying s.in_flight) Phase.refused h)
      (get_or-set_self seen i _ Phase.refused
          (omega (arith, length-set s.threads i (Phase.trying s.in_flight)))
        ∙ ground arith)
