-- ===== src/Scan.antt =====
-- src/mamba_scan.cpp: selective_scan_sequential and selective_scan_parallel on the CPU. The numbers
-- are an abstract type with the operations that the code uses; a vector is a function of the index,
-- with the sizes that the callers give it (`y` has T * D cells).
pub mod Index
pub mod Reference
pub mod Sequential
pub mod Chunks
pub mod Passes
pub mod Parallel
mod Tests
use llm_cpp.Prelude.{
  ℕ, zero, suc, ◌+◌, ◌-◌, ◌*◌, ◌/◌, min, ◌||◌, List, [], ◌∷◌, leb, ◌==◌, if◌then◌else◌, tests,
  nat_eq, list_eq, int_eq,
}

pub record Scalars (F : Type 0) : Type 0 where
  pub zero : F
  pub one : F
  pub add : F → F → F
  pub mul : F → F → F
  pub exp : F → F

abbrev pub Cells : Type 0 → Type 0
Cells F = ℕ → F

abbrev pub update : {F : Type 0} → Cells F → ℕ → F → Cells F
update f i v k = if k == i then v else f k

-- The vectors and the sizes that a scan reads
pub record ScanInput (F : Type 0) : Type 0 where
  pub x : Cells F
  pub A : Cells F
  pub B : Cells F
  pub C : Cells F
  pub dt : Cells F
  pub D_skip : Cells F
  pub h0 : Cells F
  pub T : ℕ
  pub D : ℕ
  pub N : ℕ

module _ {F : Type 0} (s : Scalars F) (v : ScanInput F) where
  -- a_eff, and what a step adds to the state
  abbrev pub decay : ℕ → ℕ → ℕ → F
  decay t d n = s.exp (s.mul (v.A (d * v.N + n)) (v.dt (t * v.D + d)))

  abbrev pub input : ℕ → ℕ → ℕ → F
  input t d n = s.mul (s.mul (v.B (t * v.N + n)) (v.x (t * v.D + d))) (v.dt (t * v.D + d))

  -- The loop over n: the state's row, which begins at `base`, and the sum for `y`
  pub scan_row : (t d base r n : ℕ) → Cells F → F → Cells F × F
  scan_row t d base zero n h acc = (h, acc)
  scan_row t d base (suc r) n h acc =
      let h' = update h (base + n) (s.add (s.mul (decay t d n) (h (base + n))) (input t d n)) in
      scan_row t d base r (n + 1) h' (s.add acc (s.mul (v.C (t * v.N + n)) (h' (base + n))))

  abbrev pub emit : ℕ → ℕ → F → F
  emit t d acc = s.add acc (s.mul (v.D_skip d) (v.x (t * v.D + d)))

  -- The loops over d and t of selective_scan_sequential: the state and `y`
  pub scan_channels : (t r d : ℕ) → Cells F → Cells F → Cells F × Cells F
  scan_channels t zero d h y = (h, y)
  scan_channels t (suc r) d h y =
      let row = scan_row t d (d * v.N) v.N 0 h s.zero in
      scan_channels t r (d + 1) row.0 (update y (t * v.D + d) (emit t d row.1))

  pub scan_steps : (r t : ℕ) → Cells F → Cells F → Cells F × Cells F
  scan_steps zero t h y = (h, y)
  scan_steps (suc r) t h y =
      let next = scan_channels t v.D 0 h y in scan_steps r (t + 1) next.0 next.1

  -- The final state and `y`
  pub selective_scan_sequential : Cells F → Cells F × Cells F
  selective_scan_sequential y = scan_steps v.T 0 v.h0 y

  pub num_chunks : ℕ
  num_chunks = if leb 256 v.T then min v.T 8 else min v.T 4

  pub chunk_size : ℕ
  chunk_size = (v.T + num_chunks - 1) / num_chunks

  pub chunk_start : ℕ → ℕ
  chunk_start c = c * chunk_size

  pub chunk_end : ℕ → ℕ
  chunk_end c = min v.T (c * chunk_size + chunk_size)

  -- The product of the decays of a chunk, and its end from a zero state
  pub reduce : (d n r t : ℕ) → F → F → F × F
  reduce d n zero t p z = (p, z)
  reduce d n (suc r) t p z =
      reduce d n r (t + 1) (s.mul (decay t d n) p) (s.add (s.mul (decay t d n) z) (input t d n))

  -- The first pass over the chunks: Aprod and Bend
  pub reduce_row : (d c r n : ℕ) → Cells F → Cells F → Cells F × Cells F
  reduce_row d c zero n aprod bend = (aprod, bend)
  reduce_row d c (suc r) n aprod bend =
      let (p, z) = reduce d n (chunk_end c - chunk_start c) (chunk_start c) s.one s.zero in
      reduce_row d c r (n + 1) (update aprod (c * v.N + n) p) (update bend (c * v.N + n) z)

  pub reduce_chunks : (d r c : ℕ) → Cells F → Cells F → Cells F × Cells F
  reduce_chunks d zero c aprod bend = (aprod, bend)
  reduce_chunks d (suc r) c aprod bend =
      let row = reduce_row d c v.N 0 aprod bend in
      let next = if leb (chunk_end c) (chunk_start c) then (aprod, bend) else row in
      reduce_chunks d r (c + 1) next.0 next.1

  -- The states at the start of the chunks: the first row, and the rows after it
  pub first_row : (d r n : ℕ) → Cells F → Cells F
  first_row d zero n init = init
  first_row d (suc r) n init = first_row d r (n + 1) (update init n (v.h0 (d * v.N + n)))

  pub prefix_row : Cells F → Cells F → (c r n : ℕ) → Cells F → Cells F
  prefix_row aprod bend c zero n init = init
  prefix_row aprod bend c (suc r) n init =
      let before = (c - 1) * v.N + n in
      prefix_row aprod bend c r (n + 1)
        (update init (c * v.N + n) (s.add (s.mul (aprod before) (init before)) (bend before)))

  pub prefix_rows : Cells F → Cells F → (r c : ℕ) → Cells F → Cells F
  prefix_rows aprod bend zero c init = init
  prefix_rows aprod bend (suc r) c init =
      prefix_rows aprod bend r (c + 1) (prefix_row aprod bend c v.N 0 init)

  -- The second pass: the loop over t in a chunk, and over the chunks
  pub rescan : (d r t : ℕ) → Cells F → Cells F → Cells F
  rescan d zero t h y = y
  rescan d (suc r) t h y =
      let row = scan_row t d 0 v.N 0 h s.zero in
      rescan d r (t + 1) row.0 (update y (t * v.D + d) (emit t d row.1))

  pub rescan_chunks : Cells F → (d r c : ℕ) → Cells F → Cells F
  rescan_chunks init d zero c y = y
  rescan_chunks init d (suc r) c y =
      let h = λ (n : ℕ). init (c * v.N + n) in
      let next = rescan d (chunk_end c - chunk_start c) (chunk_start c) h y in
      rescan_chunks init d r (c + 1) (if leb (chunk_end c) (chunk_start c) then y else next)

  -- One iteration of the parallel loop
  pub scan_channel : ℕ → Cells F → Cells F
  scan_channel d y =
      let (aprod, bend) = reduce_chunks d num_chunks 0 (λ k. s.one) (λ k. s.zero) in
      let init = first_row d v.N 0 (λ k. s.zero) in
      rescan_chunks (prefix_rows aprod bend (num_chunks - 1) 1 init) d num_chunks 0 y

  -- The loop over the channels in the order in which the threads happen to run them: each writes
  -- cells of its own, and reads none that another writes.
  pub scan_order : List ℕ → Cells F → Cells F
  scan_order [] y = y
  scan_order (d ∷ ds) y = scan_order ds (scan_channel d y)

  pub selective_scan_parallel : List ℕ → Cells F → Cells F
  selective_scan_parallel order y =
      if v.T == 0 || (v.D == 0 || v.N == 0) then y else scan_order order y
