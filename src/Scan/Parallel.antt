-- ===== src/Scan/Parallel.antt =====
-- src/mamba_scan.cpp, selective_scan_parallel against the recurrence and the sequential scan.
use llm_cpp.Prelude.{
  ℕ, zero, suc, ◌+◌, ◌-◌, ◌*◌, ◌≤◌, ◌<◌, min, ◌≡◌, refl, sym, ap, ap₂, ◌∙◌, ◌⊎◌, inl, inr, Bool,
  true, false, ◌&&◌, ◌||◌, List, [], ◌∷◌, arith, ltb, leb, ◌==◌, if◌then◌else◌, Bool-cases, All,
  nat_eq, list_eq, int_eq,
}
use llm_cpp.Scan.{
  Scalars, Cells, update, ScanInput, emit, scan_row, num_chunks, chunk_start, chunk_end, rescan,
  rescan_chunks, scan_channel, scan_order, selective_scan_parallel, selective_scan_sequential,
}
use llm_cpp.Scan.Index.{same_cell, Has}
use llm_cpp.Scan.Reference.{state, weigh, output, RowAt, sum-scan_row, scan_row-cells}
use llm_cpp.Scan.Chunks.{IsExact, chunks_cover, chunk_end_lem}
use llm_cpp.Scan.Passes.{StartAt, starts}
use llm_cpp.Scan.Sequential.{output-selective_scan_sequential}

module _ {F : Type 0} (s : Scalars F) (v : ScanInput F) where
  -- The row of one channel, after the loop over n
  row-scan_row :
      (d t : ℕ) (h : Cells F) (acc : F)
      → RowAt s v t d 0 v.N 0 h
      → RowAt s v (t + 1) d 0 v.N 0 (scan_row s v t d 0 v.N 0 h acc).0
  unfolding state
  row-scan_row d t h acc k m lo hi =
      let inside : (leb (0 + 0) (0 + m) && ltb (0 + m) (0 + 0 + v.N)) ≡ true = ground arith in
      let place : 0 + m - 0 ≡ m = omega arith in
      let next : suc t ≡ t + 1 = omega arith in
      scan_row-cells s v t d 0 v.N 0 h acc (0 + m)
      ∙ rw (inside, place, k m lo hi) refl
      ∙ ap (state s v d m) next

  -- The cell of one step is its output, and those of later steps follow.
  written :
      (d r t : ℕ) (acc c : F) (t' d' : ℕ)
      → acc ≡ weigh s v t d v.N 0 s.zero
      → (if d' == d && (leb (t + 1) t' && ltb t' (t + 1 + r))
          then output s v t' d'
          else (if t' == t && d' == d then emit s v t d acc else c))
        ≡ (if d' == d && (leb t t' && ltb t' (t + suc r)) then output s v t' d' else c)
  unfolding output
  written d r t acc c t' d' sum = elim (Bool-cases (t' == t && d' == d)) [
    | inl e ↦
        let now : t' ≡ t = ground arith in
        let same : d' ≡ d = ground arith in
        let made : emit s v t d acc ≡ output s v t' d' =
          ap (emit s v t d) sum ∙ ap₂ (output s v) (sym now) (sym same) in
        ground arith
    | inr e ↦ ground arith
  ]

  rescan-cells :
      (d r t : ℕ) (h y : Cells F) (t' d' : ℕ)
      → d < v.D
      → d' < v.D
      → RowAt s v t d 0 v.N 0 h
      → rescan s v d r t h y (t' * v.D + d')
        ≡ (if d' == d && (leb t t' && ltb t' (t + r)) then output s v t' d' else y (t' * v.D + d'))
  unfolding rescan
  rescan-cells d zero t h y t' d' hd hd' k = ground arith
  rescan-cells d (suc r) t h y t' d' hd hd' k =
      let row = scan_row s v t d 0 v.N 0 h s.zero in
      let y' = update y (t * v.D + d) (emit s v t d row.1) in
      rescan-cells d r (t + 1) row.0 y' t' d' hd hd' (row-scan_row d t h s.zero k)
      ∙ ap
          (λ b.
            if d' == d && (leb (t + 1) t' && ltb t' (t + 1 + r))
            then output s v t' d'
            else (if b then emit s v t d row.1 else y (t' * v.D + d')))
          (same_cell v.D t' d' t d hd' hd)
      ∙ written d r t row.1 (y (t' * v.D + d')) t' d' (sum-scan_row s v t d 0 v.N 0 h s.zero k)

  -- One round of the second pass
  chunk-cells :
      (init : Cells F) (d c : ℕ) (y : Cells F) (t' d' : ℕ)
      → d < v.D
      → d' < v.D
      → c < num_chunks s v
      → ((j m : ℕ) → j < num_chunks s v → m < v.N → StartAt s v d m j init)
      → (if leb (chunk_end s v c) (chunk_start s v c)
            then y
            else rescan s v d
                (chunk_end s v c - chunk_start s v c)
                (chunk_start s v c)
                (λ n. init (c * v.N + n))
                y)
          (t' * v.D + d')
        ≡ (if d' == d && (leb (chunk_start s v c) t' && ltb t' (chunk_end s v c))
            then output s v t' d'
            else y (t' * v.D + d'))
  chunk-cells init d c y t' d' hd hd' hc k =
      elim (Bool-cases (leb (chunk_end s v c) (chunk_start s v c))) [
        | inl skip ↦ rw skip (ground arith)
        | inr go ↦
            let begin : min v.T (chunk_start s v c) ≡ chunk_start s v c =
              ground (arith, chunk_end_lem s v c) in
            let rows : RowAt s v (chunk_start s v c) d 0 v.N 0 (λ n. init (c * v.N + n)) =
              λ m lo hi.
                ap (λ (n : ℕ). init (c * v.N + n)) (omega arith)
                ∙ k c m hc (omega arith)
                ∙ ap (state s v d m) begin in
            rw go (
              rescan-cells d (chunk_end s v c - chunk_start s v c) (chunk_start s v c)
                (λ n. init (c * v.N + n)) y t' d' hd hd' rows
              ∙ ground arith)
      ]

  chunk_start-le : (c r : ℕ) → chunk_start s v c ≤ chunk_start s v (c + r)
  unfolding chunk_start
  chunk_start-le c r = grind arith

  joined :
      (d c r t' d' : ℕ) (o z : F)
      → (if d' == d
            && (leb (chunk_start s v (c + 1)) t' && ltb t' (min v.T (chunk_start s v (c + 1 + r))))
          then o
          else (if d' == d && (leb (chunk_start s v c) t' && ltb t' (chunk_end s v c))
              then o
              else z))
        ≡ (if d' == d
              && (leb (chunk_start s v c) t' && ltb t' (min v.T (chunk_start s v (c + suc r))))
            then o
            else z)
  joined d c r t' d' o z =
      let e : c + 1 + r ≡ c + suc r = omega arith in
      rw (e, chunk_end_lem s v c)
        (ground
          (arith, chunk_start-le c 1, ap (λ k. chunk_start s v k) e, chunk_start-le (c + 1) r))

  rescan_chunks-cells :
      (init : Cells F) (d r c : ℕ) (y : Cells F) (t' d' : ℕ)
      → d < v.D
      → d' < v.D
      → c + r ≤ num_chunks s v
      → ((j m : ℕ) → j < num_chunks s v → m < v.N → StartAt s v d m j init)
      → rescan_chunks s v init d r c y (t' * v.D + d') ≡ (
          if d' == d && (leb (chunk_start s v c) t' && ltb t' (min v.T (chunk_start s v (c + r))))
          then output s v t' d'
          else y (t' * v.D + d'))
  unfolding rescan_chunks
  rescan_chunks-cells init d zero c y t' d' hd hd' le k =
      let e : c + 0 ≡ c = omega arith in rw e (ground arith)
  rescan_chunks-cells init d (suc r) c y t' d' hd hd' le k =
      let h = λ (n : ℕ). init (c * v.N + n) in
      let next = rescan s v d (chunk_end s v c - chunk_start s v c) (chunk_start s v c) h y in
      rescan_chunks-cells init d r (c + 1)
        (if leb (chunk_end s v c) (chunk_start s v c) then y else next) t' d' hd hd' (omega arith) k
      ∙ ap
          (λ z.
            if d' == d
              && (leb (chunk_start s v (c + 1)) t'
                  && ltb t' (min v.T (chunk_start s v (c + 1 + r))))
            then output s v t' d'
            else z)
          (chunk-cells init d c y t' d' hd hd' (omega arith) k)
      ∙ joined d c r t' d' (output s v t' d') (y (t' * v.D + d'))

  all_steps :
      (d t' d' : ℕ)
      → t' < v.T
      → (d' == d
          && (leb (chunk_start s v 0) t'
              && ltb t' (min v.T (chunk_start s v (0 + num_chunks s v)))))
        ≡ (d' == d)
  unfolding chunk_start
  all_steps d t' d' ht =
      let last : 0 + num_chunks s v ≡ num_chunks s v = omega arith in
      rw last (ground (arith, chunks_cover s v))

  scan_channel-cells :
      (d : ℕ) (y : Cells F) (t' d' : ℕ)
      → IsExact s
      → d < v.D
      → d' < v.D
      → t' < v.T
      → scan_channel s v d y (t' * v.D + d')
        ≡ (if d' == d then output s v t' d' else y (t' * v.D + d'))
  unfolding scan_channel
  scan_channel-cells d y t' d' e hd hd' ht =
      rescan_chunks-cells _ d (num_chunks s v) 0 y t' d' hd hd' (omega arith)
        (λ j m hj hm. starts s v d j m e hj hm)
      ∙ ap (λ b. if b then output s v t' d' else y (t' * v.D + d')) (all_steps d t' d' ht)

  scan_order-cells :
      (order : List ℕ) (y : Cells F) (t d : ℕ)
      → IsExact s
      → All (λ d. d < v.D) order
      → d < v.D
      → t < v.T
      → Has order d ⊎ (y (t * v.D + d) ≡ output s v t d)
      → scan_order s v order y (t * v.D + d) ≡ output s v t d
  unfolding scan_order
  scan_order-cells [] y t d e all hd ht (inl has) = elim has [ ]
  scan_order-cells [] y t d e all hd ht (inr done) = done
  scan_order-cells (x ∷ xs) y t d e all hd ht h =
      scan_order-cells xs (scan_channel s v x y) t d e all.1 hd ht (after h)
    where
      after :
          Has (x ∷ xs) d ⊎ (y (t * v.D + d) ≡ output s v t d)
          → Has xs d ⊎ (scan_channel s v x y (t * v.D + d) ≡ output s v t d)
      after (inl (inl here)) =
          let hit : (d == x) ≡ true = ground arith in
          inr (
            scan_channel-cells x y t d e all.0 hd ht
            ∙ ap (λ b. if b then output s v t d else y (t * v.D + d)) hit)
      after (inl (inr later)) = inl later
      after (inr done) = inr (scan_channel-cells x y t d e all.0 hd ht ∙ either (d == x) done)
        where
          either :
              (b : Bool)
              → y (t * v.D + d) ≡ output s v t d
              → (if b then output s v t d else y (t * v.D + d)) ≡ output s v t d
          either true q = refl
          either false q = q

  -- With exact arithmetic (addition has a zero and is associative, multiplication has a one, is
  -- associative and distributes over addition) and a state of at least one place, the parallel scan
  -- by chunks, whatever the order in which its channels are scanned, if it is all of them and only
  -- them, writes at every step and channel what the sequential scan writes.
  pub selective_scan_parallel-sequential :
      (order : List ℕ) (y y' : Cells F) (t d : ℕ)
      → IsExact s
      → All (λ d. d < v.D) order
      → ((d : ℕ) → d < v.D → Has order d)
      → t < v.T
      → d < v.D
      → 0 < v.N
      → selective_scan_parallel s v order y (t * v.D + d)
        ≡ (selective_scan_sequential s v y').1 (t * v.D + d)
  unfolding selective_scan_parallel
  selective_scan_parallel-sequential order y y' t d e all has ht hd hn =
      let sizes : (v.T == 0 || (v.D == 0 || v.N == 0)) ≡ false = ground arith in
      rw sizes (scan_order-cells order y t d e all hd ht (inl (has d hd)))
      ∙ sym (output-selective_scan_sequential s v y' t d ht hd)
