-- ===== src/Scan/Passes.antt =====
-- src/mamba_scan.cpp, the arrays of the parallel scan: the pairs of the chunks and the states at their
-- starts.
use llm_cpp.Prelude.{
  ℕ, zero, suc, ◌+◌, ◌-◌, ◌*◌, ◌≤◌, ◌<◌, min, ◌≡◌, refl, sym, ap, ap₂, ◌∙◌, ◌≢◌, inl, inr, true,
  false, ◌&&◌, arith, ℕ_discrete, leb, ◌==◌, if◌then◌else◌, Bool-cases, nat_eq, list_eq, int_eq,
}
use llm_cpp.Scan.{
  Scalars, Cells, update, ScanInput, num_chunks, chunk_start, chunk_end, reduce, reduce_row,
  reduce_chunks, first_row, prefix_row, prefix_rows,
}
use llm_cpp.Scan.Index.{same_cell}
use llm_cpp.Scan.Chunks.{IsExact, PairAt, chunk_pair, pair-state}
use llm_cpp.Scan.Reference.{state}

module _ {F : Type 0} (s : Scalars F) (v : ScanInput F) where
  here :
      (f : Cells F) (w : F) (c n c' m : ℕ)
      → c' ≡ c
      → m ≡ n
      → update f (c * v.N + n) w (c' * v.N + m) ≡ w
  here f w c n c' m p q =
      let cell : (c' * v.N + m == c * v.N + n) ≡ true = rw (p, q) (ground arith) in
      ap (λ b. if b then w else f (c' * v.N + m)) cell

  other :
      (f : Cells F) (w : F) (c n c' m : ℕ)
      → m < v.N
      → n < v.N
      → (c' ≡ c → m ≢ n)
      → update f (c * v.N + n) w (c' * v.N + m) ≡ f (c' * v.N + m)
  other f w c n c' m hm hn h =
      let differ : (c' == c && m == n) ≡ false = elim (ℕ_discrete c' c) [
        | yes p ↦ let ne = h p in ground arith
        | no p ↦ ground arith
      ] in
      ap (λ b. if b then w else f (c' * v.N + m)) (same_cell v.N c' m c n hm hn ∙ differ)

  reduce_row-PairAt :
      (d c r n : ℕ) (aprod bend : Cells F) (c' m : ℕ)
      → n + r ≡ v.N
      → m < v.N
      → (c' ≡ c → m < n → PairAt s v d m c' aprod bend)
      → (c' ≢ c → PairAt s v d m c' aprod bend)
      → PairAt s v d m c'
          (reduce_row s v d c r n aprod bend).0
          (reduce_row s v d c r n aprod bend).1
  unfolding reduce_row
  reduce_row-PairAt d c zero n aprod bend c' m e hm hs ho = elim (ℕ_discrete c' c) [
    | yes p ↦ hs p (omega arith)
    | no p ↦ ho p
  ]
  reduce_row-PairAt d c (suc r) n aprod bend c' m e hm hs ho =
      let (p, z) = chunk_pair s v d n c in
      let aprod' = update aprod (c * v.N + n) p in
      let bend' = update bend (c * v.N + n) z in
      let old : (c' ≡ c → m ≢ n) → PairAt s v d m c' aprod bend → PairAt s v d m c' aprod' bend' =
        λ ne k. (
          other aprod p c n c' m hm (omega arith) ne ∙ k.0,
          other bend z c n c' m hm (omega arith) ne ∙ k.1,
        ) in
      reduce_row-PairAt d c r (n + 1) aprod' bend' c' m (omega arith) hm
        (λ q lt. elim (ℕ_discrete m n) [
          | yes k ↦
              let both : chunk_pair s v d n c ≡ chunk_pair s v d m c' =
                ap₂ (chunk_pair s v d) (sym k) (sym q) in
              (
                here aprod p c n c' m q k ∙ ap (λ b. b.0) both,
                here bend z c n c' m q k ∙ ap (λ b. b.1) both,
              )
          | no k ↦ old (λ _. k) (hs q (omega arith))
        ])
        (λ q. old (λ k. absurd (q k)) (ho q))

  reduce_row-other :
      (d c r n : ℕ) (aprod bend : Cells F) (c' m : ℕ)
      → n + r ≡ v.N
      → m < v.N
      → c' ≢ c
      → ((reduce_row s v d c r n aprod bend).0 (c' * v.N + m) ≡ aprod (c' * v.N + m))
        × ((reduce_row s v d c r n aprod bend).1 (c' * v.N + m) ≡ bend (c' * v.N + m))
  unfolding reduce_row
  reduce_row-other d c zero n aprod bend c' m e hm ne = (refl, refl)
  reduce_row-other d c (suc r) n aprod bend c' m e hm ne =
      let (p, z) = chunk_pair s v d n c in
      let hn : n < v.N = omega arith in
      let apart : c' ≡ c → m ≢ n = λ q. absurd (ne q) in
      let (ka, kb) =
        reduce_row-other d c r (n + 1) (update aprod (c * v.N + n) p) (update bend (c * v.N + n) z)
          c' m (omega arith) hm ne in
      (ka ∙ other aprod p c n c' m hm hn apart, kb ∙ other bend z c n c' m hm hn apart)

  -- One round of the loop over the chunks
  abbrev next_chunk : (d c : ℕ) → Cells F → Cells F → Cells F × Cells F
  next_chunk d c aprod bend =
      if leb (chunk_end s v c) (chunk_start s v c)
      then (aprod, bend)
      else reduce_row s v d c v.N 0 aprod bend

  next_chunk-PairAt :
      (d c : ℕ) (aprod bend : Cells F) (c' m : ℕ)
      → m < v.N
      → c' < c + 1
      → (c' < c → PairAt s v d m c' aprod bend)
      → (c' ≡ c → (aprod (c' * v.N + m) ≡ s.one) × (bend (c' * v.N + m) ≡ s.zero))
      → PairAt s v d m c' (next_chunk d c aprod bend).0 (next_chunk d c aprod bend).1
  unfolding reduce
  next_chunk-PairAt d c aprod bend c' m hm lt done fresh =
      elim (Bool-cases (leb (chunk_end s v c) (chunk_start s v c))) [
        | inl skip ↦ rw skip (elim (ℕ_discrete c' c) [
          | yes p ↦
              let empty : chunk_end s v c' - chunk_start s v c' ≡ 0 =
                ap (λ k. chunk_end s v k - chunk_start s v k) p ∙ ground arith in
              rw empty (fresh p)
          | no p ↦ done (omega arith)
        ])
        | inr go ↦ rw go (
            reduce_row-PairAt d c v.N 0 aprod bend c' m (omega arith) hm
              (λ _ k. absurd (omega arith)) (λ p. done (omega arith)))
      ]

  next_chunk-other :
      (d c : ℕ) (aprod bend : Cells F) (c' m : ℕ)
      → m < v.N
      → c' ≢ c
      → ((next_chunk d c aprod bend).0 (c' * v.N + m) ≡ aprod (c' * v.N + m))
        × ((next_chunk d c aprod bend).1 (c' * v.N + m) ≡ bend (c' * v.N + m))
  next_chunk-other d c aprod bend c' m hm ne =
      elim (Bool-cases (leb (chunk_end s v c) (chunk_start s v c))) [
        | inl skip ↦ rw skip (refl, refl)
        | inr go ↦ rw go (reduce_row-other d c v.N 0 aprod bend c' m (omega arith) hm ne)
      ]

  -- Every chunk has its pair; one without steps has the pair that the arrays begin with.
  reduce_chunks-PairAt :
      (d r c : ℕ) (aprod bend : Cells F) (c' m : ℕ)
      → m < v.N
      → c' < c + r
      → (c' < c → PairAt s v d m c' aprod bend)
      → (c ≤ c' → (aprod (c' * v.N + m) ≡ s.one) × (bend (c' * v.N + m) ≡ s.zero))
      → PairAt s v d m c'
          (reduce_chunks s v d r c aprod bend).0
          (reduce_chunks s v d r c aprod bend).1
  unfolding reduce_chunks
  reduce_chunks-PairAt d zero c aprod bend c' m hm lt done fresh = done (omega arith)
  reduce_chunks-PairAt d (suc r) c aprod bend c' m hm lt done fresh =
      let next = next_chunk d c aprod bend in
      reduce_chunks-PairAt d r (c + 1) next.0 next.1 c' m hm (omega arith)
        (λ h. next_chunk-PairAt d c aprod bend c' m hm h done (λ p. fresh (omega arith)))
        (λ h.
          let (ka, kb) = next_chunk-other d c aprod bend c' m hm (omega arith) in
          let (fa, fb) = fresh (omega arith) in (ka ∙ fa, kb ∙ fb))

  first_row-cells :
      (d r n : ℕ) (init : Cells F) (m : ℕ)
      → m < n + r
      → (m < n → init m ≡ v.h0 (d * v.N + m))
      → first_row s v d r n init m ≡ v.h0 (d * v.N + m)
  unfolding first_row
  first_row-cells d zero n init m lt done = done (omega arith)
  first_row-cells d (suc r) n init m lt done =
      first_row-cells d r (n + 1) (update init n (v.h0 (d * v.N + n))) m (omega arith) (λ h.
        elim (ℕ_discrete m n) [
          | yes p ↦
              let hit : (m == n) ≡ true = ground arith in
              rw hit (ap (λ k. v.h0 (d * v.N + k)) (sym p))
          | no p ↦ let miss : (m == n) ≡ false = ground arith in rw miss (done (omega arith))
        ])

  -- The state at the start of a chunk, in its row
  abbrev pub StartAt : (d m c : ℕ) → Cells F → Type 0
  StartAt d m c init = init (c * v.N + m) ≡ state s v d m (min v.T (chunk_start s v c))

  module _ (e : IsExact s) (d : ℕ) (aprod bend : Cells F)
      (pairs : (c m : ℕ) → m < v.N → c < num_chunks s v → PairAt s v d m c aprod bend) where
    start_after :
        (c n : ℕ) (init : Cells F)
        → 0 < c
        → c < num_chunks s v
        → n < v.N
        → StartAt d n (c - 1) init
        → s.add
            (s.mul (aprod ((c - 1) * v.N + n)) (init ((c - 1) * v.N + n)))
            (bend ((c - 1) * v.N + n))
          ≡ state s v d n (min v.T (chunk_start s v c))
    start_after c n init pos lt hn h =
        let (ka, kb) = pairs (c - 1) n hn (omega arith) in
        let w = init ((c - 1) * v.N + n) in
        ap₂ (λ a b. s.add (s.mul a w) b) ka kb
        ∙ pair-state s v e d n (c - 1) w h
        ∙ ap (λ k. state s v d n (min v.T (chunk_start s v k))) (omega arith)

    prefix_row-StartAt :
        (c r n : ℕ) (init : Cells F) (c' m : ℕ)
        → n + r ≡ v.N
        → m < v.N
        → 0 < c
        → c < num_chunks s v
        → ((j i : ℕ) → j < c → i < v.N → StartAt d i j init)
        → c' < c + 1
        → (c' ≡ c → m < n → StartAt d m c' init)
        → StartAt d m c' (prefix_row s v aprod bend c r n init)
    unfolding prefix_row
    prefix_row-StartAt c zero n init c' m k hm pos lt old le new = elim (ℕ_discrete c' c) [
      | yes p ↦ new p (omega arith)
      | no p ↦ old c' m (omega arith) hm
    ]
    prefix_row-StartAt c (suc r) n init c' m k hm pos lt old le new =
        let hn : n < v.N = omega arith in
        let before = (c - 1) * v.N + n in
        let w = s.add (s.mul (aprod before) (init before)) (bend before) in
        let made : w ≡ state s v d n (min v.T (chunk_start s v c)) =
          start_after c n init pos lt hn (old (c - 1) n (omega arith) hn) in
        prefix_row-StartAt c r (n + 1) (update init (c * v.N + n) w) c' m (omega arith) hm pos lt
          (λ j i hj hi. other init w c n j i hi hn (λ q. absurd (omega arith)) ∙ old j i hj hi) le
          (λ p h. elim (ℕ_discrete m n) [
            | yes q ↦
                here init w c n c' m p q
                ∙ made
                ∙ ap₂ (λ i j. state s v d i (min v.T (chunk_start s v j))) (sym q) (sym p)
            | no q ↦ other init w c n c' m hm hn (λ _. q) ∙ new p (omega arith)
          ])

    pub prefix_rows-StartAt :
        (r c : ℕ) (init : Cells F) (c' m : ℕ)
        → 0 < c
        → c + r ≤ num_chunks s v
        → ((j i : ℕ) → j < c → i < v.N → StartAt d i j init)
        → m < v.N
        → c' < c + r
        → StartAt d m c' (prefix_rows s v aprod bend r c init)
    unfolding prefix_rows
    prefix_rows-StartAt zero c init c' m pos le old hm lt = old c' m (omega arith) hm
    prefix_rows-StartAt (suc r) c init c' m pos le old hm lt =
        prefix_rows-StartAt r (c + 1) (prefix_row s v aprod bend c v.N 0 init) c' m (omega arith)
          (omega arith)
          (λ j i hj hi.
            prefix_row-StartAt c v.N 0 init j i (omega arith) hi pos (omega arith) old hj
              (λ q k. absurd (omega arith)))
          hm (omega arith)

module _ {F : Type 0} (s : Scalars F) (v : ScanInput F) where
  first_row-StartAt :
      (d j i : ℕ) → j < 1 → i < v.N → StartAt s v d i j (first_row s v d v.N 0 (λ k. s.zero))
  unfolding state chunk_start
  first_row-StartAt d j i hj hi =
      let top : j ≡ 0 = omega arith in
      let cell : j * v.N + i ≡ i = rw top (omega arith) in
      let begin : min v.T (chunk_start s v j) ≡ 0 = rw top (omega arith) in
      ap (first_row s v d v.N 0 (λ k. s.zero)) cell
      ∙ first_row-cells s v d v.N 0 (λ k. s.zero) i (omega arith) (λ h. absurd (omega arith))
      ∙ ap (state s v d i) (sym begin)

  -- The states at the starts of all chunks, as the second pass finds them
  pub starts :
      (d : ℕ) (c m : ℕ)
      → IsExact s
      → c < num_chunks s v
      → m < v.N
      → StartAt s v d m c (
          prefix_rows s v
            (reduce_chunks s v d (num_chunks s v) 0 (λ k. s.one) (λ k. s.zero)).0
            (reduce_chunks s v d (num_chunks s v) 0 (λ k. s.one) (λ k. s.zero)).1
            (num_chunks s v - 1)
            1
            (first_row s v d v.N 0 (λ k. s.zero)))
  starts d c m e hc hm =
      let arrays = reduce_chunks s v d (num_chunks s v) 0 (λ k. s.one) (λ k. s.zero) in
      prefix_rows-StartAt s v e d arrays.0 arrays.1
        (λ c m hm hc.
          reduce_chunks-PairAt s v d (num_chunks s v) 0 (λ k. s.one) (λ k. s.zero) c m hm
            (omega arith) (λ h. absurd (omega arith)) (λ h. (refl, refl)))
        (num_chunks s v - 1) 1 (first_row s v d v.N 0 (λ k. s.zero)) c m (omega arith) (omega arith)
        (first_row-StartAt d) hm (omega arith)
