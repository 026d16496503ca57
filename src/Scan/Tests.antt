-- ===== src/Scan/Tests.antt =====
-- Five steps, two channels and two places of the state, over the natural numbers.
use llm_cpp.Prelude.{
  ℕ, zero, suc, ◌+◌, ◌*◌, ◌%◌, ◌<◌, ◌≡◌, refl, inl, inr, List, [], ◌∷◌, arith, nat_eq, list_eq,
  int_eq,
}
use llm_cpp.Scan.{
  Scalars, ScanInput, selective_scan_parallel, selective_scan_sequential, scan_steps, scan_channels,
  scan_row, num_chunks, chunk_size, chunk_start, chunk_end, reduce, reduce_row, reduce_chunks,
  first_row, prefix_row, prefix_rows, rescan, rescan_chunks, scan_channel, scan_order,
}
use llm_cpp.Scan.Chunks.{IsExact}
use llm_cpp.Scan.Parallel.{selective_scan_parallel-sequential}
use llm_cpp.Scan.Index.{Has}

abbrev numbers : Scalars ℕ
numbers = record { zero = 0; one = 1; add = ◌+◌; mul = ◌*◌; exp = λ a. a + 1 }

numbers-IsExact : IsExact numbers
numbers-IsExact = record {
  add-zero = λ a. omega arith;
  one-mul = λ a. omega arith;
  add_assoc = λ a b c. omega arith;
  mul_assoc = λ a b c. grind arith;
  mul-add = λ a b c. grind arith;
}

abbrev sample : ScanInput ℕ
sample = record {
  x = λ k. k + 1;
  A = λ k. k;
  B = λ k. k % 3;
  C = λ k. k % 2 + 1;
  dt = λ k. k % 2;
  D_skip = λ k. k;
  h0 = λ k. k;
  T = 5;
  D = 2;
  N = 2;
}

abbrev order : List ℕ
order = 1 ∷ 0 ∷ []

-- Both scans run on the sample.
last_output :
    selective_scan_parallel numbers sample order (λ k. 0) 9
    ≡ (selective_scan_sequential numbers sample (λ k. 0)).1 9
unfolding selective_scan_parallel selective_scan_sequential scan_steps scan_channels scan_row
    num_chunks chunk_size chunk_start chunk_end reduce reduce_row reduce_chunks first_row prefix_row
    prefix_rows rescan rescan_chunks scan_channel scan_order
last_output = refl

order-Has : (d : ℕ) → d < 2 → Has order d
order-Has zero h = inr (inl refl)
order-Has (suc zero) h = inl refl
order-Has (suc (suc d)) h = absurd (omega arith)

selective_scan_parallel-sequential_example :
    selective_scan_parallel numbers sample order (λ k. 0) (4 * 2 + 1)
    ≡ (selective_scan_sequential numbers sample (λ k. 0)).1 (4 * 2 + 1)
selective_scan_parallel-sequential_example =
    selective_scan_parallel-sequential numbers sample order (λ k. 0) (λ k. 0) 4 1 numbers-IsExact
      (omega arith) order-Has (omega arith) (omega arith) (omega arith)
