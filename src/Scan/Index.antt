-- ===== src/Scan/Index.antt =====
-- src/mamba_scan.cpp, the places of cells in flat vectors and the bounds of the chunks.
use llm_cpp.Prelude.{
  ℕ, ◌+◌, ◌*◌, ◌≤◌, ◌<◌, ◌≡◌, ap, ◌⊎◌, ◌&&◌, List, [], ◌∷◌, arith, ltb, leb, ◌==◌, nat_eq, list_eq,
  int_eq,
}

lower : (c i j i' j' : ℕ) → j < c → j' < c → i < i' → i * c + j < i' * c + j'
lower c i j i' j' h k l = grind arith

pub same_cell :
    (c i j i' j' : ℕ) → j < c → j' < c → (i * c + j == i' * c + j') ≡ (i == i' && j == j')
same_cell c i j i' j' h k = ground (arith, lower c i j i' j', lower c i' j' i j)

pub next_rows : (c i i' : ℕ) → i < i' → i * c + c ≤ i' * c
next_rows c i i' h = grind arith

-- The cells of a row
pub in_row :
    (c i i' j : ℕ)
    → j < c
    → (leb (i * c + 0) (i' * c + j) && ltb (i' * c + j) (i * c + 0 + c)) ≡ (i' == i)
in_row c i i' j h =
    ground (arith, next_rows c i i', next_rows c i' i, ap {A = ℕ} (λ k. k * c) {x = i'} {y = i})

-- The channels of an order
abbrev pub Has : List ℕ → ℕ → Type 0
Has [] d = ⊥
Has (x ∷ xs) d = (d ≡ x) ⊎ Has xs d
