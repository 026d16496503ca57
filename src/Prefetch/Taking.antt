-- ===== src/Prefetch/Taking.antt =====
-- src/dataset.cpp, get_batch and successive parts of the data set.
use llm_cpp.Prelude.{
  ℕ, zero, suc, ◌+◌, ◌≤◌, ◌≡◌, refl, sym, ap, ◌∙◌, List, [], ◌∷◌, ◌++◌, arith, length, take, drop,
  nat_eq, list_eq, ℤ, int_eq,
}
use llm_cpp.Dataset.{get_batch}
use llm_cpp.Dataset.Batches.{get_batch-take}

pub take_all {ℓ} : {A : Type ℓ} (xs : List A) (n : ℕ) → length xs ≤ n → take n xs ≡ xs
take_all [] zero h = refl
take_all [] (suc n) h = refl
take_all (x ∷ xs) zero h = absurd (omega arith)
take_all (x ∷ xs) (suc n) h = ap (◌∷◌ x) (take_all xs n (omega arith))

suc_sum : (i j : ℕ) → i + suc j ≡ suc (i + j)
suc_sum i j = omega arith

take_add {ℓ} :
    {A : Type ℓ} (xs : List A) (i j : ℕ) → take (j + i) xs ≡ take i xs ++ take j (drop i xs)
take_add xs zero j = ap (λ k. take k xs) (omega arith)
take_add [] (suc i) zero = take_all [] _ (omega arith)
take_add [] (suc i) (suc j) = take_all [] _ (omega arith)
take_add (x ∷ xs) (suc i) j = ap (λ k. take k (x ∷ xs)) (suc_sum j i) ∙ ap (◌∷◌ x) (take_add xs i j)

flip : (i j : ℕ) → j + i ≡ i + j
flip i j = omega arith

-- The next batch, after all the tokens before it
pub take-get_batch :
    (tokens : List ℤ) (i b : ℕ) → take i tokens ++ get_batch tokens i b ≡ take (i + b) tokens
take-get_batch tokens i b =
    ap (λ ts. take i tokens ++ ts) (get_batch-take tokens i b)
    ∙ sym (take_add tokens i b)
    ∙ ap (λ k. take k tokens) (flip i b)

pub empty {ℓ} : {A : Type ℓ} (xs : List A) → length xs ≡ 0 → xs ≡ []
empty [] h = refl
empty (x ∷ xs) h = absurd (omega arith)
