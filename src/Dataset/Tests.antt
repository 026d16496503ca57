-- ===== src/Dataset/Tests.antt =====
-- Epochs and packed batches of seven tokens.
use llm_cpp.Prelude.{
  pos, ℕ, ◌≤◌, ◌≡◌, true, false, List, [], ◌∷◌, arith, length, concat, All, nat_eq, list_eq, ℤ,
  int_eq,
}
use mathlib.Core.List.{Perm}
use mathlib.Core.List.Perm as Permutation
use llm_cpp.Dataset.{starts, build_order, make_loader, epoch, pack_with_eos}
use llm_cpp.Dataset.Batches.{concat-epoch}
use llm_cpp.Dataset.Packing.{unpack, pack_with_eos-unpack}

abbrev tokens : List ℤ
tokens = pos 1 ∷ pos 2 ∷ pos 3 ∷ pos 4 ∷ pos 5 ∷ []

-- A shuffle that moves the first two starts.
swap : ℕ → List ℕ → List ℕ
swap seed [] = []
swap seed (x ∷ []) = x ∷ []
swap seed (x ∷ y ∷ xs) = y ∷ x ∷ xs

swap-Perm : (seed : ℕ) (xs : List ℕ) → Perm xs (swap seed xs)
unfolding swap
swap-Perm seed [] = Permutation.refl []
swap-Perm seed (x ∷ []) = Permutation.refl (x ∷ [])
swap-Perm seed (x ∷ y ∷ xs) = Permutation.swap y x xs

concat-epoch_example : concat (epoch 5 (make_loader swap tokens 2 false 42)) ≡ tokens
concat-epoch_example = concat-epoch swap tokens 2 42 5 (omega arith) (omega arith)

few_starts : length (make_loader swap tokens 2 true 42).order ≤ 5
unfolding make_loader build_order swap starts
few_starts = omega arith

pack_with_eos-unpack_example :
    let out = pack_with_eos tokens 2 (pos 0) in
    All (λ r. length r ≡ 2) out.input
    × All (λ m. length m ≡ 2) out.mask
    × (length out.input ≡ length out.mask)
    × (unpack out.input out.mask ≡ tokens)
pack_with_eos-unpack_example = pack_with_eos-unpack tokens 2 (pos 0) (omega arith)
