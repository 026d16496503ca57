-- ===== src/Prelude/Maps.antt =====
-- Boolean equality by instances, and maps as association lists over it.
use llm_cpp.Prelude.Tests.{if◌then◌else◌, ==_iff}
use llm_cpp.Prelude.Tests.{◌==◌ as nat_beq}
use llm_cpp.Prelude.Lists.{length}
use Prim.Native.Nat.{ℕ, suc, ◌+◌, ◌≤◌}
use mathlib.Core.Path.{◌≡◌, refl}
use mathlib.Core.Logic.{◌↔◌}
use mathlib.Core.Bool.{Bool, true, false, ◌&&◌}
use mathlib.Core.Option.{Option, none, some}
use mathlib.Core.List.{List, [], ◌∷◌}
use native.Mathlib.Omega.{arith}

pub record Eq {ℓ} (A : Type ℓ) : Type ℓ where
  pub beq : A → A → Bool
  pub beq_iff : (a b : A) → (beq a b ≡ true) ↔ (a ≡ b)

infix 50 ◌=?◌
abbrev pub ◌=?◌ {ℓ} : {A : Type ℓ} ⦃e : Eq A⦄ → A → A → Bool
◌=?◌ ⦃e⦄ = e.beq

instance abbrev pub nat_eq : Eq ℕ
nat_eq = record { beq = nat_beq; beq_iff = ==_iff }

unfoldable pub list_beq {ℓ} : {A : Type ℓ} ⦃e : Eq A⦄ → List A → List A → Bool
list_beq [] [] = true
list_beq [] (y ∷ ys) = false
list_beq (x ∷ xs) [] = false
list_beq (x ∷ xs) (y ∷ ys) = x =? y && list_beq xs ys

pub list_beq_iff {ℓ} :
    {A : Type ℓ} ⦃e : Eq A⦄ (xs ys : List A) → (list_beq xs ys ≡ true) ↔ (xs ≡ ys)
unfolding list_beq
list_beq_iff [] [] = ground arith
list_beq_iff [] (y ∷ ys) = ground arith
list_beq_iff (x ∷ xs) [] = ground arith
list_beq_iff ⦃e⦄ (x ∷ xs) (y ∷ ys) = ground (arith, e.beq_iff x y, list_beq_iff xs ys)

instance abbrev pub list_eq {ℓ} : {A : Type ℓ} ⦃e : Eq A⦄ → Eq (List A)
list_eq = record { beq = list_beq; beq_iff = list_beq_iff }

module _ {ℓ} {A : Type ℓ} ⦃e : Eq A⦄ where
  pub beq_refl : (a : A) → (a =? a) ≡ true
  beq_refl a = (e.beq_iff a a).1 refl

  pub beq_eq : (a b : A) → (a =? b) ≡ true → a ≡ b
  beq_eq a b = (e.beq_iff a b).0

-- `std::unordered_map` as an association list: a write replaces the value of a key in place.
module _ {ℓ κ} {K : Type ℓ} {V : Type κ} ⦃e : Eq K⦄ where
  unfoldable pub find : List (K × V) → K → Option V
  find [] k = none
  find ((j, v) ∷ m) k = if j =? k then some v else find m k

  unfoldable pub insert : List (K × V) → K → V → List (K × V)
  insert [] k v = (k, v) ∷ []
  insert ((j, w) ∷ m) k v = if j =? k then (j, v) ∷ m else (j, w) ∷ insert m k v

  pub find-insert :
      (m : List (K × V)) (k j : K) (v : V)
      → find (insert m k v) j ≡ (if k =? j then some v else find m j)
  unfolding find insert
  find-insert [] k j v = refl
  find-insert ((i, w) ∷ m) k j v =
      ground (arith, e.beq_iff k j, e.beq_iff i k, e.beq_iff i j, find-insert m k j v)

  -- A new key adds one entry.
  pub length-insert_new :
      (m : List (K × V)) (k : K) (v : V) → find m k ≡ none → length (insert m k v) ≡ suc (length m)
  unfolding find insert
  length-insert_new [] k v h = refl
  length-insert_new ((i, w) ∷ m) k v h = ground (arith, length-insert_new m k v)

  pub length-insert-le : (m : List (K × V)) (k : K) (v : V) → length (insert m k v) ≤ length m + 1
  unfolding insert
  length-insert-le [] k v = omega arith
  length-insert-le ((i, w) ∷ m) k v = ground (arith, length-insert-le m k v)
