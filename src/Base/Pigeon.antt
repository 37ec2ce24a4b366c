-- ===== src/Base/Pigeon.antt =====
-- Counting the members of a set that are all in a list.
use Prim.Native.Nat.{suc, ◌≤◌}
use mathlib.Core.Path.{◌≡◌, ap}
use mathlib.Core.Logic.{◌≢◌}
use mathlib.Core.Bool.{true}
use mathlib.Core.List.{List, [], ◌∷◌}
use native.Mathlib.Omega.{arith}
use codexport.Base.Tests.{Eq, ◌==◌, if◌then◌else◌}
use codexport.Base.Lists.{length, contains, IsSetList}

module _ {ℓ} {A : Type ℓ} ⦃e : Eq A⦄ where
  without : A → List A → List A
  without a [] = []
  without a (x ∷ xs) = if x == a then xs else x ∷ without a xs

  length-without :
      (a : A) (xs : List A) → contains a xs ≡ true → suc (length (without a xs)) ≡ length xs
  unfolding without
  length-without a [] h = cc
  length-without a (x ∷ xs) h = ground (arith, length-without a xs)

  contains-without :
      (a b : A) (xs : List A) → a ≢ b → contains b xs ≡ true → contains b (without a xs) ≡ true
  unfolding without
  contains-without a b [] n h = cc
  contains-without a b (x ∷ xs) n h =
      ground (arith, e.beq_iff x a, e.beq_iff x b, contains-without a b xs)

  -- Every member of the first is one of the second.
  abbrev pub IsSubset : List A → List A → Type ℓ
  IsSubset xs ys = (a : A) → contains a xs ≡ true → contains a ys ≡ true

  pub length-le_of_IsSubset :
      (xs ys : List A) → IsSetList xs → IsSubset xs ys → length xs ≤ length ys
  length-le_of_IsSubset [] ys s h = omega arith
  length-le_of_IsSubset (x ∷ xs) ys s h =
      let there = h x (ground (arith, e.beq_iff x x)) in
      let rest = length-le_of_IsSubset xs (without x ys) s.1 (λ a m.
        contains-without x a ys (λ p. ground (arith, s.0, ap (λ b. contains b xs) p))
          (h a (ground (arith, m)))) in
      omega (arith, length-without x ys there, rest)
