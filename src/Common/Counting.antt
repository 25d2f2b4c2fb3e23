-- ===== src/Common/Counting.antt =====
-- At most `n` numbers below `n` are distinct.
use Prim.Native.Nat.{ℕ, zero, suc, ◌≤◌, ◌<◌}
use mathlib.Core.Path.{◌≡◌, refl}
use mathlib.Core.Logic.{inl, inr}
use mathlib.Core.List.{List, [], ◌∷◌}
use native.Mathlib.Omega.{arith}
use firmingo.Common.Tests.{◌==◌, if◌then◌else◌, Bool-cases, ==_iff}
use firmingo.Common.Lists.{length, All}
use firmingo.Common.Bytes.{Absent, Distinct}

without : ℕ → List ℕ → List ℕ
without a [] = []
without a (x ∷ xs) = let rest = without a xs in if a == x then rest else x ∷ rest

without-Absent : (a : ℕ) (xs : List ℕ) → Absent a xs → without a xs ≡ xs
unfolding without
without-Absent a [] h = refl
without-Absent a (x ∷ xs) h = ground (arith, without-Absent a xs h.1)

Absent-without : (a b : ℕ) (xs : List ℕ) → Absent b xs → Absent b (without a xs)
unfolding without
Absent-without a b [] h = tt
Absent-without a b (x ∷ xs) h = ground (arith, Absent-without a b xs h.1)

Distinct-without : (a : ℕ) (xs : List ℕ) → Distinct xs → Distinct (without a xs)
unfolding without
Distinct-without a [] h = tt
Distinct-without a (x ∷ xs) h = ground (arith, Distinct-without a xs h.1, Absent-without a x xs h.0)

length-without : (a : ℕ) (xs : List ℕ) → Distinct xs → length xs ≤ suc (length (without a xs))
unfolding without
length-without a [] h = omega arith
length-without a (x ∷ xs) h = elim (Bool-cases (a == x)) [
  | inl same ↦
      rw same
        (let e : a ≡ x = (==_iff a x).0 same in rw (without-Absent a xs (rw e h.0)) (omega arith))
  | inr other ↦ rw other (omega (arith, length-without a xs h.1))
]

All-without : (n : ℕ) (xs : List ℕ) → All (λ x. x < suc n) xs → All (λ x. x < n) (without n xs)
unfolding without
All-without n [] h = tt
All-without n (x ∷ xs) h = ground (arith, All-without n xs h.1)

pub length-le_of_Distinct :
    (n : ℕ) (xs : List ℕ) → All (λ x. x < n) xs → Distinct xs → length xs ≤ n
length-le_of_Distinct zero [] a d = omega arith
length-le_of_Distinct zero (x ∷ xs) a d = absurd (omega (arith, a.0))
length-le_of_Distinct (suc n) xs a d = omega (
  arith,
  length-without n xs d,
  length-le_of_Distinct n (without n xs) (All-without n xs a) (Distinct-without n xs d),
)
