-- ===== src/Common/Bytes/Slices.antt =====
-- `data[o:o + n]`, and `buffer[o:o + len(ys)] = ys` for a buffer that has the room.
use Prim.Native.Nat.{ℕ, zero, suc, ◌+◌, ◌-◌, ◌≤◌, ◌<◌}
use mathlib.Core.Path.{◌≡◌, refl, ap, ◌∙◌}
use mathlib.Core.List.{List, [], ◌∷◌}
use native.Mathlib.Omega.{arith}
use firmingo.Common.Lists.{length, take, drop, length-take, length-drop, drop-drop}

abbrev pub Bytes : Type 0
Bytes = List ℕ

abbrev pub IsByte : ℕ → Type 0
IsByte b = b < 256

module _ {ℓ} {A : Type ℓ} where
  abbrev pub slice : ℕ → ℕ → List A → List A
  slice o n xs = take n (drop o xs)

  -- A write never makes the buffer longer.
  abbrev pub overwrite : List A → List A → List A
  overwrite [] xs = xs
  overwrite (y ∷ ys) [] = []
  overwrite (y ∷ ys) (x ∷ xs) = y ∷ overwrite ys xs

  abbrev pub splice : ℕ → List A → List A → List A
  splice zero ys xs = overwrite ys xs
  splice (suc o) ys [] = []
  splice (suc o) ys (x ∷ xs) = x ∷ splice o ys xs

  length-overwrite : (ys xs : List A) → length (overwrite ys xs) ≡ length xs
  length-overwrite [] xs = refl
  length-overwrite (y ∷ ys) [] = refl
  length-overwrite (y ∷ ys) (x ∷ xs) = ap suc (length-overwrite ys xs)

  pub length-splice : (o : ℕ) (ys xs : List A) → length (splice o ys xs) ≡ length xs
  length-splice zero ys xs = length-overwrite ys xs
  length-splice (suc o) ys [] = refl
  length-splice (suc o) ys (x ∷ xs) = ap suc (length-splice o ys xs)

  pub length-slice : (o n : ℕ) (xs : List A) → o + n ≤ length xs → length (slice o n xs) ≡ n
  length-slice o n xs h = omega (arith, length-take n (drop o xs), length-drop o xs)

  take-overwrite :
      (ys xs : List A) → length ys ≤ length xs → take (length ys) (overwrite ys xs) ≡ ys
  take-overwrite [] xs h = refl
  take-overwrite (y ∷ ys) [] h = absurd (omega arith)
  take-overwrite (y ∷ ys) (x ∷ xs) h = ap (λ t. y ∷ t) (take-overwrite ys xs (omega arith))

  -- What was written is read back.
  pub slice-splice :
      (o : ℕ) (ys xs : List A)
      → o + length ys ≤ length xs
      → slice o (length ys) (splice o ys xs) ≡ ys
  slice-splice zero ys xs h = take-overwrite ys xs (omega arith)
  slice-splice (suc o) ys [] h = absurd (omega arith)
  slice-splice (suc o) ys (x ∷ xs) h = slice-splice o ys xs (omega arith)

  take-splice : (n o : ℕ) (ys xs : List A) → n ≤ o → take n (splice o ys xs) ≡ take n xs
  take-splice zero o ys xs h = refl
  take-splice (suc n) zero ys xs h = absurd (omega arith)
  take-splice (suc n) (suc o) ys [] h = refl
  take-splice (suc n) (suc o) ys (x ∷ xs) h = ap (λ t. x ∷ t) (take-splice n o ys xs (omega arith))

  -- Bytes in front of the write stay.
  pub slice-splice_before :
      (p n o : ℕ) (ys xs : List A) → p + n ≤ o → slice p n (splice o ys xs) ≡ slice p n xs
  slice-splice_before zero n o ys xs h = take-splice n o ys xs (omega arith)
  slice-splice_before (suc p) n zero ys xs h = absurd (omega arith)
  slice-splice_before (suc p) n (suc o) ys [] h = refl
  slice-splice_before (suc p) n (suc o) ys (x ∷ xs) h =
      slice-splice_before p n o ys xs (omega arith)

  drop-overwrite : (p : ℕ) (ys xs : List A) → length ys ≤ p → drop p (overwrite ys xs) ≡ drop p xs
  drop-overwrite p [] xs h = refl
  drop-overwrite p (y ∷ ys) [] h = refl
  drop-overwrite zero (y ∷ ys) (x ∷ xs) h = absurd (omega arith)
  drop-overwrite (suc p) (y ∷ ys) (x ∷ xs) h = drop-overwrite p ys xs (omega arith)

  drop-splice : (p o : ℕ) (ys xs : List A) → o + length ys ≤ p → drop p (splice o ys xs) ≡ drop p xs
  drop-splice p zero ys xs h = drop-overwrite p ys xs (omega arith)
  drop-splice p (suc o) ys [] h = refl
  drop-splice zero (suc o) ys (x ∷ xs) h = absurd (omega arith)
  drop-splice (suc p) (suc o) ys (x ∷ xs) h = drop-splice p o ys xs (omega arith)

  -- Bytes behind the write stay.
  pub slice-splice_after :
      (p n o : ℕ) (ys xs : List A) → o + length ys ≤ p → slice p n (splice o ys xs) ≡ slice p n xs
  slice-splice_after p n o ys xs h = ap (take n) (drop-splice p o ys xs h)

  take-take : (m n : ℕ) (xs : List A) → m ≤ n → take m (take n xs) ≡ take m xs
  take-take zero n xs h = refl
  take-take (suc m) zero xs h = absurd (omega arith)
  take-take (suc m) (suc n) [] h = refl
  take-take (suc m) (suc n) (x ∷ xs) h = ap (λ t. x ∷ t) (take-take m n xs (omega arith))

  take_nil : (k : ℕ) → ◌≡◌ {A = List A} [] (take k [])
  take_nil zero = refl
  take_nil (suc k) = refl

  drop-take : (o n : ℕ) (xs : List A) → drop o (take n xs) ≡ take (n - o) (drop o xs)
  drop-take zero n xs = ap (λ k. take k xs) (omega arith)
  drop-take (suc o) zero xs = let e : 0 - suc o ≡ 0 = omega arith in rw e
  drop-take (suc o) (suc n) [] = take_nil (suc n - suc o)
  drop-take (suc o) (suc n) (x ∷ xs) =
      let e : suc n - suc o ≡ n - o = omega arith in rw e (drop-take o n xs)

  -- A slice of a slice.
  pub slice-slice :
      (p m o n : ℕ) (xs : List A) → p + m ≤ n → slice p m (slice o n xs) ≡ slice (o + p) m xs
  slice-slice p m o n xs h =
      ap (take m) (drop-take p n (drop o xs))
      ∙ take-take m (n - p) (drop p (drop o xs)) (omega arith)
      ∙ ap (take m) (drop-drop p o xs)
