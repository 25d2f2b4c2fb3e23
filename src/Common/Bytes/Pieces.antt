-- ===== src/Common/Bytes/Pieces.antt =====
-- `[data[i:i + n] for i in range(0, len(data), n)]`: the last piece may be shorter.
use Prim.Native.Nat.{ℕ, zero, suc, ◌*◌, ◌≤◌, ◌<◌}
use mathlib.Core.Path.{◌≡◌, refl, ap, ap₂, ◌∙◌}
use mathlib.Core.List.{List, [], ◌∷◌, ◌++◌}
use native.Mathlib.Omega.{arith}
use firmingo.Common.Lists.{
  length, take, drop, All, join, length-take, length-drop, take-append-drop, take-append_eq,
  drop-append_eq, length-append,
}

no_pieces : (n k : ℕ) → 0 < n → 0 ≡ k * n → 0 ≡ k
no_pieces n zero h e = refl
no_pieces n (suc k) h e = absurd (omega arith)

module _ {ℓ} {A : Type ℓ} where
  -- The fuel bounds the number of pieces; the length of the data is enough, since `n` is positive.
  unfoldable pub pieces_fuel : ℕ → ℕ → List A → List (List A)
  pieces_fuel zero n xs = []
  pieces_fuel (suc f) n [] = []
  pieces_fuel (suc f) n (x ∷ xs) = take n (x ∷ xs) ∷ pieces_fuel f n (drop n (x ∷ xs))

  unfoldable pub pieces : ℕ → List A → List (List A)
  unfolding pieces_fuel
  pieces n xs = pieces_fuel (length xs) n xs

  join-pieces_fuel :
      (f n : ℕ) (xs : List A) → 0 < n → length xs ≤ f → join (pieces_fuel f n xs) ≡ xs
  unfolding pieces_fuel
  join-pieces_fuel zero n [] h k = refl
  join-pieces_fuel zero n (x ∷ xs) h k = absurd (omega arith)
  join-pieces_fuel (suc f) n [] h k = refl
  join-pieces_fuel (suc f) n (x ∷ xs) h k =
      ap (λ t. take n (x ∷ xs) ++ t)
        (join-pieces_fuel f n (drop n (x ∷ xs)) h (omega (arith, length-drop n (x ∷ xs))))
      ∙ take-append-drop n (x ∷ xs)

  -- The pieces, in order, are the data.
  pub join-pieces : (n : ℕ) (xs : List A) → 0 < n → join (pieces n xs) ≡ xs
  unfolding pieces
  join-pieces n xs h = join-pieces_fuel (length xs) n xs h (omega arith)

  abbrev pub HasLength : ℕ → List A → Type 0
  HasLength n xs = length xs ≡ n

  pieces_fuel-join :
      (f n : ℕ) (ps : List (List A))
      → 0 < n
      → All (HasLength n) ps
      → length (join ps) ≤ f
      → pieces_fuel f n (join ps) ≡ ps
  unfolding pieces_fuel
  pieces_fuel-join zero n [] h a k = refl
  pieces_fuel-join (suc f) n [] h a k = refl
  pieces_fuel-join f n ([] ∷ ps) h a k = absurd (omega (arith, a.0))
  pieces_fuel-join zero n ((x ∷ p) ∷ ps) h a k = absurd (omega (arith, length-append p (join ps)))
  pieces_fuel-join (suc f) n ((x ∷ p) ∷ ps) h a k =
      ap₂ (λ t r. t ∷ r) (take-append_eq n (x ∷ p) (join ps) a.0)
        (ap (pieces_fuel f n) (drop-append_eq n (x ∷ p) (join ps) a.0)
          ∙ pieces_fuel-join f n ps h a.1 (omega (arith, length-append p (join ps))))

  -- Pieces of one size are cut apart again.
  pub pieces-join :
      (n : ℕ) (ps : List (List A)) → 0 < n → All (HasLength n) ps → pieces n (join ps) ≡ ps
  unfolding pieces
  pieces-join n ps h a = pieces_fuel-join (length (join ps)) n ps h a (omega arith)

  pub length-join :
      (n : ℕ) (ps : List (List A)) → All (HasLength n) ps → length (join ps) ≡ length ps * n
  length-join n [] a = omega arith
  length-join n (p ∷ ps) a = omega (arith, a.0, length-append p (join ps), length-join n ps a.1)

  pieces_fuel-HasLength :
      (f n k : ℕ) (xs : List A)
      → 0 < n
      → length xs ≡ k * n
      → length xs ≤ f
      → All (HasLength n) (pieces_fuel f n xs) × (length (pieces_fuel f n xs) ≡ k)
  unfolding pieces_fuel
  pieces_fuel-HasLength zero n k [] h d l = (tt, no_pieces n k h d)
  pieces_fuel-HasLength zero n k (x ∷ xs) h d l = absurd (omega arith)
  pieces_fuel-HasLength (suc f) n k [] h d l = (tt, no_pieces n k h d)
  pieces_fuel-HasLength (suc f) n zero (x ∷ xs) h d l = absurd (omega arith)
  pieces_fuel-HasLength (suc f) n (suc k) (x ∷ xs) h d l =
      let (same, count) =
        pieces_fuel-HasLength f n k (drop n (x ∷ xs)) h (omega (arith, length-drop n (x ∷ xs)))
          (omega (arith, length-drop n (x ∷ xs))) in
      ((omega (arith, length-take n (x ∷ xs)), same), omega arith)

  -- Data of `k * n` elements has `k` pieces, all of the full size.
  pub pieces-HasLength :
      (n k : ℕ) (xs : List A)
      → 0 < n
      → length xs ≡ k * n
      → All (HasLength n) (pieces n xs) × (length (pieces n xs) ≡ k)
  unfolding pieces
  pieces-HasLength n k xs h d = pieces_fuel-HasLength (length xs) n k xs h d (omega arith)
