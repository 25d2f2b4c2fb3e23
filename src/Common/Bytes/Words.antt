-- ===== src/Common/Bytes/Words.antt =====
-- Unsigned integers of a fixed number of bytes, little-endian (`<H`, `<I`) and big-endian (`!H`, `!I`).
-- `struct.pack` refuses a value that does not fit; where the code packs, the value is shown to fit.
use Prim.Native.Nat.{ℕ, zero, suc, ◌+◌, ◌*◌, ◌/◌, ◌%◌, ◌^◌, ◌<◌}
use mathlib.Core.Path.{◌≡◌, refl, ap, ap₂, ◌∙◌}
use mathlib.Core.List.{[], ◌∷◌}
use native.Mathlib.Omega.{arith}
use native.Mathlib.Nat.{pow-suc}
use firmingo.Common.Lists.{length, All}
use firmingo.Common.Bytes.Slices.{Bytes, IsByte}

abbrev pub unpack_le : Bytes → ℕ
unpack_le [] = 0
unpack_le (b ∷ bs) = b + 256 * unpack_le bs

abbrev pub pack_le : ℕ → ℕ → Bytes
pack_le zero v = []
pack_le (suc w) v = (v % 256) ∷ pack_le w (v / 256)

-- Big-endian: the most significant byte first.
abbrev pub unpack_be_onto : ℕ → Bytes → ℕ
unpack_be_onto acc [] = acc
unpack_be_onto acc (b ∷ bs) = unpack_be_onto (acc * 256 + b) bs

abbrev pub unpack_be : Bytes → ℕ
unpack_be = unpack_be_onto 0

abbrev pub pack_be_onto : ℕ → ℕ → Bytes → Bytes
pack_be_onto zero v rest = rest
pack_be_onto (suc w) v rest = pack_be_onto w (v / 256) ((v % 256) ∷ rest)

abbrev pub pack_be : ℕ → ℕ → Bytes
pack_be w v = pack_be_onto w v []

pub length-pack_le : (w v : ℕ) → length (pack_le w v) ≡ w
length-pack_le zero v = refl
length-pack_le (suc w) v = ap suc (length-pack_le w (v / 256))

pub unpack_le-pack_le : (w v : ℕ) → v < 256 ^ w → unpack_le (pack_le w v) ≡ v
unpack_le-pack_le zero v h = omega arith
unpack_le-pack_le (suc w) v h =
    let k : v / 256 < 256 ^ w = below in omega (arith, unpack_le-pack_le w (v / 256) k)
  where
    below : v / 256 < 256 ^ w
    below = omega (arith, h, pow-suc 256 w)

pub pack_le-All : (w v : ℕ) → All IsByte (pack_le w v)
pack_le-All zero v = tt
pack_le-All (suc w) v = (omega arith, pack_le-All w (v / 256))

pub unpack_le-lt : (bs : Bytes) → All IsByte bs → unpack_le bs < 256 ^ length bs
unpack_le-lt [] h = omega arith
unpack_le-lt (b ∷ bs) h = omega (arith, h.0, unpack_le-lt bs h.1, pow-suc 256 (length bs))

-- A field is determined by its value.
pub pack_le-unpack_le : (bs : Bytes) → All IsByte bs → pack_le (length bs) (unpack_le bs) ≡ bs
pack_le-unpack_le [] h = refl
pack_le-unpack_le (b ∷ bs) h =
    ap₂ (λ x xs. x ∷ xs) low (ap (pack_le (length bs)) high ∙ pack_le-unpack_le bs h.1)
  where
    low : (b + 256 * unpack_le bs) % 256 ≡ b
    low = omega (arith, h.0)

    high : (b + 256 * unpack_le bs) / 256 ≡ unpack_le bs
    high = omega (arith, h.0)

length-pack_be_onto : (w v : ℕ) (rest : Bytes) → length (pack_be_onto w v rest) ≡ w + length rest
length-pack_be_onto zero v rest = omega arith
length-pack_be_onto (suc w) v rest =
    omega (arith, length-pack_be_onto w (v / 256) ((v % 256) ∷ rest))

pub length-pack_be : (w v : ℕ) → length (pack_be w v) ≡ w
length-pack_be w v = omega (arith, length-pack_be_onto w v [])

unpack_be-pack_be_onto :
    (w v : ℕ) (rest : Bytes)
    → v < 256 ^ w
    → unpack_be_onto 0 (pack_be_onto w v rest) ≡ unpack_be_onto v rest
unpack_be-pack_be_onto zero v rest h = let e : v ≡ 0 = omega arith in rw e
unpack_be-pack_be_onto (suc w) v rest h =
    unpack_be-pack_be_onto w (v / 256) ((v % 256) ∷ rest) (omega (arith, h, pow-suc 256 w))
    ∙ ap (λ k. unpack_be_onto k rest) (omega arith)

pub unpack_be-pack_be : (w v : ℕ) → v < 256 ^ w → unpack_be (pack_be w v) ≡ v
unpack_be-pack_be w v h = unpack_be-pack_be_onto w v [] h
