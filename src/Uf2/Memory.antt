-- ===== src/Uf2/Memory.antt =====
-- What a UF2 image writes to flash, as a specification: the byte that it puts at an address.
use firmingo.Common.{
  ℕ, ◌+◌, ◌-◌, ◌≡◌, refl, Bool, false, ◌&&◌, Option, none, List, [], ◌∷◌, ◌++◌, map, get_elem?, All,
  ltb, leb, if◌then◌else◌, arith,
}
use firmingo.Common.Bytes.{Bytes}
use firmingo.Uf2.{address_of, payload_of}

-- An address and the bytes from there on.
abbrev pub Place : Type 0
Place = ℕ × Bytes

abbrev pub place_of : Bytes → Place
place_of block = (address_of block, payload_of block)

abbrev pub places : List Bytes → List Place
places = map place_of

abbrev pub covers : Place → ℕ → Bool
covers p a = leb p.0 a && ltb a (p.0 + 256)

unfoldable pub read_byte : List Place → ℕ → Option ℕ
read_byte [] a = none
read_byte (p ∷ ps) a = if covers p a then get_elem? p.1 (a - p.0) else read_byte ps a

module _ (a : ℕ) where
  abbrev pub Elsewhere : List Place → Type 0
  Elsewhere = All (λ p. covers p a ≡ false)

  pub read_byte-Elsewhere : (ps : List Place) → Elsewhere ps → read_byte ps a ≡ none
  unfolding read_byte
  read_byte-Elsewhere [] h = refl
  read_byte-Elsewhere (p ∷ ps) h = rw h.0 (read_byte-Elsewhere ps h.1)

  pub read_byte-append_right :
      (ps qs : List Place) → Elsewhere ps → read_byte (ps ++ qs) a ≡ read_byte qs a
  unfolding read_byte
  read_byte-append_right [] qs h = refl
  read_byte-append_right (p ∷ ps) qs h = rw h.0 (read_byte-append_right ps qs h.1)

  pub read_byte-append_left :
      (ps qs : List Place) → Elsewhere qs → read_byte (ps ++ qs) a ≡ read_byte ps a
  unfolding read_byte
  read_byte-append_left [] qs h = read_byte-Elsewhere qs h
  read_byte-append_left (p ∷ ps) qs h = ground (arith, read_byte-append_left ps qs h)
