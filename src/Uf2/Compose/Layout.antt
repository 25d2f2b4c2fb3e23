-- ===== src/Uf2/Compose/Layout.antt =====
-- The frames and the places of the blocks of a composite image.
use firmingo.Common.{
  ℕ, ◌+◌, ◌-◌, ◌*◌, ◌%◌, ◌^◌, ◌≤◌, ◌<◌, ◌≡◌, refl, sym, ap, ap₂, subst, ◌∙◌, List, [], ◌∷◌, ◌++◌,
  length, get_elem?, All, join, arith, get_elem?-append_lt, get_elem?-append_ge, Bool-cases, ◌⊎◌,
  inl, inr, ltb, true, false,
}
use firmingo.Common.Bytes.{Bytes, HasLength}
use firmingo.Uf2.{slot, address_of}
use firmingo.Uf2.Resident.{IsBlock, IsResidentBlock, InReservation, InOrder}
use firmingo.Uf2.Memory.{Place, places, covers, read_byte, Elsewhere}
use firmingo.Uf2.Compose.{renumber, slot_blocks}
use firmingo.Uf2.Compose.Words.{
  renumbered, renumbered_place, slot_block-IsBlock, payload-slot_block,
}

pub InOrder-append :
    (P : ℕ → Bytes → Type 0) (i j : ℕ) (xs ys : List Bytes)
    → i + length xs ≡ j
    → InOrder P i xs
    → InOrder P j ys
    → InOrder P i (xs ++ ys)
InOrder-append P i j [] ys e hx hy = subst (λ k. InOrder P k ys) (omega arith) hy
InOrder-append P i j (x ∷ xs) ys e hx hy =
    (hx.0, InOrder-append P (i + 1) j xs ys (omega arith) hx.1 hy)

module _ (total : ℕ) (fits : total < 2 ^ 32) where
  pub renumber-IsBlock :
      (old index : ℕ) (blocks : List Bytes)
      → index + length blocks ≤ total
      → All (HasLength 512) blocks
      → InOrder (IsResidentBlock old) index blocks
      → InOrder (IsBlock total) index (renumber index total blocks)
  unfolding renumber
  renumber-IsBlock old index [] h full o = tt
  renumber-IsBlock old index (b ∷ blocks) h full o = (
    renumbered old index total index b full.0 (omega arith) fits o.0.0,
    renumber-IsBlock old (index + 1) blocks (omega arith) full.1 o.1,
  )

  pub slot_blocks-IsBlock :
      (offset index : ℕ) (payloads : List Bytes)
      → index + length payloads ≤ total
      → slot + offset + 256 * length payloads ≤ 2 ^ 32
      → All (HasLength 256) payloads
      → InOrder (IsBlock total) index (slot_blocks offset index total payloads)
  unfolding slot_blocks
  slot_blocks-IsBlock offset index [] h k full = tt
  slot_blocks-IsBlock offset index (p ∷ payloads) h k full = (
    (slot_block-IsBlock (slot + offset) index total p full.0 (omega arith) (omega arith) fits).0,
    slot_blocks-IsBlock (offset + 256) (index + 1) payloads (omega arith) (omega arith) full.1,
  )

  -- The places of the slot's blocks: consecutive from the offset on.
  abbrev pub sector_places : ℕ → List Bytes → List Place
  sector_places offset [] = []
  sector_places offset (p ∷ payloads) = (slot + offset, p) ∷ sector_places (offset + 256) payloads

  pub places-slot_blocks :
      (offset index : ℕ) (payloads : List Bytes)
      → index + length payloads ≤ total
      → slot + offset + 256 * length payloads ≤ 2 ^ 32
      → All (HasLength 256) payloads
      → places (slot_blocks offset index total payloads) ≡ sector_places offset payloads
  unfolding slot_blocks
  places-slot_blocks offset index [] h k full = refl
  places-slot_blocks offset index (p ∷ payloads) h k full =
      ap₂ (λ q r. q ∷ r)
        (ap₂ {C = Place} (λ x y. (x, y))
          (slot_block-IsBlock (slot + offset) index total p full.0 (omega arith) (omega arith)
            fits).1
          (payload-slot_block (slot + offset) index total p full.0))
        (places-slot_blocks (offset + 256) (index + 1) payloads (omega arith) (omega arith) full.1)

pub places-renumber :
    (total index : ℕ) (blocks : List Bytes) → places (renumber index total blocks) ≡ places blocks
unfolding renumber
places-renumber total index [] = refl
places-renumber total index (b ∷ blocks) =
    ap₂ (λ q r. q ∷ r)
      (ap₂ {C = Place} (λ x y. (x, y)) (renumbered_place total index b).0
        (renumbered_place total index b).1)
      (places-renumber total (index + 1) blocks)

-- A byte of the sector is read where its offset says.
pub read_byte-sector_places :
    (total : ℕ) (fits : total < 2 ^ 32) (offset k : ℕ) (payloads : List Bytes)
    → All (HasLength 256) payloads
    → read_byte (sector_places total fits offset payloads) (slot + offset + k)
      ≡ get_elem? (join payloads) k
unfolding read_byte
read_byte-sector_places total fits offset k [] full = refl
read_byte-sector_places total fits offset k (p ∷ payloads) full = elim (Bool-cases (ltb k 256)) [
  | inl here ↦
      let within : covers (slot + offset, p) (slot + offset + k) ≡ true = ground arith in
      rw within (
        ap (get_elem? p) (omega arith)
        ∙ sym (get_elem?-append_lt p (join payloads) k (ground (arith, full.0))))
  | inr later ↦
      let past : covers (slot + offset, p) (slot + offset + k) ≡ false = ground arith in
      rw past (
        ap (read_byte (sector_places total fits (offset + 256) payloads)) (ground arith)
        ∙ read_byte-sector_places total fits (offset + 256) (k - 256) payloads full.1
        ∙ sym (get_elem?-append_ge p (join payloads) k (k - 256) (ground (arith, full.0))))
]

-- The slot's blocks write nothing in front of the slot, and nothing behind their last byte.
pub sector_places-Elsewhere :
    (total : ℕ) (fits : total < 2 ^ 32) (offset a : ℕ) (payloads : List Bytes)
    → (a < slot + offset) ⊎ (slot + offset + 256 * length payloads ≤ a)
    → Elsewhere a (sector_places total fits offset payloads)
sector_places-Elsewhere total fits offset a [] h = tt
sector_places-Elsewhere total fits offset a (p ∷ payloads) h =
    (ground arith, sector_places-Elsewhere total fits (offset + 256) a payloads (ground arith))

-- Resident blocks write nothing in the slot.
pub resident-Elsewhere :
    (old index a : ℕ) (blocks : List Bytes)
    → InOrder (IsResidentBlock old) index blocks
    → slot ≤ a
    → Elsewhere a (places blocks)
resident-Elsewhere old index a [] o h = tt
resident-Elsewhere old index a (b ∷ blocks) o h =
    let r : InReservation b = o.0.1 in
    let aligned : address_of b % 256 ≡ 0 = r.aligned in
    let below : address_of b < slot = r.below in
    let ends : address_of b + 256 ≤ slot = omega arith in
    (ground arith, resident-Elsewhere old (index + 1) a blocks o.1 h)
