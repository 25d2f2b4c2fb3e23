-- ===== src/Uf2/Compose/Image.antt =====
-- The blocks of the composite image: their frames, and the bytes that they write.
use firmingo.Common.{
  map-append, ℕ, suc, ◌+◌, ◌-◌, ◌/◌, ◌^◌, ◌≤◌, ◌<◌, ◌≡◌, refl, sym, ap, ap₂, ◌∙◌, ◌&&◌, List, [],
  ◌∷◌, ◌++◌, length, get_elem?, All, All-append, length-append, length-replicate, replicate, arith,
  Bool-cases, inl, inr, ltb, leb, if◌then◌else◌,
}
use firmingo.Common.Bytes.{
  Bytes, pack_le, pieces, HasLength, length-splice, pieces-HasLength, join-pieces,
}
use firmingo.Uf2.{slot}
use firmingo.Uf2.Resident.{IsBlock, InOrder, IsResident, IsResident-HasLength}
use firmingo.Uf2.Bound.{resident_bound}
use firmingo.Uf2.Memory.{
  place_of, places, read_byte, read_byte-Elsewhere, read_byte-append_left, read_byte-append_right,
}
use firmingo.Uf2.Compose.{sector_bytes, renumber, slot_blocks, padded_sector, composite}
use firmingo.Uf2.Compose.Words.{length-slot_block}
use firmingo.Uf2.Compose.Layout.{
  InOrder-append, renumber-IsBlock, slot_blocks-IsBlock, places-slot_blocks, places-renumber,
  sector_places, read_byte-sector_places, sector_places-Elsewhere, resident-Elsewhere,
}

length-renumber :
    (index total : ℕ) (blocks : List Bytes) → length (renumber index total blocks) ≡ length blocks
unfolding renumber
length-renumber index total [] = refl
length-renumber index total (b ∷ blocks) = ap suc (length-renumber (index + 1) total blocks)

length-slot_blocks :
    (offset index total : ℕ) (ps : List Bytes)
    → length (slot_blocks offset index total ps) ≡ length ps
unfolding slot_blocks
length-slot_blocks offset index total [] = refl
length-slot_blocks offset index total (p ∷ ps) =
    ap suc (length-slot_blocks (offset + 256) (index + 1) total ps)

renumber-HasLength :
    (index total : ℕ) (blocks : List Bytes)
    → All (HasLength 512) blocks
    → All (HasLength 512) (renumber index total blocks)
unfolding renumber
renumber-HasLength index total [] h = tt
renumber-HasLength index total (b ∷ blocks) h = (
  length-splice 20 (pack_le 4 index ++ pack_le 4 total) b ∙ h.0,
  renumber-HasLength (index + 1) total blocks h.1,
)

slot_blocks-HasLength :
    (offset index total : ℕ) (ps : List Bytes)
    → All (HasLength 256) ps
    → All (HasLength 512) (slot_blocks offset index total ps)
unfolding slot_blocks
slot_blocks-HasLength offset index total [] h = tt
slot_blocks-HasLength offset index total (p ∷ ps) h = (
  length-slot_block (slot + offset) index total p h.0,
  slot_blocks-HasLength (offset + 256) (index + 1) total ps h.1,
)

pub length-padded_sector :
    (capsule : Bytes)
    → length capsule ≤ sector_bytes
    → length (padded_sector capsule) ≡ sector_bytes
length-padded_sector capsule h = omega (
  arith,
  length-append capsule (replicate (sector_bytes - length capsule) 0xff),
  length-replicate {A = ℕ} (sector_bytes - length capsule) 0xff,
)

module _ (resident : Bytes) (blocks : List Bytes) (r : IsResident resident blocks) where
  module _ (sector : Bytes) (full : length sector ≡ sector_bytes) where
    abbrev total : ℕ
    total = length blocks + sector_bytes / 256

    abbrev payloads : List Bytes
    payloads = pieces 256 sector

    fits : total < 2 ^ 32
    fits = omega (arith, resident_bound resident blocks r)

    payloads_full : All (HasLength 256) payloads × (length payloads ≡ 16)
    payloads_full = pieces-HasLength 256 16 sector (omega arith) (omega (arith, full))

    pub composite-HasLength : All (HasLength 512) (composite blocks sector)
    unfolding composite
    composite-HasLength =
        All-append (HasLength 512) (renumber 0 total blocks)
          (slot_blocks 0 (length blocks) total payloads)
          (renumber-HasLength 0 total blocks (IsResident-HasLength resident blocks r))
          (slot_blocks-HasLength 0 (length blocks) total payloads payloads_full.0)

    pub length-composite : length (composite blocks sector) ≡ total
    unfolding composite
    length-composite = omega (
      arith,
      length-append (renumber 0 total blocks) (slot_blocks 0 (length blocks) total payloads),
      length-renumber 0 total blocks,
      length-slot_blocks 0 (length blocks) total payloads,
      payloads_full.1,
    )

    pub composite-IsBlock : InOrder (IsBlock total) 0 (composite blocks sector)
    unfolding composite
    composite-IsBlock =
        InOrder-append (IsBlock total) 0 (length blocks) (renumber 0 total blocks)
          (slot_blocks 0 (length blocks) total payloads)
          (omega (arith, length-renumber 0 total blocks))
          (renumber-IsBlock total fits (length blocks) 0 blocks (omega arith)
            (IsResident-HasLength resident blocks r) r.order)
          (slot_blocks-IsBlock total fits 0 (length blocks) payloads
            (omega (arith, payloads_full.1)) (omega (arith, payloads_full.1)) payloads_full.0)

    places-composite :
        places (composite blocks sector) ≡ places blocks ++ sector_places total fits 0 payloads
    unfolding composite
    places-composite =
        map-append place_of (renumber 0 total blocks) (slot_blocks 0 (length blocks) total payloads)
        ∙ ap₂ (λ x y. x ++ y) (places-renumber total 0 blocks)
            (places-slot_blocks total fits 0 (length blocks) payloads
              (omega (arith, payloads_full.1)) (omega (arith, payloads_full.1)) payloads_full.0)

    in_sector :
        (a : ℕ)
        → slot ≤ a
        → read_byte (sector_places total fits 0 payloads) a ≡ get_elem? sector (a - slot)
    in_sector a h =
        ap (read_byte (sector_places total fits 0 payloads)) (omega arith)
        ∙ read_byte-sector_places total fits 0 (a - slot) payloads payloads_full.0
        ∙ ap (λ t. get_elem? t (a - slot)) (join-pieces 256 sector (omega arith))

    behind_sector :
        (a : ℕ)
        → slot + sector_bytes ≤ a
        → read_byte (sector_places total fits 0 payloads) a ≡ read_byte (places blocks) a
    behind_sector a h =
        read_byte-Elsewhere a (sector_places total fits 0 payloads)
          (sector_places-Elsewhere total fits 0 a payloads (inr (omega (arith, payloads_full.1))))
        ∙ sym (
            read_byte-Elsewhere a (places blocks)
              (resident-Elsewhere (length blocks) 0 a blocks r.order (omega arith)))

    past_slot :
        (a : ℕ)
        → slot ≤ a
        → read_byte (places blocks ++ sector_places total fits 0 payloads) a
          ≡ read_byte (sector_places total fits 0 payloads) a
    past_slot a h =
        read_byte-append_right a (places blocks) (sector_places total fits 0 payloads)
          (resident-Elsewhere (length blocks) 0 a blocks r.order h)

    -- In the slot's first sector the sector's bytes, elsewhere the resident's.
    pub read_byte-composite :
        (a : ℕ)
        → read_byte (places (composite blocks sector)) a ≡ (
            if leb slot a && ltb a (slot + sector_bytes)
            then get_elem? sector (a - slot)
            else read_byte (places blocks) a)
    read_byte-composite a = rw places-composite (elim (Bool-cases (leb slot a)) [
      | inr low ↦ rw low (
          read_byte-append_left a (places blocks) (sector_places total fits 0 payloads)
            (sector_places-Elsewhere total fits 0 a payloads (inl (ground arith))))
      | inl high ↦ elim (Bool-cases (ltb a (slot + sector_bytes))) [
        | inl inside ↦ rw (high, inside) (past_slot a (ground arith) ∙ in_sector a (ground arith))
        | inr behind ↦
            rw (high, behind) (past_slot a (ground arith) ∙ behind_sector a (ground arith))
      ]
    ])
