-- ===== src/Uf2/Compose.antt =====
-- experiments/managed_sketch/compose_initial.py: one image for the ROM, from a resident image and a capsule.
mod Words
pub mod Layout
mod Image
pub mod Checked
use firmingo.Common.{
  ℕ, ◌+◌, ◌-◌, ◌/◌, not, List, [], ◌∷◌, ◌++◌, Result, ok, ◌>>=◌, ◌>>◌, raise_if, map_err, length,
  replicate, join, ltb, ◌==◌,
}
use firmingo.Common.Bytes.{Bytes, splice, pack_le, pieces}
use firmingo.Uf2.{
  magic_start0, magic_start1, magic_end, family, slot, Uf2Error, checked_resident_bytes,
}
use firmingo.Uf2.Capsule.{CapsuleError, checked_capsule}

abbrev pub sector_bytes : ℕ
sector_bytes = 4096

pub data ComposeError : Type 0 where
  in_resident : Uf2Error → ComposeError
  in_capsule : CapsuleError → ComposeError
  capsule_too_big other_api : ComposeError

-- `struct.pack_into("<II", block, 20, index, total)` over the blocks of the resident.
unfoldable pub renumber : ℕ → ℕ → List Bytes → List Bytes
renumber index total [] = []
renumber index total (block ∷ blocks) =
    splice 20 (pack_le 4 index ++ pack_le 4 total) block ∷ renumber (index + 1) total blocks

-- The eight words of a block's header.
unfoldable pub block_head : ℕ → ℕ → ℕ → Bytes
block_head address index total =
    pack_le 4 magic_start0
    ++ (pack_le 4 magic_start1
        ++ (pack_le 4 0x2000
            ++ (pack_le 4 address
                ++ (pack_le 4 256 ++ (pack_le 4 index ++ (pack_le 4 total ++ pack_le 4 family))))))

-- A fresh block of 512 zeros, with the header, the payload and the closing magic written into it.
unfoldable pub slot_block : ℕ → ℕ → ℕ → Bytes → Bytes
unfolding block_head
slot_block address index total payload =
    splice 508 (pack_le 4 magic_end)
      (splice 32 payload (splice 0 (block_head address index total) (replicate 512 0)))

unfoldable pub slot_blocks : ℕ → ℕ → ℕ → List Bytes → List Bytes
unfolding slot_block
slot_blocks offset index total [] = []
slot_blocks offset index total (payload ∷ payloads) =
    slot_block (slot + offset) index total payload
    ∷ slot_blocks (offset + 256) (index + 1) total payloads

abbrev pub padded_sector : Bytes → Bytes
padded_sector capsule = capsule ++ replicate (sector_bytes - length capsule) 0xff

-- The blocks of the composite image.
unfoldable pub composite : List Bytes → Bytes → List Bytes
composite blocks sector =
    let total = length blocks + sector_bytes / 256 in
    renumber 0 total blocks ++ slot_blocks 0 (length blocks) total (pieces 256 sector)

unfoldable pub compose : (Bytes → Bytes) → Bytes → Bytes → ℕ → Result ComposeError Bytes
compose sha256 resident capsule expected_api = do
  blocks ← map_err in_resident (checked_resident_bytes resident)
  raise_if (ltb sector_bytes (length capsule)) capsule_too_big
  api ← map_err in_capsule (checked_capsule sha256 capsule)
  raise_if (not (api == expected_api)) other_api
  ok (join (composite blocks (padded_sector capsule)))
