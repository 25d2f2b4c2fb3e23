-- ===== src/Uf2/Tests.antt =====
-- Runs of experiments/managed_sketch/{build_composite,compose_initial,export_resident}.py on small images.
use firmingo.Common.{join, ◌+◌, ◌≡◌, ◌↔◌, refl, some, All, [], ◌∷◌, ◌++◌, ok, length, replicate}
use firmingo.Common.Bytes.{Bytes, pack_le, pieces, pieces_fuel, contains, bytes_eq}
use firmingo.Uf2.{flash_start, slot, checked_resident_bytes, check_blocks, check_block, word}
use firmingo.Uf2.Capsule.{fms1, board_tag, half_word, any_set, bad_entry, checked_capsule}
use firmingo.Uf2.Resident.{IsBlock, InOrder, IsResident, checked_resident_bytes-IsResident}
use firmingo.Uf2.Capsule.Sound.{IsCapsule, checked_capsule_iff}
use firmingo.Uf2.Memory.{Place, read_byte, places}
use firmingo.Uf2.Compare.{check_uf2}
use firmingo.Uf2.Compare.Sound.{Writes, total_length, check_uf2_iff}
use firmingo.Uf2.Compose.Checked.{compose-InOrder, read_byte-compose}
use firmingo.Uf2.Compose.{padded_sector, compose, composite, slot_block, block_head}

abbrev resident : Bytes
resident = slot_block flash_start 0 1 (replicate 256 0)

abbrev no_sha256 : Bytes → Bytes
no_sha256 data' = replicate 32 0

-- A header of 256 bytes and four bytes of code.
abbrev capsule : Bytes
capsule =
    fms1
    ++ (1 ∷ 0 ∷ 64 ∷ 0 ∷ [])
    ++ pack_le 4 board_tag
    ++ pack_le 4 flash_start
    ++ pack_le 4 (slot + 256)
    ++ pack_le 4 4
    ++ pack_le 4 (slot + 257)
    ++ pack_le 4 (slot + 257)
    ++ replicate 32 0
    ++ replicate 192 0
    ++ (1 ∷ 2 ∷ 3 ∷ 4 ∷ [])

accepted : checked_resident_bytes resident ≡ ok (resident ∷ [])
unfolding checked_resident_bytes slot_block block_head check_blocks check_block word pieces
    pieces_fuel contains
accepted = refl

capsule_accepted : checked_capsule no_sha256 capsule ≡ ok flash_start
unfolding checked_capsule half_word any_set bad_entry word bytes_eq
capsule_accepted = refl

abbrev image : Bytes
image = join (composite (resident ∷ []) (padded_sector capsule))

composed : compose no_sha256 resident capsule flash_start ≡ ok image
unfolding compose checked_resident_bytes slot_block block_head check_blocks check_block word pieces
    pieces_fuel contains checked_capsule half_word any_set bad_entry bytes_eq
composed = refl

checked_resident_bytes-IsResident_example :
    (checked_resident_bytes resident ≡ ok (resident ∷ [])) ↔ IsResident resident (resident ∷ [])
checked_resident_bytes-IsResident_example =
    checked_resident_bytes-IsResident resident (resident ∷ [])

check_uf2_iff_example : (check_uf2 resident ((flash_start + 8, 0 ∷ 0 ∷ []) ∷ []) ≡ ok 2) ↔ (
    IsResident resident (pieces 512 resident)
    × All (λ (p : Place). Writes (pieces 512 resident) p.0 p.1) ((flash_start + 8, 0 ∷ 0 ∷ []) ∷ [])
    × (2 ≡ total_length ((flash_start + 8, 0 ∷ 0 ∷ []) ∷ [])))
check_uf2_iff_example = check_uf2_iff resident ((flash_start + 8, 0 ∷ 0 ∷ []) ∷ []) 2

compose-InOrder_example :
    InOrder (IsBlock (length (pieces 512 image))) 0 (pieces 512 image)
    × (length (pieces 512 image) ≡ length (pieces 512 resident) + 16)
compose-InOrder_example = compose-InOrder no_sha256 resident capsule flash_start composed

read_byte-compose_example : read_byte (places (pieces 512 image)) (slot + 257) ≡ some 2
read_byte-compose_example =
    read_byte-compose no_sha256 resident capsule flash_start composed (slot + 257)

checked_capsule_iff_example :
    (checked_capsule no_sha256 capsule ≡ ok flash_start) ↔ IsCapsule no_sha256 capsule flash_start
checked_capsule_iff_example = checked_capsule_iff no_sha256 capsule flash_start
