-- ===== src/Uf2.antt =====
-- experiments/managed_sketch/build_composite.py: the UF2 block format and the check of a resident image.
-- A UF2 image is a sequence of blocks of 512 bytes; each names the flash address of its 256 bytes of
-- payload. The proofs are in the modules below.
pub mod Resident
pub mod Bound
pub mod Memory
pub mod Capsule
pub mod Compose
pub mod Compare
mod Tests
use firmingo.Common.{
  ℕ, ◌+◌, ◌*◌, ◌%◌, Bool, true, false, not, ◌&&◌, ◌||◌, List, [], ◌∷◌, Result, ok, err, ◌>>=◌, ◌>>◌,
  raise_if, length, ltb, leb, ◌==◌,
}
use firmingo.Common.Bytes.{Bytes, slice, unpack_le, pieces, contains}

abbrev pub magic_start0 : ℕ
magic_start0 = 0x0A324655

abbrev pub magic_start1 : ℕ
magic_start1 = 0x9E5D5157

abbrev pub magic_end : ℕ
magic_end = 0x0AB16F30

abbrev pub family : ℕ
family = 0xE48BFF56

abbrev pub slot : ℕ
slot = 0x10200000

abbrev pub slot_end : ℕ
slot_end = 0x10600000

abbrev pub flash_start : ℕ
flash_start = 0x10000000

-- The messages of the `ValueError`s, one constructor for each.
pub data Uf2Error : Type 0 where
  bad_size bad_magic bad_profile bad_order outside_reservation duplicate_address : Uf2Error

-- `struct.unpack_from("<I", block, o)`
unfoldable pub word : ℕ → Bytes → ℕ
word o block = unpack_le (slice o 4 block)

abbrev pub address_of : Bytes → ℕ
address_of block = word 12 block

-- `block[32:288]`
abbrev pub payload_of : Bytes → Bytes
payload_of block = slice 32 256 block

-- One round of the loop: the address of the block, which joins the set of seen addresses.
unfoldable pub check_block : ℕ → ℕ → List ℕ → Bytes → Result Uf2Error ℕ
check_block total index seen block = do
  raise_if
      (not (word 0 block == magic_start0 && word 4 block == magic_start1)
        || not (word 508 block == magic_end))
      bad_magic
  raise_if (not (word 8 block == 0x2000 && (word 16 block == 256 && word 28 block == family)))
      bad_profile
  raise_if (not (word 20 block == index) || not (word 24 block == total)) bad_order
  raise_if
      (not (leb flash_start (address_of block) && ltb (address_of block) slot)
        || not (address_of block % 256 == 0))
      outside_reservation
  raise_if (contains (address_of block) seen) duplicate_address
  ok (address_of block)

unfoldable pub check_blocks : ℕ → ℕ → List ℕ → List Bytes → Result Uf2Error (Unit {0})
check_blocks total index seen [] = ok tt
check_blocks total index seen (block ∷ blocks) = do
  address ← check_block total index seen block
  check_blocks total (index + 1) (address ∷ seen) blocks

unfoldable pub checked_resident_bytes : Bytes → Result Uf2Error (List Bytes)
checked_resident_bytes data' = do
  raise_if (length data' == 0 || not (length data' % 512 == 0)) bad_size
  let blocks = pieces 512 data'
  check_blocks (length blocks) 0 [] blocks
  ok blocks
