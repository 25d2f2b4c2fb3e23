-- ===== src/Uf2/Compare.antt =====
-- `check_uf2` of experiments/managed_sketch/export_resident.py: the bytes that an ELF file loads into flash
-- against the bytes of a UF2 image of the same resident.
pub mod Sound
use firmingo.Common.{
  ℕ, ◌+◌, ◌-◌, ◌%◌, Bool, true, false, Option, none, some, List, [], ◌∷◌, Result, ok, err, ◌>>=◌,
  ◌>>◌, check, map_err, length, get_elem?, ◌==◌, if◌then◌else◌,
}
use firmingo.Common.Bytes.{Bytes}
use firmingo.Uf2.{Uf2Error, address_of, payload_of, checked_resident_bytes}
use firmingo.Uf2.Memory.{Place}

pub data CompareError : Type 0 where
  in_image : Uf2Error → CompareError
  differs : CompareError

-- `image.get(key)` of the dictionary of the blocks: a later block replaces an earlier one.
unfoldable pub image_get : List Bytes → ℕ → Option Bytes
image_get [] key = none
image_get (block ∷ blocks) key = elim (image_get blocks key) [
  | some payload ↦ some payload
  | none ↦ if address_of block == key then some (payload_of block) else none
]

abbrev pub byte_at : Option Bytes → ℕ → Option ℕ
byte_at none i = none
byte_at (some payload) i = get_elem? payload i

abbrev pub is_byte : Option ℕ → ℕ → Bool
is_byte none x = false
is_byte (some y) x = y == x

-- The inner loop, from `position = address + offset` on. `position & ~255` and `position & 255`.
unfoldable pub compare_segment : List Bytes → ℕ → Bytes → Result CompareError (Unit {0})
compare_segment blocks position [] = ok tt
compare_segment blocks position (x ∷ xs) = do
  check (is_byte (byte_at (image_get blocks (position - position % 256)) (position % 256)) x)
      differs
  compare_segment blocks (position + 1) xs

unfoldable pub compare_flash : List Bytes → ℕ → List Place → Result CompareError ℕ
compare_flash blocks compared [] = ok compared
compare_flash blocks compared ((address, payload) ∷ flash) = do
  compare_segment blocks address payload
  compare_flash blocks (compared + length payload) flash

unfoldable pub check_uf2 : Bytes → List Place → Result CompareError ℕ
check_uf2 data' flash = do
  blocks ← map_err in_image (checked_resident_bytes data')
  compare_flash blocks 0 flash
