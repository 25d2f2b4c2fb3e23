-- ===== src/Uf2/Capsule.antt =====
-- `checked_capsule` of build_composite.py, and `pinned_bytes` and `compose` of compose_initial.py.
-- SHA-256 is the parameter `sha256`, from bytes to the 32 bytes of the digest.
pub mod Sound
use firmingo.Common.{
  ℕ, ◌+◌, ◌-◌, ◌%◌, Bool, true, false, not, ◌&&◌, ◌||◌, [], ◌∷◌, Result, ok, ◌>>◌, raise_if, length,
  drop, ltb, leb, ◌==◌, if◌then◌else◌,
}
use firmingo.Common.Bytes.{Bytes, slice, unpack_le, bytes_eq}
use firmingo.Uf2.{slot, slot_end, flash_start, word}

pub data CapsuleError : Type 0 where
  outside_slot header_mismatch api_outside_flash bad_code_length sha_mismatch : CapsuleError
  entry_outside_code nonzero_padding : CapsuleError

-- `b"FMS1"`
abbrev pub fms1 : Bytes
fms1 = 0x46 ∷ 0x4D ∷ 0x53 ∷ 0x31 ∷ []

abbrev pub board_tag : ℕ
board_tag = 0x4F4E414E

-- `struct.unpack_from("<H", data, o)`
unfoldable pub half_word : ℕ → Bytes → ℕ
half_word o data' = unpack_le (slice o 2 data')

-- `any(data)`
unfoldable pub any_set : Bytes → Bool
any_set [] = false
any_set (b ∷ bs) = if b == 0 then any_set bs else true

-- `not entry & 1 or not code_at <= entry & ~1 < code_at + code_bytes`
unfoldable pub bad_entry : ℕ → ℕ → ℕ → Bool
bad_entry code_at code_bytes entry =
    not (entry % 2 == 1)
    || not (leb code_at (entry - entry % 2) && ltb (entry - entry % 2) (code_at + code_bytes))

-- The tests of the first four `if`s.
abbrev pub bad_size : Bytes → Bool
bad_size data' = ltb (length data') 257 || ltb (slot_end - slot) (length data')

abbrev pub bad_header : Bytes → Bool
bad_header data' = not (
    bytes_eq (slice 0 4 data') fms1
    && (half_word 4 data' == 1
        && (half_word 6 data' == 64 && (word 8 data' == board_tag && word 16 data' == slot + 256))))

abbrev pub bad_api : ℕ → Bool
bad_api api = not (leb flash_start api && ltb api slot) || not (api % 4 == 0)

abbrev pub bad_code_size : Bytes → Bool
bad_code_size data' = word 20 data' == 0 || not (length data' == word 20 data' + 256)

abbrev pub bad_digest : (Bytes → Bytes) → Bytes → Bool
bad_digest sha256 data' = not (bytes_eq (sha256 (drop 256 data')) (slice 32 32 data'))

unfoldable pub checked_capsule : (Bytes → Bytes) → Bytes → Result CapsuleError ℕ
checked_capsule sha256 data' = do
  raise_if (bad_size data') outside_slot
  let api = word 12 data'
  let code_at = word 16 data'
  let code_bytes = word 20 data'
  raise_if (bad_header data') header_mismatch
  raise_if (bad_api api) api_outside_flash
  raise_if (bad_code_size data') bad_code_length
  raise_if (bad_digest sha256 data') sha_mismatch
  raise_if (bad_entry code_at code_bytes (word 24 data')) entry_outside_code
  raise_if (bad_entry code_at code_bytes (word 28 data')) entry_outside_code
  raise_if (any_set (slice 64 192 data')) nonzero_padding
  ok api
