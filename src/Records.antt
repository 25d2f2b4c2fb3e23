-- ===== src/Records.antt =====
-- The byte comparison and the record check of tools/smoke.py.
pub mod Compare
pub mod Sound
mod Tests
use firmingo.Common.{
  ℕ, zero, suc, ◌+◌, ◌-◌, ◌*◌, ◌/◌, ◌%◌, ◌^◌, min, Bool, not, ◌&&◌, ◌||◌, List, [], ◌∷◌, Result, ok,
  err, ◌>>=◌, ◌>>◌, check, raise_if, map_err, length, drop, ltb, ◌==◌, if◌then◌else◌,
}
use Prim.Native.Nat.{bit_xor}
use firmingo.Common.Bytes.{Bytes, slice, unpack_le, bytes_eq}

-- `first_mismatch` has the position, the expected and the observed byte; `length_mismatch` the position
-- where the shorter one ends.
pub data BytesError : Type 0 where
  first_mismatch : (position wanted observed : ℕ) → BytesError
  length_mismatch : (position : ℕ) → BytesError

-- The loop over `zip(actual, expected)`.
unfoldable pub compare_pairs : ℕ → Bytes → Bytes → Result BytesError (Unit {0})
compare_pairs position (observed ∷ actual) (wanted ∷ expected) =
    check (observed == wanted) (first_mismatch position wanted observed)
    >> compare_pairs (position + 1) actual expected
compare_pairs position _ _ = ok tt

unfoldable pub compare_bytes : Bytes → Bytes → ℕ → Result BytesError (Unit {0})
compare_bytes actual expected offset = do
  compare_pairs offset actual expected
  check (length actual == length expected)
      (length_mismatch (offset + min (length actual) (length expected)))

pub data RecordError : Type 0 where
  wrong_size wrong_header : (sequence : ℕ) → RecordError
  in_payload : BytesError → RecordError

-- `b"PICO"`
abbrev pub pico : Bytes
pico = 0x50 ∷ 0x49 ∷ 0x43 ∷ 0x4F ∷ []

-- `i ^ key for i in range(first, first + count)`
unfoldable pub xor_run : ℕ → ℕ → ℕ → Bytes
xor_run key first zero = []
xor_run key first (suc count) = bit_xor first key ∷ xor_run key (first + 1) count

-- The magic, the sequence number, the payload's size and the flags; the uptime is not compared.
abbrev pub good_header : Bytes → ℕ → Bool
good_header record' sequence =
    bytes_eq (slice 0 4 record') pico
    && (unpack_le (slice 4 4 record') == sequence % 2 ^ 32
        && (unpack_le (slice 12 2 record') == 256 && unpack_le (slice 14 2 record') == 0))

unfoldable pub verify_record : Bytes → ℕ → Result RecordError (Unit {0})
verify_record record' sequence = do
  check (length record' == 272) (wrong_size sequence)
  check (good_header record' sequence) (wrong_header sequence)
  map_err in_payload
      (compare_bytes (drop 16 record') (xor_run (sequence % 256) 0 256) (sequence * 272 + 16))

-- The loop of `source` over the records that were received.
unfoldable pub verify_records : ℕ → List Bytes → Result RecordError (Unit {0})
verify_records sequence [] = ok tt
verify_records sequence (record' ∷ records) = do
  verify_record record' sequence
  verify_records (sequence + 1) records
