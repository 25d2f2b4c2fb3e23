-- ===== src/Records/Sound.antt =====
-- `verify_record` accepts exactly the record with its sequence number.
use firmingo.Common.{
  ℕ, ◌+◌, ◌*◌, ◌%◌, ◌^◌, ◌≡◌, ◌↔◌, refl, Bool, true, false, List, [], ◌∷◌, ok, >>=-eq-ok, check,
  map_err-eq-ok, length, drop, ◌==◌, ==_iff, arith,
}
use firmingo.Common.Bytes.{Bytes, slice, unpack_le, bytes_eq_iff}
use firmingo.Records.{
  wrong_size, wrong_header, in_payload, pico, xor_run, good_header, compare_bytes, verify_record,
  verify_records,
}
use firmingo.Records.Compare.{compare_bytes_iff}

-- A record of the source: 16 bytes of header, and 256 bytes that depend on the sequence number.
pub record IsRecord (sequence : ℕ) (record' : Bytes) : Type 0 where
  pub full : length record' ≡ 272
  pub magic : slice 0 4 record' ≡ pico
  pub number : unpack_le (slice 4 4 record') ≡ sequence % 2 ^ 32
  pub size : unpack_le (slice 12 2 record') ≡ 256
  pub flags : unpack_le (slice 14 2 record') ≡ 0
  pub payload : drop 16 record' ≡ xor_run (sequence % 256) 0 256

good_header_iff :
    (record' : Bytes) (sequence : ℕ)
    → (good_header record' sequence ≡ true) ↔ (
        (slice 0 4 record' ≡ pico)
        × (unpack_le (slice 4 4 record') ≡ sequence % 2 ^ 32)
        × (unpack_le (slice 12 2 record') ≡ 256)
        × (unpack_le (slice 14 2 record') ≡ 0))
good_header_iff record' sequence =
    let (same, eq) = bytes_eq_iff (slice 0 4 record') pico in
    (λ h. ground (arith, same), λ h. ground (arith, eq h.0))

passed : {E : Type 0} (b : Bool) (e : E) {u : Unit {0}} → check b e ≡ ok u → b ≡ true
passed true e h = refl
passed false e h = cc

IsRecord-verified :
    (record' : Bytes) (sequence : ℕ)
    → verify_record record' sequence ≡ ok tt
    → IsRecord sequence record'
unfolding verify_record
IsRecord-verified record' sequence h =
    let (_, size_ok, h1) = >>=-eq-ok (check (length record' == 272) (wrong_size sequence)) _ h in
    let (_, head_ok, h2) =
      >>=-eq-ok (check (good_header record' sequence) (wrong_header sequence)) _ h1 in
    let size_is : (length record' == 272) ≡ true =
      passed (length record' == 272) (wrong_size sequence) size_ok in
    let (magic, number, size, flags) =
      (good_header_iff record' sequence).0
        (passed (good_header record' sequence) (wrong_header sequence) head_ok) in
    let compared =
      map_err-eq-ok in_payload
        (compare_bytes (drop 16 record') (xor_run (sequence % 256) 0 256) (sequence * 272 + 16))
        h2 in
    record {
      full = (==_iff (length record') 272).0 size_is;
      magic = magic;
      number = number;
      size = size;
      flags = flags;
      payload =
          (compare_bytes_iff (drop 16 record') (xor_run (sequence % 256) 0 256)
              (sequence * 272 + 16)).0
            compared;
    }

verified-IsRecord :
    (record' : Bytes) (sequence : ℕ)
    → IsRecord sequence record'
    → verify_record record' sequence ≡ ok tt
unfolding verify_record
verified-IsRecord record' sequence r =
    let size_is : (length record' == 272) ≡ true = (==_iff (length record') 272).1 r.full in
    let head : good_header record' sequence ≡ true =
      (good_header_iff record' sequence).1 (r.magic, r.number, r.size, r.flags) in
    let compared =
      (compare_bytes_iff (drop 16 record') (xor_run (sequence % 256) 0 256) (sequence * 272 + 16)).1
        r.payload in
    rw (size_is, head, compared) refl

-- Records that are numbered from `sequence` on.
abbrev pub AreRecords : ℕ → List Bytes → Type 0
AreRecords sequence [] = Unit
AreRecords sequence (record' ∷ records) =
    IsRecord sequence record' × AreRecords (sequence + 1) records

-- The records of a run are accepted exactly when each has 272 bytes, the header with its own number and
-- the payload that belongs to this number.
pub verify_records_iff :
    (sequence : ℕ) (records : List Bytes)
    → (verify_records sequence records ≡ ok tt) ↔ AreRecords sequence records
unfolding verify_records
verify_records_iff sequence [] = (λ h. tt, λ r. refl)
verify_records_iff sequence (record' ∷ records) =
    let (sound, complete) = verify_records_iff (sequence + 1) records in
    (
      λ h.
          let (_, one, rest) = >>=-eq-ok (verify_record record' sequence) _ h in
          (IsRecord-verified record' sequence one, sound rest),
      λ r. rw (verified-IsRecord record' sequence r.0) (complete r.1),
    )
