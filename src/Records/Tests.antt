-- ===== src/Records/Tests.antt =====
-- A mismatch and a record of tools/smoke.py.
use firmingo.Common.{◌≡◌, ◌↔◌, refl, [], ◌∷◌, ◌++◌, ok, err}
use firmingo.Common.Bytes.{Bytes, pack_le}
use firmingo.Records.{compare_pairs, compare_bytes, first_mismatch, verify_records, pico, xor_run}
use firmingo.Records.Compare.{FirstMismatch, compare_bytes-FirstMismatch}
use firmingo.Records.Sound.{AreRecords, verify_records_iff}

abbrev seen : Bytes
seen = 1 ∷ 2 ∷ []

abbrev awaited : Bytes
awaited = 1 ∷ 3 ∷ []

mismatched : compare_bytes seen awaited 5 ≡ err (first_mismatch 6 3 2)
unfolding compare_bytes compare_pairs
mismatched = refl

compare_bytes-FirstMismatch_example : FirstMismatch 5 seen awaited 6 3 2
compare_bytes-FirstMismatch_example = compare_bytes-FirstMismatch seen awaited 5 6 3 2 mismatched

abbrev first_record : Bytes
first_record =
    pico ++ pack_le 4 0 ++ pack_le 4 77 ++ pack_le 2 256 ++ pack_le 2 0 ++ xor_run 0 0 256

verify_records_iff_example :
    (verify_records 0 (first_record ∷ []) ≡ ok tt) ↔ AreRecords 0 (first_record ∷ [])
verify_records_iff_example = verify_records_iff 0 (first_record ∷ [])
