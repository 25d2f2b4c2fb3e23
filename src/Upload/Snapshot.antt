-- ===== src/Upload/Snapshot.antt =====
-- `snapshot` of experiments/managed_sketch/fmgo_upload.py: a status that is about the selected transaction.
use firmingo.Common.{
  ℕ, Bool, true, false, ◌&&◌, Option, none, some, Result, ok, err, leb, ◌==◌, if◌then◌else◌,
}
use firmingo.Python.{Value, Fields, lookup, as_dict, as_int, as_bool, as_str, equals_str}
use firmingo.Upload.Session.{UploadError, status_mismatch}
use Prim.Native.String.{String}
use text.Mathlib.Text.{◌==◌ as str_eq}

pub data UploadState : Type 0 where
  accepted verified committing installed boot_confirmed failed aborted : UploadState

unfoldable pub state_of : String → Option UploadState
state_of s =
    if str_eq s "accepted"
    then some accepted
    else if str_eq s "verified"
    then some verified
    else if str_eq s "committing"
    then some committing
    else if str_eq s "installed"
    then some installed
    else if str_eq s "boot_confirmed"
    then some boot_confirmed
    else if str_eq s "failed"
    then some failed
    else if str_eq s "aborted"
    then some aborted
    else none

-- The fields of a checked status that the code reads afterwards.
pub record Snapshot : Type 0 where
  pub state : UploadState
  pub received : ℕ
  pub slot_touched : Bool

abbrev is_int : Option ℕ → ℕ → Bool
is_int none n = false
is_int (some m) n = m == n

abbrev is_text : Option String → Bool
is_text none = false
is_text (some s) = true

abbrev snapshot_fields : ℕ → Option String → Option ℕ → Option Bool → Option Snapshot
snapshot_fields size (some name) (some received) (some touched) = elim (state_of name) [
  | none ↦ none
  | some state ↦
      if leb received size
      then some (record { state = state; received = received; slot_touched = touched })
      else none
]
snapshot_fields size _ _ _ = none

-- The identity of the transaction, and then the types and ranges of the fields.
unfoldable pub snapshot_dict : Fields → ℕ → String → ℕ → Option Snapshot
snapshot_dict d upload_id digest size =
    if is_int (as_int (lookup "upload_id" d)) upload_id
      && (equals_str (lookup "sha256" d) digest
          && (is_int (as_int (lookup "size" d)) size && is_text (as_str (lookup "error" d))))
    then snapshot_fields size (as_str (lookup "state" d)) (as_int (lookup "received" d))
        (as_bool (lookup "slot_touched" d))
    else none

unfoldable pub snapshot : Value → ℕ → String → ℕ → Result UploadError Snapshot
snapshot value upload_id digest size = elim (as_dict value) [
  | none ↦ err status_mismatch
  | some d ↦ elim (snapshot_dict d upload_id digest size) [
    | none ↦ err status_mismatch
    | some s ↦ ok s
  ]
]

abbrev pub in_state : UploadState → UploadState → Bool
in_state accepted accepted = true
in_state verified verified = true
in_state committing committing = true
in_state installed installed = true
in_state boot_confirmed boot_confirmed = true
in_state failed failed = true
in_state aborted aborted = true
in_state _ _ = false
