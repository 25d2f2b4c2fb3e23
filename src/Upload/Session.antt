-- ===== src/Upload/Session.antt =====
-- experiments/managed_sketch/fmgo_upload.py: an upload transaction over FMGO. The network and the device
-- answer through `Network`, which holds what each connection, request and orderly close will meet, in
-- order; the requests that were sent are logged. Sockets that are closed leave no trace in it.
-- `hexdigest` is the hexadecimal SHA-256 of some bytes.
use firmingo.Common.{ℕ, List, [], ◌∷◌, ◌++◌, Result, ok, err}
use firmingo.Common.Bytes.{Bytes}
use firmingo.Common.Run.{Run}
use firmingo.Python.{Value}
use Prim.Native.String.{String}

-- The requests of one transaction.
pub data Command : Type 0 where
  begin : (size : ℕ) → (sha256 : String) → Command
  chunk : (upload_id offset : ℕ) → Bytes → Command
  finish commit status : (upload_id : ℕ) → Command

-- `raise` of this file, and the exceptions of the session under it.
pub data UploadError : Type 0 where
  os_error session_error : UploadError
  capsule_size status_mismatch invalid_id not_staged chunk_mismatch not_verified : UploadError
  unexpected_commit boot_changed not_disposed : UploadError

-- What a call of the session returns or raises.
pub data Answer (A : Type 0) : Type 0 where
  answered : A → Answer A
  raises_os_error raises_session_error : Answer A

pub record Network : Type 0 where
  pub connections : List (Answer String)
  pub replies : List (Answer Value)
  pub closes : List (Answer (Unit {0}))
  pub sent : List Command

abbrev pub Session : Type 0 → Type 0
Session = Run Network UploadError

abbrev pub outcome : {A : Type 0} → Answer A → Result UploadError A
outcome (answered a) = ok a
outcome raises_os_error = err os_error
outcome raises_session_error = err session_error

-- `factory()`: the boot identifier of the device that answered. The session has checked the rest.
unfoldable pub connect : Session String
connect w = elim w.connections [
  | [] ↦ (err os_error, w)
  | a ∷ rest ↦ (outcome a, record w { connections = rest })
]

-- `probe.command(…)` and `probe.upload_chunk(…)`
unfoldable pub request : Command → Session Value
request c w = elim w.replies [
  | [] ↦ (err os_error, record w { sent = w.sent ++ (c ∷ []) })
  | a ∷ rest ↦ (outcome a, record w { replies = rest; sent = w.sent ++ (c ∷ []) })
]

-- `probe.finish()`
unfoldable pub close : Session (Unit {0})
close w = elim w.closes [
  | [] ↦ (err os_error, w)
  | a ∷ rest ↦ (outcome a, record w { closes = rest })
]
