-- ===== src/Upload/Transfer.antt =====
-- `transfer` and `reconcile` of experiments/managed_sketch/fmgo_upload.py.
use firmingo.Common.{
  ℕ, ◌+◌, ◌-◌, ◌^◌, min, Bool, true, false, not, ◌&&◌, ◌||◌, Option, none, some, List, [], ◌∷◌,
  Result, ok, err, check, raise_if, length, ltb, leb, ◌==◌, if◌then◌else◌,
}
use firmingo.Common.Bytes.{Bytes, pieces}
use firmingo.Common.Run.{pure, lift, ◌>>=◌, ◌>>◌}
use firmingo.Fmgo.Frame.{max_payload}
use firmingo.Python.{Value, lookup, as_dict, as_int}
use firmingo.Upload.Session.{
  Session, Command, begin, chunk, finish, commit, status, UploadError, session_error, capsule_size,
  invalid_id, not_staged, chunk_mismatch, not_verified, unexpected_commit, boot_changed,
  not_disposed, connect, request, close,
}
use firmingo.Upload.Snapshot.{
  Snapshot, snapshot, in_state, accepted, verified, committing, boot_confirmed, failed, aborted,
}
use Prim.Native.String.{String}
use text.Mathlib.Text.{◌==◌ as str_eq}

abbrev pub max_size : ℕ
max_size = 4096

-- `min(TARGET['max_chunk'], probe.hello['max_payload'] - 8)`; the session accepts no other maximum payload.
abbrev pub chunk_size : ℕ
chunk_size = min 1024 (max_payload - 8)

-- The transaction that is selected: its identifier, and the digest and size of the capsule.
pub record Selected : Type 0 where
  pub upload_id : ℕ
  pub digest : String
  pub size : ℕ

abbrev pub check_status : Selected → Value → Session Snapshot
check_status t value = lift (snapshot value t.upload_id t.digest t.size)

-- A request whose response must be a status of the selected transaction.
unfoldable pub ask : Selected → Command → Session Snapshot
ask t c = do value ← request c; check_status t value

abbrev pub ended : Snapshot → Bool
ended s = in_state s.state boot_confirmed || in_state s.state failed || in_state s.state aborted

-- The `while True` of `reconcile`. `late` holds the results of the test `time.monotonic() >= deadline`,
-- round by round; from its end on the test holds, so the loop ends.
unfoldable pub poll : Selected → List Bool → Session Snapshot
poll t [] = do result ← ask t (status t.upload_id); close; pure result
poll t (late ∷ lates) = do
  result ← ask t (status t.upload_id)
  let rest = poll t lates
  let leave : Session Snapshot = (do close; pure result)
  if ended result || late then leave else rest

unfoldable pub reconcile : String → Selected → List Bool → Session Snapshot
reconcile boot_id t lates = do
  boot ← connect
  lift (check (str_eq boot boot_id) boot_changed)
  poll t lates

-- `begin.get('upload_id')`, an integer in 1..0xffffffff.
abbrev pub valid_id : Option ℕ → Result UploadError ℕ
valid_id none = err invalid_id
valid_id (some n) = if leb 1 n && ltb n (2 ^ 32) then ok n else err invalid_id

abbrev pub begin_id : Value → Result UploadError ℕ
begin_id value = elim (as_dict value) [
  | none ↦ err session_error
  | some d ↦ valid_id (as_int (lookup "upload_id" d))
]

-- The loop over the chunks, from `offset` on.
unfoldable pub send_chunks : Selected → ℕ → List Bytes → Session (Unit {0})
send_chunks t offset [] = pure tt
send_chunks t offset (part ∷ parts) = do
  value ← ask t (chunk t.upload_id offset part)
  lift (
      raise_if
        (not (in_state value.state accepted)
          || (not (value.received == offset + length part) || value.slot_touched))
        chunk_mismatch)
  send_chunks t (offset + length part) parts

-- `except (OSError, RuntimeError)`: a `ValueError` would pass.
abbrev pub is_caught : UploadError → Bool
is_caught capsule_size = false
is_caught _ = true

abbrev pub caught : Result UploadError (Unit {0}) → Result UploadError Bool
caught (ok _) = ok false
caught (err e) = if is_caught e then ok true else err e

-- The `try` round the commit: whether its reply was lost.
unfoldable pub send_commit : Selected → Session Bool
send_commit t w =
    let attempt : Session (Unit {0}) = (do
      value ← ask t (commit t.upload_id)
      lift (check (in_state value.state committing) unexpected_commit)) in
    let (result, w') = attempt w in (caught result, w')

unfoldable pub stage : Selected → Bytes → Session (Unit {0})
stage t capsule = do
  send_chunks t 0 (pieces chunk_size capsule)
  value ← ask t (finish t.upload_id)
  lift (raise_if (not (in_state value.state verified) || value.slot_touched) not_verified)

-- `commit_reply_lost`, after the orderly close that follows unless the reply was lost.
unfoldable pub commit_or_leave : Selected → Bool → Session Bool
commit_or_leave t install = do
  let decline : Session Bool = pure false
  lost ← if install then send_commit t else decline
  let leave : Session Bool = (do close; pure false)
  let lost_reply : Session Bool = pure true
  if lost then lost_reply else leave

-- The dictionary that `transfer` returns.
pub record Transfer : Type 0 where
  pub boot_id : String
  pub transaction : Snapshot
  pub selected : Selected
  pub commit_reply_lost : Bool

-- From the checks on the response to `flash.begin` to the end of the first connection.
unfoldable pub transact : Selected → Value → Bytes → Bool → Session Bool
transact t first capsule install = do
  begun ← check_status t first
  lift (
      raise_if
        (not (in_state begun.state accepted) || (not (begun.received == 0) || begun.slot_touched))
        not_staged)
  stage t capsule
  commit_or_leave t install

-- The second connection, and the checks on the transaction's last status.
unfoldable pub conclude : String → Selected → Bool → List Bool → Bool → Session Transfer
conclude boot_id t install lates lost = do
  final ← reconcile boot_id t lates
  lift (
      raise_if (not install && (not (in_state final.state aborted) || final.slot_touched))
        not_disposed)
  pure (record { boot_id = boot_id; transaction = final; selected = t; commit_reply_lost = lost })

module _ (hexdigest : Bytes → String) where
  abbrev pub selected : Bytes → ℕ → Selected
  selected capsule upload_id = record {
    upload_id = upload_id;
    digest = hexdigest capsule;
    size = length capsule;
  }

  unfoldable pub transfer : Bytes → Bool → List Bool → Session Transfer
  transfer capsule install lates = do
    lift (check (ltb 256 (length capsule) && leb (length capsule) max_size) capsule_size)
    boot_id ← connect
    first ← request (begin (length capsule) (hexdigest capsule))
    upload_id ← lift (begin_id first)
    lost ← transact (selected capsule upload_id) first capsule install
    conclude boot_id (selected capsule upload_id) install lates lost
