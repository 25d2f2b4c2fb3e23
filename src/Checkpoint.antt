-- ===== src/Checkpoint.antt =====
-- `transfer` of experiments/managed_sketch/checkpoint_flash.py: an upload that stops at a flash checkpoint of the
-- device, with a journal that records the intent before the only commit.
pub mod Plan
pub mod Settled
pub mod Recorded
mod Tests
use firmingo.Common.{
  ℕ, ◌+◌, Bool, true, false, not, ◌&&◌, ◌||◌, Option, none, some, List, [], ◌∷◌, ◌++◌, Result, ok,
  err, check, raise_if, map_err, length, ◌==◌,
}
use firmingo.Common.Bytes.{Bytes, pieces}
use firmingo.Common.Run.{Run, pure, lift, ◌>>=◌, ◌>>◌}
use firmingo.Python.{Value}
use firmingo.Upload.Session.{
  Command, begin, chunk, finish, commit, UploadError, Answer, answered, raises_os_error,
  raises_session_error,
}
use firmingo.Upload.Snapshot.{Snapshot, snapshot, in_state, accepted, verified, committing}
use firmingo.Upload.Transfer.{begin_id}
use Prim.Native.String.{String}

-- The exceptions of the session and of the journal, and the messages of this file. `in_upload` are those of
-- `snapshot` and of the test of the identifier.
pub data CheckpointError : Type 0 where
  os_error session_error : CheckpointError
  in_upload : UploadError → CheckpointError
  not_new_stage chunk_differs not_verified unexpected_commit : CheckpointError

pub data Stage : Type 0 where
  staging commit_intent is_committing outcome_unknown : Stage

-- The dictionary `base`: the key `automaticReplay` is always False, and `cause` is the error itself.
pub record Journal : Type 0 where
  pub boot_id : String
  pub digest : String
  pub size : ℕ
  pub state : Stage
  pub commit_attempts : ℕ
  pub upload_id : Option ℕ
  pub reply : Option Snapshot
  pub cause : Option CheckpointError

-- What is on disk and what went to the device, in order.
pub data Event : Type 0 where
  saved : Journal → Event
  sent : Command → Event

-- What each request and each write of the journal will meet, and what happened. A write that raises saves nothing.
pub record World : Type 0 where
  pub replies : List (Answer Value)
  pub writes : List (Answer (Unit {0}))
  pub events : List Event

abbrev pub Act : Type 0 → Type 0
Act = Run World CheckpointError

abbrev pub outcome : {A : Type 0} → Answer A → Result CheckpointError A
outcome (answered a) = ok a
outcome raises_os_error = err os_error
outcome raises_session_error = err session_error

abbrev pub logged : Result CheckpointError (Unit {0}) → Journal → List Event → List Event
logged (ok _) j events = events ++ (saved j ∷ [])
logged (err e) j events = events

-- The next answer; behind the last one the connection is lost.
abbrev pub next : {A : Type 0} → List (Answer A) → Answer A × List (Answer A)
next [] = (raises_os_error, [])
next (a ∷ rest) = (a, rest)

-- `save(base)`
unfoldable pub save : Journal → Act (Unit {0})
save j w =
    let (a, rest) = next w.writes in
    (outcome a, record w { writes = rest; events = logged (outcome a) j w.events })

-- `probe.command(…)` and `probe.upload_chunk(…)`
unfoldable pub request : Command → Act Value
request c w =
    let (a, rest) = next w.replies in
    (outcome a, record w { replies = rest; events = w.events ++ (sent c ∷ []) })

-- The transaction: its identifier, and the digest and size of the capsule.
pub record Selected : Type 0 where
  pub upload_id : ℕ
  pub digest : String
  pub size : ℕ

abbrev pub check_status : Selected → Value → Act Snapshot
check_status t value = lift (map_err in_upload (snapshot value t.upload_id t.digest t.size))

unfoldable pub ask : Selected → Command → Act Snapshot
ask t c = do value ← request c; check_status t value

-- The loop over the chunks, from `offset` on.
unfoldable pub send_chunks : Selected → ℕ → List Bytes → Act (Unit {0})
send_chunks t offset [] = pure tt
send_chunks t offset (part ∷ parts) = do
  value ← ask t (chunk t.upload_id offset part)
  lift (
      raise_if
        (not (in_state value.state accepted)
          || (not (value.received == offset + length part) || value.slot_touched))
        chunk_differs)
  send_chunks t (offset + length part) parts

-- The `try`, with what it puts into the journal.
abbrev pub settled : Journal → Result CheckpointError Snapshot → Journal
settled j (ok reply) = record j { state = is_committing; reply = some reply }
settled j (err e) = record j { state = outcome_unknown; cause = some e }

unfoldable pub send_commit : Selected → Journal → Act Journal
send_commit t j w =
    let attempt : Act Snapshot = (do
      value ← ask t (commit t.upload_id)
      lift (check (in_state value.state committing) unexpected_commit)
      pure value) in
    let (result, w') = attempt w in (ok (settled j result), w')

-- The stage in the memory of the device.
unfoldable pub stage : Selected → Value → Bytes → Act (Unit {0})
stage t first capsule = do
  begun ← check_status t first
  lift (
      raise_if
        (not (in_state begun.state accepted) || (not (begun.received == 0) || begun.slot_touched))
        not_new_stage)
  send_chunks t 0 (pieces 1024 capsule)
  value ← ask t (finish t.upload_id)
  lift (raise_if (not (in_state value.state verified) || value.slot_touched) not_verified)

abbrev pub with_intent : Journal → ℕ → Journal
with_intent j upload_id = record j {
  state = commit_intent;
  upload_id = some upload_id;
  commit_attempts = 1;
}

module _ (hexdigest : Bytes → String) (boot_id : String) where
  abbrev pub selected : Bytes → ℕ → Selected
  selected capsule upload_id = record {
    upload_id = upload_id;
    digest = hexdigest capsule;
    size = length capsule;
  }

  abbrev pub first_journal : Bytes → Journal
  first_journal capsule = record {
    boot_id = boot_id;
    digest = hexdigest capsule;
    size = length capsule;
    state = staging;
    commit_attempts = 0;
    upload_id = none;
    reply = none;
    cause = none;
  }

  -- From the intent on.
  unfoldable pub record_commit : Bytes → ℕ → Act Journal
  record_commit capsule upload_id = do
    save (with_intent (first_journal capsule) upload_id)
    base ← send_commit (selected capsule upload_id) (with_intent (first_journal capsule) upload_id)
    save base
    pure base

  unfoldable pub transfer : Bytes → Act Journal
  transfer capsule = do
    save (first_journal capsule)
    first ← request (begin (length capsule) (hexdigest capsule))
    upload_id ← lift (map_err in_upload (begin_id first))
    stage (selected capsule upload_id) first capsule
    record_commit capsule upload_id
