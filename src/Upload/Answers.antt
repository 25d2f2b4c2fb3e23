-- ===== src/Upload/Answers.antt =====
-- The answers of a device that follows the protocol, and the calls of `transfer` that meet them.
use firmingo.Common.{
  ℕ, ◌+◌, ◌≤◌, ◌≡◌, refl, ap, Bool, true, false, some, List, [], ◌∷◌, ◌++◌, ok, length, join, ◌==◌,
  ◌||◌, not, raise_if, arith, length-append,
}
use firmingo.Common.Bytes.{Bytes, pieces, join-pieces}
use firmingo.Common.Run.{◌>>=◌}
use firmingo.Python.{Value, obj, int, str, bool, end, field, lookup}
use firmingo.Upload.Session.{
  Network, Command, chunk_mismatch, chunk, finish, Answer, answered, request,
}
use firmingo.Upload.Snapshot.{
  UploadState, state_of, snapshot, snapshot_dict, accepted, verified, committing, boot_confirmed,
}
use firmingo.Upload.Transfer.{Selected, chunk_size, ask, send_chunks, stage}
use text.Mathlib.TextPositions.{eq_refl as str_eq_refl}
use Prim.Native.String.{String}

-- The status document of a transaction.
abbrev pub status_value : Selected → String → ℕ → Bool → Value
status_value t name received touched = obj (
    field "upload_id" (int t.upload_id) (
      field "sha256" (str t.digest) (
        field "size" (int t.size) (
          field "received" (int received) (
            field "slot_touched" (bool touched)
              (field "state" (str name) (field "error" (str "none") end)))))))

abbrev pub reply : Selected → String → ℕ → Bool → Answer Value
reply t name received touched = answered (status_value t name received touched)

pub snapshot-status_value :
    (t : Selected) (name : String) (state : UploadState) (received : ℕ) (touched : Bool)
    → state_of name ≡ some state
    → received ≤ t.size
    → snapshot (status_value t name received touched) t.upload_id t.digest t.size
      ≡ ok (record { state = state; received = received; slot_touched = touched })
unfolding snapshot snapshot_dict lookup
snapshot-status_value t name state received touched h k = ground (arith, h, k, str_eq_refl t.digest)

pub state_of-accepted : state_of "accepted" ≡ some accepted
unfolding state_of
state_of-accepted = refl

state_of-verified : state_of "verified" ≡ some verified
unfolding state_of
state_of-verified = refl

pub state_of-committing : state_of "committing" ≡ some committing
unfolding state_of
state_of-committing = refl

pub state_of-boot_confirmed : state_of "boot_confirmed" ≡ some boot_confirmed
unfolding state_of
state_of-boot_confirmed = refl

acknowledged : (n : ℕ) → raise_if (not true || (not (n == n) || false)) chunk_mismatch ≡ ok tt
acknowledged n = ground arith

abbrev pub net :
    List (Answer String) → List (Answer Value) → List (Answer (Unit {0})) → List Command → Network
net connections replies closes sent = record {
  connections = connections;
  replies = replies;
  closes = closes;
  sent = sent;
}

module _ (t : Selected) (cs : List (Answer String)) (ds : List (Answer (Unit {0}))) where
  -- A request whose response is a status of the transaction returns that status.
  pub ask-reply :
      (c : Command) (name : String) (state : UploadState) (received : ℕ) (touched : Bool)
      (more : List (Answer Value)) (log : List Command)
      → state_of name ≡ some state
      → received ≤ t.size
      → ask t c (net cs (reply t name received touched ∷ more) ds log) ≡ (
        ok (record { state = state; received = received; slot_touched = touched }),
        net cs more ds (log ++ (c ∷ [])),
      )
  unfolding ask request ◌>>=◌
  ask-reply c name state received touched more log h k =
      rw (snapshot-status_value t name state received touched h k) refl

  -- The acknowledgements of the chunks.
  abbrev pub chunk_replies : ℕ → List Bytes → List (Answer Value) → List (Answer Value)
  chunk_replies offset [] more = more
  chunk_replies offset (part ∷ parts) more =
      reply t "accepted" (offset + length part) false
      ∷ chunk_replies (offset + length part) parts more

  send_chunks-replies :
      (offset : ℕ) (parts : List Bytes) (more : List (Answer Value)) (log : List Command)
      → offset + length (join parts) ≤ t.size
      → (log' : List Command) × (send_chunks t offset parts
            (net cs (chunk_replies offset parts more) ds log)
          ≡ (ok tt, net cs more ds log'))
  unfolding send_chunks ◌>>=◌
  send_chunks-replies offset [] more log h = (log, refl)
  send_chunks-replies offset (part ∷ parts) more log h =
      let c = chunk t.upload_id offset part in
      let total = length-append part (join parts) in
      let (log', rest) =
        send_chunks-replies (offset + length part) parts more (log ++ (c ∷ [])) (omega arith) in
      let asked =
        ask-reply c "accepted" accepted (offset + length part) false
          (chunk_replies (offset + length part) parts more) log state_of-accepted (omega arith) in
      (log', rw (asked, acknowledged (offset + length part)) rest)

  pub stage-replies :
      (capsule : Bytes) (more : List (Answer Value)) (log : List Command)
      → length capsule ≡ t.size
      → (log' : List Command) × (stage t capsule (
            net cs
              (chunk_replies 0 (pieces chunk_size capsule) (reply t "verified" t.size false ∷ more))
              ds
              log)
          ≡ (ok tt, net cs more ds log'))
  unfolding stage ◌>>=◌
  stage-replies capsule more log h =
      let parts = pieces chunk_size capsule in
      let whole : join parts ≡ capsule = join-pieces chunk_size capsule (omega arith) in
      let (log', sent) =
        send_chunks-replies 0 parts (reply t "verified" t.size false ∷ more) log
          (omega (arith, ap length whole)) in
      let finished =
        ask-reply (finish t.upload_id) "verified" verified t.size false more log' state_of-verified
          (omega arith) in
      (log' ++ (finish t.upload_id ∷ []), rw (sent, finished) refl)
