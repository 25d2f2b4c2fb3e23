-- ===== src/Checkpoint/Plan.antt =====
-- The events of each part of a transfer.
use firmingo.Common.{
  ℕ, ◌+◌, ◌≡◌, refl, sym, ◌∙◌, List, [], ◌∷◌, ◌++◌, Result, ok, err, append-nil, length,
}
use firmingo.Common.Bytes.{Bytes, pieces}
use firmingo.Common.Run.Logged.{LoggedPart, Logs, Logs-lift, Logs-bind, Logs-quiet, Logs-always}
use firmingo.Python.{Value}
use firmingo.Upload.Session.{Command, chunk, finish}
use firmingo.Checkpoint.{
  CheckpointError, Journal, Event, saved, sent, World, logged, save, request, Selected,
  check_status, ask, send_chunks, stage,
}

abbrev pub events_of : World → List Event
events_of w = w.events

-- The chunks, each at the offset where the one before it ends.
abbrev pub chunk_events : ℕ → ℕ → List Bytes → List Event
chunk_events upload_id offset [] = []
chunk_events upload_id offset (part ∷ parts) =
    sent (chunk upload_id offset part) ∷ chunk_events upload_id (offset + length part) parts

abbrev pub stage_events : ℕ → Bytes → List Event
stage_events upload_id capsule =
    chunk_events upload_id 0 (pieces 1024 capsule) ++ (sent (finish upload_id) ∷ [])

saved_part :
    (j : Journal) (w : World) (r : Result CheckpointError (Unit {0})) (w' : World)
    → w'.events ≡ logged r j w.events
    → LoggedPart events_of (saved j ∷ []) w (r, w')
saved_part j w (ok done) w' e = record {
  done = saved j ∷ [];
  rest = [];
  split = refl;
  log_is = e;
  all = λ a h. refl;
}
saved_part j w (err raised) w' e = record {
  done = [];
  rest = saved j ∷ [];
  split = refl;
  log_is = e ∙ sym (append-nil w.events);
  all = λ a h. cc;
}

pub Logs-save : (j : Journal) → Logs events_of (saved j ∷ []) (save j)
unfolding save
Logs-save j = record { at = λ w. saved_part j w (save j w).0 (save j w).1 refl }

pub events-request : (c : Command) (w : World) → (request c w).1.events ≡ w.events ++ (sent c ∷ [])
unfolding request
events-request c w = refl

pub Logs-request : (c : Command) → Logs events_of (sent c ∷ []) (request c)
Logs-request c = Logs-always events_of (sent c ∷ []) (request c) (events-request c)

pub Logs-ask : (t : Selected) (c : Command) → Logs events_of (sent c ∷ []) (ask t c)
unfolding ask
Logs-ask t c =
    Logs-bind events_of (sent c ∷ []) [] (check_status t) (request c) (Logs-request c)
      (λ value. Logs-lift events_of _)

Logs-send_chunks :
    (t : Selected) (offset : ℕ) (parts : List Bytes)
    → Logs events_of (chunk_events t.upload_id offset parts) (send_chunks t offset parts)
unfolding send_chunks
Logs-send_chunks t offset [] = Logs-lift events_of (ok tt)
Logs-send_chunks t offset (part ∷ parts) =
    Logs-bind events_of (sent (chunk t.upload_id offset part) ∷ [])
      (chunk_events t.upload_id (offset + length part) parts) _
      (ask t (chunk t.upload_id offset part)) (Logs-ask t _)
      (λ value.
        Logs-quiet events_of (chunk_events t.upload_id (offset + length part) parts) _ _
          (Logs-lift events_of _) (λ _. Logs-send_chunks t (offset + length part) parts))

pub Logs-stage :
    (t : Selected) (first : Value) (capsule : Bytes)
    → Logs events_of (stage_events t.upload_id capsule) (stage t first capsule)
unfolding stage
Logs-stage t first capsule = Logs-quiet events_of _ _ _ (Logs-lift events_of _) (λ begun.
    Logs-quiet events_of _ _ _ (Logs-lift events_of _) (λ _.
      Logs-bind events_of (chunk_events t.upload_id 0 (pieces 1024 capsule))
        (sent (finish t.upload_id) ∷ []) _ (send_chunks t 0 (pieces 1024 capsule))
        (Logs-send_chunks t 0 _)
        (λ _.
          Logs-bind events_of (sent (finish t.upload_id) ∷ []) [] _ (ask t (finish t.upload_id))
            (Logs-ask t _) (λ value. Logs-lift events_of _))))
