-- ===== src/Soak/Run/Later.antt =====
-- The readings of a run follow each other (tools/soak.py, `run`).
use firmingo.Common.{
  ℕ, ◌≡◌, refl, sym, subst, Bool, true, false, Option, none, some, List, [], ◌∷◌, Result, ok, err,
  check, raise_if, map_err, map_err-eq-ok, leb, ◌==◌, if◌then◌else◌,
}
use firmingo.Common.Run.{pure, lift, ◌>>=◌, ◌>>◌}
use firmingo.Common.Run.Triple.{Post, Post-either, Triple, Triple-bind}
use firmingo.Python.{Fields}
use firmingo.Soak.{diagnostics}
use firmingo.Soak.Readings.{IsLater}
use firmingo.Soak.Series.{LaterThan, IsLater-refl, IsLater-trans, diagnostics-IsReading}
use firmingo.Soak.Run.{
  RunError, bad_reading, boot_changed, counters_mismatch, no_batch, bad_counters, known_boot, Reply,
  reply, Selection, Batch, Report, update, check_boot, or_else, read_counters, measure,
  first_reading, connect, ensure_session, check_counters, later_reading, begin_batch, count_batch,
  run_batch, close_session, ends_session, round, rounds, last_close, some_batch, body, empty_report,
  run,
}
use firmingo.Soak.Run.Accounts.{Keeps, Keeps-lift, Keeps-bind, Keeps-update, Keeps-if}
use text.Mathlib.Text.{◌==◌ as str_eq}
use Prim.Native.String.{String}

-- The first reading of a run, and the last one.
abbrev InOrder : Option Fields → Option Fields → Type 0
InOrder none last = Unit
InOrder (some first) none = ⊥
InOrder (some first) (some last) = IsLater first last

abbrev Kept : Report → Type 0
Kept w = InOrder w.initial_reading w.last_reading

-- A reading that is accepted against the last one.
next_reading :
    (first last : Option Fields) (reading : Fields)
    → InOrder first last
    → LaterThan last reading
    → InOrder first (some reading)
next_reading none last reading h k = tt
next_reading (some f) none reading h k = absurd h
next_reading (some f) (some l) reading h k = IsLater-trans f l reading h k

begin_reading :
    (first : Option Fields) (reading : Fields)
    → InOrder first (some reading)
    → InOrder (some (or_else first reading)) (some reading)
begin_reading none reading h = IsLater-refl reading
begin_reading (some f) reading h = h

-- After a reading.
abbrev Read : Fields → Report → Type 0
Read reading w = Kept w × (w.last_reading ≡ some reading)

read_at :
    (r : Result RunError Fields) (w : Report)
    → Kept w
    → ((reading : Fields) → r ≡ ok reading → LaterThan w.last_reading reading)
    → Post (λ reading v. Kept v × LaterThan v.last_reading reading) Kept r w
read_at (ok reading) w h k = (h, k reading refl)
read_at (err e) w h k = h

measure-Read :
    (document : Reply Fields) → Triple Kept (measure document) (λ reading w. Read reading w) Kept
unfolding measure read_counters ◌>>=◌
measure-Read document =
    Triple-bind Kept Kept (λ (d : Fields) w. Kept w) (λ reading w. Read reading w)
      (lift (reply document)) _ (Keeps-lift Kept _)
      (λ d.
        Triple-bind Kept Kept (λ (reading : Fields) w. Kept w × LaterThan w.last_reading reading)
          (λ reading w. Read reading w) (read_counters d) _
          (record {
            at = λ w h.
                read_at (map_err bad_reading (diagnostics w.last_reading d)) w h (λ reading e.
                  (diagnostics-IsReading w.last_reading d
                    (map_err-eq-ok bad_reading (diagnostics w.last_reading d) e)).1);
          })
          (λ reading. record {
            at = λ w h. (next_reading w.initial_reading w.last_reading reading h.0 h.1, refl);
          }))

module _ (a : Selection) where
  first_reading-Kept : (b : Batch) → Keeps Kept (first_reading a b)
  unfolding first_reading
  first_reading-Kept b =
      Triple-bind Kept Kept (λ reading w. Read reading w) (λ (x : Unit {0}) w. Kept w)
        (measure b.first_document) _ (measure-Read b.first_document)
        (λ reading.
          Triple-bind Kept (Read reading) (λ (x : Unit {0}) w. Kept w) (λ (x : Unit {0}) w. Kept w)
            (update (λ w. record w { initial_reading = some (or_else w.initial_reading reading) }))
            _
            (record {
              at = λ w h. subst (InOrder (some (or_else w.initial_reading reading))) (sym h.1) (
                  begin_reading w.initial_reading reading
                    (subst (InOrder w.initial_reading) h.1 h.0));
            })
            (λ _. Keeps-lift Kept _))

  later_reading-Kept : (b : Batch) → Keeps Kept (later_reading a b)
  unfolding later_reading
  later_reading-Kept b =
      Triple-bind Kept Kept (λ reading w. Read reading w) (λ (x : Option Fields) w. Kept w)
        (measure b.document) _ (measure-Read b.document)
        (λ reading.
          Triple-bind Kept (Read reading) (λ (x : Unit {0}) w. Kept w)
            (λ (x : Option Fields) w. Kept w) _ _
            (record { at = λ w h. (Keeps-lift Kept _).at w h.0 })
            (λ _. Keeps-lift Kept (ok (some reading))))

  check_boot-Kept : (observed : String) → Keeps Kept (check_boot observed)
  unfolding check_boot
  check_boot-Kept observed = record {
    at = λ w h.
        Post-either Kept (check (str_eq observed (known_boot w.boot observed)) boot_changed)
          (record w { boot = some (known_boot w.boot observed) }) h;
  }

  connect-Kept : (b : Batch) → Keeps Kept (connect a b)
  unfolding connect
  connect-Kept b = Keeps-bind Kept _ _ (Keeps-lift Kept _) (λ hello.
      Keeps-bind Kept _ _ (Keeps-update Kept _ (λ w h. h)) (λ _.
        Keeps-bind Kept _ _ (check_boot-Kept hello.boot_id) (λ _.
          Keeps-bind Kept _ _
            (Keeps-if Kept a.measured (first_reading a b) (pure tt) (first_reading-Kept b)
              (Keeps-lift Kept (ok tt)))
            (λ _. Keeps-bind Kept _ _ (Keeps-lift Kept _) (λ _.
              Keeps-bind Kept _ _ (Keeps-lift Kept _) (λ _. Keeps-update Kept _ (λ w h. h)))))))

  ensure_session-Kept : (b : Batch) → Keeps Kept (ensure_session a b)
  unfolding ensure_session
  ensure_session-Kept b = record { at = λ w h. at_session w w.connected h }
    where
      at_session :
          (w : Report) (connected : Bool)
          → Kept w
          → Post
              (λ (x : Unit {0}) v. Kept v)
              Kept
              (if connected then (ok tt, w) else connect a b w).0
              (if connected then (ok tt, w) else connect a b w).1
      at_session w true h = h
      at_session w false h = (connect-Kept b).at w h

  count_batch-Kept : (b : Batch) (batch bytes : ℕ) → Keeps Kept (count_batch a b batch bytes)
  unfolding count_batch check_counters
  count_batch-Kept b batch bytes = Keeps-bind Kept _ _ (Keeps-update Kept _ (λ w h. h)) (λ _.
      Keeps-bind Kept _ _ (Keeps-lift Kept _) (λ status.
        Keeps-bind Kept (check_counters status) _
          (record {
            at = λ w h.
                Post-either Kept (raise_if (bad_counters status w.session_bytes) counters_mismatch)
                  w h;
          })
          (λ _.
            Keeps-bind Kept _ _
              (Keeps-if Kept a.measured (later_reading a b) (pure none) (later_reading-Kept b)
                (Keeps-lift Kept (ok none)))
              (λ reading.
                Keeps-bind Kept _ _ (Keeps-update Kept _ (λ w h. h))
                  (λ _. Keeps-lift Kept (ok batch))))))

  run_batch-Kept : (b : Batch) → Keeps Kept (run_batch a b)
  unfolding run_batch begin_batch
  run_batch-Kept b =
      Keeps-bind Kept (begin_batch a) _ (record { at = λ w h. h })
        (λ batch.
          Keeps-bind Kept _ _ (Keeps-lift Kept _) (λ bytes.
            Keeps-bind Kept _ _ (Keeps-lift Kept _) (λ _. count_batch-Kept b batch bytes)))

  close_session-Kept :
      (closed finished : Reply (Unit {0})) → Keeps Kept (close_session closed finished)
  unfolding close_session
  close_session-Kept closed finished =
      Keeps-bind Kept _ _ (Keeps-lift Kept _)
        (λ _. Keeps-bind Kept _ _ (Keeps-lift Kept _) (λ _. Keeps-update Kept _ (λ w h. h)))

  rounds-Kept : (batches : List Batch) → Keeps Kept (rounds a batches)
  unfolding rounds round
  rounds-Kept [] = Keeps-lift Kept (ok tt)
  rounds-Kept (b ∷ batches) =
      Keeps-if Kept (leb a.deadline b.now) (pure tt) (do round a b; rounds a batches)
        (Keeps-lift Kept (ok tt))
        (Keeps-bind Kept (round a b) _
          (Keeps-bind Kept (ensure_session a b) _ (ensure_session-Kept b) (λ _.
            Keeps-bind Kept (run_batch a b) _ (run_batch-Kept b) (λ batch.
              Keeps-if Kept (ends_session a batch) (close_session b.closed b.finished) (pure tt)
                (close_session-Kept b.closed b.finished) (Keeps-lift Kept (ok tt)))))
          (λ _. rounds-Kept batches))

  last_close-Kept : (closed finished : Reply (Unit {0})) → Keeps Kept (last_close closed finished)
  unfolding last_close
  last_close-Kept closed finished = record { at = λ w h. at_close w w.connected h }
    where
      at_close :
          (w : Report) (connected : Bool)
          → Kept w
          → Post
              (λ (x : Unit {0}) v. Kept v)
              Kept
              (if connected then close_session closed finished w else (ok tt, w)).0
              (if connected then close_session closed finished w else (ok tt, w)).1
      at_close w true h = (close_session-Kept closed finished).at w h
      at_close w false h = h

  body-Kept :
      (batches : List Batch) (closed finished : Reply (Unit {0}))
      → Keeps Kept (body a batches closed finished)
  unfolding body some_batch
  body-Kept batches closed finished =
      Keeps-bind Kept (rounds a batches) _ (rounds-Kept batches) (λ _.
        Keeps-bind Kept (last_close closed finished) _ (last_close-Kept closed finished) (λ _.
          record {
            at = λ w h. Post-either Kept (raise_if (w.completed_batches == 0) no_batch) w h;
          }))

in_both :
    (r : Result RunError (Unit {0})) (w : Report)
    → Post (λ (x : Unit {0}) v. Kept v) Kept r w
    → Kept w
in_both (ok x) w h = h
in_both (err e) w h = h

-- However a run ends, and over all its sessions: the last reading that it took is later than the first one that its report
-- names. The minima of the heap and of the stack have not risen, and the peaks and the number of samples have not fallen.
pub run-IsLater :
    (a : Selection) (batches : List Batch) (closed finished : Reply (Unit {0}))
    {first last : Fields}
    → (run a batches closed finished).1.initial_reading ≡ some first
    → (run a batches closed finished).1.last_reading ≡ some last
    → IsLater first last
unfolding run
run-IsLater a batches closed finished {first} {last} h k =
    let after = body a batches closed finished empty_report in
    let ordered =
      in_both after.0 after.1 ((body-Kept a batches closed finished).at empty_report tt) in
    subst (λ (l : Option Fields). InOrder (some first) l) k
      (subst (λ (f : Option Fields). InOrder f after.1.last_reading) h ordered)
