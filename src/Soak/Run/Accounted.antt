-- ===== src/Soak/Run/Accounted.antt =====
-- What a run's report accounts for, and when it passes (tools/soak.py, `run`).
use firmingo.Common.{
  ◌<◌, ◌≡◌, refl, sym, ap, subst, ◌∙◌, Bool, true, false, List, Result, ok, err, if◌then◌else◌,
  arith,
}
use firmingo.Common.Run.{lift, run-bind-eq-ok}
use firmingo.Soak.Run.{
  RunError, device_failed, interrupted, boot_changed, overrun_before, missing_field, bad_reading,
  bad_channel, overrun, count_mismatch, counters_mismatch, no_batch, Reply, reply, Selection, Batch,
  Report, close_session, rounds, last_close, some_batch, body, passed, status_of, empty_report, run,
}
use firmingo.Soak.Run.Accounts.{IsAccounted, IsAccounted-empty}
use firmingo.Soak.Run.Batches.{body-Acc, in_both}

-- However a run ends, its report accounts for its batches: the exact bytes are the completed batches times the selected
-- bytes; the samples and the omitted samples together are the batches; there are at most 64 samples, and none is omitted
-- before there are 64; and the samples are numbered from 1 on, each with the selected bytes.
pub run-IsAccounted :
    (a : Selection) (batches : List Batch) (closed finished : Reply (Unit {0}))
    → IsAccounted a (run a batches closed finished).1
unfolding run
run-IsAccounted a batches closed finished =
    in_both a (body a batches closed finished empty_report).0
      (body a batches closed finished empty_report).1
      ((body-Acc a batches closed finished).at empty_report (IsAccounted-empty a))

status-passed : (r : Result RunError (Unit {0})) → status_of r ≡ passed → r ≡ ok tt
status-passed (ok x) h = refl
status-passed (err device_failed) h = cc
status-passed (err interrupted) h = cc
status-passed (err boot_changed) h = cc
status-passed (err overrun_before) h = cc
status-passed (err overrun) h = cc
status-passed (err count_mismatch) h = cc
status-passed (err counters_mismatch) h = cc
status-passed (err no_batch) h = cc
status-passed (err missing_field) h = cc
status-passed (err (bad_reading e)) h = cc
status-passed (err (bad_channel e)) h = cc

close_session-closed :
    (closed finished : Reply (Unit {0})) (w : Report)
    → (close_session closed finished w).0 ≡ ok tt
    → (close_session closed finished w).1.connected ≡ false
unfolding close_session
close_session-closed closed finished w h =
    let (_, _, h1, e1) = run-bind-eq-ok (lift (reply closed)) _ w h in
    let (_, _, _, e2) = run-bind-eq-ok (lift (reply finished)) _ w h1 in
    ap (λ (r : Result RunError (Unit {0}) × Report). r.1.connected) (e1 ∙ e2)

last_close-closed :
    (closed finished : Reply (Unit {0})) (w : Report)
    → (last_close closed finished w).0 ≡ ok tt
    → (last_close closed finished w).1.connected ≡ false
unfolding last_close
last_close-closed closed finished w h = at_close w.connected refl h
  where
    at_close :
        (connected : Bool)
        → w.connected ≡ connected
        → (if connected then close_session closed finished w else (ok tt, w)).0 ≡ ok tt
        → (if connected then close_session closed finished w else (ok tt, w)).1.connected ≡ false
    at_close true e h = close_session-closed closed finished w h
    at_close false e h = e

some_batch-positive : (w : Report) → (some_batch w).0 ≡ ok tt → 0 < w.completed_batches
unfolding some_batch
some_batch-positive w h = ground (arith, h)

after_some_batch : (w : Report) → (some_batch w).1 ≡ w
unfolding some_batch
after_some_batch w = refl

body-passed :
    (a : Selection) (batches : List Batch) (closed finished : Reply (Unit {0})) (w : Report)
    → (body a batches closed finished w).0 ≡ ok tt
    → (v : Report) × (((body a batches closed finished w).1 ≡ v)
        × ((0 < v.completed_batches) × (v.connected ≡ false)))
unfolding body
body-passed a batches closed finished w h =
    let (_, _, h1, e1) = run-bind-eq-ok (rounds a batches) _ w h in
    let w1 = (rounds a batches w).1 in
    let (_, c, h2, e2) = run-bind-eq-ok (last_close closed finished) _ w1 h1 in
    let w2 = (last_close closed finished w1).1 in
    (
      w2,
      (
        ap (λ (r : Result RunError (Unit {0}) × Report). r.1) (e1 ∙ e2) ∙ after_some_batch w2,
        (some_batch-positive w2 h2, last_close-closed closed finished w1 c),
      ),
    )

-- A run passes only after a completed batch, and with no session left open.
pub run-passed :
    (a : Selection) (batches : List Batch) (closed finished : Reply (Unit {0}))
    → (run a batches closed finished).0 ≡ passed
    → (0 < (run a batches closed finished).1.completed_batches)
      × ((run a batches closed finished).1.connected ≡ false)
unfolding run
run-passed a batches closed finished h =
    let done = status-passed (body a batches closed finished empty_report).0 h in
    let (w, (same, (positive, shut))) = body-passed a batches closed finished empty_report done in
    subst (λ (w : Report). (0 < w.completed_batches) × (w.connected ≡ false)) (sym same)
      (positive, shut)
