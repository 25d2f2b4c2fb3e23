-- ===== src/Soak/Run/Batches.antt =====
-- Each batch and each session keeps the accounts of a report (tools/soak.py, `run`).
use firmingo.Common.{
  ℕ, ◌+◌, ◌≡◌, refl, Bool, true, false, not, Option, none, some, List, [], ◌∷◌, Result, ok, err,
  raise_if, leb, ◌==◌, if◌then◌else◌, arith,
}
use firmingo.Common.Run.{pure, lift, ◌>>=◌, ◌>>◌}
use firmingo.Common.Run.Triple.{Post, Post-either, Triple, Triple-bind, Triple-known, Triple-weaken}
use firmingo.Python.{Fields}
use firmingo.Soak.Run.{
  RunError, overrun, count_mismatch, counters_mismatch, no_batch, bad_counters, Reply, reply,
  Selection, Batch, Report, Soaking, update, measure, check_overrun, ensure_session, batch_seed,
  check_counters, later_reading, add_sample, begin_batch, count_batch, run_batch, close_session,
  ends_session, round, rounds, last_close, some_batch, body,
}
use firmingo.Soak.Run.Accounts.{
  IsAccounted-add, Acc, Keeps, Keeps-lift, Keeps-bind, Keeps-update, Keeps-if, Keeps-measure,
  Keeps-ensure_session,
}

module _ (a : Selection) where
  -- Inside a batch: the accounts, and the number of the batch.
  abbrev In : ℕ → Report → Type 0
  In batch w = Acc a w × (w.completed_batches ≡ batch)

  Keeps-later_reading : (b : Batch) (batch : ℕ) → Keeps (In batch) (later_reading a b)
  unfolding later_reading
  Keeps-later_reading b batch =
      Keeps-bind (In batch) (measure b.document) _
        (Keeps-measure (In batch) b.document
          (λ w r h. (record { exact = h.0.exact; listed = h.0.listed }, h.1)))
        (λ reading.
          Keeps-bind (In batch) (check_overrun a.uart overrun reading) _ (Keeps-lift (In batch) _)
            (λ _. Keeps-lift (In batch) (ok (some reading))))

  Keeps-check_counters : (status : Fields) (batch : ℕ) → Keeps (In batch) (check_counters status)
  unfolding check_counters
  Keeps-check_counters status batch = record {
    at = λ w h.
        Post-either (In batch) (raise_if (bad_counters status w.session_bytes) counters_mismatch) w
          h;
  }

  -- Any action that keeps what holds inside the batch keeps the accounts if it raises.
  inside :
      {A : Type 0} (batch : ℕ) (m : Soaking A)
      → Keeps (In batch) m
      → Triple (In batch) m (λ (x : A) w. In batch w) (Acc a)
  inside {A} batch m t =
      Triple-weaken (In batch) (λ (x : A) w. In batch w) (In batch) (Acc a) m (λ w h. h.0) t

  then-inside :
      {A B : Type 0} (batch : ℕ) (m : Soaking A) (f : A → Soaking B)
      → Keeps (In batch) m
      → ((x : A) → Triple (In batch) (f x) (λ (y : B) w. Acc a w) (Acc a))
      → Triple (In batch) (m >>= f) (λ (y : B) w. Acc a w) (Acc a)
  then-inside {A} {B} batch m f t k =
      Triple-bind (Acc a) (In batch) (λ (x : A) w. In batch w) (λ (y : B) w. Acc a w) m f
        (inside batch m t) k

  counted_bytes :
      (bytes : ℕ)
      → raise_if (not (bytes == a.byte_count)) count_mismatch ≡ ok tt
      → bytes ≡ a.byte_count
  counted_bytes bytes h = ground (arith, h)

  add-Acc :
      (batch bytes : ℕ) (reading : Option Fields)
      → bytes ≡ a.byte_count
      → Triple
          (In batch)
          (update (
            add_sample a (record {
              batch = batch + 1;
              bytes = bytes;
              seed = batch_seed a batch;
              reading = reading;
            })))
          (λ (x : Unit {0}) w. Acc a w)
          (Acc a)
  add-Acc batch bytes reading e = record {
    at = λ w h. IsAccounted-add a _ w h.0 (omega (arith, h.1)) e;
  }

  count_batch-Acc :
      (b : Batch) (batch bytes : ℕ)
      → bytes ≡ a.byte_count
      → Triple (In batch) (count_batch a b batch bytes) (λ (x : ℕ) w. Acc a w) (Acc a)
  unfolding count_batch
  count_batch-Acc b batch bytes e =
      then-inside batch (update (λ w. record w { session_bytes = w.session_bytes + a.byte_count }))
        _
        (Keeps-update (In batch) _
          (λ w h. (record { exact = h.0.exact; listed = h.0.listed }, h.1)))
        (λ _. then-inside batch (lift (reply b.status)) _ (Keeps-lift (In batch) _) (λ status.
          then-inside batch (check_counters status) _ (Keeps-check_counters status batch) (λ _.
            then-inside batch (if a.measured then later_reading a b else pure none) _
              (Keeps-if (In batch) a.measured (later_reading a b) (pure none)
                (Keeps-later_reading b batch) (Keeps-lift (In batch) (ok none)))
              (λ reading.
                Triple-bind (Acc a) (In batch) (λ (x : Unit {0}) w. Acc a w) (λ (x : ℕ) w. Acc a w)
                  _ _ (add-Acc batch bytes reading e) (λ _. Keeps-lift (Acc a) (ok batch))))))

  run_batch-Acc : (b : Batch) → Keeps (Acc a) (run_batch a b)
  unfolding run_batch begin_batch
  run_batch-Acc b =
      Triple-bind (Acc a) (Acc a) In (λ (x : ℕ) w. Acc a w) (begin_batch a) _
        (record { at = λ w h. (record { exact = h.exact; listed = h.listed }, refl) })
        (λ batch. then-inside batch (lift (reply b.echoed)) _ (Keeps-lift (In batch) _) (λ bytes.
          let test = raise_if (not (bytes == a.byte_count)) count_mismatch in
          Triple-bind (Acc a) (In batch) (λ (x : Unit {0}) w. In batch w × (test ≡ ok x))
            (λ (x : ℕ) w. Acc a w) (lift test) _ (Triple-known (In batch) (Acc a) test (λ w h. h.0))
            (λ x. record {
              at = λ w h. (count_batch-Acc b batch bytes (counted_bytes bytes h.1)).at w h.0;
            })))

  close_session-Acc :
      (closed finished : Reply (Unit {0})) → Keeps (Acc a) (close_session closed finished)
  unfolding close_session
  close_session-Acc closed finished =
      Keeps-bind (Acc a) (lift (reply closed)) _ (Keeps-lift (Acc a) _) (λ _.
        Keeps-bind (Acc a) (lift (reply finished)) _ (Keeps-lift (Acc a) _)
          (λ _. Keeps-update (Acc a) _ (λ w h. record { exact = h.exact; listed = h.listed })))

  round-Acc : (b : Batch) → Keeps (Acc a) (round a b)
  unfolding round
  round-Acc b = Keeps-bind (Acc a) (ensure_session a b) _ (Keeps-ensure_session a b) (λ _.
      Keeps-bind (Acc a) (run_batch a b) _ (run_batch-Acc b) (λ batch.
        Keeps-if (Acc a) (ends_session a batch) (close_session b.closed b.finished) (pure tt)
          (close_session-Acc b.closed b.finished) (Keeps-lift (Acc a) (ok tt))))

  rounds-Acc : (batches : List Batch) → Keeps (Acc a) (rounds a batches)
  unfolding rounds
  rounds-Acc [] = Keeps-lift (Acc a) (ok tt)
  rounds-Acc (b ∷ batches) =
      Keeps-if (Acc a) (leb a.deadline b.now) (pure tt) (do round a b; rounds a batches)
        (Keeps-lift (Acc a) (ok tt))
        (Keeps-bind (Acc a) (round a b) _ (round-Acc b) (λ _. rounds-Acc batches))

  last_close-Acc : (closed finished : Reply (Unit {0})) → Keeps (Acc a) (last_close closed finished)
  unfolding last_close
  last_close-Acc closed finished = record { at = λ w h. at_close w w.connected h }
    where
      at_close :
          (w : Report) (connected : Bool)
          → Acc a w
          → Post
              (λ (x : Unit {0}) v. Acc a v)
              (Acc a)
              (if connected then close_session closed finished w else (ok tt, w)).0
              (if connected then close_session closed finished w else (ok tt, w)).1
      at_close w true h = (close_session-Acc closed finished).at w h
      at_close w false h = h

  pub body-Acc :
      (batches : List Batch) (closed finished : Reply (Unit {0}))
      → Keeps (Acc a) (body a batches closed finished)
  unfolding body some_batch
  body-Acc batches closed finished =
      Keeps-bind (Acc a) (rounds a batches) _ (rounds-Acc batches) (λ _.
        Keeps-bind (Acc a) (last_close closed finished) _ (last_close-Acc closed finished) (λ _.
          record {
            at = λ w h. Post-either (Acc a) (raise_if (w.completed_batches == 0) no_batch) w h;
          }))

  pub in_both :
      (r : Result RunError (Unit {0})) (w : Report)
      → Post (λ (x : Unit {0}) v. Acc a v) (Acc a) r w
      → Acc a w
  in_both (ok x) w h = h
  in_both (err e) w h = h
