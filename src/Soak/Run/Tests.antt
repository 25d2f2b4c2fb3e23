-- ===== src/Soak/Run/Tests.antt =====
-- Two batches of ten bytes in one session (tools/soak.py).
use firmingo.Common.{ℕ, ◌<◌, ◌≡◌, refl, false, true, some, List, [], ◌∷◌}
use firmingo.Common.Run.{◌>>=◌}
use firmingo.Python.{Fields, end, field, int, null, lookup}
use firmingo.Soak.Run.{
  gives, first_reading, later_reading, measure, read_counters, Selection, Batch, passed, check_boot,
  connect, ensure_session, check_counters, begin_batch, count_batch, run_batch, close_session,
  round, rounds, last_close, some_batch, body, run,
}
use firmingo.Soak.{present_in, all_in, num, bad_types, bad_levels, went_back, project, diagnostics}
use firmingo.Soak.Readings.{IsLater}
use firmingo.Soak.Run.Later.{run-IsLater}
use firmingo.Soak.Run.Accounts.{IsAccounted}
use firmingo.Soak.Run.Accounted.{run-IsAccounted, run-passed}

abbrev selection : Selection
selection = record {
  deadline = 100;
  byte_count = 10;
  reconnect_every = 2;
  seed = 1;
  measured = false;
  uart = false;
}

abbrev counters : ℕ → Fields
counters n = field "backend_rx_bytes" (int n) (
    field "backend_tx_bytes" (int n)
      (field "pending_to_backend" (int 0) (field "pending_to_peer" (int 0) end)))

abbrev document : ℕ → ℕ → Fields
document samples low = field "samples" (int samples) (
    field "heap_free" (int 900) (
      field "heap_min" (int low) (
        field "stack_free" (int 70) (
          field "stack_min" (int 60) (
            field "peak_to_backend" (int 5)
              (field "peak_to_peer" (int 6) (field "lwip_free" null end)))))))

abbrev batch : ℕ → ℕ → Batch
batch now n = record {
  now = now;
  connection = gives (record { boot_id = "boot"; channel = end });
  first_document = gives end;
  opened = gives tt;
  echoed = gives 10;
  status = gives (counters n);
  document = gives end;
  closed = gives tt;
  finished = gives tt;
}

abbrev batches : List Batch
batches = batch 0 10 ∷ batch 50 20 ∷ batch 100 10 ∷ []

passes : (run selection batches (gives tt) (gives tt)).0 ≡ passed
unfolding run body rounds round ensure_session connect check_boot begin_batch count_batch run_batch
    check_counters close_session last_close some_batch ◌>>=◌ lookup
passes = refl

run-IsAccounted_example : IsAccounted selection (run selection batches (gives tt) (gives tt)).1
run-IsAccounted_example = run-IsAccounted selection batches (gives tt) (gives tt)

run-passed_example :
    (0 < (run selection batches (gives tt) (gives tt)).1.completed_batches)
    × ((run selection batches (gives tt) (gives tt)).1.connected ≡ false)
run-passed_example = run-passed selection batches (gives tt) (gives tt) passes

-- With readings: one before the first batch, and one behind each batch.
abbrev measured : Selection
measured = record selection { measured = true }

abbrev measured_batches : List Batch
measured_batches =
    record (batch 0 10) {
      first_document = gives (document 1 800);
      document = gives (document 2 800);
    }
    ∷ record (batch 50 20) { document = gives (document 3 700) }
    ∷ []

first_is :
    (run measured measured_batches (gives tt) (gives tt)).1.initial_reading ≡ some (document 1 800)
unfolding run body rounds round ensure_session connect first_reading later_reading measure
    read_counters check_boot begin_batch count_batch run_batch check_counters close_session
    last_close some_batch diagnostics present_in all_in bad_types bad_levels went_back project num
    ◌>>=◌ lookup
first_is = refl

last_is :
    (run measured measured_batches (gives tt) (gives tt)).1.last_reading ≡ some (document 3 700)
unfolding run body rounds round ensure_session connect first_reading later_reading measure
    read_counters check_boot begin_batch count_batch run_batch check_counters close_session
    last_close some_batch diagnostics present_in all_in bad_types bad_levels went_back project num
    ◌>>=◌ lookup
last_is = refl

run-IsLater_example : IsLater (document 1 800) (document 3 700)
run-IsLater_example = run-IsLater measured measured_batches (gives tt) (gives tt) first_is last_is
