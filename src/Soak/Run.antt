-- ===== src/Soak/Run.antt =====
-- `run` of tools/soak.py: batches of echoed bytes over sessions, and the report of them. The writes of the report file
-- and the printed lines are left out. The device and the clock answer through one `Batch` for each round of the
-- loop; behind the last one the duration has passed.
pub mod Accounts
mod Batches
pub mod Accounted
pub mod Later
mod Tests
use firmingo.Common.{
  ℕ, ◌+◌, ◌-◌, ◌*◌, ◌%◌, ◌^◌, Bool, true, false, not, ◌&&◌, ◌||◌, Option, none, some, List, [], ◌∷◌,
  ◌++◌, Result, ok, err, raise_if, check, map_err, length, leb, ltb, ◌==◌, if◌then◌else◌,
}
use firmingo.Common.Run.{Run, pure, lift, ◌>>=◌, ◌>>◌}
use firmingo.Python.{Fields, lookup, as_int, equals_int}
use firmingo.Soak.{ReadingError, diagnostics}
use firmingo.Uart.Channel.{ChannelError, validate_channel}
use Prim.Native.String.{String}
use text.Mathlib.Text.{◌==◌ as str_eq}

-- What a call of the session does: it returns, it raises an error that `run` catches, or the user interrupts it.
pub data Reply (A : Type 0) : Type 0 where
  gives : A → Reply A
  fails interrupts : Reply A

-- `missing_field` is a `KeyError`, which `run` does not catch.
pub data RunError : Type 0 where
  device_failed interrupted boot_changed overrun_before overrun count_mismatch counters_mismatch
        no_batch missing_field :
      RunError
  bad_reading : ReadingError → RunError
  bad_channel : ChannelError → RunError

abbrev pub reply : {A : Type 0} → Reply A → Result RunError A
reply (gives a) = ok a
reply fails = err device_failed
reply interrupts = err interrupted

pub record Selection : Type 0 where
  pub deadline : ℕ
  pub byte_count : ℕ
  pub reconnect_every : ℕ
  pub seed : ℕ
  pub measured : Bool
  pub uart : Bool

-- The boot identifier and the first channel of a hello.
pub record Hello : Type 0 where
  pub boot_id : String
  pub channel : Fields

-- What one round meets: the clock, and the answers to its calls in the order of the code. `echoed` is `result['bytes']`.
pub record Batch : Type 0 where
  pub now : ℕ
  pub connection : Reply Hello
  pub first_document : Reply Fields
  pub opened : Reply (Unit {0})
  pub echoed : Reply ℕ
  pub status : Reply Fields
  pub document : Reply Fields
  pub closed : Reply (Unit {0})
  pub finished : Reply (Unit {0})

pub record Sample : Type 0 where
  pub batch : ℕ
  pub bytes : ℕ
  pub seed : ℕ
  pub reading : Option Fields

-- The report's numbers and samples, and the variables of `run`: `connected` is `peer is not None`.
pub record Report : Type 0 where
  pub completed_batches : ℕ
  pub completed_sessions : ℕ
  pub exact_bytes : ℕ
  pub samples : List Sample
  pub omitted_samples : ℕ
  pub in_progress : Option (ℕ × ℕ)
  pub boot : Option String
  pub connected : Bool
  pub session_bytes : ℕ
  pub initial_reading : Option Fields
  pub last_reading : Option Fields
  pub last_sample : Option Sample

abbrev pub Soaking : Type 0 → Type 0
Soaking = Run Report RunError

abbrev pub max_samples : ℕ
max_samples = 64

abbrev pub update : (Report → Report) → Soaking (Unit {0})
update f w = (ok tt, f w)

-- `boot = observed` at the first hello; later ones must name the same boot.
abbrev pub known_boot : Option String → String → String
known_boot none observed = observed
known_boot (some boot) observed = boot

unfoldable pub check_boot : String → Soaking (Unit {0})
check_boot observed w =
    let boot = known_boot w.boot observed in
    (check (str_eq observed boot) boot_changed, record w { boot = some boot })

-- `reading[key]`, an integer, is not 0.
abbrev pub counts : Fields → String → Result RunError Bool
counts reading key = elim (as_int (lookup key reading)) [
  | none ↦ err missing_field
  | some n ↦ ok (not (n == 0))
]

-- `reading['uart_rx_overrun_events'] or reading['uart_rx_lost_bytes_minimum']`
unfoldable pub overran : Fields → Result RunError Bool
overran reading = elim (counts reading "uart_rx_overrun_events") [
  | err e ↦ err e
  | ok true ↦ ok true
  | ok false ↦ counts reading "uart_rx_lost_bytes_minimum"
]

abbrev pub raise_overrun : Result RunError Bool → RunError → Result RunError (Unit {0})
raise_overrun (err e) raised = err e
raise_overrun (ok lost) raised = raise_if lost raised

-- One reading of the counters.
unfoldable pub read_counters : Fields → Soaking Fields
read_counters d w = (map_err bad_reading (diagnostics w.last_reading d), w)

unfoldable pub measure : Reply Fields → Soaking Fields
measure document = do
  d ← lift (reply document)
  reading ← read_counters d
  update (λ w. record w { last_reading = some reading })
  pure reading

-- `firmware == 'uart' and (…)`
abbrev pub check_overrun : Bool → RunError → Fields → Soaking (Unit {0})
check_overrun uart raised reading =
    lift (if uart then raise_overrun (overran reading) raised else ok tt)

abbrev pub or_else : {A : Type 0} → Option A → A → A
or_else none a = a
or_else (some b) a = b

unfoldable pub first_reading : Selection → Batch → Soaking (Unit {0})
first_reading a b = do
  reading ← measure b.first_document
  update (λ w. record w { initial_reading = some (or_else w.initial_reading reading) })
  check_overrun a.uart overrun_before reading

-- `if peer is None`: a new session.
unfoldable pub connect : Selection → Batch → Soaking (Unit {0})
connect a b = do
  hello ← lift (reply b.connection)
  update (λ w. record w { connected = true })
  check_boot hello.boot_id
  if a.measured then first_reading a b else pure tt
  lift (if a.uart then map_err bad_channel (validate_channel hello.channel) else ok tt)
  lift (reply b.opened)
  update (λ w. record w { session_bytes = 0 })

unfoldable pub ensure_session : Selection → Batch → Soaking (Unit {0})
ensure_session a b w = if w.connected then (ok tt, w) else connect a b w

-- `(args.seed + batch * 0x9e3779b9) & 0xffffffff`
abbrev pub batch_seed : Selection → ℕ → ℕ
batch_seed a batch = (a.seed + batch * 0x9e3779b9) % 2 ^ 32

abbrev pub bad_counters : Fields → ℕ → Bool
bad_counters status n =
    not (equals_int (lookup "backend_rx_bytes" status) n)
    || (not (equals_int (lookup "backend_tx_bytes" status) n)
        || (not (equals_int (lookup "pending_to_backend" status) 0)
            || not (equals_int (lookup "pending_to_peer" status) 0)))

unfoldable pub check_counters : Fields → Soaking (Unit {0})
check_counters status w = (raise_if (bad_counters status w.session_bytes) counters_mismatch, w)

unfoldable pub later_reading : Selection → Batch → Soaking (Option Fields)
later_reading a b = do
  reading ← measure b.document
  check_overrun a.uart overrun reading
  pure (some reading)

-- The sums and the samples of the report.
abbrev pub add_sample : Selection → Sample → Report → Report
add_sample a sample w = record w {
  completed_batches = w.completed_batches + 1;
  exact_bytes = w.exact_bytes + a.byte_count;
  samples = if ltb (length w.samples) max_samples then w.samples ++ (sample ∷ []) else w.samples;
  omitted_samples =
      if ltb (length w.samples) max_samples then w.omitted_samples else w.omitted_samples + 1;
  last_sample = some sample;
  in_progress = none;
}

unfoldable pub begin_batch : Selection → Soaking ℕ
begin_batch a w =
    let batch = w.completed_batches in
    (ok batch, record w { in_progress = some (batch + 1, batch_seed a batch) })

-- After the count of the echoed bytes was checked.
unfoldable pub count_batch : Selection → Batch → ℕ → ℕ → Soaking ℕ
count_batch a b batch bytes = do
  update (λ w. record w { session_bytes = w.session_bytes + a.byte_count })
  status ← lift (reply b.status)
  check_counters status
  reading ← if a.measured then later_reading a b else pure none
  update (
      add_sample a
        (record { batch = batch + 1; bytes = bytes; seed = batch_seed a batch; reading = reading }))
  pure batch

unfoldable pub run_batch : Selection → Batch → Soaking ℕ
run_batch a b = do
  batch ← begin_batch a
  bytes ← lift (reply b.echoed)
  lift (raise_if (not (bytes == a.byte_count)) count_mismatch)
  count_batch a b batch bytes

-- `serial.close`, and the end of the session.
unfoldable pub close_session : Reply (Unit {0}) → Reply (Unit {0}) → Soaking (Unit {0})
close_session closed finished = do
  lift (reply closed)
  lift (reply finished)
  update (λ w. record w { connected = false; completed_sessions = w.completed_sessions + 1 })

abbrev pub ends_session : Selection → ℕ → Bool
ends_session a batch = (batch + 1) % a.reconnect_every == 0

unfoldable pub round : Selection → Batch → Soaking (Unit {0})
round a b = do
  ensure_session a b
  batch ← run_batch a b
  if ends_session a batch then close_session b.closed b.finished else pure tt

unfoldable pub rounds : Selection → List Batch → Soaking (Unit {0})
rounds a [] = pure tt
rounds a (b ∷ batches) =
    let rest = rounds a batches in if leb a.deadline b.now then pure tt else (do round a b; rest)

unfoldable pub last_close : Reply (Unit {0}) → Reply (Unit {0}) → Soaking (Unit {0})
last_close closed finished w = if w.connected then close_session closed finished w else (ok tt, w)

unfoldable pub some_batch : Soaking (Unit {0})
some_batch w = (raise_if (w.completed_batches == 0) no_batch, w)

unfoldable pub body :
    Selection → List Batch → Reply (Unit {0}) → Reply (Unit {0}) → Soaking (Unit {0})
body a batches closed finished = do rounds a batches; last_close closed finished; some_batch

pub data Status : Type 0 where
  passed was_interrupted failed : Status
  raises : RunError → Status

-- The `try` of `run`: the status, or the error that passes.
abbrev pub status_of : Result RunError (Unit {0}) → Status
status_of (ok _) = passed
status_of (err interrupted) = was_interrupted
status_of (err missing_field) = raises missing_field
status_of (err _) = failed

abbrev pub empty_report : Report
empty_report = record {
  completed_batches = 0;
  completed_sessions = 0;
  exact_bytes = 0;
  samples = [];
  omitted_samples = 0;
  in_progress = none;
  boot = none;
  connected = false;
  session_bytes = 0;
  initial_reading = none;
  last_reading = none;
  last_sample = none;
}

unfoldable pub run : Selection → List Batch → Reply (Unit {0}) → Reply (Unit {0}) → Status × Report
run a batches closed finished =
    let (result, report) = body a batches closed finished empty_report in (status_of result, report)
