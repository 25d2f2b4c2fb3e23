-- ===== src/Uart/Rig.antt =====
-- What the UART tools share: the calls of the test peer and of the board's session (tools/uart_peer_smoke.py). The two devices answer through the lists of a `World`, which also holds the calls that were
-- made, in order; behind the end of a list every call fails.
pub mod Transfer
pub mod Plans
pub mod Collected
pub mod Taken
pub mod Delivered
pub mod Samples
use firmingo.Common.{
  ℕ, ◌+◌, Bool, true, false, not, ◌&&◌, ◌||◌, Option, none, some, List, [], ◌∷◌, ◌++◌, Result, ok,
  err, check, raise_if, map_err, length, drop, leb, ltb, ◌==◌, if◌then◌else◌,
}
use firmingo.Common.Bytes.{Bytes, bytes_eq, pieces, slice, ascii}
use firmingo.Common.Run.{Run, pure, lift, ◌>>=◌, ◌>>◌}
use firmingo.Python.{equals_str, Value, int, Fields, lookup}
use firmingo.Soak.Run.{Hello, bad_counters}
use firmingo.Uart.{PatternError, pattern}
use firmingo.Uart.Channel.{ChannelError}
use firmingo.Uart.Text.{decimal, starts_with, fields, value_of, is_text}
use Prim.Native.String.{String}

-- `lost` is any exception of the port, the socket or the session, and `type_error` one of a comparison.
pub data RigError : Type 0 where
  lost type_error command_failed not_refused unexpected_event peer_failure unexpected_frame
        extra_bytes :
      RigError
  bad_identity rebooted bad_configuration mismatch bad_counts bad_diagnostics bad_peer_counts :
      RigError
  missing_counter counter_changed bad_peak state_changed no_overrun no_loss bad_pending not_drained
        not_discarded :
      RigError
  bad_pattern : PatternError → RigError
  bad_channel : ChannelError → RigError
  to_peer_failed to_board_failed : RigError → RigError

pub data Reply (A : Type 0) : Type 0 where
  gives : A → Reply A
  fails : Reply A

-- The dictionary of `uart_config`.
pub record Config : Type 0 where
  pub baud : ℕ
  pub data_bits : ℕ
  pub parity : String
  pub stop_bits : ℕ
  pub flow_control : String

abbrev pub uart_config : ℕ → ℕ → String → ℕ → Config
uart_config baud data_bits parity stop_bits = record {
  baud = baud;
  data_bits = data_bits;
  parity = parity;
  stop_bits = stop_bits;
  flow_control = "none";
}

-- The session that owns the channel, and another one.
pub data Role : Type 0 where
  owner observer : Role

pub data Operation : Type 0 where
  serial_open : Option Config → Operation
  serial_configure : Config → Operation
  serial_status serial_close device_diagnostics device_reset : Operation

-- The calls: a text to the peer, a new session, a request, a request that must fail with an error code, a frame with its payload, the exact
-- echo of some bytes, a burst of some requests of some bytes that the device must refuse, the end of a session.
pub data Event : Type 0 where
  commanded : Bytes → Event
  connected : Role → Event
  asked : Role → Operation → Event
  denied : Role → Operation → String → Event
  sent : Bytes → Event
  echoed : Role → ℕ → Event
  bursted : Role → ℕ → ℕ → Event
  finished : Role → Event

-- The response to a request: its `result`, or its `error`.
pub data Answer : Type 0 where
  success failure : Fields → Answer

-- A decoded frame: `kind`, `request` and a payload of `size` bytes.
pub record SerialFrame : Type 0 where
  pub kind : ℕ
  pub request : ℕ
  pub payload : Bytes

-- An entry of the report of the format matrix (tools/uart_format_matrix.py).
pub record Case : Type 0 where
  pub config : Config
  pub actual_baud : ℕ
  pub count : ℕ
  pub seed : ℕ
  pub status : Fields
  pub diagnostics : Fields
  pub stats : Bytes

pub record World : Type 0 where
  pub lines : List (Reply Bytes)
  pub writes : List (Reply (Unit {0}))
  pub hellos : List (Reply Hello)
  pub documents : List (Reply Answer)
  pub frames : List (Reply SerialFrame)
  pub events : List Event
  pub passed : List Case

abbrev pub Rig : Type 0 → Type 0
Rig = Run World RigError

abbrev pub reply : {A : Type 0} → List (Reply A) → Result RigError A
reply [] = err lost
reply (gives a ∷ rest) = ok a
reply (fails ∷ rest) = err lost

abbrev pub behind : {A : Type 0} → List (Reply A) → List (Reply A)
behind [] = []
behind (a ∷ rest) = rest

-- A call whose result is only whether it returns: `os.write`, `sendall`, `echo`, `finish`.
unfoldable pub write : Event → Rig (Unit {0})
write e w = (reply w.writes, record w { writes = behind w.writes; events = w.events ++ (e ∷ []) })

-- `PicoPeer._line`
unfoldable pub read_line : Rig Bytes
read_line w = (reply w.lines, record w { lines = behind w.lines })

-- `Probe(…)`, which checks the hello.
unfoldable pub connect : Role → Rig Hello
connect role w = (
  reply w.hellos,
  record w { hellos = behind w.hellos; events = w.events ++ (connected role ∷ []) },
)

abbrev pub result_of : Result RigError Answer → Result RigError Fields
result_of (ok (success d)) = ok d
result_of (ok (failure d)) = err command_failed
result_of (err e) = err e

abbrev pub failure_of : String → Result RigError Answer → Result RigError Fields
failure_of code (ok (success d)) = err not_refused
failure_of code (ok (failure d)) =
    if equals_str (lookup "code" d) code then ok d else err not_refused
failure_of code (err e) = err e

-- `probe.command(…)`
unfoldable pub ask : Role → Operation → Rig Fields
ask role operation w = (
  result_of (reply w.documents),
  record w { documents = behind w.documents; events = w.events ++ (asked role operation ∷ []) },
)

-- `probe.command(…, expected_error=code)`
unfoldable pub deny : Role → Operation → String → Rig Fields
deny role operation code w = (
  failure_of code (reply w.documents),
  record w {
    documents = behind w.documents;
    events = w.events ++ (denied role operation code ∷ []);
  },
)

-- `report['cases'].append(result)`
unfoldable pub pass_case : Case → Rig (Unit {0})
pass_case c w = (ok tt, record w { passed = w.passed ++ (c ∷ []) })

unfoldable pub command : Bytes → Rig Bytes
command text = do
  write (commanded text)
  line ← read_line
  lift (check (starts_with (ascii "OK") line) command_failed)
  pure line

-- `command(text, expected_error)`
unfoldable pub refused : Bytes → Bytes → Rig (Unit {0})
refused text error = do
  write (commanded text)
  line ← read_line
  lift (check (bytes_eq line (ascii "ERR " ++ error)) not_refused)

-- The loop of `event`.
unfoldable pub await : Bytes → List (Reply Bytes) → Result RigError Bytes × List (Reply Bytes)
await expected [] = (err lost, [])
await expected (fails ∷ lines) = (err lost, lines)
await expected (gives line ∷ lines) =
    let rest = await expected lines in
    if starts_with expected line
    then (ok line, lines)
    else if starts_with (ascii "EVENT ") line
    then (err unexpected_event, lines)
    else rest

unfoldable pub event : Bytes → Rig Bytes
event name w =
    let (result, lines) = await (ascii "EVENT " ++ name) w.lines in
    (result, record w { lines = lines })

abbrev pub check_counts : Fields → ℕ → Result RigError (Unit {0})
check_counts status count = raise_if (bad_counters status count) bad_counts

abbrev pub get_or_zero : String → Fields → Value
get_or_zero key document = elim (lookup key document) [ none ↦ int 0 | some v ↦ v ]

-- The comparisons of Python on decoded values: `==` on what `get` gives, and `<` and `<=`, which may raise `TypeError`.
pub record Comparison : Type 0 where
  pub same : Option Value → Option Value → Bool
  pub below : Value → Value → Option Bool
  pub at_most : Value → Value → Option Bool

abbrev pub decided : Option Bool → Result RigError Bool
decided none = err type_error
decided (some b) = ok b

module _ (py : Comparison) where
  unfoldable pub all_same : List String → Fields → Fields → Bool
  all_same [] current baseline = true
  all_same (name ∷ names) current baseline =
      py.same (lookup name current) (lookup name baseline) && all_same names current baseline

  -- `current.get(name, 0) <= baseline.get(name, 0)`
  abbrev pub not_above : String → Fields → Fields → Result RigError Bool
  not_above name current baseline =
      decided (py.at_most (get_or_zero name current) (get_or_zero name baseline))

  -- `current.get(name, 0) < baseline.get(name, 0)`
  abbrev pub is_below : String → Fields → Fields → Result RigError Bool
  is_below name current baseline =
      decided (py.below (get_or_zero name current) (get_or_zero name baseline))
