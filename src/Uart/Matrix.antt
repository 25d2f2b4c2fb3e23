-- ===== src/Uart/Matrix.antt =====
-- tools/uart_format_matrix.py: every advertised format of the board's UART against the test peer. The times, the entry
-- of the case that is running and the writes of the report file are left out; `passed` of the world is the report's list of cases.
pub mod Planned
pub mod Delivered
pub mod PeerRefused
pub mod BoardRefused
pub mod Passed
mod Tests
use firmingo.Common.{
  ℕ, ◌+◌, ◌*◌, ◌-◌, ◌%◌, ◌^◌, Bool, true, false, not, ◌&&◌, ◌||◌, Option, none, some, List, [], ◌∷◌,
  ◌++◌, map, join, Result, ok, err, check, raise_if, leb, ltb, ◌==◌, if◌then◌else◌,
}
use firmingo.Common.Bytes.{Bytes, bytes_eq, ascii}
use firmingo.Common.Run.{pure, lift, ◌>>=◌, ◌>>◌}
use firmingo.Python.{Fields, end, field, lookup, equals_int, equals_str}
use firmingo.Soak.Run.{Hello}
use firmingo.Uart.Text.{decimal, fields, value_of}
use firmingo.Uart.Rig.{
  RigError, rebooted, bad_configuration, state_changed, to_peer_failed, to_board_failed, Config,
  uart_config, owner, observer, serial_open, serial_configure, serial_status, serial_close,
  device_diagnostics, finished, Case, Rig, write, connect, ask, deny, command, refused, pass_case,
  check_counts, Comparison,
}
use firmingo.Uart.Rig.Transfer.{to_peer, to_board}
use firmingo.Uart.Smoke.{
  check_channel, config_in, identify, close_owner, reverse_seed, check_stable, check_peer_counts,
}
use Prim.Native.String.{String}
use text.Mathlib.Text.{◌==◌ as str_eq}

abbrev pub parities : List String
parities = "none" ∷ "even" ∷ "odd" ∷ []

abbrev pub stops_of : ℕ → String → List Config
stops_of bits parity = map (uart_config 57600 bits parity) (1 ∷ 2 ∷ [])

abbrev pub parities_of : ℕ → List Config
parities_of bits = join (map (stops_of bits) parities)

unfoldable pub format_cases : List Config
format_cases = join (map parities_of (5 ∷ 6 ∷ 7 ∷ 8 ∷ []))

abbrev pub is_digit : ℕ → Bool
is_digit x = leb 48 x && leb x 57

-- The digits of `int(text)`, with single underscores between them; `after` tells that a digit stands before. The limit on
-- the number of digits is left out.
unfoldable pub int_digits : ℕ → Bool → Bytes → Option ℕ
int_digits n after [] = if after then some n else none
int_digits n after (x ∷ xs) = elim (is_digit x) [
  | true ↦ int_digits (n * 10 + (x - 48)) true xs
  | false ↦ elim (x == 95 && after) [ true ↦ int_digits n false xs | false ↦ none ]
]

-- Without the sign `+`; a negative number is refused below, and so has no value here.
abbrev pub unsigned : Bytes → Bytes
unsigned [] = []
unsigned (x ∷ xs) = if x == 43 then xs else x ∷ xs

abbrev pub int_of : Option Bytes → Option ℕ
int_of none = none
int_of (some text) = int_digits 0 false (unsigned text)

pub record PeerConfig : Type 0 where
  pub baud : ℕ
  pub actual_baud : ℕ
  pub data_bits : ℕ
  pub parity : Bytes
  pub stop_bits : ℕ

abbrev pub good_peer : PeerConfig → Bool
good_peer c =
    (leb 300 c.baud && leb c.baud 2000000)
    && (leb 1 c.actual_baud
        && ((leb 5 c.data_bits && leb c.data_bits 8)
            && ((bytes_eq c.parity (ascii "none")
                  || (bytes_eq c.parity (ascii "even") || bytes_eq c.parity (ascii "odd")))
                && (c.stop_bits == 1 || c.stop_bits == 2))))

abbrev pub present : {A : Type 0} → Option A → Result RigError A
present none = err bad_configuration
present (some a) = ok a

unfoldable pub parse_peer_configuration : Bytes → Rig PeerConfig
parse_peer_configuration line = do
  let values = fields line
  baud ← lift (present (int_of (value_of (ascii "baud") values)))
  actual_baud ← lift (present (int_of (value_of (ascii "actual_baud") values)))
  data_bits ← lift (present (int_of (value_of (ascii "data_bits") values)))
  parity ← lift (present (value_of (ascii "parity") values))
  stop_bits ← lift (present (int_of (value_of (ascii "stop_bits") values)))
  let c : PeerConfig = record {
    baud = baud;
    actual_baud = actual_baud;
    data_bits = data_bits;
    parity = parity;
    stop_bits = stop_bits;
  }
  lift (check (good_peer c) bad_configuration)
  pure c

abbrev pub configuration_command : Config → Bytes
configuration_command c =
    ascii "CONFIG "
    ++ (decimal c.baud
        ++ (32 ∷ (decimal c.data_bits ++ (32 ∷ (ascii c.parity ++ (32 ∷ decimal c.stop_bits))))))

unfoldable pub count_fields : Fields → ℕ
count_fields end = 0
count_fields (field k v rest) = count_fields rest + 1

-- `result == dict(requested, actual_baud=actual_baud)`: six keys.
unfoldable pub is_effective : Fields → Config → ℕ → Bool
is_effective result c actual_baud =
    count_fields result == 6
    && ((equals_int (lookup "baud" result) c.baud
          && equals_int (lookup "data_bits" result) c.data_bits)
        && ((equals_str (lookup "parity" result) c.parity
              && equals_int (lookup "stop_bits" result) c.stop_bits)
            && (equals_str (lookup "flow_control" result) c.flow_control
                && equals_int (lookup "actual_baud" result) actual_baud)))

unfoldable pub observe_nano_configuration : String → Rig Fields
observe_nano_configuration boot_id = do
  hello ← connect observer
  lift (check (str_eq hello.boot_id boot_id) rebooted)
  lift (check_channel hello)
  result ← lift (config_in hello)
  write (finished observer)
  pure result

-- What the board reports to another session, against what was requested.
unfoldable pub observe_effective : String → Config → ℕ → Rig (Unit {0})
observe_effective boot_id c actual_baud = do
  result ← observe_nano_configuration boot_id
  lift (check (is_effective result c actual_baud) bad_configuration)

abbrev pub same_peer : PeerConfig → PeerConfig → Bool
same_peer c d =
    (c.baud == d.baud && c.actual_baud == d.actual_baud)
    && (c.data_bits == d.data_bits && (bytes_eq c.parity d.parity && c.stop_bits == d.stop_bits))

unfoldable pub peer_configuration : Bytes → Rig PeerConfig
peer_configuration text = do line ← command text; parse_peer_configuration line

abbrev pub peer_invalid : List Bytes
peer_invalid =
    ascii "CONFIG 299 8 none 1"
    ∷ ascii "CONFIG 2000001 8 none 1"
    ∷ ascii "CONFIG 115200 4 none 1"
    ∷ ascii "CONFIG 115200 9 none 1"
    ∷ ascii "CONFIG 115200 8 mark 1"
    ∷ ascii "CONFIG 115200 8 none 3"
    ∷ ascii "CONFIG 115200 8 none 1 extra"
    ∷ []

unfoldable pub reject_commands : PeerConfig → List Bytes → Rig (Unit {0})
reject_commands before [] = pure tt
reject_commands before (text ∷ texts) = do
  refused text (ascii "invalid_config")
  after ← peer_configuration (ascii "STATS")
  lift (check (same_peer after before) state_changed)
  reject_commands before texts

unfoldable pub check_peer_invalid_configurations : Rig (Unit {0})
check_peer_invalid_configurations = do
  before ← peer_configuration (ascii "STATS")
  reject_commands before peer_invalid

abbrev pub nano_invalid : Config → List Config
nano_invalid c =
    record c { baud = 299 }
    ∷ record c { baud = 2000001 }
    ∷ record c { data_bits = 4 }
    ∷ record c { data_bits = 9 }
    ∷ record c { parity = "mark" }
    ∷ record c { stop_bits = 3 }
    ∷ record c { flow_control = "rts_cts" }
    ∷ []

unfoldable pub reject_configurations : String → Config → ℕ → List Config → Rig (Unit {0})
reject_configurations boot_id requested actual_baud [] = pure tt
reject_configurations boot_id requested actual_baud (c ∷ configs) = do
  _ ← deny owner (serial_configure c) "invalid_argument"
  observe_effective boot_id requested actual_baud
  reject_configurations boot_id requested actual_baud configs

-- The new owner opens the channel with the peer's rate known.
unfoldable pub open_case : String → Config → ℕ → Rig (Unit {0})
open_case boot_id c actual_baud = do
  hello ← connect owner
  lift (check (str_eq hello.boot_id boot_id) rebooted)
  lift (check_channel hello)
  _ ← ask owner (serial_open (some c))
  observe_effective boot_id c actual_baud

abbrev pub is_requested : PeerConfig → Config → Bool
is_requested p c =
    (p.baud == c.baud && p.data_bits == c.data_bits)
    && (bytes_eq p.parity (ascii c.parity) && p.stop_bits == c.stop_bits)

-- `(args.seed + index * 0x9e3779b9) & 0xffffffff`
abbrev pub case_seed : ℕ → ℕ → ℕ
case_seed seed index = (seed + index * 0x9e3779b9) % 2 ^ 32

abbrev pub cases_of : ℕ → ℕ → ℕ → List (Config × ℕ)
cases_of boundary_bytes format_bytes high_speed_bytes =
    (uart_config 300 8 "none" 1, boundary_bytes) ∷ map (λ c. (c, format_bytes)) format_cases
    ++ ((uart_config 2000000 8 "none" 1, high_speed_bytes) ∷ [])

module _ (py : Comparison) where
  unfoldable pub check_nano_invalid_configurations : String → Fields → Rig (Unit {0})
  check_nano_invalid_configurations boot_id baseline = do
    let requested = uart_config 115200 8 "none" 1
    peer ← peer_configuration (configuration_command requested)
    open_case boot_id requested peer.actual_baud
    _ ← command (ascii "CLEAR")
    reject_configurations boot_id requested peer.actual_baud (nano_invalid requested)
    diagnostics ← ask owner device_diagnostics
    check_stable py diagnostics baseline
    close_owner

  -- After the transfers: the counters of both ends.
  unfoldable pub finish_case : Fields → Config → ℕ → ℕ → ℕ → Rig Case
  finish_case baseline c actual_baud count seed = do
    status ← ask owner serial_status
    lift (check_counts status count)
    diagnostics ← ask owner device_diagnostics
    check_stable py diagnostics baseline
    line ← command (ascii "STATS")
    lift (check_peer_counts line count)
    close_owner
    pure (record {
      config = c;
      actual_baud = actual_baud;
      count = count;
      seed = seed;
      status = status;
      diagnostics = diagnostics;
      stats = line;
    })

  unfoldable pub run_case : String → Fields → Config → ℕ → ℕ → Rig Case
  run_case boot_id baseline c count seed = do
    peer ← peer_configuration (configuration_command c)
    lift (check (is_requested peer c) bad_configuration)
    open_case boot_id c peer.actual_baud
    _ ← command (ascii "CLEAR")
    _ ← command (ascii "MODE SINK")
    to_peer to_peer_failed c.data_bits count seed
    to_board to_board_failed c.data_bits count (reverse_seed seed)
    finish_case baseline c peer.actual_baud count seed

  unfoldable pub run_cases : String → Fields → ℕ → ℕ → List (Config × ℕ) → Rig (Unit {0})
  run_cases boot_id baseline seed index [] = pure tt
  run_cases boot_id baseline seed index ((c, count) ∷ cases) = do
    result ← run_case boot_id baseline c count (case_seed seed index)
    pass_case result
    run_cases boot_id baseline seed (index + 1) cases

  unfoldable pub run : ℕ → ℕ → ℕ → ℕ → Rig (Unit {0})
  run boundary_bytes format_bytes high_speed_bytes seed = do
    _ ← identify
    check_peer_invalid_configurations
    hello ← connect observer
    lift (check_channel hello)
    baseline ← ask observer device_diagnostics
    write (finished observer)
    check_nano_invalid_configurations hello.boot_id baseline
    run_cases hello.boot_id baseline seed 0 (cases_of boundary_bytes format_bytes high_speed_bytes)
