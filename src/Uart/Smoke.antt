-- ===== src/Uart/Smoke.antt =====
-- `run` of tools/uart_peer_smoke.py: transfers in both directions at two rates. The printed lines are left out.
pub mod Planned
pub mod Passed
mod Tests
use firmingo.Common.{
  ℕ, ◌-◌, ◌/◌, Bool, true, false, not, ◌&&◌, ◌||◌, List, [], ◌∷◌, Option, none, some, Result, ok,
  err, check, raise_if, map_err,
}
use firmingo.Common.Bytes.{Bytes, ascii}
use firmingo.Common.Run.{pure, lift, ◌>>=◌, ◌>>◌}
use firmingo.Python.{Fields, lookup, equals_int}
use firmingo.Soak.Run.{Hello}
use firmingo.Uart.Channel.{validate_channel, config_of}
use firmingo.Uart.Text.{decimal, fields, value_of, is_text}
use firmingo.Uart.Rig.{
  RigError, bad_identity, rebooted, bad_configuration, bad_counts, bad_diagnostics, bad_peer_counts,
  bad_channel, uart_config, owner, observer, serial_open, serial_status, serial_close,
  device_diagnostics, finished, Rig, write, connect, ask, command, check_counts, Comparison,
  all_same, is_below,
}
use firmingo.Uart.Rig.Transfer.{is_zero, to_peer, to_peer_late, to_board}
use Prim.Native.Nat.{bit_xor}
use Prim.Native.String.{String}
use text.Mathlib.Text.{◌==◌ as str_eq}

-- `PEER_VERSION`
abbrev pub peer_version : Bytes
peer_version = ascii "pico-uart-peer-v2"

abbrev pub check_channel : Hello → Result RigError (Unit {0})
check_channel hello = map_err bad_channel (validate_channel hello.channel)

abbrev pub config_in : Hello → Result RigError Fields
config_in hello = map_err bad_channel (config_of (lookup "config" hello.channel))

unfoldable pub verify_nano_configuration : String → ℕ → ℕ → Rig (Unit {0})
verify_nano_configuration boot_id baud actual_baud = do
  hello ← connect observer
  lift (check (str_eq hello.boot_id boot_id) rebooted)
  lift (check_channel hello)
  config ← lift (config_in hello)
  lift (
      check
        (equals_int (lookup "baud" config) baud
          && equals_int (lookup "actual_baud" config) actual_baud)
        bad_configuration)
  write (finished observer)

unfoldable pub identify : Rig Bytes
identify = do
  identity ← command (ascii "PING")
  lift (check (is_text (value_of (ascii "peer") (fields identity)) peer_version) bad_identity)
  pure identity

unfoldable pub read_baseline : Rig Fields
read_baseline = do
  hello ← connect owner
  lift (check_channel hello)
  baseline ← ask owner device_diagnostics
  write (finished owner)
  pure baseline

-- The new owner, with both ends at their rate.
unfoldable pub open_rate : ℕ → ℕ → Rig (Unit {0})
open_rate baud actual_baud = do
  hello ← connect owner
  lift (check_channel hello)
  _ ← ask owner (serial_open (some (uart_config baud 8 "none" 1)))
  verify_nano_configuration hello.boot_id baud actual_baud
  _ ← command (ascii "CLEAR")
  _ ← command (ascii "MODE SINK")
  pure tt

unfoldable pub close_owner : Rig (Unit {0})
close_owner = do _ ← ask owner serial_close; write (finished owner)

-- `seed ^ 0xffffffff`
abbrev pub reverse_seed : ℕ → ℕ
reverse_seed seed = bit_xor seed 0xffffffff

unfoldable pub first_rate : ℕ → ℕ → Rig (Unit {0})
first_rate count seed = do
  open_rate 115200 115207
  to_peer (λ e. e) 8 count seed
  to_board (λ e. e) 8 count (reverse_seed seed)
  status ← ask owner serial_status
  lift (check_counts status count)
  close_owner

abbrev pub stable_names : List String
stable_names = "uart_rx_overrun_events" ∷ "uart_rx_lost_bytes_minimum" ∷ "tcp_errors" ∷ []

-- The peer's counters: `str(count)` twice, and no errors.
abbrev pub check_peer_counts : Bytes → ℕ → Result RigError (Unit {0})
check_peer_counts line count =
    let items = fields line in
    check
      (is_text (value_of (ascii "rx") items) (decimal count)
        && (is_text (value_of (ascii "tx") items) (decimal count)
            && (is_zero items (ascii "overruns") && is_zero items (ascii "mismatches"))))
      bad_peer_counts

module _ (py : Comparison) where
  -- The counters of errors are as they were, and no discarded byte is forgotten.
  unfoldable pub check_stable : Fields → Fields → Rig (Unit {0})
  check_stable current baseline = do
    lift (check (all_same py stable_names current baseline) bad_diagnostics)
    regressed ← lift (is_below py "uart_rx_discarded" current baseline)
    lift (raise_if regressed bad_diagnostics)

  unfoldable pub second_rate : ℕ → ℕ → Fields → Rig (Unit {0})
  second_rate count seed baseline = do
    open_rate 57600 57597
    to_peer_late 8 count seed
    to_board (λ e. e) 8 count (reverse_seed seed)
    status ← ask owner serial_status
    lift (check_counts status count)
    diagnostics ← ask owner device_diagnostics
    check_stable diagnostics baseline
    line ← command (ascii "STATS")
    lift (check_peer_counts line count)
    close_owner

  unfoldable pub run : ℕ → ℕ → Rig (Unit {0})
  run byte_count seed = do
    _ ← identify
    baseline ← read_baseline
    _ ← command (ascii "BAUD 115200")
    first_rate byte_count seed
    _ ← command (ascii "BAUD 57600")
    second_rate (byte_count / 2) (bit_xor seed 0x5a5a5a5a) baseline
