-- ===== src/Uart/Loopback.antt =====
-- `smoke` of tools/uart_smoke.py: the echo of a looped-back UART at two rates. The printed lines are left out, and the echoes
-- themselves are those of Fmgo/Echo.
pub mod Planned
mod Tests
use firmingo.Common.{
  ℕ, Bool, true, false, not, ◌&&◌, ◌||◌, Option, none, some, List, [], ◌∷◌, check, raise_if, ◌==◌,
}
use firmingo.Common.Run.{pure, lift, ◌>>=◌, ◌>>◌}
use firmingo.Python.{Value, int, neg, Fields, lookup, as_int, equals_int, equals_str}
use firmingo.Soak.Run.{Hello}
use firmingo.Uart.Channel.{is_positive}
use firmingo.Uart.Rig.{
  RigError, rebooted, bad_configuration, bad_counts, bad_diagnostics, Config, uart_config, owner,
  observer, serial_open, serial_configure, serial_status, device_diagnostics, echoed, Rig, write,
  connect, ask, deny,
}
use firmingo.Uart.Smoke.{check_channel, close_owner}
use Prim.Native.String.{String}
use text.Mathlib.Text.{◌==◌ as str_eq}

-- `TEST_CONFIGURATION`
abbrev pub test_configuration : Config
test_configuration = uart_config 115200 8 "none" 1

abbrev pub changed : Config
changed = uart_config 57600 8 "none" 1

unfoldable pub acknowledges : Config → Fields → Bool
acknowledges c result =
    (equals_int (lookup "baud" result) c.baud && equals_int (lookup "data_bits" result) c.data_bits)
    && ((equals_str (lookup "parity" result) c.parity
          && equals_int (lookup "stop_bits" result) c.stop_bits)
        && equals_str (lookup "flow_control" result) c.flow_control)

-- `type(value) is int`
abbrev pub is_integer : Option Value → Bool
is_integer (some (int n)) = true
is_integer (some (neg n)) = true
is_integer _ = false

-- Of an integer: it is not 0.
abbrev pub is_nonzero : Option Value → Bool
is_nonzero (some (int n)) = not (n == 0)
is_nonzero _ = true

unfoldable pub has_no_loss : Fields → Bool
has_no_loss d =
    (is_integer (lookup "uart_rx_overrun_events" d)
      && (is_integer (lookup "uart_rx_lost_bytes_minimum" d)
          && is_integer (lookup "uart_tx_throttles" d)))
    && not (
        is_nonzero (lookup "uart_rx_overrun_events" d)
        || is_nonzero (lookup "uart_rx_lost_bytes_minimum" d))

-- A second session of the same boot, which does not get the channel.
unfoldable pub refuse_second : Hello → Rig Hello
refuse_second hello = do
  other ← connect observer
  lift (check (str_eq other.boot_id hello.boot_id) rebooted)
  _ ← deny observer (serial_open none) "busy"
  pure other

unfoldable pub configure : Rig (Unit {0})
configure = do
  result ← ask owner (serial_configure changed)
  lift (
      check (acknowledges changed result && is_positive (as_int (lookup "actual_baud" result)))
        bad_configuration)

-- Both counters of the channel.
unfoldable pub check_total : ℕ → Rig Fields
check_total total = do
  status ← ask owner serial_status
  lift (
      check
        (equals_int (lookup "backend_rx_bytes" status) total
          && equals_int (lookup "backend_tx_bytes" status) total)
        bad_counts)
  pure status

unfoldable pub smoke : Rig (Fields × Fields)
smoke = do
  hello ← connect owner
  lift (check_channel hello)
  _ ← ask owner (serial_open (some test_configuration))
  _ ← refuse_second hello
  write (echoed owner 16384)
  configure
  write (echoed owner 4096)
  status ← check_total 20480
  diagnostics ← ask owner device_diagnostics
  lift (check (has_no_loss diagnostics) bad_diagnostics)
  close_owner
  pure (status, diagnostics)
