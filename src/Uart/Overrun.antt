-- ===== src/Uart/Overrun.antt =====
-- `run` of tools/uart_overrun.py: one overrun of the board's receiver, and the recovery from it. The report and the pause of
-- a quarter of a second are left out.
pub mod Recovered
mod Tests
use firmingo.Common.{
  ℕ, Bool, true, false, not, Option, none, some, List, [], ◌∷◌, Result, ok, err, ◌>>=◌ as and_then,
  check, raise_if, if◌then◌else◌,
}
use firmingo.Common.Bytes.{Bytes, ascii}
use firmingo.Common.Run.{pure, lift, ◌>>=◌, ◌>>◌}
use firmingo.Python.{Value, int, Fields, lookup, equals_int}
use firmingo.Uart.Rig.{
  RigError, state_changed, no_overrun, no_loss, bad_pending, not_drained, not_discarded,
  bad_diagnostics, owner, observer, serial_open, serial_status, serial_close, device_diagnostics,
  finished, Rig, write, connect, ask, command, event, check_counts, get_or_zero, decided,
  Comparison, all_same, not_above,
}
use firmingo.Uart.Rig.Transfer.{two_numbers, to_peer_late, to_board}
use firmingo.Uart.Smoke.{check_channel, identify, close_owner, reverse_seed}
use Prim.Native.Nat.{bit_xor}
use Prim.Native.String.{String}

-- An empty UART before the burst.
unfoldable pub clean_up : Rig Fields
clean_up = do
  hello ← connect owner
  lift (check_channel hello)
  _ ← ask owner (serial_open none)
  _ ← ask owner serial_close
  baseline ← ask owner device_diagnostics
  write (finished owner)
  pure baseline

unfoldable pub burst : ℕ → ℕ → Rig Fields
burst burst_bytes seed = do
  _ ← command (two_numbers (ascii "SEND") burst_bytes seed)
  _ ← event (ascii "send_done")
  _ ← connect observer
  overflow ← ask observer device_diagnostics
  write (finished observer)
  pure overflow

-- `args.seed ^ 0xa5a5a5a5`
abbrev pub receive_seed : ℕ → ℕ
receive_seed seed = bit_xor seed 0xa5a5a5a5

abbrev pub kept_names : List String
kept_names = "uart_rx_overrun_events" ∷ "uart_rx_lost_bytes_minimum" ∷ []

abbrev pub recovered_names : List String
recovered_names =
    "uart_rx_overrun_events" ∷ "uart_rx_lost_bytes_minimum" ∷ "uart_rx_discarded" ∷ "tcp_errors"
    ∷ []

module _ (py : Comparison) where
  -- `1 <= value <= 256`
  unfoldable pub is_pending : Value → Result RigError Bool
  is_pending value =
      and_then (decided (py.at_most (int 1) value))
        (λ some_pending. if some_pending then decided (py.at_most value (int 256)) else ok false)

  unfoldable pub check_burst : Fields → Fields → Rig (Unit {0})
  check_burst overflow baseline = do
    still ← lift (not_above py "uart_rx_overrun_events" overflow baseline)
    lift (raise_if still no_overrun)
    kept ← lift (not_above py "uart_rx_lost_bytes_minimum" overflow baseline)
    lift (raise_if kept no_loss)
    pending ← lift (is_pending (get_or_zero "uart_rx_pending" overflow))
    lift (check pending bad_pending)

  -- The new owner's channel is drained, and what was lost stays counted.
  unfoldable pub acquire : Fields → Fields → Rig Fields
  acquire overflow baseline = do
    _ ← connect owner
    _ ← ask owner (serial_open none)
    after_acquire ← ask owner device_diagnostics
    lift (check (equals_int (lookup "uart_rx_pending" after_acquire) 0) not_drained)
    kept ← lift (not_above py "uart_rx_discarded" after_acquire baseline)
    lift (raise_if kept not_discarded)
    lift (check (all_same py kept_names after_acquire overflow) state_changed)
    pure after_acquire

  unfoldable pub check_recovery : ℕ → Fields → Rig (Unit {0})
  check_recovery count after_acquire = do
    status ← ask owner serial_status
    final ← ask owner device_diagnostics
    _ ← command (ascii "STATS")
    lift (check_counts status count)
    lift (check (all_same py recovered_names final after_acquire) bad_diagnostics)

  unfoldable pub run : ℕ → ℕ → ℕ → Rig (Unit {0})
  run burst_bytes recovery_bytes seed = do
    _ ← identify
    _ ← command (ascii "CLEAR")
    baseline ← clean_up
    overflow ← burst burst_bytes seed
    check_burst overflow baseline
    after_acquire ← acquire overflow baseline
    _ ← command (ascii "CLEAR")
    _ ← command (ascii "MODE SINK")
    to_peer_late 8 recovery_bytes (receive_seed seed)
    to_board (λ e. e) 8 recovery_bytes (reverse_seed (receive_seed seed))
    check_recovery recovery_bytes after_acquire
    close_owner
