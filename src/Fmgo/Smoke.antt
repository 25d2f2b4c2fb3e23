-- ===== src/Fmgo/Smoke.antt =====
-- The checks of a channel that is handed from one session to another: `smoke` of tools/session_smoke.py, and `main` of
-- experiments/managed_sketch/smoke.py behind its arguments. The calls and their answers are those of Uart/Rig.
pub mod Planned
mod Tests
use firmingo.Common.{
  ℕ, Bool, true, false, not, ◌&&◌, Option, none, some, List, [], ◌∷◌, check, leb, if◌then◌else◌,
}
use firmingo.Common.Run.{pure, lift, ◌>>=◌, ◌>>◌}
use firmingo.Python.{Value, bool, int, Fields, lookup}
use firmingo.Soak.Run.{Hello}
use firmingo.Uart.Rig.{
  RigError, rebooted, missing_counter, counter_changed, bad_peak, owner, observer, serial_open,
  serial_close, device_reset, device_diagnostics, echoed, finished, Rig, write, connect, ask, deny,
  Comparison,
}
use firmingo.Uart.Loopback.{refuse_second, check_total}
use firmingo.Uart.Smoke.{close_owner}
use Prim.Native.String.{String}
use text.Mathlib.Text.{◌==◌ as str_eq}

-- The other session opens the channel that the owner has closed, and is the first to end.
unfoldable pub hand_over : Rig (Unit {0})
hand_over = do
  _ ← ask owner serial_close
  _ ← ask observer (serial_open none)
  write (echoed observer 4096)
  _ ← ask observer serial_close
  write (finished observer)
  write (finished owner)

unfoldable pub echo_once : Rig (Unit {0})
echo_once = do _ ← ask owner (serial_open none); write (echoed owner 4096); close_owner

unfoldable pub smoke : Rig (Unit {0})
smoke = do
  hello ← connect owner
  _ ← ask owner (serial_open none)
  _ ← refuse_second hello
  write (echoed owner 16384)
  write (echoed owner 4096)
  _ ← check_total 20480
  _ ← deny owner device_reset "unsupported"
  hand_over
  _ ← connect owner
  echo_once

abbrev pub console_counters : List String
console_counters =
    "sketch_input_discarded" ∷ "sketch_output_discarded" ∷ "sketch_output_rejected" ∷ []

abbrev pub is_present : Option Value → Bool
is_present none = false
is_present (some v) = true

-- `isinstance(peak, int) and 0 <= peak <= 256`; a Boolean is an `int` too.
abbrev pub is_peak : Option Value → Bool
is_peak (some (int n)) = leb n 256
is_peak (some (bool b)) = true
is_peak _ = false

-- `measured`: the resident has the console's counters.
unfoldable pub read_counters : Bool → Rig (Option Fields)
read_counters measured =
    if measured then (do d ← ask owner device_diagnostics; pure (some d)) else pure none

module _ (py : Comparison) where
  unfoldable pub compare_counters : List String → Fields → Fields → Rig (Unit {0})
  compare_counters [] before after = pure tt
  compare_counters (name ∷ names) before after = do
    lift (check (is_present (lookup name before) && is_present (lookup name after)) missing_counter)
    lift (check (py.same (lookup name after) (lookup name before)) counter_changed)
    compare_counters names before after

  unfoldable pub check_console_counters : Fields → Fields → Rig (Unit {0})
  check_console_counters before after = do
    compare_counters console_counters before after
    lift (check (is_peak (lookup "sketch_output_peak" after)) bad_peak)

  abbrev pub check_measured : Option Fields → Fields → Rig (Unit {0})
  check_measured none after = pure tt
  check_measured (some before) after = check_console_counters before after

  unfoldable pub managed_smoke : Bool → Rig (Option Fields × Fields)
  managed_smoke measured = do
    identity ← connect owner
    _ ← ask owner (serial_open none)
    before ← read_counters measured
    _ ← refuse_second identity
    write (echoed owner 16384)
    write (echoed owner 4096)
    _ ← check_total 20480
    diagnostics ← ask owner device_diagnostics
    check_measured before diagnostics
    hand_over
    again ← connect owner
    lift (check (str_eq again.boot_id identity.boot_id) rebooted)
    echo_once
    pure (before, diagnostics)
