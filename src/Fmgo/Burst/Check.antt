-- ===== src/Fmgo/Burst/Check.antt =====
-- `main` of tools/ncm_burst.py behind its arguments, over the calls and answers of Uart/Rig. The file of the report and
-- the printed lines are left out. A burst is one call here; what it sends and reads is in Fmgo/Burst.
pub mod Judged
mod Tests
use firmingo.Common.{
  ℕ, suc, ◌+◌, Bool, ◌&&◌, Option, none, some, Result, ok, err, check, map_err, ◌==◌, if◌then◌else◌,
}
use firmingo.Common.Run.{pure, lift, ◌>>=◌, ◌>>◌}
use firmingo.Python.{Fields, end, field, lookup, as_int, equals_int}
use firmingo.Soak.{diagnostics}
use firmingo.Soak.Run.{Hello}
use firmingo.Uart.Rig.{
  RigError, rebooted, missing_counter, counter_changed, bad_counts, bad_diagnostics, Role, owner,
  observer, serial_open, serial_status, serial_close, device_diagnostics, echoed, bursted, finished,
  Rig, write, connect, ask,
}
use text.Mathlib.Text.{◌==◌ as str_eq}

-- `passed` is the exit code 0, and `not_exercised` the exit code 2.
pub data Exercise : Type 0 where
  passed not_exercised : Exercise

-- What the report says of the readings before and behind the transfers, of the channel's status, and of the whole.
pub record BurstCheck : Type 0 where
  pub initial : Fields
  pub status : Fields
  pub final : Fields
  pub exercise : Exercise

unfoldable pub entries : Fields → ℕ
entries end = 0
entries (field k v rest) = suc (entries rest)

-- `status == expected_status`; a dictionary's keys are distinct.
unfoldable pub is_expected_status : ℕ → Fields → Bool
is_expected_status echo_bytes status =
    entries status == 5
    && (equals_int (lookup "channel_id" status) 1
        && (equals_int (lookup "backend_rx_bytes" status) echo_bytes
            && (equals_int (lookup "backend_tx_bytes" status) echo_bytes
                && (equals_int (lookup "pending_to_backend" status) 0
                    && equals_int (lookup "pending_to_peer" status) 0))))

-- The value of a counter in a reading; `missing_counter` is the `KeyError`.
abbrev pub counter_of : Option ℕ → Result RigError ℕ
counter_of none = err missing_counter
counter_of (some n) = ok n

-- `exhausted` and `wakes` are differences, `after - before`; they are compared without negative numbers.
unfoldable pub judge_counters : ℕ → ℕ → ℕ → ℕ → Result RigError Exercise
judge_counters exhausted exhausted_before wakes wakes_before =
    if exhausted == exhausted_before && wakes == wakes_before
    then ok not_exercised
    else if exhausted + wakes_before == wakes + exhausted_before
    then ok passed
    else err counter_changed

unfoldable pub budget_verdict : Fields → Fields → Rig Exercise
budget_verdict before after = do
  exhausted ← lift (counter_of (as_int (lookup "ncm_budget_exhaustions" after)))
  exhausted_before ← lift (counter_of (as_int (lookup "ncm_budget_exhaustions" before)))
  wakes ← lift (counter_of (as_int (lookup "ncm_wake_requests" after)))
  wakes_before ← lift (counter_of (as_int (lookup "ncm_wake_requests" before)))
  lift (judge_counters exhausted exhausted_before wakes wakes_before)

-- `diagnostics(observer, previous)`
unfoldable pub read_diagnostics : Option Fields → Rig Fields
read_diagnostics previous = do
  answer ← ask observer device_diagnostics
  lift (map_err (λ e. bad_diagnostics) (diagnostics previous answer))

-- Two futures: both run to their ends, and then the first error is raised.
unfoldable pub together : Rig (Unit {0}) → Rig (Unit {0}) → Rig (Unit {0})
together m n w =
    let first = m w in let second = n first.1 in ((lift first.0 >> lift second.0) second.1)

unfoldable pub transfer_both : ℕ → ℕ → ℕ → Rig (Unit {0})
transfer_both control_frames control_payload echo_bytes =
    together (write (echoed owner echo_bytes))
      (write (bursted observer control_frames control_payload))

unfoldable pub run : ℕ → ℕ → ℕ → Rig BurstCheck
run control_frames control_payload echo_bytes = do
  identity ← connect owner
  other ← connect observer
  lift (check (str_eq other.boot_id identity.boot_id) rebooted)
  initial ← read_diagnostics none
  _ ← ask owner (serial_open none)
  transfer_both control_frames control_payload echo_bytes
  status ← ask owner serial_status
  lift (check (is_expected_status echo_bytes status) bad_counts)
  final ← read_diagnostics (some initial)
  _ ← ask owner serial_close
  write (finished owner)
  write (finished observer)
  exercise ← budget_verdict initial final
  pure (record { initial = initial; status = status; final = final; exercise = exercise })
