-- ===== src/Attach/Wait.antt =====
-- `wait_for` of tools/attach.py: observations that are repeated until one answers or the deadline passes. The sleep between
-- two of them is left out; the clock is read again after it.
pub mod First
mod Tests
use firmingo.Common.{ℕ, Option, none, some, List, [], ◌∷◌, Result, ok, err, ◌>>=◌, ◌>>◌, check, ltb}
use firmingo.Attach.{AttachError, timed_out}

-- One turn of the loop: the clock at its test, then the call of `probe` between two readings of the clock.
pub record Sample (A : Type 0) : Type 0 where
  pub now : ℕ
  pub began : ℕ
  pub value : Result AttachError (Option A)
  pub ended : ℕ

-- The dictionary that goes with the value.
pub record Window : Type 0 where
  pub sample_start : ℕ
  pub sample_end : ℕ
  pub last_negative : Option ℕ

-- `if value: return …`; otherwise the loop goes on, with `rest`.
abbrev pub found_or :
    {A : Type 0}
    → Result AttachError (A × Window)
    → Window
    → Option A
    → Result AttachError (A × Window)
found_or rest window none = rest
found_or rest window (some a) = ok (a, window)

-- `limit` is the start plus the timeout; when the list ends the deadline has passed.
unfoldable pub wait_for :
    {A : Type 0} → ℕ → Option ℕ → List (Sample A) → Result AttachError (A × Window)
wait_for limit last_negative [] = err timed_out
wait_for limit last_negative (s ∷ samples) =
    let rest = wait_for limit (some s.began) samples in
    let window : Window = record {
      sample_start = s.began;
      sample_end = s.ended;
      last_negative = last_negative;
    } in
    check (ltb s.now limit) timed_out
    >> (s.value >>= λ value. check (ltb s.ended limit) timed_out >> found_or rest window value)
