-- ===== src/Uart/Smoke/Passed.antt =====
-- What a run that passes has done (tools/uart_peer_smoke.py).
use firmingo.Common.{ℕ, ◌/◌, ◌≡◌, [], ◌++◌, ok}
use firmingo.Common.Bytes.{Bytes}
use firmingo.Python.{Fields}
use firmingo.Uart.{pattern_loop}
use firmingo.Uart.Rig.{World, Comparison}
use firmingo.Uart.Rig.Delivered.{
  Carries, Delivers, returned_lem, Delivers-skip, Delivers-append, Delivers-whole, idle_steps,
  Delivers-command, Delivers-to_peer, Delivers-to_peer_late,
}
use firmingo.Uart.Rig.Collected.{Delivers-to_board}
use firmingo.Uart.Smoke.{
  verify_nano_configuration, identify, read_baseline, open_rate, close_owner, reverse_seed,
  first_rate, check_stable, second_rate, run,
}
use firmingo.Uart.Smoke.Planned.{run_plan, Calls-run}
use Prim.Native.Nat.{bit_xor}
use Prim.Native.String.{String}

Delivers-verify :
    (boot_id : String) (baud actual_baud : ℕ)
    → Delivers [] (verify_nano_configuration boot_id baud actual_baud)
unfolding verify_nano_configuration
Delivers-verify boot_id baud actual_baud = search idle_steps depth 20

pub Delivers-identify : Delivers [] identify
unfolding identify
Delivers-identify = search (idle_steps, Delivers-command) depth 20

Delivers-read_baseline : Delivers [] read_baseline
unfolding read_baseline
Delivers-read_baseline = search idle_steps depth 20

Delivers-open_rate : (baud actual_baud : ℕ) → Delivers [] (open_rate baud actual_baud)
unfolding open_rate
Delivers-open_rate baud actual_baud =
    search (idle_steps, Delivers-command, Delivers-verify) depth 20

pub Delivers-close_owner : Delivers [] close_owner
unfolding close_owner
Delivers-close_owner = search idle_steps depth 20

pub Delivers-check_stable :
    (py : Comparison) (current baseline : Fields) → Delivers [] (check_stable py current baseline)
unfolding check_stable
Delivers-check_stable py current baseline = search idle_steps depth 20

abbrev pub given_at : ℕ → ℕ → Bytes
given_at count seed = pattern_loop 8 (reverse_seed seed) count

Delivers-first_rate : (count seed : ℕ) → Delivers (given_at count seed) (first_rate count seed)
unfolding first_rate
Delivers-first_rate count seed =
    search
      (
        idle_steps, Delivers-open_rate, Delivers-to_peer, Delivers-to_board, Delivers-whole,
        Delivers-close_owner,
      )
      depth 20

module _ (py : Comparison) where
  Delivers-second_rate :
      (count seed : ℕ) (baseline : Fields)
      → Delivers (given_at count seed) (second_rate py count seed baseline)
  unfolding second_rate
  Delivers-second_rate count seed baseline =
      search
        (
          idle_steps,
          Delivers-command,
          Delivers-open_rate,
          Delivers-to_peer_late,
          Delivers-to_board,
          Delivers-whole,
          Delivers-close_owner,
          Delivers-check_stable py,
        )
        depth 20

  Delivers-run :
      (byte_count seed : ℕ)
      → Delivers
          (given_at byte_count seed ++ given_at (byte_count / 2) (bit_xor seed 0x5a5a5a5a))
          (run py byte_count seed)
  unfolding run
  Delivers-run byte_count seed = Delivers-skip _ _ _ Delivers-identify (λ _.
      Delivers-skip _ _ _ Delivers-read_baseline (λ baseline.
        Delivers-skip _ _ _ (Delivers-command _) (λ _.
          Delivers-append _ _ _ _ (Delivers-first_rate byte_count seed) (λ _.
            Delivers-skip _ _ _ (Delivers-command _) (λ _. Delivers-second_rate _ _ baseline)))))

-- A run that passes made the documented calls in their order, and no others: at each rate the board's channel is opened
-- and read back by a second session before the peer is cleared, and is closed after the transfers. The frames that it
-- took from the board all belong to the channel, and carry the bytes of the two reverse patterns, one after the other.
pub run-Carries :
    (py : Comparison) (byte_count seed : ℕ) (w : World) {w' : World}
    → run py byte_count seed w ≡ (ok tt, w')
    → (w'.events ≡ w.events ++ run_plan byte_count seed)
      × Carries
          (given_at byte_count seed ++ given_at (byte_count / 2) (bit_xor seed 0x5a5a5a5a))
          w.frames
          w'.frames
run-Carries py byte_count seed w h =
    returned_lem _ _ (run py byte_count seed) (Calls-run py byte_count seed)
      (Delivers-run py byte_count seed) w h
