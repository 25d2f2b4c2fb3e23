-- ===== src/Uart/Smoke/Planned.antt =====
-- The calls of a run, in order (tools/uart_peer_smoke.py).
use firmingo.Common.{ℕ, ◌/◌, some, List, [], ◌∷◌, ◌++◌}
use firmingo.Common.Bytes.{ascii}
use firmingo.Common.Run.Logged.{Logs-first, Logs-skip, Logs-part}
use firmingo.Python.{Fields}
use firmingo.Uart.Rig.{
  owner, observer, Config, uart_config, serial_open, serial_status, serial_close,
  device_diagnostics, Event, commanded, connected, asked, finished, Comparison,
}
use firmingo.Uart.Rig.Plans.{
  events_of, Calls, Calls-lift, Calls-connect, Calls-ask, Calls-command, more_steps, to_peer_plan,
  to_board_plan, Calls-to_peer, Calls-to_peer_late, Calls-to_board,
}
use firmingo.Uart.Smoke.{
  verify_nano_configuration, identify, read_baseline, open_rate, close_owner, reverse_seed,
  first_rate, check_stable, second_rate, run,
}
use Prim.Native.Nat.{bit_xor}
use Prim.Native.String.{String}

-- The owner opens the channel, another session reads its configuration, and the peer is made ready.
abbrev pub open_plan : Config → List Event
open_plan config =
    connected owner
    ∷ asked owner (serial_open (some config))
    ∷ connected observer
    ∷ finished observer
    ∷ commanded (ascii "CLEAR")
    ∷ commanded (ascii "MODE SINK")
    ∷ []

abbrev pub close_plan : List Event
close_plan = asked owner serial_close ∷ finished owner ∷ []

-- Both transfers of a rate.
abbrev pub transfers : ℕ → ℕ → List Event → List Event
transfers count seed more =
    to_peer_plan 8 count seed ++ (to_board_plan count (reverse_seed seed) ++ more)

abbrev pub first_plan : ℕ → ℕ → List Event
first_plan count seed =
    open_plan (uart_config 115200 8 "none" 1)
    ++ transfers count seed (asked owner serial_status ∷ close_plan)

abbrev pub second_plan : ℕ → ℕ → List Event
second_plan count seed =
    open_plan (uart_config 57600 8 "none" 1)
    ++ transfers count seed (
        asked owner serial_status
        ∷ asked owner device_diagnostics
        ∷ commanded (ascii "STATS")
        ∷ close_plan)

abbrev pub baseline_plan : List Event
baseline_plan = connected owner ∷ asked owner device_diagnostics ∷ finished owner ∷ []

abbrev pub run_plan : ℕ → ℕ → List Event
run_plan byte_count seed =
    commanded (ascii "PING") ∷ baseline_plan
    ++ (commanded (ascii "BAUD 115200") ∷ first_plan byte_count seed
        ++ (commanded (ascii "BAUD 57600")
            ∷ second_plan (byte_count / 2) (bit_xor seed 0x5a5a5a5a)))

Calls-verify :
    (boot_id : String) (baud actual_baud : ℕ)
    → Calls
        (connected observer ∷ finished observer ∷ [])
        (verify_nano_configuration boot_id baud actual_baud)
unfolding verify_nano_configuration
Calls-verify boot_id baud actual_baud = search more_steps depth 20

pub Calls-identify : Calls (commanded (ascii "PING") ∷ []) identify
unfolding identify
Calls-identify = search more_steps depth 20

Calls-read_baseline : Calls baseline_plan read_baseline
unfolding read_baseline
Calls-read_baseline = search more_steps depth 20

Calls-open_rate :
    (baud actual_baud : ℕ)
    → Calls (open_plan (uart_config baud 8 "none" 1)) (open_rate baud actual_baud)
unfolding open_rate
Calls-open_rate baud actual_baud = Logs-first events_of _ _ _ _ (Calls-connect owner) (λ hello.
    Logs-skip events_of _ _ _ (Calls-lift _) (λ _.
      Logs-first events_of _ _ _ _ (Calls-ask owner _) (λ _.
        Logs-part events_of (connected observer ∷ finished observer ∷ [])
          (commanded (ascii "CLEAR") ∷ commanded (ascii "MODE SINK") ∷ []) _ _
          (Calls-verify hello.boot_id baud actual_baud) (λ _. search more_steps depth 20))))

pub Calls-close_owner : Calls close_plan close_owner
unfolding close_owner
Calls-close_owner = search more_steps depth 20

pub Calls-check_stable :
    (py : Comparison) (current baseline : Fields) → Calls [] (check_stable py current baseline)
unfolding check_stable
Calls-check_stable py current baseline = search more_steps depth 20

Calls-first_rate : (count seed : ℕ) → Calls (first_plan count seed) (first_rate count seed)
unfolding first_rate
Calls-first_rate count seed =
    Logs-part events_of (open_plan (uart_config 115200 8 "none" 1)) _ _ _
      (Calls-open_rate 115200 115207)
      (λ _.
        Logs-part events_of (to_peer_plan 8 count seed) _ _ _ (Calls-to_peer 8 count seed (λ e. e))
          (λ _.
            Logs-part events_of (to_board_plan count (reverse_seed seed)) _ _ _
              (Calls-to_board 8 count (reverse_seed seed) (λ e. e))
              (λ _. search (more_steps, Calls-close_owner) depth 20)))

module _ (py : Comparison) where
  Calls-second_rate :
      (count seed : ℕ) (baseline : Fields)
      → Calls (second_plan count seed) (second_rate py count seed baseline)
  unfolding second_rate
  Calls-second_rate count seed baseline =
      Logs-part events_of (open_plan (uart_config 57600 8 "none" 1)) _ _ _
        (Calls-open_rate 57600 57597)
        (λ _.
          Logs-part events_of (to_peer_plan 8 count seed) _ _ _ (Calls-to_peer_late 8 count seed)
            (λ _.
              Logs-part events_of (to_board_plan count (reverse_seed seed)) _ _ _
                (Calls-to_board 8 count (reverse_seed seed) (λ e. e))
                (λ _. search (more_steps, Calls-close_owner, Calls-check_stable py) depth 20)))

  pub Calls-run : (byte_count seed : ℕ) → Calls (run_plan byte_count seed) (run py byte_count seed)
  unfolding run
  Calls-run byte_count seed = Logs-first events_of _ _ _ _ Calls-identify (λ _.
      Logs-part events_of baseline_plan _ _ _ Calls-read_baseline (λ baseline.
        Logs-first events_of _ _ _ _ (Calls-command _) (λ _.
          Logs-part events_of (first_plan byte_count seed) _ _ _ (Calls-first_rate byte_count seed)
            (λ _.
              Logs-first events_of _ _ _ _ (Calls-command _)
                (λ _. Calls-second_rate (byte_count / 2) (bit_xor seed 0x5a5a5a5a) baseline)))))
