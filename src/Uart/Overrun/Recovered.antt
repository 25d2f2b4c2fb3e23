-- ===== src/Uart/Overrun/Recovered.antt =====
-- What a check that passes has done (tools/uart_overrun.py).
use firmingo.Common.{ℕ, ◌≡◌, none, List, [], ◌∷◌, ◌++◌, ok}
use firmingo.Common.Bytes.{ascii}
use firmingo.Common.Run.Logged.{Logs-first, Logs-skip, Logs-part}
use firmingo.Python.{Fields}
use firmingo.Uart.{pattern_loop}
use firmingo.Uart.Rig.{
  owner, observer, serial_open, serial_status, serial_close, device_diagnostics, Event, commanded,
  connected, asked, finished, World, Comparison,
}
use firmingo.Uart.Rig.Transfer.{two_numbers}
use firmingo.Uart.Rig.Plans.{
  events_of, Calls, Calls-command, steps, more_steps, to_peer_plan, to_board_plan,
  Calls-to_peer_late, Calls-to_board,
}
use firmingo.Uart.Rig.Delivered.{
  Carries, Delivers, Delivers-whole, idle_steps, Delivers-command, Delivers-to_peer_late,
  returned_lem,
}
use firmingo.Uart.Rig.Collected.{Delivers-to_board}
use firmingo.Uart.Smoke.{reverse_seed}
use firmingo.Uart.Smoke.Planned.{close_plan, Calls-identify, Calls-close_owner}
use firmingo.Uart.Smoke.Passed.{Delivers-identify, Delivers-close_owner}
use firmingo.Uart.Overrun.{clean_up, burst, receive_seed, check_burst, acquire, check_recovery, run}

abbrev pub clean_plan : List Event
clean_plan =
    connected owner
    ∷ asked owner (serial_open none)
    ∷ asked owner serial_close
    ∷ asked owner device_diagnostics
    ∷ finished owner
    ∷ []

abbrev pub burst_plan : ℕ → ℕ → List Event
burst_plan count seed =
    commanded (two_numbers (ascii "SEND") count seed)
    ∷ connected observer
    ∷ asked observer device_diagnostics
    ∷ finished observer
    ∷ []

abbrev pub acquire_plan : List Event
acquire_plan =
    connected owner ∷ asked owner (serial_open none) ∷ asked owner device_diagnostics ∷ []

abbrev pub recovery_plan : List Event
recovery_plan =
    asked owner serial_status ∷ asked owner device_diagnostics ∷ commanded (ascii "STATS") ∷ []

abbrev pub run_plan : ℕ → ℕ → ℕ → List Event
run_plan burst_bytes recovery_bytes seed =
    commanded (ascii "PING") ∷ commanded (ascii "CLEAR") ∷ clean_plan
    ++ (burst_plan burst_bytes seed
        ++ (acquire_plan
            ++ (commanded (ascii "CLEAR")
                  ∷ commanded (ascii "MODE SINK")
                  ∷ to_peer_plan 8 recovery_bytes (receive_seed seed)
                ++ (to_board_plan recovery_bytes (reverse_seed (receive_seed seed))
                    ++ (recovery_plan ++ close_plan)))))

Calls-clean_up : Calls clean_plan clean_up
unfolding clean_up
Calls-clean_up = search more_steps depth 20

Calls-burst : (count seed : ℕ) → Calls (burst_plan count seed) (burst count seed)
unfolding burst
Calls-burst count seed = search more_steps depth 20

module _ (py : Comparison) where
  Calls-check_burst : (overflow baseline : Fields) → Calls [] (check_burst py overflow baseline)
  unfolding check_burst
  Calls-check_burst overflow baseline = search steps depth 20

  Calls-acquire : (overflow baseline : Fields) → Calls acquire_plan (acquire py overflow baseline)
  unfolding acquire
  Calls-acquire overflow baseline = search steps depth 20

  Calls-check_recovery :
      (count : ℕ) (after_acquire : Fields)
      → Calls recovery_plan (check_recovery py count after_acquire)
  unfolding check_recovery
  Calls-check_recovery count after_acquire = search more_steps depth 20

  Calls-run :
      (burst_bytes recovery_bytes seed : ℕ)
      → Calls (run_plan burst_bytes recovery_bytes seed) (run py burst_bytes recovery_bytes seed)
  unfolding run
  Calls-run burst_bytes recovery_bytes seed = Logs-first events_of _ _ _ _ Calls-identify (λ _.
      Logs-first events_of _ _ _ _ (Calls-command _) (λ _.
        Logs-part events_of clean_plan _ _ _ Calls-clean_up (λ baseline.
          Logs-part events_of (burst_plan burst_bytes seed) _ _ _ (Calls-burst burst_bytes seed)
            (λ overflow. Logs-skip events_of _ _ _ (Calls-check_burst overflow baseline) (λ _.
              Logs-part events_of acquire_plan _ _ _ (Calls-acquire overflow baseline)
                (λ after_acquire. Logs-first events_of _ _ _ _ (Calls-command _) (λ _.
                  Logs-first events_of _ _ _ _ (Calls-command _) (λ _.
                    Logs-part events_of (to_peer_plan 8 recovery_bytes (receive_seed seed)) _ _ _
                      (Calls-to_peer_late 8 recovery_bytes (receive_seed seed))
                      (λ _.
                        Logs-part events_of
                          (to_board_plan recovery_bytes (reverse_seed (receive_seed seed))) _ _ _
                          (Calls-to_board 8 recovery_bytes (reverse_seed (receive_seed seed)) _)
                          (λ _.
                            Logs-part events_of recovery_plan _ _ _
                              (Calls-check_recovery recovery_bytes after_acquire)
                              (λ _. Calls-close_owner)))))))))))

Delivers-clean_up : Delivers [] clean_up
unfolding clean_up
Delivers-clean_up = search idle_steps depth 20

Delivers-burst : (count seed : ℕ) → Delivers [] (burst count seed)
unfolding burst
Delivers-burst count seed = search (idle_steps, Delivers-command) depth 20

module _ (py : Comparison) where
  Delivers-check_burst :
      (overflow baseline : Fields) → Delivers [] (check_burst py overflow baseline)
  unfolding check_burst
  Delivers-check_burst overflow baseline = search idle_steps depth 20

  Delivers-acquire : (overflow baseline : Fields) → Delivers [] (acquire py overflow baseline)
  unfolding acquire
  Delivers-acquire overflow baseline = search idle_steps depth 20

  Delivers-check_recovery :
      (count : ℕ) (after_acquire : Fields) → Delivers [] (check_recovery py count after_acquire)
  unfolding check_recovery
  Delivers-check_recovery count after_acquire = search (idle_steps, Delivers-command) depth 20

  Delivers-run :
      (burst_bytes recovery_bytes seed : ℕ)
      → Delivers
          (pattern_loop 8 (reverse_seed (receive_seed seed)) recovery_bytes)
          (run py burst_bytes recovery_bytes seed)
  unfolding run
  Delivers-run burst_bytes recovery_bytes seed =
      search
        (
          idle_steps, Delivers-identify, Delivers-command, Delivers-clean_up, Delivers-burst,
          Delivers-check_burst, Delivers-acquire, Delivers-to_peer_late, Delivers-to_board,
          Delivers-whole, Delivers-check_recovery, Delivers-close_owner,
        )
        depth 30

-- A check that passes made the documented calls in their order, and no others: the burst comes while no session owns the
-- channel, a second session reads the counters before a new owner opens it, and the transfers of the recovery follow. The
-- frames that the owner took from the board all belong to the channel and carry the bytes of the reverse pattern.
pub run-IsRecovered :
    (py : Comparison) (burst_bytes recovery_bytes seed : ℕ) (w : World) {w' : World}
    → run py burst_bytes recovery_bytes seed w ≡ (ok tt, w')
    → (w'.events ≡ w.events ++ run_plan burst_bytes recovery_bytes seed)
      × Carries
          (pattern_loop 8 (reverse_seed (receive_seed seed)) recovery_bytes)
          w.frames
          w'.frames
run-IsRecovered py burst_bytes recovery_bytes seed w h =
    returned_lem _ _ (run py burst_bytes recovery_bytes seed)
      (Calls-run py burst_bytes recovery_bytes seed)
      (Delivers-run py burst_bytes recovery_bytes seed) w h
