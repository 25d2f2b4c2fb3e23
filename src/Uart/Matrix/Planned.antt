-- ===== src/Uart/Matrix/Planned.antt =====
-- The calls of the format matrix, in order (tools/uart_format_matrix.py).
use firmingo.Common.{ℕ, ◌+◌, List, [], ◌∷◌, ◌++◌, some}
use firmingo.Common.Bytes.{Bytes, ascii}
use firmingo.Common.Run.Logged.{Logs-first, Logs-skip, Logs-part, Logs-whole}
use firmingo.Python.{Fields}
use firmingo.Uart.Rig.{
  owner, observer, Config, uart_config, serial_open, serial_configure, serial_status,
  device_diagnostics, Event, commanded, connected, asked, denied, finished, Comparison,
}
use firmingo.Uart.Rig.Plans.{
  events_of, Calls, Calls-pure, Calls-lift, Calls-write, Calls-connect, Calls-ask, Calls-deny,
  Calls-command, Calls-pass_case, more_steps, to_peer_plan, to_board_plan, Calls-to_peer,
  Calls-to_board,
}
use firmingo.Uart.Smoke.{reverse_seed}
use firmingo.Uart.Smoke.Planned.{close_plan, Calls-identify, Calls-close_owner, Calls-check_stable}
use firmingo.Uart.Matrix.{
  parse_peer_configuration, peer_configuration, configuration_command, observe_nano_configuration,
  observe_effective, PeerConfig, peer_invalid, reject_commands, check_peer_invalid_configurations,
  nano_invalid, reject_configurations, open_case, check_nano_invalid_configurations, finish_case,
  run_case, case_seed, run_cases, cases_of, run,
}
use Prim.Native.String.{String}

-- Each command that is refused, and the peer's state after it.
abbrev pub refusals : List Bytes → List Event
refusals [] = []
refusals (text ∷ texts) = commanded text ∷ commanded (ascii "STATS") ∷ refusals texts

abbrev pub observing : List Event
observing = connected observer ∷ finished observer ∷ []

-- Each configuration that is refused, and another session that looks at the board's after it.
abbrev pub board_refusals : List Config → List Event
board_refusals [] = []
board_refusals (c ∷ configs) =
    denied owner (serial_configure c) "invalid_argument"
    ∷ connected observer
    ∷ finished observer
    ∷ board_refusals configs

abbrev pub opening : Config → List Event
opening c = connected owner ∷ asked owner (serial_open (some c)) ∷ observing

-- A case. The channel is opened and observed, the peer is cleared, and then the bytes go both ways.
pub case_plan : Config → ℕ → ℕ → List Event
case_plan c count seed =
    (commanded (configuration_command c) ∷ opening c)
    ++ (commanded (ascii "CLEAR")
          ∷ commanded (ascii "MODE SINK")
          ∷ to_peer_plan c.data_bits count seed
        ++ (to_board_plan count (reverse_seed seed)
            ++ (asked owner serial_status
                ∷ asked owner device_diagnostics
                ∷ commanded (ascii "STATS")
                ∷ close_plan)))

abbrev pub cases_plan : ℕ → ℕ → List (Config × ℕ) → List Event
cases_plan seed index [] = []
cases_plan seed index ((c, count) ∷ cases) =
    case_plan c count (case_seed seed index) ++ cases_plan seed (index + 1) cases

abbrev pub requested : Config
requested = uart_config 115200 8 "none" 1

pub invalid_plan : List Event
invalid_plan =
    (commanded (configuration_command requested) ∷ opening requested)
    ++ (commanded (ascii "CLEAR") ∷ board_refusals (nano_invalid requested)
        ++ (asked owner device_diagnostics ∷ close_plan))

abbrev pub run_plan : List (Config × ℕ) → ℕ → List Event
run_plan cases seed =
    commanded (ascii "PING") ∷ commanded (ascii "STATS") ∷ refusals peer_invalid
    ++ (connected observer ∷ asked observer device_diagnostics ∷ finished observer ∷ invalid_plan
        ++ cases_plan seed 0 cases)

Calls-parse : (line : Bytes) → Calls [] (parse_peer_configuration line)
unfolding parse_peer_configuration
Calls-parse line = search more_steps depth 30

Calls-peer : (text : Bytes) → Calls (commanded text ∷ []) (peer_configuration text)
unfolding peer_configuration
Calls-peer text = search (more_steps, Calls-parse) depth 30

Calls-observe : (boot_id : String) → Calls observing (observe_nano_configuration boot_id)
unfolding observe_nano_configuration
Calls-observe boot_id = search more_steps depth 30

Calls-observe_effective :
    (boot_id : String) (c : Config) (actual_baud : ℕ)
    → Calls observing (observe_effective boot_id c actual_baud)
unfolding observe_effective
Calls-observe_effective boot_id c actual_baud =
    Logs-whole events_of _ _ _ (Calls-observe boot_id) (λ result. Calls-lift _)

Calls-reject_commands :
    (before : PeerConfig) (texts : List Bytes)
    → Calls (refusals texts) (reject_commands before texts)
unfolding reject_commands
Calls-reject_commands before [] = Calls-pure tt
Calls-reject_commands before (text ∷ texts) =
    let later = Calls-reject_commands before texts in
    search (more_steps, Calls-peer, later) depth 20

Calls-check_peer :
    Calls (commanded (ascii "STATS") ∷ refusals peer_invalid) check_peer_invalid_configurations
unfolding check_peer_invalid_configurations
Calls-check_peer =
    Logs-first events_of _ _ _ _ (Calls-peer _)
      (λ before. Calls-reject_commands before peer_invalid)

module _ (boot_id : String) (requested : Config) (actual_baud : ℕ) where
  Calls-reject_configurations :
      (configs : List Config)
      → Calls (board_refusals configs) (reject_configurations boot_id requested actual_baud configs)
  unfolding reject_configurations
  Calls-reject_configurations [] = Calls-pure tt
  Calls-reject_configurations (c ∷ configs) =
      Logs-first events_of _ _ _ _ (Calls-deny owner _ _) (λ _.
        Logs-part events_of observing _ _ _ (Calls-observe_effective boot_id requested actual_baud)
          (λ _. Calls-reject_configurations configs))

  Calls-open_case : Calls (opening requested) (open_case boot_id requested actual_baud)
  unfolding open_case
  Calls-open_case = search (more_steps, Calls-observe_effective) depth 20

module _ (py : Comparison) (boot_id : String) (baseline : Fields) where
  Calls-check_nano : Calls invalid_plan (check_nano_invalid_configurations py boot_id baseline)
  unfolding check_nano_invalid_configurations invalid_plan
  Calls-check_nano = Logs-first events_of _ _ _ _ (Calls-peer _) (λ peer.
      Logs-part events_of (opening requested) _ _ _
        (Calls-open_case boot_id requested peer.actual_baud)
        (λ _. Logs-first events_of _ _ _ _ (Calls-command _) (λ _.
          Logs-part events_of (board_refusals (nano_invalid requested)) _ _ _
            (Calls-reject_configurations boot_id requested peer.actual_baud _)
            (λ _. search (more_steps, Calls-close_owner, Calls-check_stable py) depth 20))))

  Calls-finish_case :
      (c : Config) (actual_baud count seed : ℕ)
      → Calls
          (asked owner serial_status
            ∷ asked owner device_diagnostics
            ∷ commanded (ascii "STATS")
            ∷ close_plan)
          (finish_case py baseline c actual_baud count seed)
  unfolding finish_case
  Calls-finish_case c actual_baud count seed =
      search (more_steps, Calls-close_owner, Calls-check_stable py, Logs-whole) depth 20

  pub Calls-run_case :
      (c : Config) (count seed : ℕ)
      → Calls (case_plan c count seed) (run_case py boot_id baseline c count seed)
  unfolding run_case case_plan
  Calls-run_case c count seed = Logs-first events_of _ _ _ _ (Calls-peer _) (λ peer.
      Logs-skip events_of _ _ _ (Calls-lift _) (λ _.
        Logs-part events_of (opening c) _ _ _ (Calls-open_case boot_id c peer.actual_baud) (λ _.
          Logs-first events_of _ _ _ _ (Calls-command _) (λ _.
            Logs-first events_of _ _ _ _ (Calls-command _) (λ _.
              Logs-part events_of (to_peer_plan c.data_bits count seed) _ _ _
                (Calls-to_peer c.data_bits count seed _)
                (λ _.
                  Logs-part events_of (to_board_plan count (reverse_seed seed)) _ _ _
                    (Calls-to_board c.data_bits count (reverse_seed seed) _)
                    (λ _. Calls-finish_case c peer.actual_baud count seed)))))))

  Calls-run_cases :
      (seed index : ℕ) (cases : List (Config × ℕ))
      → Calls (cases_plan seed index cases) (run_cases py boot_id baseline seed index cases)
  unfolding run_cases
  Calls-run_cases seed index [] = Calls-pure tt
  Calls-run_cases seed index ((c, count) ∷ cases) =
      Logs-part events_of (case_plan c count (case_seed seed index)) _ _ _
        (Calls-run_case c count (case_seed seed index))
        (λ result.
          Logs-skip events_of _ _ _ (Calls-pass_case _)
            (λ _. Calls-run_cases seed (index + 1) cases))

pub Calls-run :
    (py : Comparison) (boundary_bytes format_bytes high_speed_bytes seed : ℕ)
    → Calls
        (run_plan (cases_of boundary_bytes format_bytes high_speed_bytes) seed)
        (run py boundary_bytes format_bytes high_speed_bytes seed)
unfolding run
Calls-run py boundary_bytes format_bytes high_speed_bytes seed =
    Logs-first events_of _ _ _ _ Calls-identify (λ _.
      Logs-part events_of (commanded (ascii "STATS") ∷ refusals peer_invalid) _ _ _ Calls-check_peer
        (λ _. Logs-first events_of _ _ _ _ (Calls-connect observer) (λ hello.
          Logs-skip events_of _ _ _ (Calls-lift _) (λ _.
            Logs-first events_of _ _ _ _ (Calls-ask observer _) (λ baseline.
              Logs-first events_of _ _ _ _ (Calls-write _) (λ _.
                Logs-part events_of invalid_plan _ _ _ (Calls-check_nano py hello.boot_id baseline)
                  (λ _. Calls-run_cases py hello.boot_id baseline seed 0 _)))))))
