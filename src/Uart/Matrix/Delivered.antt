-- ===== src/Uart/Matrix/Delivered.antt =====
-- The bytes that the format matrix takes from the board (tools/uart_format_matrix.py).
use firmingo.Common.{ℕ, ◌+◌, List, [], ◌∷◌, ◌++◌}
use firmingo.Common.Bytes.{Bytes}
use firmingo.Python.{Fields}
use firmingo.Uart.{pattern_loop}
use firmingo.Uart.Rig.{owner, Config, Comparison}
use firmingo.Uart.Rig.Delivered.{
  Delivers, Delivers-pure, Delivers-skip, Delivers-append, Delivers-whole, Delivers-deny,
  Delivers-lift, Delivers-pass_case, idle_steps, Delivers-command, Delivers-refused,
  Delivers-to_peer,
}
use firmingo.Uart.Smoke.{reverse_seed}
use firmingo.Uart.Smoke.Passed.{Delivers-identify, Delivers-close_owner, Delivers-check_stable}
use firmingo.Uart.Matrix.{
  parse_peer_configuration, peer_configuration, observe_nano_configuration, observe_effective,
  PeerConfig, reject_commands, check_peer_invalid_configurations, reject_configurations, open_case,
  check_nano_invalid_configurations, finish_case, run_case, case_seed, run_cases, cases_of, run,
}
use Prim.Native.String.{String}
use firmingo.Uart.Rig.Collected.{Delivers-to_board}

Delivers-parse : (line : Bytes) → Delivers [] (parse_peer_configuration line)
unfolding parse_peer_configuration
Delivers-parse line = search idle_steps depth 30

Delivers-peer : (text : Bytes) → Delivers [] (peer_configuration text)
unfolding peer_configuration
Delivers-peer text = search (idle_steps, Delivers-command, Delivers-parse) depth 20

Delivers-observe : (boot_id : String) → Delivers [] (observe_nano_configuration boot_id)
unfolding observe_nano_configuration
Delivers-observe boot_id = search idle_steps depth 20

Delivers-observe_effective :
    (boot_id : String) (c : Config) (actual_baud : ℕ)
    → Delivers [] (observe_effective boot_id c actual_baud)
unfolding observe_effective
Delivers-observe_effective boot_id c actual_baud = search (idle_steps, Delivers-observe) depth 20

Delivers-reject_commands :
    (before : PeerConfig) (texts : List Bytes) → Delivers [] (reject_commands before texts)
unfolding reject_commands
Delivers-reject_commands before [] = Delivers-pure tt
Delivers-reject_commands before (text ∷ texts) = Delivers-skip _ _ _ (Delivers-refused _ _) (λ _.
    Delivers-skip _ _ _ (Delivers-peer _)
      (λ after. Delivers-skip _ _ _ (Delivers-lift _) (λ _. Delivers-reject_commands before texts)))

Delivers-check_peer : Delivers [] check_peer_invalid_configurations
unfolding check_peer_invalid_configurations
Delivers-check_peer = search (idle_steps, Delivers-peer, Delivers-reject_commands) depth 20

module _ (boot_id : String) (requested : Config) (actual_baud : ℕ) where
  Delivers-reject_configurations :
      (configs : List Config)
      → Delivers [] (reject_configurations boot_id requested actual_baud configs)
  unfolding reject_configurations
  Delivers-reject_configurations [] = Delivers-pure tt
  Delivers-reject_configurations (c ∷ configs) = Delivers-skip _ _ _ (Delivers-deny owner _ _) (λ _.
      Delivers-skip _ _ _ (Delivers-observe_effective boot_id requested actual_baud)
        (λ _. Delivers-reject_configurations configs))

  Delivers-open_case : Delivers [] (open_case boot_id requested actual_baud)
  unfolding open_case
  Delivers-open_case = search (idle_steps, Delivers-observe_effective) depth 20

abbrev pub given_by : Config → ℕ → ℕ → Bytes
given_by c count seed = pattern_loop c.data_bits (reverse_seed seed) count

abbrev pub all_given : ℕ → ℕ → List (Config × ℕ) → Bytes
all_given seed index [] = []
all_given seed index ((c, count) ∷ cases) =
    given_by c count (case_seed seed index) ++ all_given seed (index + 1) cases

module _ (py : Comparison) (boot_id : String) (baseline : Fields) where
  Delivers-check_nano : Delivers [] (check_nano_invalid_configurations py boot_id baseline)
  unfolding check_nano_invalid_configurations
  Delivers-check_nano =
      search
        (
          idle_steps,
          Delivers-peer,
          Delivers-command,
          Delivers-open_case,
          Delivers-reject_configurations,
          Delivers-check_stable py,
          Delivers-close_owner,
        )
        depth 20

  Delivers-finish_case :
      (c : Config) (actual_baud count seed : ℕ)
      → Delivers [] (finish_case py baseline c actual_baud count seed)
  unfolding finish_case
  Delivers-finish_case c actual_baud count seed =
      search (idle_steps, Delivers-command, Delivers-check_stable py, Delivers-close_owner) depth 20

  pub Delivers-run_case :
      (c : Config) (count seed : ℕ)
      → Delivers (given_by c count seed) (run_case py boot_id baseline c count seed)
  unfolding run_case
  Delivers-run_case c count seed =
      search
        (
          idle_steps, Delivers-peer, Delivers-command, Delivers-open_case, Delivers-to_peer,
          Delivers-to_board, Delivers-whole, Delivers-finish_case,
        )
        depth 20

  Delivers-run_cases :
      (seed index : ℕ) (cases : List (Config × ℕ))
      → Delivers (all_given seed index cases) (run_cases py boot_id baseline seed index cases)
  unfolding run_cases
  Delivers-run_cases seed index [] = Delivers-pure tt
  Delivers-run_cases seed index ((c, count) ∷ cases) =
      Delivers-append (given_by c count (case_seed seed index)) _ _ _
        (Delivers-run_case c count (case_seed seed index))
        (λ result.
          Delivers-skip _ _ _ (Delivers-pass_case _)
            (λ _. Delivers-run_cases seed (index + 1) cases))

pub Delivers-run :
    (py : Comparison) (boundary_bytes format_bytes high_speed_bytes seed : ℕ)
    → Delivers
        (all_given seed 0 (cases_of boundary_bytes format_bytes high_speed_bytes))
        (run py boundary_bytes format_bytes high_speed_bytes seed)
unfolding run
Delivers-run py boundary_bytes format_bytes high_speed_bytes seed =
    search
      (
        idle_steps,
        Delivers-identify,
        Delivers-check_peer,
        Delivers-check_nano py,
        Delivers-run_cases py,
      )
      depth 20
