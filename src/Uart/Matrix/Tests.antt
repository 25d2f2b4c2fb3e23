-- ===== src/Uart/Matrix/Tests.antt =====
-- The whole matrix with one byte in each direction, and one case by itself (tools/uart_format_matrix.py).
use firmingo.Common.{ℕ, ◌+◌, ◌≡◌, refl, List, [], ◌∷◌, ◌++◌, ok, map, join, replicate}
use firmingo.Common.Bytes.{Bytes, ascii, pieces, pieces_fuel, bytes_eq}
use firmingo.Common.Run.{◌>>=◌}
use firmingo.Python.{Fields, end, lookup}
use firmingo.Soak.Run.{Hello}
use firmingo.Uart.{next_state, pattern_loop, pattern}
use firmingo.Uart.Channel.{has_capabilities, has_format, validate_channel}
use firmingo.Uart.Text.{decimal, digits, split_words, split_item, items_of, fields, value_of}
use firmingo.Uart.Rig.{
  Config, uart_config, Case, SerialFrame, World, write, read_line, connect, ask, deny, gives,
  success, pass_case, command, refused, await, event, all_same,
}
use firmingo.Uart.Rig.Transfer.{
  send_parts, send_serial, receive, receive_serial, require_peer_event, attempt, await_transfer,
  to_peer, collect, to_board,
}
use firmingo.Uart.Rig.Delivered.{Carries}
use firmingo.Uart.Rig.Samples.{
  hello_with, counters, errors, identity, okay, both_ways, stats, frame_with, answering, refusing,
  refusal, on_naturals,
}
use firmingo.Uart.Smoke.{identify, close_owner, check_stable}
use firmingo.Uart.Rig.Taken.{Begins}
use firmingo.Uart.Matrix.PeerRefused.{PeerAnswers}
use firmingo.Uart.Matrix.BoardRefused.{BoardAnswers}
use firmingo.Uart.Matrix.{
  format_cases, int_digits, parse_peer_configuration, count_fields, is_effective,
  observe_nano_configuration, observe_effective, peer_configuration, reject_commands,
  check_peer_invalid_configurations, reject_configurations, open_case,
  check_nano_invalid_configurations, finish_case, run_case, case_seed, run_cases, cases_of, run,
}
use firmingo.Uart.Matrix.Planned.{case_plan, run_plan}
use firmingo.Uart.Matrix.Delivered.{given_by, all_given}
use firmingo.Uart.Matrix.Passed.{IsPassed, run_case-IsPassed, run-IsPassed, IsStart, run-IsStart}

abbrev configured : Config → Bytes
configured c =
    ascii "OK baud="
    ++ (decimal c.baud
        ++ (ascii " actual_baud="
            ++ (decimal c.baud
                ++ (ascii " data_bits="
                    ++ (decimal c.data_bits
                        ++ (ascii " parity="
                            ++ (ascii c.parity
                                ++ (ascii " stop_bits=" ++ decimal c.stop_bits))))))))

abbrev case_lines : Config → List Bytes
case_lines c = configured c ∷ okay ∷ okay ∷ both_ways ++ (stats 1 ∷ [])

abbrev case_hellos : Config → List Hello
case_hellos c = hello_with c c.baud ∷ hello_with c c.baud ∷ []

abbrev case_documents : List Fields
case_documents = end ∷ counters 1 ∷ errors 0 0 0 ∷ end ∷ []

abbrev plain : Config
plain = uart_config 115200 8 "none" 1

abbrev even : Config
even = uart_config 57600 7 "even" 2

abbrev frames_from : ℕ → List (Config × ℕ) → List SerialFrame
frames_from index [] = []
frames_from index ((c, count) ∷ cases) =
    frame_with (given_by c count (case_seed 0 index)) ∷ frames_from (index + 1) cases

abbrev one_case : World
one_case =
    answering (case_lines even) (case_hellos even) case_documents
      (frame_with (given_by even 1 3) ∷ [])

abbrev entry : Case
entry = record {
  config = even;
  actual_baud = 57600;
  count = 1;
  seed = 3;
  status = counters 1;
  diagnostics = errors 0 0 0;
  stats = stats 1;
}

abbrev after_case : World
after_case = (run_case on_naturals "boot" (errors 0 0 0) even 1 3 one_case).1

case_passes : run_case on_naturals "boot" (errors 0 0 0) even 1 3 one_case ≡ (ok entry, after_case)
unfolding run_case finish_case open_case peer_configuration observe_effective
    observe_nano_configuration is_effective count_fields parse_peer_configuration int_digits
    check_stable close_owner all_same to_board collect to_peer await_transfer attempt
    require_peer_event receive_serial receive send_serial send_parts event await command ask deny
    connect read_line write value_of fields items_of split_item split_words digits validate_channel
    has_capabilities has_format lookup pattern pattern_loop next_state pieces pieces_fuel bytes_eq
    ◌>>=◌
case_passes = refl

run_case-IsPassed_example :
    ((after_case.events ≡ one_case.events ++ case_plan even 1 3)
      × Carries (given_by even 1 3) one_case.frames after_case.frames)
    × IsPassed on_naturals (errors 0 0 0) even 1 3 entry
run_case-IsPassed_example =
    run_case-IsPassed on_naturals "boot" (errors 0 0 0) even 1 3 one_case case_passes

abbrev cases : List (Config × ℕ)
cases = cases_of 1 1 1

abbrev configs : List Config
configs = map (λ (p : Config × ℕ). p.0) cases

abbrev refusals : List Bytes
refusals = join (replicate 7 (ascii "ERR invalid_config" ∷ configured plain ∷ []))

abbrev bare : World
bare =
    answering
      (identity
        ∷ configured plain
        ∷ (refusals ++ (configured plain ∷ okay ∷ join (map case_lines configs))))
      (replicate 10 (hello_with plain 115200) ++ join (map case_hellos configs)) []
      (frames_from 0 cases)

abbrev world : World
world = record bare {
  documents =
      refusing (errors 0 0 0 ∷ end ∷ []) "invalid_argument" []
      ++ (replicate 6 (gives (refusal "invalid_argument"))
          ++ map (λ d. gives (success d))
              (errors 0 0 0 ∷ end ∷ join (map (λ (c : Config). case_documents) configs)));
}

abbrev after : World
after = (run on_naturals 1 1 1 0 world).1

passes : run on_naturals 1 1 1 0 world ≡ (ok tt, after)
unfolding run run_cases run_case finish_case check_nano_invalid_configurations
    check_peer_invalid_configurations reject_configurations reject_commands pass_case identify
    refused format_cases open_case peer_configuration observe_effective observe_nano_configuration
    is_effective count_fields parse_peer_configuration int_digits check_stable close_owner all_same
    to_board collect to_peer await_transfer attempt require_peer_event receive_serial receive
    send_serial send_parts event await command ask deny connect read_line write value_of fields
    items_of split_item split_words digits validate_channel has_capabilities has_format lookup
    pattern pattern_loop next_state pieces pieces_fuel bytes_eq ◌>>=◌
passes = refl

run-IsPassed_example :
    ((after.events ≡ world.events ++ run_plan cases 0)
      × Carries (all_given 0 0 cases) world.frames after.frames)
    × (Begins PeerAnswers world.lines × Begins BoardAnswers world.documents)
run-IsPassed_example = run-IsPassed on_naturals 1 1 1 0 world passes

run-IsStart_example :
    IsStart (run_plan cases 0) one_case.events (run on_naturals 1 1 1 0 one_case).1.events
run-IsStart_example = run-IsStart on_naturals 1 1 1 0 one_case
