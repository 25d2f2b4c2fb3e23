-- ===== src/Uart/Smoke/Tests.antt =====
-- Two bytes at the first rate and one at the second (tools/uart_peer_smoke.py).
use firmingo.Common.{◌/◌, ◌≡◌, refl, [], ◌∷◌, ◌++◌, ok}
use firmingo.Common.Bytes.{pieces, pieces_fuel, bytes_eq}
use firmingo.Common.Run.{◌>>=◌}
use firmingo.Python.{end, lookup}
use firmingo.Uart.{next_state, pattern_loop, pattern}
use firmingo.Uart.Channel.{has_capabilities, has_format, validate_channel}
use firmingo.Uart.Text.{digits, split_words, split_item, items_of, fields, value_of}
use firmingo.Uart.Rig.{
  uart_config, World, write, read_line, connect, ask, command, await, event, all_same,
}
use firmingo.Uart.Rig.Transfer.{
  send_parts, send_serial, receive, receive_serial, require_peer_event, attempt, await_transfer,
  to_peer, to_peer_late, collect, to_board,
}
use firmingo.Uart.Rig.Delivered.{Carries}
use firmingo.Uart.Rig.Samples.{
  hello_with, counters, errors, identity, okay, both_ways, stats, frame_with, answering,
  on_naturals,
}
use firmingo.Uart.Smoke.{
  verify_nano_configuration, identify, read_baseline, open_rate, close_owner, first_rate,
  check_stable, second_rate, run,
}
use firmingo.Uart.Smoke.Planned.{run_plan}
use firmingo.Uart.Smoke.Passed.{given_at, run-Carries}
use Prim.Native.Nat.{bit_xor}

abbrev world : World
world =
    answering
      (identity
        ∷ okay
        ∷ okay
        ∷ okay
        ∷ (both_ways ++ (okay ∷ okay ∷ okay ∷ (both_ways ++ (stats 1 ∷ [])))))
      (hello_with (uart_config 115200 8 "none" 1) 115207
        ∷ hello_with (uart_config 115200 8 "none" 1) 115207
        ∷ hello_with (uart_config 115200 8 "none" 1) 115207
        ∷ hello_with (uart_config 57600 8 "none" 1) 57597
        ∷ hello_with (uart_config 57600 8 "none" 1) 57597
        ∷ [])
      (errors 0 0 0 ∷ end ∷ counters 2 ∷ end ∷ end ∷ counters 1 ∷ errors 0 1 0 ∷ end ∷ [])
      (frame_with (given_at 2 5) ∷ frame_with (given_at 1 (bit_xor 5 0x5a5a5a5a)) ∷ [])

abbrev after : World
after = (run on_naturals 2 5 world).1

passes : run on_naturals 2 5 world ≡ (ok tt, after)
unfolding run second_rate first_rate check_stable close_owner open_rate read_baseline identify
    verify_nano_configuration all_same to_board collect to_peer_late to_peer await_transfer attempt
    require_peer_event receive_serial receive send_serial send_parts event await command ask connect
    read_line write value_of fields items_of split_item split_words digits validate_channel
    has_capabilities has_format lookup pattern pattern_loop next_state pieces pieces_fuel bytes_eq
    ◌>>=◌
passes = refl

run-Carries_example :
    (after.events ≡ world.events ++ run_plan 2 5)
    × Carries (given_at 2 5 ++ given_at (2 / 2) (bit_xor 5 0x5a5a5a5a)) world.frames after.frames
run-Carries_example = run-Carries on_naturals 2 5 world passes
