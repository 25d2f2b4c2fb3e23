-- ===== src/Uart/Overrun/Tests.antt =====
-- A burst of 512 bytes, and one byte in each direction after it (tools/uart_overrun.py).
use firmingo.Common.{◌≡◌, refl, [], ◌∷◌, ◌++◌, ok}
use firmingo.Common.Bytes.{ascii, pieces, pieces_fuel, bytes_eq}
use firmingo.Common.Run.{◌>>=◌}
use firmingo.Python.{end, lookup}
use firmingo.Uart.{next_state, pattern_loop, pattern}
use firmingo.Uart.Channel.{has_capabilities, has_format, validate_channel}
use firmingo.Uart.Text.{digits, split_words, split_item, items_of, fields, value_of}
use firmingo.Uart.Rig.{
  uart_config, World, write, read_line, connect, ask, command, await, event, all_same,
}
use firmingo.Uart.Rig.Transfer.{
  send_parts, send_serial, receive, receive_serial, require_peer_event, attempt, await_transfer,
  to_peer_late, collect, to_board,
}
use firmingo.Uart.Rig.Delivered.{Carries}
use firmingo.Uart.Rig.Samples.{
  hello_with, counters, errors, identity, okay, event_line, both_ways, stats, frame_with, answering,
  on_naturals,
}
use firmingo.Uart.Smoke.{identify, close_owner, reverse_seed}
use firmingo.Uart.Overrun.{
  clean_up, burst, receive_seed, is_pending, check_burst, acquire, check_recovery, run,
}
use firmingo.Uart.Overrun.Recovered.{run_plan, run-IsRecovered}

abbrev world : World
world =
    answering
      (identity
        ∷ okay
        ∷ okay
        ∷ event_line (ascii "send_done")
        ∷ okay
        ∷ okay
        ∷ (both_ways ++ (stats 1 ∷ [])))
      (hello_with (uart_config 115200 8 "none" 1) 115207
        ∷ hello_with (uart_config 115200 8 "none" 1) 115207
        ∷ hello_with (uart_config 115200 8 "none" 1) 115207
        ∷ [])
      (end
        ∷ end
        ∷ errors 0 0 0
        ∷ errors 1 0 256
        ∷ end
        ∷ errors 1 256 0
        ∷ counters 1
        ∷ errors 1 256 0
        ∷ end
        ∷ [])
      (frame_with (pattern_loop 8 (reverse_seed (receive_seed 9)) 1) ∷ [])

abbrev after : World
after = (run on_naturals 512 1 9 world).1

passes : run on_naturals 512 1 9 world ≡ (ok tt, after)
unfolding run check_recovery acquire check_burst is_pending burst clean_up close_owner identify
    all_same to_board collect to_peer_late await_transfer attempt require_peer_event receive_serial
    receive send_serial send_parts event await command ask connect read_line write value_of fields
    items_of split_item split_words digits validate_channel has_capabilities has_format lookup
    pattern pattern_loop next_state pieces pieces_fuel bytes_eq ◌>>=◌
passes = refl

run-IsRecovered_example :
    (after.events ≡ world.events ++ run_plan 512 1 9)
    × Carries (pattern_loop 8 (reverse_seed (receive_seed 9)) 1) world.frames after.frames
run-IsRecovered_example = run-IsRecovered on_naturals 512 1 9 world passes
