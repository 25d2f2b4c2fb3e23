-- ===== src/Fmgo/Smoke/Tests.antt =====
-- A channel that changes hands (tools/session_smoke.py, experiments/managed_sketch/smoke.py).
use firmingo.Common.{◌≡◌, refl, true, some, List, [], ◌∷◌, ◌++◌, ok, replicate}
use firmingo.Common.Run.{◌>>=◌}
use firmingo.Python.{Fields, end, field, int, lookup}
use firmingo.Soak.Run.{Hello}
use firmingo.Uart.Rig.{uart_config, World, write, connect, ask, deny}
use firmingo.Uart.Rig.Samples.{hello_with, counters, answering, refusing, on_naturals}
use firmingo.Uart.Smoke.{close_owner}
use firmingo.Uart.Loopback.{refuse_second, check_total}
use firmingo.Fmgo.Smoke.{
  hand_over, echo_once, smoke, compare_counters, check_console_counters, read_counters,
  managed_smoke,
}
use firmingo.Fmgo.Smoke.Planned.{managed_plan, IsKept, managed_smoke-IsKept}

abbrev hellos : List Hello
hellos = replicate 3 (hello_with (uart_config 115200 8 "none" 1) 115207)

abbrev console : Fields
console = field "sketch_input_discarded" (int 1) (
    field "sketch_output_discarded" (int 2)
      (field "sketch_output_rejected" (int 0) (field "sketch_output_peak" (int 256) end)))

abbrev world : World
world = record (answering [] hellos [] []) {
  documents =
      refusing (end ∷ []) "busy" (counters 20480 ∷ [])
      ++ refusing [] "unsupported" (replicate 6 end);
}

passes : (smoke world).0 ≡ ok tt
unfolding smoke echo_once hand_over check_total refuse_second close_owner ask deny connect write
    lookup ◌>>=◌
passes = refl

abbrev managed : World
managed = record (answering [] hellos [] []) {
  documents = refusing (end ∷ console ∷ []) "busy" (counters 20480 ∷ console ∷ replicate 7 end);
}

managed_passes : (managed_smoke on_naturals true managed).0 ≡ ok (some console, console)
unfolding managed_smoke read_counters check_console_counters compare_counters echo_once hand_over
    check_total refuse_second close_owner ask deny connect write lookup ◌>>=◌
managed_passes = refl

managed_smoke-IsKept_example :
    ((managed_smoke on_naturals true managed).1.events ≡ managed.events ++ managed_plan true)
    × IsKept on_naturals true (some console) console
managed_smoke-IsKept_example = managed_smoke-IsKept on_naturals true managed managed_passes
