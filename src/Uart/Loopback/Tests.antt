-- ===== src/Uart/Loopback/Tests.antt =====
-- A board with a wire between its pins (tools/uart_smoke.py).
use firmingo.Common.{◌≡◌, refl, [], ◌∷◌, ◌++◌, ok, replicate}
use firmingo.Common.Run.{◌>>=◌}
use firmingo.Python.{Fields, end, field, int, lookup}
use firmingo.Uart.Channel.{has_capabilities, has_format, validate_channel}
use firmingo.Uart.Rig.{World, write, connect, ask, deny}
use firmingo.Uart.Rig.Samples.{config_fields, hello_with, counters, errors, answering, refusing}
use firmingo.Uart.Smoke.{close_owner}
use firmingo.Uart.Loopback.{
  test_configuration, changed, acknowledges, has_no_loss, refuse_second, configure, check_total,
  smoke,
}
use firmingo.Uart.Rig.Taken.{Begins}
use firmingo.Uart.Loopback.Planned.{smoke_plan, IsBusy, IsClean, smoke-IsClean}

abbrev clean : Fields
clean = field "uart_tx_throttles" (int 3) (errors 0 0 0)

abbrev world : World
world = record (answering [] (replicate 2 (hello_with test_configuration 115207)) [] []) {
  documents =
      refusing (end ∷ []) "busy" (config_fields changed 57597 ∷ counters 20480 ∷ clean ∷ end ∷ []);
}

passes : (smoke world).0 ≡ ok (counters 20480, clean)
unfolding smoke check_total configure refuse_second has_no_loss acknowledges close_owner ask deny
    connect write validate_channel has_capabilities has_format lookup ◌>>=◌
passes = refl

smoke-IsClean_example :
    ((smoke world).1.events ≡ world.events ++ smoke_plan)
    × (Begins IsBusy world.documents × IsClean 20480 (counters 20480, clean))
smoke-IsClean_example = smoke-IsClean world passes
