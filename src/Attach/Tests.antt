-- ===== src/Attach/Tests.antt =====
-- Two cycles from cycle 3 on, of a board on `en5` (tools/attach.py).
use firmingo.Common.{ℕ, ◌+◌, ◌≡◌, refl, true, false, some, List, [], ◌∷◌, ok}
use firmingo.Common.Run.{◌>>=◌}
use firmingo.Python.{Fields, end, field, int, str, bool, lookup}
use firmingo.Attach.{
  gives, complete, Routes, Preflight, Observed, Report, ascending, diagnostics_ready, arm, reattach,
  check_instance, check_routes, qualify, check_traffic, note_xid, run_cycle, run_cycles, attempt,
  first_report, run,
}
use firmingo.Attach.Ended.{IsEnded, run-IsEnded}

abbrev snapshot : Fields
snapshot = field "usb_profile" (str "ncm-only") (
    field "usb_initialized_at_setup" (bool false) (
      field "setup_ms" (int 10) (
        field "dhcp_ready_ms" (int 20) (
          field "ncm_ready_ms" (int 20)
            (field "services_ready_ms" (int 30) (field "attach_requested_ms" (int 40) end))))))

abbrev board : Routes
board = record { interface = some "en5"; gateway = some "10.0.0.1" }

abbrev default : Routes
default = record { interface = some "en0"; gateway = some "192.168.1.1" }

abbrev preflight : Preflight
preflight = record {
  entry = gives (some 7);
  lease = gives (some (some "a"));
  board_route = gives board;
  default_route = gives default;
  snapshot = gives snapshot;
}

abbrev reconnected : ℕ → ℕ → Observed
reconnected registry_id t = record {
  detached = gives tt;
  arrived = gives (registry_id, t);
  clock1 = t + 1;
  ready = gives (some "b");
  board_route = gives board;
  default_route = gives default;
  clock2 = t + 2;
  snapshot = gives snapshot;
  clock3 = t + 3;
  traffic = gives (true, true);
}

abbrev observed : List Observed
observed = reconnected 8 50 ∷ reconnected 9 90 ∷ []

abbrev after : Report
after = (attempt "en5" 100 3 preflight observed first_report).1

ran : run "en5" 100 3 preflight observed ≡ some (ok tt, record after { status = complete })
unfolding run attempt arm run_cycles run_cycle reattach check_instance qualify check_routes note_xid
    check_traffic diagnostics_ready ascending ◌>>=◌ lookup
ran = refl

run-IsEnded_example :
    IsEnded "en5" 100 3 preflight observed (ok tt) (record after { status = complete })
run-IsEnded_example = run-IsEnded "en5" 100 3 preflight observed ran
