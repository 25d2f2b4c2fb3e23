-- ===== src/Attach.antt =====
-- `run` of tools/attach.py: the cycles in which a user unplugs and reconnects a board, and the report of them. The
-- observations (the USB registry, the interface, the routes, the requests) answer through one record for the preflight and one
-- for each cycle. The writes of the report file and the printed lines are left out, and so are the checks of the
-- textual arguments.
pub mod Track
pub mod Cycles
pub mod Attached
pub mod Ended
pub mod Wait
mod Tests
use firmingo.Common.{
  ℕ, suc, ◌+◌, ◌-◌, Bool, true, false, not, ◌&&◌, ◌||◌, Option, none, some, List, [], ◌∷◌, ◌++◌,
  Result, ok, err, raise_if, length, leb, ltb, ◌==◌, if◌then◌else◌,
}
use firmingo.Common.Run.{Run, pure, lift, ◌>>=◌, ◌>>◌}
use firmingo.Python.{Value, bool, Fields, lookup, as_int, equals_str}
use Prim.Native.String.{String}
use text.Mathlib.Text.{◌==◌ as str_eq}

-- The exceptions; `observation` is any of the functions that observe, and `timed_out` a deadline.
pub data AttachError : Type 0 where
  observation timed_out not_connected not_ready bad_routes bad_profile bad_timestamps : AttachError
  same_instance changed_routes no_internet : AttachError

pub data Reply (A : Type 0) : Type 0 where
  gives : A → Reply A
  fails : AttachError → Reply A

abbrev pub reply : {A : Type 0} → Reply A → Result AttachError A
reply (gives a) = ok a
reply (fails e) = err e

pub data CycleStatus : Type 0 where
  waiting_for_unplug waiting_for_plug waiting_for_network checking functional_pass failed
        not_started :
      CycleStatus

-- The entry of a cycle in the report, with `observed` for `usb_detach_reattach_observed`.
pub record Cycle : Type 0 where
  pub number : ℕ
  pub status : CycleStatus
  pub observed : Bool
  pub failed_stage : Option CycleStatus
  pub xid_changed : Option Bool

pub data Status : Type 0 where
  preflight armed complete incomplete : Status

-- `route_fields`: the two fields that are matched.
pub record Routes : Type 0 where
  pub interface : Option String
  pub gateway : Option String

-- The report and the variables of `run`. `report['cycles']` is `passed` and then `current`, the cycle that has not passed yet.
pub record Report : Type 0 where
  pub status : Status
  pub passed : List Cycle
  pub current : Option Cycle
  pub registry_id : ℕ
  pub dhcp_xid : Option String
  pub baseline : Routes

abbrev pub Act : Type 0 → Type 0
Act = Run Report AttachError

abbrev pub update : (Report → Report) → Act (Unit {0})
update f w = (ok tt, f w)

abbrev pub same_text : Option String → Option String → Bool
same_text none none = true
same_text (some s) (some t) = str_eq s t
same_text _ _ = false

abbrev pub same_routes : Routes → Routes → Bool
same_routes r s = same_text r.interface s.interface && same_text r.gateway s.gateway

abbrev pub is_false : Option Value → Bool
is_false (some (bool b)) = not b
is_false _ = false

abbrev pub timestamps : List String
timestamps =
    "setup_ms" ∷ "dhcp_ready_ms" ∷ "ncm_ready_ms" ∷ "services_ready_ms" ∷ "attach_requested_ms" ∷ []

-- The values are integers from `low` on that do not fall.
unfoldable pub ascending : Fields → ℕ → List String → Bool
ascending snapshot low [] = true
ascending snapshot low (name ∷ names) = elim (as_int (lookup name snapshot)) [
  | none ↦ false
  | some v ↦ leb low v && ascending snapshot v names
]

unfoldable pub diagnostics_ready : Fields → Result AttachError (Unit {0})
diagnostics_ready snapshot =
    if not (equals_str (lookup "usb_profile" snapshot) "ncm-only")
      || not (is_false (lookup "usb_initialized_at_setup" snapshot))
    then err bad_profile
    else raise_if (not (ascending snapshot 0 timestamps)) bad_timestamps

-- What the preflight observes: the registry's entry, the lease of the interface, the two routes, and the snapshot.
pub record Preflight : Type 0 where
  pub entry : Reply (Option ℕ)
  pub lease : Reply (Option (Option String))
  pub board_route : Reply Routes
  pub default_route : Reply Routes
  pub snapshot : Reply Fields

-- What a cycle observes. The clocks are `time.monotonic()` at the three tests of the budget, and `traffic` the two results.
pub record Observed : Type 0 where
  pub detached : Reply (Unit {0})
  pub arrived : Reply (ℕ × ℕ)
  pub clock1 : ℕ
  pub ready : Reply (Option String)
  pub board_route : Reply Routes
  pub default_route : Reply Routes
  pub clock2 : ℕ
  pub snapshot : Reply Fields
  pub clock3 : ℕ
  pub traffic : Reply (Bool × Bool)

abbrev pub found : {A : Type 0} → AttachError → Option A → Result AttachError A
found e none = err e
found e (some a) = ok a

unfoldable pub arm : String → Preflight → Act (Unit {0})
arm interface p = do
  entry ← lift (reply p.entry)
  registry_id ← lift (found not_connected entry)
  lease ← lift (reply p.lease)
  xid ← lift (found not_ready lease)
  board ← lift (reply p.board_route)
  baseline ← lift (reply p.default_route)
  lift (
      raise_if
        (not (same_text board.interface (some interface))
          || same_text baseline.interface (some interface))
        bad_routes)
  snapshot ← lift (reply p.snapshot)
  lift (diagnostics_ready snapshot)
  update (λ w. record w {
    status = armed;
    registry_id = registry_id;
    dhcp_xid = xid;
    baseline = baseline;
  })

abbrev pub on_cycle : (Cycle → Cycle) → Option Cycle → Option Cycle
on_cycle f none = none
on_cycle f (some c) = some (f c)

-- `cycle.update(…)`
abbrev pub update_cycle : (Cycle → Cycle) → Act (Unit {0})
update_cycle f = update (λ w. record w { current = on_cycle f w.current })

-- A new entry; `cycle` was the last one before, and it had passed.
abbrev pub new_cycle : ℕ → Cycle
new_cycle number = record {
  number = number;
  status = waiting_for_unplug;
  observed = false;
  failed_stage = none;
  xid_changed = none;
}

-- To the new attachment: the board went away, and another instance came.
unfoldable pub reattach : Observed → Act (ℕ × ℕ)
reattach o = do
  lift (reply o.detached)
  update_cycle (λ c. record c { status = waiting_for_plug })
  present ← lift (reply o.arrived)
  update_cycle (λ c. record c { status = waiting_for_network; observed = true })
  pure present

unfoldable pub check_instance : ℕ → Act (Unit {0})
check_instance registry_id w = (raise_if (registry_id == w.registry_id) same_instance, w)

unfoldable pub check_routes : String → Routes → Routes → Act (Unit {0})
check_routes interface board default w = (
  raise_if
      (not (same_text board.interface (some interface)) || not (same_routes default w.baseline))
      changed_routes,
  w,
)

-- From the new instance to the snapshot; `late t` is the test of the budget at the clock `t`.
unfoldable pub qualify : String → (ℕ → Bool) → Observed → Act (Option String)
qualify interface late o = do
  lift (raise_if (late o.clock1) timed_out)
  xid ← lift (reply o.ready)
  board ← lift (reply o.board_route)
  default ← lift (reply o.default_route)
  check_routes interface board default
  lift (raise_if (late o.clock2) timed_out)
  snapshot ← lift (reply o.snapshot)
  lift (diagnostics_ready snapshot)
  lift (raise_if (late o.clock3) timed_out)
  pure xid

abbrev pub pass_cycle : Option Cycle → List Cycle
pass_cycle none = []
pass_cycle (some c) = record c { status = functional_pass } ∷ []

unfoldable pub check_traffic : Observed → Act (Unit {0})
check_traffic o = do
  update_cycle (λ c. record c { status = checking })
  (access, overlap) ← lift (reply o.traffic)
  lift (raise_if (not access || not overlap) no_internet)

unfoldable pub note_xid : Option String → Act (Unit {0})
note_xid xid w =
    let changed = not (same_text xid w.dhcp_xid) in
    (
      ok tt,
      record w { current = on_cycle (λ c. record c { xid_changed = some changed }) w.current },
    )

unfoldable pub run_cycle : String → ℕ → ℕ → Observed → Act (Unit {0})
run_cycle interface ready_timeout number o = do
  update (λ w. record w { current = some (new_cycle number) })
  (registry_id, sample_end) ← reattach o
  check_instance registry_id
  xid ← qualify interface (λ t. leb (sample_end + ready_timeout) t) o
  note_xid xid
  check_traffic o
  update (λ w. record w {
    passed = w.passed ++ pass_cycle w.current;
    current = none;
    registry_id = registry_id;
    dhcp_xid = xid;
  })

unfoldable pub run_cycles : String → ℕ → ℕ → List Observed → Act (Unit {0})
run_cycles interface ready_timeout number [] = pure tt
run_cycles interface ready_timeout number (o ∷ observed) = do
  run_cycle interface ready_timeout number o
  run_cycles interface ready_timeout (suc number) observed

unfoldable pub attempt : String → ℕ → ℕ → Preflight → List Observed → Act (Unit {0})
attempt interface ready_timeout start_cycle p observed = do
  arm interface p
  run_cycles interface ready_timeout start_cycle observed
  update (λ w. record w { status = complete })

-- The `except`: what the report says of the cycle that did not pass.
abbrev pub fail_cycle : Cycle → Cycle
fail_cycle c = record c {
  status = if c.observed then failed else not_started;
  failed_stage = some c.status;
}

abbrev pub close_report : Result AttachError (Unit {0}) → Report → Report
close_report (ok _) w = w
close_report (err e) w = record w { status = incomplete; current = on_cycle fail_cycle w.current }

abbrev pub first_report : Report
first_report = record {
  status = preflight;
  passed = [];
  current = none;
  registry_id = 0;
  dhcp_xid = none;
  baseline = record { interface = none; gateway = none };
}

-- The result, and the report that was saved; none when the arguments are refused. The length of `observed` is the number of
-- cycles that is selected.
unfoldable pub run :
    String → ℕ → ℕ → Preflight → List Observed → Option (Result AttachError (Unit {0}) × Report)
run interface ready_timeout start_cycle p observed =
    let (result, w) = attempt interface ready_timeout start_cycle p observed first_report in
    if ltb start_cycle 1 || not (leb 1 (length observed) && leb (length observed) 20)
    then none
    else some (result, close_report result w)
