-- ===== src/Fmgo/Smoke/Planned.antt =====
-- What these checks have done when they pass (tools/session_smoke.py, experiments/managed_sketch/smoke.py).
use firmingo.Common.{
  ℕ, ◌≤◌, ◌⊎◌, inl, inr, refl, sym, ap₂, ◌∙◌, arith, ◌≡◌, Bool, true, false, ◌&&◌, Option, none,
  some, List, [], ◌∷◌, ◌++◌, All, ok, check-ok, if◌then◌else◌,
}
use firmingo.Common.Run.Logged.{LoggedPart-all, Logs-first, Logs-skip, Logs-part, Logs-whole}
use firmingo.Common.Run.Returned.{Returns, Returns-pure, Returns-bind, Returns-skip, Returns-known}
use firmingo.Python.{Value, null, bool, int, neg, real, str, obj, arr, Fields, lookup}
use firmingo.Uart.Rig.{
  missing_counter, counter_changed, bad_peak, owner, observer, serial_open, serial_status,
  serial_close, device_reset, device_diagnostics, Event, connected, asked, denied, echoed, finished,
  World, Comparison,
}
use firmingo.Uart.Rig.Plans.{
  events_of, Calls, Calls-pure, Calls-lift, Calls-connect, Calls-ask, Calls-deny, Calls-write,
  steps,
}
use firmingo.Uart.Smoke.Planned.{close_plan, Calls-close_owner}
use firmingo.Uart.Loopback.Planned.{second_plan, Calls-refuse_second, Calls-check_total}
use firmingo.Fmgo.Smoke.{
  hand_over, echo_once, smoke, console_counters, is_present, is_peak, compare_counters,
  check_console_counters, read_counters, check_measured, managed_smoke,
}
use Prim.Native.String.{String}

abbrev pub hand_over_plan : List Event
hand_over_plan =
    asked owner serial_close
    ∷ asked observer (serial_open none)
    ∷ echoed observer 4096
    ∷ asked observer serial_close
    ∷ finished observer
    ∷ finished owner
    ∷ []

abbrev pub again_plan : List Event
again_plan = connected owner ∷ asked owner (serial_open none) ∷ echoed owner 4096 ∷ close_plan

abbrev pub totals : List Event → List Event
totals more = echoed owner 16384 ∷ echoed owner 4096 ∷ asked owner serial_status ∷ more

abbrev pub smoke_plan : List Event
smoke_plan =
    connected owner ∷ asked owner (serial_open none) ∷ second_plan
    ++ totals (denied owner device_reset "unsupported" ∷ hand_over_plan ++ again_plan)

abbrev pub measured_plan : Bool → List Event
measured_plan measured = if measured then asked owner device_diagnostics ∷ [] else []

abbrev pub managed_plan : Bool → List Event
managed_plan measured =
    connected owner ∷ asked owner (serial_open none) ∷ measured_plan measured
    ++ (second_plan ++ totals (asked owner device_diagnostics ∷ hand_over_plan ++ again_plan))

Calls-hand_over : Calls hand_over_plan hand_over
unfolding hand_over
Calls-hand_over = search steps depth 20

Calls-echo_once : Calls (asked owner (serial_open none) ∷ echoed owner 4096 ∷ close_plan) echo_once
unfolding echo_once
Calls-echo_once = search (steps, Calls-close_owner) depth 20

Calls-smoke : Calls smoke_plan smoke
unfolding smoke
Calls-smoke = Logs-first events_of _ _ _ _ (Calls-connect owner) (λ hello.
    Logs-first events_of _ _ _ _ (Calls-ask owner _) (λ _.
      Logs-part events_of second_plan _ _ _ (Calls-refuse_second hello) (λ _.
        Logs-first events_of _ _ _ _ (Calls-write _) (λ _.
          Logs-first events_of _ _ _ _ (Calls-write _) (λ _.
            Logs-first events_of _ _ _ _ (Calls-check_total 20480) (λ _.
              Logs-first events_of _ _ _ _ (Calls-deny owner _ _) (λ _.
                Logs-part events_of hand_over_plan _ _ _ Calls-hand_over
                  (λ _. search (steps, Calls-echo_once) depth 20))))))))

-- A check that passes made the documented calls in their order, and no others: while the owner has the channel the other session
-- makes a request for it that must fail as busy, it gets it after the owner closed it, and both sessions end before a fresh one is connected.
pub smoke-events : (w : World) → (smoke w).0 ≡ ok tt → (smoke w).1.events ≡ w.events ++ smoke_plan
smoke-events w h = LoggedPart-all events_of smoke_plan w (smoke w) (Calls-smoke.at w) h

Calls-read_counters : (measured : Bool) → Calls (measured_plan measured) (read_counters measured)
unfolding read_counters
Calls-read_counters true = search steps depth 20
Calls-read_counters false = Calls-pure none

both : (a b : Bool) → a && b ≡ true → (a ≡ true) × (b ≡ true)
both true b h = (refl, h)
both false b h = cc

module _ (py : Comparison) where
  Calls-compare :
      (names : List String) (before after : Fields)
      → Calls [] (compare_counters py names before after)
  unfolding compare_counters
  Calls-compare [] before after = Calls-pure tt
  Calls-compare (name ∷ names) before after =
      Logs-skip events_of _ _ _ (Calls-lift _)
        (λ _. Logs-skip events_of _ _ _ (Calls-lift _) (λ _. Calls-compare names before after))

  Calls-check_measured :
      (before : Option Fields) (after : Fields) → Calls [] (check_measured py before after)
  unfolding check_console_counters
  Calls-check_measured none after = Calls-pure tt
  Calls-check_measured (some before) after = search (steps, Calls-compare) depth 20

  Calls-managed_smoke :
      (measured : Bool) → Calls (managed_plan measured) (managed_smoke py measured)
  unfolding managed_smoke
  Calls-managed_smoke measured = Logs-first events_of _ _ _ _ (Calls-connect owner) (λ identity.
      Logs-first events_of _ _ _ _ (Calls-ask owner _) (λ _.
        Logs-part events_of (measured_plan measured) _ _ _ (Calls-read_counters measured) (λ before.
          Logs-part events_of second_plan _ _ _ (Calls-refuse_second identity) (λ _.
            Logs-first events_of _ _ _ _ (Calls-write _) (λ _.
              Logs-first events_of _ _ _ _ (Calls-write _) (λ _.
                Logs-first events_of _ _ _ _ (Calls-check_total 20480) (λ _.
                  Logs-first events_of _ _ _ _ (Calls-ask owner _) (λ diagnostics.
                    Logs-skip events_of _ _ _ (Calls-check_measured before diagnostics) (λ _.
                      Logs-part events_of hand_over_plan _ _ _ Calls-hand_over
                        (λ _. search (steps, Calls-echo_once, Logs-whole) depth 20))))))))))

  -- A counter that both readings have, and that Python finds equal in them.
  pub record IsUnchanged (name : String) (before after : Fields) : Type 0 where
    pub old : Value
    pub new : Value
    pub old_is : lookup name before ≡ some old
    pub new_is : lookup name after ≡ some new
    pub same : py.same (some new) (some old) ≡ true

  -- An integer of at most 256, or a Boolean.
  abbrev pub IsPeak : Option Value → Type 0
  IsPeak v = ((n : ℕ) × ((v ≡ some (int n)) × (n ≤ 256))) ⊎ ((b : Bool) × (v ≡ some (bool b)))

  pub record IsConsoleKept (before after : Fields) : Type 0 where
    pub input_discarded : IsUnchanged "sketch_input_discarded" before after
    pub output_discarded : IsUnchanged "sketch_output_discarded" before after
    pub output_rejected : IsUnchanged "sketch_output_rejected" before after
    pub peak : IsPeak (lookup "sketch_output_peak" after)

  -- A measured resident has a first reading, which the last one agrees with; another one has none.
  abbrev pub IsKept : Bool → Option Fields → Fields → Type 0
  IsKept true first after = (before : Fields) × ((first ≡ some before) × IsConsoleKept before after)
  IsKept false first after = first ≡ none

  present_lem : (v : Option Value) → is_present v ≡ true → (u : Value) × (v ≡ some u)
  present_lem none h = cc
  present_lem (some u) h = (u, refl)

  peak_lem : (v : Option Value) → is_peak v ≡ true → IsPeak v
  peak_lem (some (int n)) h = inl (n, (refl, ground (arith, h)))
  peak_lem (some (bool b)) h = inr (b, refl)
  peak_lem (some null) h = cc
  peak_lem (some (neg n)) h = cc
  peak_lem (some (real r)) h = cc
  peak_lem (some (str t)) h = cc
  peak_lem (some (obj d)) h = cc
  peak_lem (some (arr items)) h = cc
  peak_lem none h = cc

  unchanged_lem :
      (name : String) (before after : Fields)
      → (is_present (lookup name before) && is_present (lookup name after)) ≡ true
      → py.same (lookup name after) (lookup name before) ≡ true
      → IsUnchanged name before after
  unchanged_lem name before after present same =
      let (here, there) = both (is_present (lookup name before)) _ present in
      let (old, old_is) = present_lem (lookup name before) here in
      let (new, new_is) = present_lem (lookup name after) there in
      record {
        old = old;
        new = new;
        old_is = old_is;
        new_is = new_is;
        same = ap₂ (λ a b. py.same a b) (sym new_is) (sym old_is) ∙ same;
      }

  abbrev Unchanged : Fields → Fields → List String → Type 0
  Unchanged before after names = All (λ (name : String). IsUnchanged name before after) names

  Returns-compare :
      (names : List String) (before after : Fields)
      → Returns
          (λ (u : Unit {0}). Unchanged before after names)
          (compare_counters py names before after)
  unfolding compare_counters
  Returns-compare [] before after = Returns-pure _ tt tt
  Returns-compare (name ∷ names) before after = Returns-known _ _ _ (λ _ h.
      Returns-known _ _ _ (λ _ k. record {
        at = λ w u e. (
          unchanged_lem name before after
              (check-ok (is_present (lookup name before) && is_present (lookup name after))
                missing_counter h)
              (check-ok (py.same (lookup name after) (lookup name before)) counter_changed k),
          (Returns-compare names before after).at w u e,
        );
      }))

  Returns-check_console :
      (before after : Fields)
      → Returns
          (λ (u : Unit {0}). IsConsoleKept before after)
          (check_console_counters py before after)
  unfolding check_console_counters
  Returns-check_console before after =
      Returns-bind _ _ _ _ (Returns-compare console_counters before after) (λ _ unchanged. record {
        at = λ w u e. record {
          input_discarded = unchanged.0;
          output_discarded = unchanged.1.0;
          output_rejected = unchanged.1.1.0;
          peak =
              peak_lem (lookup "sketch_output_peak" after)
                (check-ok (is_peak (lookup "sketch_output_peak" after)) bad_peak e);
        };
      })

  -- What `read_counters` returns.
  IsFirst : Bool → Option Fields → Type 0
  IsFirst true first = (before : Fields) × (first ≡ some before)
  IsFirst false first = first ≡ none

  Returns-read_counters : (measured : Bool) → Returns (IsFirst measured) (read_counters measured)
  unfolding read_counters IsFirst
  Returns-read_counters true =
      Returns-skip _ _ _ (λ d. Returns-pure (IsFirst true) (some d) (d, refl))
  Returns-read_counters false = Returns-pure (IsFirst false) none refl

  Returns-check_measured :
      (measured : Bool) (first : Option Fields) (after : Fields)
      → IsFirst measured first
      → Returns (λ (u : Unit {0}). IsKept measured first after) (check_measured py first after)
  unfolding IsFirst
  Returns-check_measured true none after (before, e) = absurd (cc)
  Returns-check_measured true (some before) after is_first = record {
    at = λ w u e. (before, (refl, (Returns-check_console before after).at w u e));
  }
  Returns-check_measured false first after is_first = record { at = λ w u e. is_first }

  Returns-managed_smoke :
      (measured : Bool)
      → Returns
          (λ (out : Option Fields × Fields). IsKept measured out.0 out.1)
          (managed_smoke py measured)
  unfolding managed_smoke
  Returns-managed_smoke measured = Returns-skip _ _ _ (λ identity. Returns-skip _ _ _ (λ _.
      Returns-bind _ _ _ _ (Returns-read_counters measured) (λ before is_first.
        Returns-skip _ _ _ (λ _. Returns-skip _ _ _ (λ _. Returns-skip _ _ _ (λ _.
          Returns-skip _ _ _ (λ _. Returns-skip _ _ _ (λ diagnostics.
            Returns-bind _ _ _ _ (Returns-check_measured measured before diagnostics is_first)
              (λ _ kept. Returns-skip _ _ _ (λ _. Returns-skip _ _ _ (λ again.
                Returns-skip _ _ _ (λ _.
                  Returns-skip _ _ _ (λ _. Returns-pure _ (before, diagnostics) kept)))))))))))))

  -- A check of a managed resident that passes made the documented calls in their order, and no others, with the counters read
  -- before the echoes when the resident is measured. Then there is such a reading, the three counters of the console are in it
  -- and in the one after the echoes, and are the same in both, and the peak of the output is an integer of at most 256 (or
  -- a Boolean, which is an integer in Python). Of another resident there is no first reading.
  pub managed_smoke-IsKept :
      (measured : Bool) (w : World) {out : Option Fields × Fields}
      → (managed_smoke py measured w).0 ≡ ok out
      → ((managed_smoke py measured w).1.events ≡ w.events ++ managed_plan measured)
        × IsKept measured out.0 out.1
  managed_smoke-IsKept measured w {out} h = (
    LoggedPart-all events_of (managed_plan measured) w (managed_smoke py measured w)
        ((Calls-managed_smoke measured).at w) h,
    (Returns-managed_smoke measured).at w out h,
  )
