-- ===== src/Fmgo/Burst/Check/Judged.antt =====
-- What a check of the burst that returns has done, and what its verdict rests on (tools/ncm_burst.py).
use firmingo.Common.{
  ℕ, ◌+◌, ◌≡◌, ◌↔◌, refl, ap, ◌∙◌, true, Option, none, some, List, [], ◌∷◌, ◌++◌, Result, ok, err,
  ok-inj, check-ok, append_assoc, map_err-eq-ok, arith,
}
use firmingo.Common.Run.{lift, ◌>>=◌, ◌>>◌}
use firmingo.Common.Run.Logged.{LoggedPart-all, Logs-always, Logs-first, Logs-skip, Logs-part}
use firmingo.Common.Run.Returned.{Returns, Returns-pure, Returns-bind, Returns-skip, Returns-known}
use firmingo.Python.{Fields, lookup, as_int}
use firmingo.Soak.{diagnostics}
use firmingo.Soak.Readings.{IsReading, IsLater}
use firmingo.Soak.Series.{LaterThan, diagnostics-IsReading}
use firmingo.Uart.Rig.{
  RigError, bad_counts, bad_diagnostics, owner, observer, serial_open, serial_status, serial_close,
  device_diagnostics, Event, connected, asked, echoed, bursted, finished, World, write,
}
use firmingo.Uart.Rig.Plans.{events_of, Calls, Calls-lift, Calls-connect, Calls-ask, steps}
use firmingo.Fmgo.Burst.Check.{
  Exercise, not_exercised, BurstCheck, is_expected_status, counter_of, judge_counters,
  budget_verdict, read_diagnostics, together, transfer_both, run,
}

abbrev pub both_plan : ℕ → ℕ → ℕ → List Event
both_plan control_frames control_payload echo_bytes =
    echoed owner echo_bytes ∷ bursted observer control_frames control_payload ∷ []

abbrev pub run_plan : ℕ → ℕ → ℕ → List Event
run_plan control_frames control_payload echo_bytes =
    connected owner
      ∷ connected observer
      ∷ asked observer device_diagnostics
      ∷ asked owner (serial_open none)
      ∷ both_plan control_frames control_payload echo_bytes
    ++ (asked owner serial_status
        ∷ asked observer device_diagnostics
        ∷ asked owner serial_close
        ∷ finished owner
        ∷ finished observer
        ∷ [])

Calls-read_diagnostics :
    (previous : Option Fields)
    → Calls (asked observer device_diagnostics ∷ []) (read_diagnostics previous)
unfolding read_diagnostics
Calls-read_diagnostics previous = search steps depth 20

Calls-budget_verdict : (before after : Fields) → Calls [] (budget_verdict before after)
unfolding budget_verdict
Calls-budget_verdict before after = search steps depth 20

lifted_both : (r s : Result RigError (Unit {0})) (w : World) → ((lift r >> lift s) w).1 ≡ w
unfolding ◌>>=◌
lifted_both (ok u) s w = refl
lifted_both (err e) s w = refl

-- Whatever the first future meets, the second one runs.
Calls-transfer_both :
    (control_frames control_payload echo_bytes : ℕ)
    → Calls
        (both_plan control_frames control_payload echo_bytes)
        (transfer_both control_frames control_payload echo_bytes)
unfolding transfer_both together write
Calls-transfer_both control_frames control_payload echo_bytes =
    Logs-always events_of _ (transfer_both control_frames control_payload echo_bytes) (λ w.
      ap events_of (lifted_both (write (echoed owner echo_bytes) w).0 _ _)
      ∙ append_assoc w.events _ _)

Calls-run :
    (control_frames control_payload echo_bytes : ℕ)
    → Calls
        (run_plan control_frames control_payload echo_bytes)
        (run control_frames control_payload echo_bytes)
unfolding run
Calls-run control_frames control_payload echo_bytes =
    Logs-first events_of _ _ _ _ (Calls-connect owner) (λ identity.
      Logs-first events_of _ _ _ _ (Calls-connect observer) (λ other.
        Logs-skip events_of _ _ _ (Calls-lift _) (λ _.
          Logs-first events_of _ _ _ _ (Calls-read_diagnostics none) (λ initial.
            Logs-first events_of _ _ _ _ (Calls-ask owner _) (λ _.
              Logs-part events_of (both_plan control_frames control_payload echo_bytes) _ _ _
                (Calls-transfer_both control_frames control_payload echo_bytes)
                (λ _. search (steps, Calls-read_diagnostics, Calls-budget_verdict) depth 20))))))

-- The counters of the first and of the last reading, and what they make of the check.
pub record IsExercise (before after : Fields) (x : Exercise) : Type 0 where
  pub exhausted : ℕ
  pub exhausted_before : ℕ
  pub wakes : ℕ
  pub wakes_before : ℕ
  pub exhausted_is : as_int (lookup "ncm_budget_exhaustions" after) ≡ some exhausted
  pub exhausted_was : as_int (lookup "ncm_budget_exhaustions" before) ≡ some exhausted_before
  pub wakes_is : as_int (lookup "ncm_wake_requests" after) ≡ some wakes
  pub wakes_was : as_int (lookup "ncm_wake_requests" before) ≡ some wakes_before
  pub balanced : exhausted + wakes_before ≡ wakes + exhausted_before
  pub idle : (x ≡ not_exercised) ↔ (exhausted ≡ exhausted_before)

counter_of-ok : (n : Option ℕ) {m : ℕ} → counter_of n ≡ ok m → n ≡ some m
counter_of-ok none h = cc
counter_of-ok (some n) h = ap some (ok-inj h)

judge_counters_lem :
    (e e' w w' : ℕ) (x : Exercise)
    → judge_counters e e' w w' ≡ ok x
    → (e + w' ≡ w + e') × ((x ≡ not_exercised) ↔ (e ≡ e'))
unfolding judge_counters
judge_counters_lem e e' w w' x h = ground (arith, h)

Returns-budget_verdict :
    (before after : Fields)
    → Returns (λ (x : Exercise). IsExercise before after x) (budget_verdict before after)
unfolding budget_verdict
Returns-budget_verdict before after = Returns-known _ _ _ (λ e h₁. Returns-known _ _ _ (λ e' h₂.
    Returns-known _ _ _ (λ w h₃. Returns-known _ _ _ (λ w' h₄. record {
      at = λ _ x h.
          let (balance, unmoved) = judge_counters_lem e e' w w' x h in
          record {
            exhausted = e;
            exhausted_before = e';
            wakes = w;
            wakes_before = w';
            exhausted_is = counter_of-ok (as_int (lookup "ncm_budget_exhaustions" after)) h₁;
            exhausted_was = counter_of-ok (as_int (lookup "ncm_budget_exhaustions" before)) h₂;
            wakes_is = counter_of-ok (as_int (lookup "ncm_wake_requests" after)) h₃;
            wakes_was = counter_of-ok (as_int (lookup "ncm_wake_requests" before)) h₄;
            balanced = balance;
            idle = unmoved;
          };
    }))))

Returns-read_diagnostics :
    (previous : Option Fields)
    → Returns
        (λ (reading : Fields). IsReading reading × LaterThan previous reading)
        (read_diagnostics previous)
unfolding read_diagnostics
Returns-read_diagnostics previous = Returns-skip _ _ _ (λ answer. record {
  at = λ w reading h.
      diagnostics-IsReading previous answer
        (map_err-eq-ok (λ e. bad_diagnostics) (diagnostics previous answer) h);
})

-- The readings are consistent and the second one is later, the status is the expected one, and the verdict is that of the counters.
pub record IsJudged (echo_bytes : ℕ) (r : BurstCheck) : Type 0 where
  pub first : IsReading r.initial
  pub last : IsReading r.final
  pub later : IsLater r.initial r.final
  pub counted : is_expected_status echo_bytes r.status ≡ true
  pub judged : IsExercise r.initial r.final r.exercise

Returns-run :
    (control_frames control_payload echo_bytes : ℕ)
    → Returns (IsJudged echo_bytes) (run control_frames control_payload echo_bytes)
unfolding run
Returns-run control_frames control_payload echo_bytes = Returns-skip _ _ _ (λ identity.
    Returns-skip _ _ _ (λ other. Returns-skip _ _ _ (λ _.
      Returns-bind _ _ _ _ (Returns-read_diagnostics none) (λ initial at_first.
        Returns-skip _ _ _ (λ _. Returns-skip _ _ _ (λ _. Returns-skip _ _ _ (λ status.
          Returns-known _ _ _ (λ _ h.
            Returns-bind _ _ _ _ (Returns-read_diagnostics (some initial)) (λ final at_last.
              Returns-skip _ _ _ (λ _. Returns-skip _ _ _ (λ _. Returns-skip _ _ _ (λ _.
                Returns-bind _ _ _ _ (Returns-budget_verdict initial final) (λ exercise judged.
                  Returns-pure _ _ (record {
                    first = at_first.0;
                    last = at_last.0;
                    later = at_last.1;
                    counted = check-ok (is_expected_status echo_bytes status) bad_counts h;
                    judged = judged;
                  }))))))))))))))

-- A check that returns made the documented calls in their order, and no others: the owner's echo and the other session's burst
-- lie between two readings of the diagnostics, and both sessions end. The two readings are consistent and the last one is the
-- later one; the status of the channel is exactly the expected dictionary. The counters of exhausted budgets and of wake
-- requests changed by the same amount; the verdict is that the path was not exercised exactly when the amount is 0.
pub run-IsJudged :
    (control_frames control_payload echo_bytes : ℕ) (w : World) {r : BurstCheck}
    → (run control_frames control_payload echo_bytes w).0 ≡ ok r
    → ((run control_frames control_payload echo_bytes w).1.events
        ≡ w.events ++ run_plan control_frames control_payload echo_bytes)
      × IsJudged echo_bytes r
run-IsJudged control_frames control_payload echo_bytes w {r} h = (
  LoggedPart-all events_of (run_plan control_frames control_payload echo_bytes) w
      (run control_frames control_payload echo_bytes w)
      ((Calls-run control_frames control_payload echo_bytes).at w) h,
  (Returns-run control_frames control_payload echo_bytes).at w r h,
)
