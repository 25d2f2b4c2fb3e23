-- ===== src/Uart/Matrix/Passed.antt =====
-- What a case, and a run, of the format matrix has done (tools/uart_format_matrix.py).
use firmingo.Common.{
  ℕ, ◌≡◌, refl, ap, ◌∙◌, Bool, true, false, not, ◌&&◌, ◌||◌, Option, none, some, List, ◌++◌, Result,
  ok, ok-inj, raise_if, check-ok,
}
use firmingo.Common.Run.Returned.{Returns, Returns-pure, Returns-bind, Returns-skip, Returns-known}
use firmingo.Python.{Fields, lookup, equals_int}
use firmingo.Common.Bytes.{Bytes, bytes_eq_iff, ascii}
use firmingo.Uart.Text.{decimal, fields, value_of, is_text}
use firmingo.Soak.Run.{bad_counters}
use firmingo.Uart.Rig.{
  RigError, bad_counts, bad_diagnostics, Config, Event, Case, World, Comparison, all_same,
  bad_peer_counts, get_or_zero, decided,
}
use firmingo.Uart.Rig.Delivered.{Carries, returned_lem}
use firmingo.Uart.Smoke.{stable_names, check_stable, check_peer_counts}
use firmingo.Uart.Matrix.{finish_case, run_case, cases_of, run}
use firmingo.Uart.Matrix.Planned.{case_plan, run_plan, Calls-run_case, Calls-run}
use Prim.Native.String.{String}
use firmingo.Uart.Rig.Taken.{Begins}
use firmingo.Uart.Matrix.PeerRefused.{PeerAnswers}
use firmingo.Uart.Matrix.BoardRefused.{BoardAnswers}
use firmingo.Uart.Matrix.PeerRefused
use firmingo.Uart.Matrix.BoardRefused
use firmingo.Uart.Matrix.Delivered.{given_by, all_given, Delivers-run_case, Delivers-run}

-- A counter that Python finds equal in two readings.
abbrev pub IsSame : Comparison → String → Fields → Fields → Type 0
IsSame py name current baseline = py.same (lookup name current) (lookup name baseline) ≡ true

-- A line of the peer says `name=text`.
abbrev pub Says : Bytes → Bytes → Bytes → Type 0
Says line name text = value_of name (fields line) ≡ some text

-- What the report says of a case that passed: both ends counted its bytes, and the board's counters of errors did not change.
pub record IsPassed (py : Comparison) (baseline : Fields) (c : Config) (count seed : ℕ) (r : Case)
    : Type 0 where
  pub config_is : r.config ≡ c
  pub count_is : r.count ≡ count
  pub seed_is : r.seed ≡ seed
  pub counted :
      (equals_int (lookup "backend_rx_bytes" r.status) count ≡ true)
      × (equals_int (lookup "backend_tx_bytes" r.status) count ≡ true)
  pub drained :
      (equals_int (lookup "pending_to_backend" r.status) 0 ≡ true)
      × (equals_int (lookup "pending_to_peer" r.status) 0 ≡ true)
  pub no_overrun : IsSame py "uart_rx_overrun_events" r.diagnostics baseline
  pub no_loss : IsSame py "uart_rx_lost_bytes_minimum" r.diagnostics baseline
  pub no_error : IsSame py "tcp_errors" r.diagnostics baseline
  pub not_regressed :
      py.below
        (get_or_zero "uart_rx_discarded" r.diagnostics)
        (get_or_zero "uart_rx_discarded" baseline)
      ≡ some false
  pub peer_counted :
      Says r.stats (ascii "rx") (decimal count) × Says r.stats (ascii "tx") (decimal count)
  pub peer_clean :
      Says r.stats (ascii "overruns") (ascii "0") × Says r.stats (ascii "mismatches") (ascii "0")

raised_not : (b : Bool) (e : RigError) {u : Unit {0}} → raise_if b e ≡ ok u → b ≡ false
raised_not true e h = cc
raised_not false e h = refl

not_or : (a b : Bool) → not a || b ≡ false → (a ≡ true) × (b ≡ false)
not_or true b h = (refl, h)
not_or false b h = cc

not-not : (a : Bool) → not a ≡ false → a ≡ true
not-not true h = refl
not-not false h = cc

both : (a b : Bool) → a && b ≡ true → (a ≡ true) × (b ≡ true)
both true b h = (refl, h)
both false b h = cc

is_text-some : (found : Option Bytes) (text : Bytes) → is_text found text ≡ true → found ≡ some text
is_text-some none text h = cc
is_text-some (some v) text h = ap some ((bytes_eq_iff v text).0 h)

not_below :
    (answer : Option Bool) (b : Bool) → decided answer ≡ ok b → b ≡ false → answer ≡ some false
not_below none b h e = cc
not_below (some a) b h e = ap some (ok-inj h ∙ e)

module _ (py : Comparison) (boot_id : String) (baseline : Fields) where
  -- What `check_stable` accepts.
  IsStable : Fields → Type 0
  IsStable current =
      (all_same py stable_names current baseline ≡ true)
      × (py.below (get_or_zero "uart_rx_discarded" current)
            (get_or_zero "uart_rx_discarded" baseline)
          ≡ some false)

  Returns-check_stable :
      (current : Fields)
      → Returns (λ (u : Unit {0}). IsStable current) (check_stable py current baseline)
  unfolding check_stable IsStable
  Returns-check_stable current = Returns-known _ _ _ (λ _ h. Returns-known _ _ _ (λ regressed below.
      record {
        at = λ w u e. (
          check-ok (all_same py stable_names current baseline) bad_diagnostics h,
          not_below _ regressed below (raised_not regressed bad_diagnostics e),
        );
      }))

  module _ (c : Config) (count seed actual_baud : ℕ) (status diagnostics : Fields)
      (stats : Bytes) where
    entry_lem :
        raise_if (bad_counters status count) bad_counts ≡ ok tt
        → IsStable diagnostics
        → check_peer_counts stats count ≡ ok tt
        → IsPassed py baseline c count seed (record {
          config = c;
          actual_baud = actual_baud;
          count = count;
          seed = seed;
          status = status;
          diagnostics = diagnostics;
          stats = stats;
        })
    unfolding IsStable all_same
    entry_lem counted stable peer =
        let (rx, h1) =
          not_or (equals_int (lookup "backend_rx_bytes" status) count) _
            (raised_not (bad_counters status count) bad_counts counted) in
        let (tx, h2) = not_or (equals_int (lookup "backend_tx_bytes" status) count) _ h1 in
        let (to_backend, h3) = not_or (equals_int (lookup "pending_to_backend" status) 0) _ h2 in
        let (overrun, s1) =
          both
            (py.same (lookup "uart_rx_overrun_events" diagnostics)
              (lookup "uart_rx_overrun_events" baseline))
            _ stable.0 in
        let (loss, s2) =
          both
            (py.same (lookup "uart_rx_lost_bytes_minimum" diagnostics)
              (lookup "uart_rx_lost_bytes_minimum" baseline))
            _ s1 in
        let (errors, _) =
          both (py.same (lookup "tcp_errors" diagnostics) (lookup "tcp_errors" baseline)) _ s2 in
        let items = fields stats in
        let (peer_rx, p1) =
          both (is_text (value_of (ascii "rx") items) (decimal count)) _
            (check-ok _ bad_peer_counts peer) in
        let (peer_tx, p2) = both (is_text (value_of (ascii "tx") items) (decimal count)) _ p1 in
        let (overruns, mismatches) =
          both (is_text (value_of (ascii "overruns") items) (ascii "0")) _ p2 in
        record {
          config_is = refl;
          count_is = refl;
          seed_is = refl;
          counted = (rx, tx);
          drained = (to_backend, not-not (equals_int (lookup "pending_to_peer" status) 0) h3);
          no_overrun = overrun;
          no_loss = loss;
          no_error = errors;
          not_regressed = stable.1;
          peer_counted = (is_text-some _ _ peer_rx, is_text-some _ _ peer_tx);
          peer_clean = (is_text-some _ _ overruns, is_text-some _ _ mismatches);
        }

  module _ (c : Config) (count seed : ℕ) where
    Returns-finish_case :
        (actual_baud : ℕ)
        → Returns
            (IsPassed py baseline c count seed)
            (finish_case py baseline c actual_baud count seed)
    unfolding finish_case
    Returns-finish_case actual_baud = Returns-skip _ _ _ (λ status.
        Returns-known _ _ _ (λ _ counted. Returns-skip _ _ _ (λ diagnostics.
          Returns-bind _ _ _ _ (Returns-check_stable diagnostics) (λ _ stable.
            Returns-skip _ _ _ (λ line. Returns-known _ _ _ (λ _ peer_counted.
              Returns-skip _ _ _ (λ _. Returns-pure _ _ (
                entry_lem c count seed actual_baud status diagnostics line counted stable
                  peer_counted))))))))

    Returns-run_case :
        Returns (IsPassed py baseline c count seed) (run_case py boot_id baseline c count seed)
    unfolding run_case
    Returns-run_case = Returns-skip _ _ _ (λ peer. Returns-skip _ _ _ (λ _. Returns-skip _ _ _ (λ _.
        Returns-skip _ _ _ (λ _. Returns-skip _ _ _ (λ _.
          Returns-skip _ _ _
            (λ _. Returns-skip _ _ _ (λ _. Returns-finish_case peer.actual_baud)))))))

    -- A case that passes made its calls in the documented order; the frames that it took from the board belong to the channel and
    -- carry the reverse pattern in the format's bits; and its entry of the report has its configuration, count and seed,
    -- counters of both ends that equal the count with nothing pending, no overruns or mismatches at the peer, and the three
    -- counters of errors that the board had before, and no fewer discarded bytes.
    pub run_case-IsPassed :
        (w : World) {w' : World} {r : Case}
        → run_case py boot_id baseline c count seed w ≡ (ok r, w')
        → ((w'.events ≡ w.events ++ case_plan c count seed)
            × Carries (given_by c count seed) w.frames w'.frames)
          × IsPassed py baseline c count seed r
    run_case-IsPassed w {w'} {r} h = (
      returned_lem _ _ (run_case py boot_id baseline c count seed)
          (Calls-run_case py boot_id baseline c count seed)
          (Delivers-run_case py boot_id baseline c count seed) w h,
      Returns-run_case.at w r (ap (λ (out : Result RigError Case × World). out.0) h),
    )

-- A run of the matrix that passes made the documented calls in their order, and no others: it sends seven invalid
-- configurations to the peer and seven to the board, and then each case runs with its configuration, byte count and seed. Behind its answers
-- to `PING` and `STATS`, the peer answered each of its seven with `ERR invalid_config` and a status; behind its diagnostics and the
-- open channel, the board answered each of its seven with an error of the code `invalid_argument`. The
-- frames that the runs took from the board all belong to the channel and carry the reverse patterns of the cases, one after the other, in
-- bytes of as many bits as the case's format has.
pub run-IsPassed :
    (py : Comparison) (boundary_bytes format_bytes high_speed_bytes seed : ℕ) (w : World)
    {w' : World}
    → run py boundary_bytes format_bytes high_speed_bytes seed w ≡ (ok tt, w')
    → ((w'.events
          ≡ w.events ++ run_plan (cases_of boundary_bytes format_bytes high_speed_bytes) seed)
        × Carries
            (all_given seed 0 (cases_of boundary_bytes format_bytes high_speed_bytes))
            w.frames
            w'.frames)
      × (Begins PeerAnswers w.lines × Begins BoardAnswers w.documents)
run-IsPassed py boundary_bytes format_bytes high_speed_bytes seed w h =
    let result = ap (λ (out : Result RigError (Unit {0}) × World). out.0) h in
    (
      returned_lem _ _ (run py boundary_bytes format_bytes high_speed_bytes seed)
          (Calls-run py boundary_bytes format_bytes high_speed_bytes seed)
          (Delivers-run py boundary_bytes format_bytes high_speed_bytes seed) w h,
      (
        (PeerRefused.Starts-run py boundary_bytes format_bytes high_speed_bytes seed).at w tt
            result,
        (BoardRefused.Starts-run py boundary_bytes format_bytes high_speed_bytes seed).at w tt
            result,
      ),
    )

-- The calls of a run that fails.
pub record IsStart (plan : List Event) (before after : List Event) : Type 0 where
  pub made : List Event
  pub left_out : List Event
  pub split : plan ≡ made ++ left_out
  pub events_are : after ≡ before ++ made

-- Whatever the two devices answer, and wherever the run stops, the calls that were made are the first ones of the documented
-- sequence.
pub run-IsStart :
    (py : Comparison) (boundary_bytes format_bytes high_speed_bytes seed : ℕ) (w : World)
    → IsStart
        (run_plan (cases_of boundary_bytes format_bytes high_speed_bytes) seed)
        w.events
        (run py boundary_bytes format_bytes high_speed_bytes seed w).1.events
run-IsStart py boundary_bytes format_bytes high_speed_bytes seed w =
    let s = (Calls-run py boundary_bytes format_bytes high_speed_bytes seed).at w in
    record { made = s.done; left_out = s.rest; split = s.split; events_are = s.log_is }
