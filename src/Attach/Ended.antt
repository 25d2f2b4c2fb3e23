-- ===== src/Attach/Ended.antt =====
-- The report at the end of a check.
use firmingo.Common.{
  ℕ, ◌+◌, ◌≡◌, ◌⊎◌, inl, inr, refl, ap, subst, Bool, true, false, not, ◌&&◌, ◌||◌, Option, none,
  some, List, Result, ok, err, raise_if, length, leb, ltb, if◌then◌else◌, arith,
}
use firmingo.Common.Run.{lift, ◌>>=◌}
use firmingo.Common.Run.Triple.{Post, Triple, Triple-lift, Triple-bind}
use mathlib.Core.Option.{some-injective}
use firmingo.Attach.{
  AttachError, not_connected, not_ready, bad_routes, reply, Cycle, complete, incomplete, Report,
  Act, same_text, diagnostics_ready, Preflight, Observed, found, arm, on_cycle, run_cycles, attempt,
  fail_cycle, close_report, first_report, run,
}
use firmingo.Attach.Track.{
  PassedFrom, IsOpen, IsFailed, IsFailed-fail_cycle, Between, Broken, Between-Broken,
}
use firmingo.Attach.Attached.{IsChained, attempt-IsChained}
use firmingo.Attach.Cycles.{run_cycles-Between}
use Prim.Native.String.{String}

-- A report that is saved: the cycles that passed, and either all of them, or the one that failed.
pub record IsEnded (interface : String) (ready_timeout start : ℕ) (p : Preflight)
    (observed : List Observed) (result : Result AttachError (Unit {0})) (w : Report) : Type 0 where
  pub passed : PassedFrom start w.passed
  pub ends :
      (((result ≡ ok tt) × IsChained interface ready_timeout p observed)
        × ((w.status ≡ complete) × ((length w.passed ≡ length observed) × (w.current ≡ none))))
      ⊎ ((w.status ≡ incomplete)
          × ((w.current ≡ none)
              ⊎ ((c : Cycle) × ((w.current ≡ some c) × IsFailed (start + length w.passed) c))))

module _ (start : ℕ) where
  Keeps-lift :
      {A : Type 0} (r : Result AttachError A)
      → Triple (Between start 0) (lift r) (λ (x : A) w. Between start 0 w) (Broken start)
  Keeps-lift r = Triple-lift (Broken start) r (Between start 0) (Between-Broken start 0)

  Keeps-bind :
      {A B : Type 0} (m : Act A) (f : A → Act B)
      → Triple (Between start 0) m (λ (x : A) w. Between start 0 w) (Broken start)
      → ((x : A) → Triple (Between start 0) (f x) (λ (y : B) w. Between start 0 w) (Broken start))
      → Triple (Between start 0) (m >>= f) (λ (y : B) w. Between start 0 w) (Broken start)
  Keeps-bind {A} {B} m f h k =
      Triple-bind (Broken start) (Between start 0) (λ (x : A) w. Between start 0 w)
        (λ (y : B) w. Between start 0 w) m f h k

  -- No cycle has begun.
  arm-Between :
      (interface : String) (p : Preflight)
      → Triple
          (Between start 0)
          (arm interface p)
          (λ (x : Unit {0}) w. Between start 0 w)
          (Broken start)
  unfolding arm
  arm-Between interface p = Keeps-bind (lift (reply p.entry)) _ (Keeps-lift _) (λ entry.
      Keeps-bind (lift (found not_connected entry)) _ (Keeps-lift _) (λ registry_id.
        Keeps-bind (lift (reply p.lease)) _ (Keeps-lift _) (λ lease.
          Keeps-bind (lift (found not_ready lease)) _ (Keeps-lift _) (λ xid.
            Keeps-bind (lift (reply p.board_route)) _ (Keeps-lift _) (λ board.
              Keeps-bind (lift (reply p.default_route)) _ (Keeps-lift _) (λ baseline.
                Keeps-bind
                  (lift (
                    raise_if
                      (not (same_text board.interface (some interface))
                        || same_text baseline.interface (some interface))
                      bad_routes))
                  _ (Keeps-lift _)
                  (λ _. Keeps-bind (lift (reply p.snapshot)) _ (Keeps-lift _) (λ snapshot.
                    Keeps-bind (lift (diagnostics_ready snapshot)) _ (Keeps-lift _) (λ _. record {
                      at = λ w h. record { passed = h.passed; counted = h.counted; idle = h.idle };
                    })))))))))

  Completed : ℕ → Report → Type 0
  Completed selected w = Between start selected w × (w.status ≡ complete)

  attempt-Completed :
      (interface : String) (ready_timeout : ℕ) (p : Preflight) (observed : List Observed)
      → Triple
          (Between start 0)
          (attempt interface ready_timeout start p observed)
          (λ (x : Unit {0}) w. Completed (length observed) w)
          (Broken start)
  unfolding attempt Completed
  attempt-Completed interface ready_timeout p observed =
      let end : Unit {0} → Report → Type 0 = (λ x w. Completed (length observed) w) in
      let whole : 0 + length observed ≡ length observed = omega arith in
      Triple-bind (Broken start) (Between start 0) (λ (x : Unit {0}) w. Between start 0 w) end
        (arm interface p) _ (arm-Between interface p)
        (λ _.
          Triple-bind (Broken start) (Between start 0)
            (λ (x : Unit {0}) w. Between start (length observed) w) end
            (run_cycles interface ready_timeout start observed) _
            (subst
              (λ n.
                Triple (Between start 0) (run_cycles interface ready_timeout start observed)
                  (λ (x : Unit {0}) w. Between start n w) (Broken start))
              whole
              (run_cycles-Between start interface ready_timeout 0 start observed (omega arith)))
            (λ _. record {
              at = λ w h. (record { passed = h.passed; counted = h.counted; idle = h.idle }, refl);
            }))

  closed_last :
      (n : ℕ) (current : Option Cycle)
      → (current ≡ none) ⊎ ((c : Cycle) × ((current ≡ some c) × IsOpen n c))
      → (on_cycle fail_cycle current ≡ none)
        ⊎ ((c : Cycle) × ((on_cycle fail_cycle current ≡ some c) × IsFailed n c))
  closed_last n current (inl e) = inl (ap (on_cycle fail_cycle) e)
  closed_last n current (inr (c, (e, o))) =
      inr (fail_cycle c, (ap (on_cycle fail_cycle) e, IsFailed-fail_cycle n c o))

  close_report-IsEnded :
      (interface : String) (ready_timeout : ℕ) (p : Preflight) (observed : List Observed)
      (result : Result AttachError (Unit {0})) (w : Report)
      → Post (λ (x : Unit {0}) v. Completed (length observed) v) (Broken start) result w
      → ((x : Unit {0}) → result ≡ ok x → IsChained interface ready_timeout p observed)
      → IsEnded interface ready_timeout start p observed result (close_report result w)
  unfolding Completed
  close_report-IsEnded interface ready_timeout p observed (ok x) w h chained = record {
    passed = h.0.passed;
    ends = inl ((refl, chained x refl), (h.1, (h.0.counted, h.0.idle)));
  }
  close_report-IsEnded interface ready_timeout p observed (err e) w h chained = record {
    passed = h.passed;
    ends = inr (refl, closed_last (start + length w.passed) w.current h.last);
  }

if-some :
    {A : Type 0} (refused : Bool) (made : A) {given : A}
    → (if refused then none else some made) ≡ some given
    → made ≡ given
if-some true made h = cc
if-some false made {given} h = some-injective made given h

-- Whatever is observed, the saved report lists cycles from the first one on, each with its number, the state of a pass and the
-- flag of an observed attachment. If the check returns, these are all the selected cycles and the report is complete, and in each
-- of them the board went away and came back as another instance than the one before it (for the first cycle, than that of the
-- preflight), on the selected interface and with the default route of the preflight; its times of starting up were in order; all
-- this within the time for it; and both requests succeeded. If the check raises, the report is incomplete, and a cycle that had
-- begun is the next one, with its stage, and counts as not started until an attachment was observed, and as failed from then on.
pub run-IsEnded :
    (interface : String) (ready_timeout start : ℕ) (p : Preflight) (observed : List Observed)
    {result : Result AttachError (Unit {0})} {report : Report}
    → run interface ready_timeout start p observed ≡ some (result, report)
    → IsEnded interface ready_timeout start p observed result report
unfolding run
run-IsEnded interface ready_timeout start p observed {result} {report} h =
    let after = attempt interface ready_timeout start p observed first_report in
    let is : (after.0, close_report after.0 after.1) ≡ (result, report) =
      if-some (ltb start 1 || not (leb 1 (length observed) && leb (length observed) 20)) _ h in
    let begun : Between start 0 first_report = record {
      passed = tt;
      counted = refl;
      idle = refl;
    } in
    subst
      (λ (r : Result AttachError (Unit {0}) × Report).
        IsEnded interface ready_timeout start p observed r.0 r.1)
      is
      (close_report-IsEnded start interface ready_timeout p observed after.0 after.1
        ((attempt-Completed start interface ready_timeout p observed).at first_report begun)
        (attempt-IsChained interface ready_timeout start p observed first_report).at)
