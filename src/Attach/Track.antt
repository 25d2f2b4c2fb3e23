-- ===== src/Attach/Track.antt =====
-- What the report says of the cycles, however the check ends.
use firmingo.Common.{
  ℕ, ◌+◌, ◌≡◌, ◌⊎◌, inl, inr, refl, sym, ap, ◌∙◌, Bool, true, false, not, ◌||◌, none, some, List,
  [], ◌∷◌, ◌++◌, Result, ok, err, raise_if, length, ◌==◌, if◌then◌else◌, arith,
}
use firmingo.Common.Run.{lift, ◌>>=◌}
use firmingo.Common.Run.Triple.{Post, Triple, Triple-lift, Triple-bind}
use firmingo.Attach.{
  AttachError, timed_out, same_instance, changed_routes, reply, CycleStatus, waiting_for_unplug,
  waiting_for_plug, waiting_for_network, checking, functional_pass, failed, not_started, Cycle,
  Routes, Report, Act, same_text, same_routes, diagnostics_ready, Observed, on_cycle, update_cycle,
  check_instance, check_routes, qualify, fail_cycle,
}
use Prim.Native.String.{String}

-- Cycles `n`, `n + 1` and so on, each with an observed new attachment, and each passed.
abbrev pub PassedFrom : ℕ → List Cycle → Type 0
PassedFrom n [] = Unit
PassedFrom n (c ∷ cycles) =
    ((c.number ≡ n)
      × ((c.status ≡ functional_pass) × ((c.observed ≡ true) × (c.failed_stage ≡ none))))
    × PassedFrom (n + 1) cycles

pub PassedFrom-append :
    (n : ℕ) (cycles : List Cycle) (c : Cycle)
    → PassedFrom n cycles
    → c.number ≡ n + length cycles
    → (c.status ≡ functional_pass) × ((c.observed ≡ true) × (c.failed_stage ≡ none))
    → PassedFrom n (cycles ++ (c ∷ []))
PassedFrom-append n [] c h e p = ((omega arith, p), tt)
PassedFrom-append n (d ∷ cycles) c h e p =
    (h.0, PassedFrom-append (n + 1) cycles c h.1 (omega arith) p)

-- A stage before the new attachment was observed, or after it.
abbrev pub IsStage : Bool → CycleStatus → Type 0
IsStage false s = (s ≡ waiting_for_unplug) ⊎ (s ≡ waiting_for_plug)
IsStage true s = (s ≡ waiting_for_network) ⊎ (s ≡ checking)

-- The current cycle while it runs.
pub record IsOpen (number : ℕ) (c : Cycle) : Type 0 where
  pub numbered : c.number ≡ number
  pub stage : IsStage c.observed c.status
  pub no_failure : c.failed_stage ≡ none

-- The current cycle after an error: not started as long as no new attachment was observed.
abbrev pub failure_of : Bool → CycleStatus
failure_of false = not_started
failure_of true = failed

pub record IsFailed (number : ℕ) (c : Cycle) : Type 0 where
  pub numbered : c.number ≡ number
  pub status_is : c.status ≡ failure_of c.observed
  pub stage : CycleStatus
  pub stage_is : (c.failed_stage ≡ some stage) × IsStage c.observed stage

pub IsFailed-fail_cycle :
    (number : ℕ) (c : Cycle) → IsOpen number c → IsFailed number (fail_cycle c)
IsFailed-fail_cycle number c h = record {
  numbered = h.numbered;
  status_is = status_lem c.observed;
  stage = c.status;
  stage_is = (refl, h.stage);
}
  where
    status_lem :
        (observed : Bool) → (if observed then failed else not_started) ≡ failure_of observed
    status_lem true = refl
    status_lem false = refl

module _ (start : ℕ) where
  -- Between two cycles, `k` of them have passed.
  pub record Between (k : ℕ) (w : Report) : Type 0 where
    pub passed : PassedFrom start w.passed
    pub counted : length w.passed ≡ k
    pub idle : w.current ≡ none

  -- Inside cycle `k`.
  pub record Within (k : ℕ) (c : Cycle) (w : Report) : Type 0 where
    pub passed : PassedFrom start w.passed
    pub counted : length w.passed ≡ k
    pub busy : w.current ≡ some c

  -- After an error.
  pub record Broken (w : Report) : Type 0 where
    pub passed : PassedFrom start w.passed
    pub last :
        (w.current ≡ none)
        ⊎ ((c : Cycle) × ((w.current ≡ some c) × IsOpen (start + length w.passed) c))

  pub Between-Broken : (k : ℕ) (w : Report) → Between k w → Broken w
  Between-Broken k w h = record { passed = h.passed; last = inl h.idle }

  Within-Broken :
      (k : ℕ) (c : Cycle) → IsOpen (start + k) c → (w : Report) → Within k c w → Broken w
  Within-Broken k c o w h = record {
    passed = h.passed;
    last = inr (
      c,
      (
        h.busy,
        record {
          numbered = o.numbered ∙ ap (λ n. start + n) (sym h.counted);
          stage = o.stage;
          no_failure = o.no_failure;
        },
      ),
    );
  }

  module _ (k : ℕ) where
    -- An action inside the cycle, from one stage of it to another.
    abbrev pub Moves : {A : Type 0} → Cycle → Act A → Cycle → Type 0
    Moves {A} c m d = Triple (Within k c) m (λ (x : A) w. Within k d w) Broken

    pub Moves-bind :
        {A B : Type 0} (c d e : Cycle) (m : Act A) (f : A → Act B)
        → Moves c m d
        → ((x : A) → Moves d (f x) e)
        → Moves c (m >>= f) e
    Moves-bind {A} {B} c d e m f h g =
        Triple-bind Broken (Within k c) (λ (x : A) w. Within k d w) (λ (y : B) w. Within k e w) m f
          h g

    pub Moves-lift :
        {A : Type 0} (c : Cycle)
        → IsOpen (start + k) c
        → (r : Result AttachError A) → Moves c (lift r) c
    Moves-lift c o r = Triple-lift Broken r (Within k c) (Within-Broken k c o)

    pub Moves-update : (c : Cycle) (f : Cycle → Cycle) → Moves c (update_cycle f) (f c)
    Moves-update c f = record {
      at = λ w h. record { passed = h.passed; counted = h.counted; busy = ap (on_cycle f) h.busy };
    }

    -- A test that reads the report.
    either_at :
        {A : Type 0} (c : Cycle)
        → IsOpen (start + k) c
        → (r : Result AttachError A) (w : Report) → Within k c w
        → Post (λ (x : A) w. Within k c w) Broken r w
    either_at c o (ok a) w h = h
    either_at c o (err e) w h = Within-Broken k c o w h

    pub Moves-check_instance :
        (c : Cycle)
        → IsOpen (start + k) c
        → (registry_id : ℕ) → Moves c (check_instance registry_id) c
    unfolding check_instance
    Moves-check_instance c o registry_id = record {
      at = λ w h. either_at c o (raise_if (registry_id == w.registry_id) same_instance) w h;
    }

    pub Moves-check_routes :
        (c : Cycle)
        → IsOpen (start + k) c
        → (interface : String) (board default : Routes)
        → Moves c (check_routes interface board default) c
    unfolding check_routes
    Moves-check_routes c o interface board default = record {
      at = λ w h.
          either_at c o
            (raise_if
              (not (same_text board.interface (some interface))
                || not (same_routes default w.baseline))
              changed_routes)
            w h;
    }

    pub Moves-qualify :
        (c : Cycle)
        → IsOpen (start + k) c
        → (interface : String) (late : ℕ → Bool) (o : Observed)
        → Moves c (qualify interface late o) c
    unfolding qualify
    Moves-qualify c is_open interface late o =
        Moves-bind c c c (lift (raise_if (late o.clock1) timed_out)) _ (Moves-lift c is_open _)
          (λ _. Moves-bind c c c (lift (reply o.ready)) _ (Moves-lift c is_open _) (λ xid.
            Moves-bind c c c (lift (reply o.board_route)) _ (Moves-lift c is_open _) (λ board.
              Moves-bind c c c (lift (reply o.default_route)) _ (Moves-lift c is_open _) (λ default.
                Moves-bind c c c (check_routes interface board default) _
                  (Moves-check_routes c is_open interface board default)
                  (λ _.
                    Moves-bind c c c (lift (raise_if (late o.clock2) timed_out)) _
                      (Moves-lift c is_open _)
                      (λ _.
                        Moves-bind c c c (lift (reply o.snapshot)) _ (Moves-lift c is_open _)
                          (λ snapshot.
                            Moves-bind c c c (lift (diagnostics_ready snapshot)) _
                              (Moves-lift c is_open _)
                              (λ _.
                                Moves-bind c c c (lift (raise_if (late o.clock3) timed_out)) _
                                  (Moves-lift c is_open _)
                                  (λ _. Moves-lift c is_open (ok xid))))))))))
