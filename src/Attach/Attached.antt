-- ===== src/Attach/Attached.antt =====
-- What was observed in the cycles of a check that returns (tools/attach.py).
use firmingo.Common.{
  ℕ, suc, ◌+◌, ◌≤◌, ◌<◌, ◌≡◌, ◌≢◌, refl, ap, ap₂, subst, ◌∙◌, Bool, true, false, not, ◌&&◌, ◌||◌,
  Option, none, some, List, [], ◌∷◌, ok, err, ok-inj, raise_if, leb, ◌==◌, if◌then◌else◌, arith,
}
use firmingo.Common.Run.Returned.{Ends, Ends-pure, Ends-lift, Ends-bind, Ends-known}
use firmingo.Python.{
  Value, null, bool, int, neg, real, str, obj, arr, Fields, lookup, as_int, equals_str,
}
use firmingo.Attach.{
  AttachError, timed_out, same_instance, changed_routes, no_internet, bad_profile, bad_timestamps,
  not_connected, Reply, gives, fails, reply, Report, Routes, same_text, same_routes, is_false,
  timestamps, ascending, diagnostics_ready, Preflight, Observed, found, arm, reattach,
  check_instance, check_routes, qualify, check_traffic, note_xid, run_cycle, run_cycles, attempt,
}
use Prim.Native.String.{String}
use text.Mathlib.TextEquality.{eq_iff as str_eq_iff}

-- The five times of a board's start are integers in their order, and the USB controller was started behind `setup`.
pub record IsReady (snapshot : Fields) : Type 0 where
  pub profile : equals_str (lookup "usb_profile" snapshot) "ncm-only" ≡ true
  pub not_initialized : lookup "usb_initialized_at_setup" snapshot ≡ some (bool false)
  pub setup : ℕ
  pub dhcp_ready : ℕ
  pub ncm_ready : ℕ
  pub services_ready : ℕ
  pub attach_requested : ℕ
  pub setup_is : as_int (lookup "setup_ms" snapshot) ≡ some setup
  pub dhcp_is : as_int (lookup "dhcp_ready_ms" snapshot) ≡ some dhcp_ready
  pub ncm_is : as_int (lookup "ncm_ready_ms" snapshot) ≡ some ncm_ready
  pub services_is : as_int (lookup "services_ready_ms" snapshot) ≡ some services_ready
  pub attach_is : as_int (lookup "attach_requested_ms" snapshot) ≡ some attach_requested
  pub in_order :
      (setup ≤ dhcp_ready)
      × ((dhcp_ready ≤ ncm_ready)
          × ((ncm_ready ≤ services_ready) × (services_ready ≤ attach_requested)))

-- The board went away and came back as another instance than `previous`, and what was observed of it within the time.
pub record Attached (interface : String) (ready_timeout : ℕ) (baseline : Routes) (previous : ℕ)
    (o : Observed) (registry_id : ℕ) : Type 0 where
  pub sample_end : ℕ
  pub detached : o.detached ≡ gives tt
  pub arrived : o.arrived ≡ gives (registry_id, sample_end)
  pub other_instance : registry_id ≢ previous
  pub board : Routes
  pub board_is : (o.board_route ≡ gives board) × (board.interface ≡ some interface)
  pub default : Routes
  pub default_is :
      (o.default_route ≡ gives default)
      × ((default.interface ≡ baseline.interface) × (default.gateway ≡ baseline.gateway))
  pub snapshot : Fields
  pub snapshot_is : (o.snapshot ≡ gives snapshot) × IsReady snapshot
  pub in_time : o.clock3 < sample_end + ready_timeout
  pub traffic : o.traffic ≡ gives (true, true)

-- One cycle after the other, each with another instance than the one before it.
abbrev pub Chain : String → ℕ → Routes → ℕ → List Observed → Type 0
Chain interface ready_timeout baseline previous [] = Unit
Chain interface ready_timeout baseline previous (o ∷ observed) =
    (registry_id : ℕ) × Attached interface ready_timeout baseline previous o registry_id
    × Chain interface ready_timeout baseline registry_id observed

reply-gives : {A : Type 0} (r : Reply A) {a : A} → reply r ≡ ok a → r ≡ gives a
reply-gives (gives b) h = ap gives (ok-inj h)
reply-gives (fails e) h = cc

not_raised : (b : Bool) (e : AttachError) {u : Unit {0}} → raise_if b e ≡ ok u → b ≡ false
not_raised true e h = cc
not_raised false e h = refl

neither : (a b : Bool) → a || b ≡ false → (a ≡ false) × (b ≡ false)
neither true b h = cc
neither false b h = (refl, h)

not-not : (a : Bool) → not a ≡ false → a ≡ true
not-not true h = refl
not-not false h = cc

both : (a b : Bool) → a && b ≡ true → (a ≡ true) × (b ≡ true)
both true b h = (refl, h)
both false b h = cc

same_text-≡ : (s t : Option String) → same_text s t ≡ true → s ≡ t
same_text-≡ none none h = refl
same_text-≡ none (some t) h = cc
same_text-≡ (some s) none h = cc
same_text-≡ (some s) (some t) h = ap some ((str_eq_iff s t).0 h)

-- A value that is found from `low` on.
found_lem :
    (snapshot : Fields) (low : ℕ) (name : String) (names : List String)
    → ascending snapshot low (name ∷ names) ≡ true
    → (v : ℕ) × (as_int (lookup name snapshot) ≡ some v)
      × (low ≤ v)
      × (ascending snapshot v names ≡ true)
unfolding ascending
found_lem snapshot low name names h = at (as_int (lookup name snapshot)) h
  where
    at :
        (value : Option ℕ)
        → (elim value [ none ↦ false | some v ↦ leb low v && ascending snapshot v names ]) ≡ true
        → (v : ℕ) × (value ≡ some v) × (low ≤ v) × (ascending snapshot v names ≡ true)
    at none k = cc
    at (some v) k =
        let (above, rest) = both (leb low v) _ k in (v, refl, ground (arith, above), rest)

is_false-≡ : (v : Option Value) → is_false v ≡ true → v ≡ some (bool false)
is_false-≡ (some (bool false)) h = refl
is_false-≡ (some (bool true)) h = cc
is_false-≡ (some null) h = cc
is_false-≡ (some (int n)) h = cc
is_false-≡ (some (neg n)) h = cc
is_false-≡ (some (real r)) h = cc
is_false-≡ (some (str t)) h = cc
is_false-≡ (some (obj d)) h = cc
is_false-≡ (some (arr items)) h = cc
is_false-≡ none h = cc

ready_when :
    (snapshot : Fields) (bad : Bool) {u : Unit {0}}
    → (if bad
        then err bad_profile
        else raise_if (not (ascending snapshot 0 timestamps)) bad_timestamps)
      ≡ ok u
    → (bad ≡ false) × (ascending snapshot 0 timestamps ≡ true)
ready_when snapshot true h = cc
ready_when snapshot false h = (refl, not-not _ (not_raised _ bad_timestamps h))

diagnostics_ready-IsReady :
    (snapshot : Fields) {u : Unit {0}} → diagnostics_ready snapshot ≡ ok u → IsReady snapshot
unfolding diagnostics_ready
diagnostics_ready-IsReady snapshot h =
    let profile = equals_str (lookup "usb_profile" snapshot) "ncm-only" in
    let started = is_false (lookup "usb_initialized_at_setup" snapshot) in
    let (good, ordered) = ready_when snapshot (not profile || not started) h in
    let (one, two) = neither (not profile) (not started) good in
    let (a, a_is, _, h1) = found_lem snapshot 0 "setup_ms" _ ordered in
    let (b, b_is, ab, h2) = found_lem snapshot a "dhcp_ready_ms" _ h1 in
    let (c, c_is, bc, h3) = found_lem snapshot b "ncm_ready_ms" _ h2 in
    let (d, d_is, cd, h4) = found_lem snapshot c "services_ready_ms" _ h3 in
    let (e, e_is, de, _) = found_lem snapshot d "attach_requested_ms" [] h4 in
    record {
      profile = not-not profile one;
      not_initialized =
          is_false-≡ (lookup "usb_initialized_at_setup" snapshot) (not-not started two);
      setup = a;
      dhcp_ready = b;
      ncm_ready = c;
      services_ready = d;
      attach_requested = e;
      setup_is = a_is;
      dhcp_is = b_is;
      ncm_is = c_is;
      services_is = d_is;
      attach_is = e_is;
      in_order = (ab, (bc, (cd, de)));
    }

-- What a cycle compares with stays as it is.
record Kept (before after : Report) : Type 0 where
  pub registry_is : after.registry_id ≡ before.registry_id
  pub baseline_is : after.baseline ≡ before.baseline

reattach-Ends :
    (o : Observed) (w : Report)
    → Ends
        (λ (present : ℕ × ℕ) after.
          (o.detached ≡ gives tt) × (o.arrived ≡ gives present) × Kept w after)
        (reattach o)
        w
unfolding reattach
reattach-Ends o w = Ends-known _ _ _ w (λ u detached. Ends-bind _ _ _ _ (λ _ _.
    Ends-known _ _ _ _ (λ present arrived. Ends-bind _ _ _ _ (λ _ _. Ends-pure _ present _ (
      reply-gives o.detached detached,
      reply-gives o.arrived arrived,
      record { registry_is = refl; baseline_is = refl },
    )))))

-- What the observations behind the new instance have to be.
record IsQualified (interface : String) (late : ℕ → Bool) (baseline : Routes) (o : Observed)
    : Type 0 where
  pub board : Routes
  pub board_is : (o.board_route ≡ gives board) × (board.interface ≡ some interface)
  pub default : Routes
  pub default_is :
      (o.default_route ≡ gives default)
      × ((default.interface ≡ baseline.interface) × (default.gateway ≡ baseline.gateway))
  pub snapshot : Fields
  pub snapshot_is : (o.snapshot ≡ gives snapshot) × IsReady snapshot
  pub in_time : late o.clock3 ≡ false

qualify-Ends :
    (interface : String) (late : ℕ → Bool) (o : Observed) (w : Report)
    → Ends
        (λ xid after. (after ≡ w) × IsQualified interface late w.baseline o)
        (qualify interface late o)
        w
unfolding qualify check_routes
qualify-Ends interface late o w = Ends-known _ _ _ w (λ _ _. Ends-known _ _ _ _ (λ xid _.
    Ends-known _ _ _ _ (λ board h₁. Ends-known _ _ _ _ (λ default h₂. Ends-bind _ _ _ _ (λ _ routes.
      Ends-known _ _ _ _ (λ _ _. Ends-known _ _ _ _ (λ snapshot h₃. Ends-known _ _ _ _ (λ _ ready.
        Ends-known _ _ _ _ (λ _ on_time.
          let (on_board, on_default) =
            neither (not (same_text board.interface (some interface)))
              (not (same_routes default w.baseline)) (not_raised _ changed_routes routes) in
          let (one, two) =
            both (same_text default.interface w.baseline.interface) _ (not-not _ on_default) in
          Ends-pure _ xid w (
            refl,
            record {
              board = board;
              board_is = (
                reply-gives o.board_route h₁,
                same_text-≡ board.interface (some interface) (not-not _ on_board),
              );
              default = default;
              default_is =
                  (reply-gives o.default_route h₂, (same_text-≡ _ _ one, same_text-≡ _ _ two));
              snapshot = snapshot;
              snapshot_is = (reply-gives o.snapshot h₃, diagnostics_ready-IsReady snapshot ready);
              in_time = not_raised (late o.clock3) timed_out on_time;
            },
          ))))))))))

check_traffic-Ends :
    (o : Observed) (w : Report)
    → Ends (λ _ after. (o.traffic ≡ gives (true, true)) × Kept w after) (check_traffic o) w
unfolding check_traffic
check_traffic-Ends o w = Ends-bind _ _ _ w (λ _ _. Ends-known _ _ _ _ (λ results h.
    Ends-lift _ _ _ (λ _ k.
      let (no_access, no_overlap) =
        neither (not results.0) (not results.1) (not_raised _ no_internet k) in
      (
        reply-gives o.traffic h
            ∙ ap₂ (λ a b. gives (a, b)) (not-not _ no_access) (not-not _ no_overlap),
        record { registry_is = refl; baseline_is = refl },
      ))))

other_lem : (a b c : ℕ) → (a == b) ≡ false → b ≡ c → a ≢ c
other_lem a b c h e = λ same. ground (arith, h, e, same)

attached_lem :
    (interface : String) (ready_timeout : ℕ) (baseline baseline' : Routes) (previous : ℕ)
    (o : Observed) (registry_id sample_end : ℕ)
    → o.detached ≡ gives tt
    → o.arrived ≡ gives (registry_id, sample_end)
    → registry_id ≢ previous
    → baseline' ≡ baseline
    → IsQualified interface (λ t. leb (sample_end + ready_timeout) t) baseline' o
    → o.traffic ≡ gives (true, true)
    → Attached interface ready_timeout baseline previous o registry_id
attached_lem interface ready_timeout baseline baseline' previous o registry_id sample_end detached
      arrived other same qualified traffic =
    record {
      sample_end = sample_end;
      detached = detached;
      arrived = arrived;
      other_instance = other;
      board = qualified.board;
      board_is = qualified.board_is;
      default = qualified.default;
      default_is = (
        qualified.default_is.0,
        (
          qualified.default_is.1.0 ∙ ap (λ (r : Routes). r.interface) same,
          qualified.default_is.1.1 ∙ ap (λ (r : Routes). r.gateway) same,
        ),
      );
      snapshot = qualified.snapshot;
      snapshot_is = qualified.snapshot_is;
      in_time = (let late = qualified.in_time in ground (arith, late));
      traffic = traffic;
    }

run_cycle-Ends :
    (interface : String) (ready_timeout number : ℕ) (o : Observed) (w : Report)
    → Ends
        (λ _ after.
          Attached interface ready_timeout w.baseline w.registry_id o after.registry_id
          × (after.baseline ≡ w.baseline))
        (run_cycle interface ready_timeout number o)
        w
unfolding run_cycle check_instance note_xid
run_cycle-Ends interface ready_timeout number o w = Ends-bind _ _ _ w (λ _ _.
    Ends-bind _ _ _ _ (λ present h₁.
      let (detached, arrived, kept) = (reattach-Ends o _).at present h₁ in
      Ends-bind _ _ _ _ (λ _ another. Ends-bind _ _ _ _ (λ xid h₂.
        let (same, qualified) = (qualify-Ends interface _ o _).at xid h₂ in
        Ends-bind _ _ _ _ (λ _ _. Ends-bind _ _ _ _ (λ u h₃.
          let (traffic, kept') = (check_traffic-Ends o _).at u h₃ in
          record {
            at = λ _ _. (
              attached_lem interface ready_timeout w.baseline _ w.registry_id o present.0 present.1
                  detached arrived
                  (other_lem present.0 _ w.registry_id (not_raised _ same_instance another)
                    kept.registry_is)
                  kept.baseline_is qualified traffic,
              kept'.baseline_is ∙ ap (λ (r : Report). r.baseline) same ∙ kept.baseline_is,
            );
          }))))))

run_cycles-Ends :
    (interface : String) (ready_timeout number : ℕ) (observed : List Observed) (w : Report)
    → Ends
        (λ _ after. Chain interface ready_timeout w.baseline w.registry_id observed)
        (run_cycles interface ready_timeout number observed)
        w
unfolding run_cycles
run_cycles-Ends interface ready_timeout number [] w = Ends-pure _ tt w tt
run_cycles-Ends interface ready_timeout number (o ∷ observed) w = Ends-bind _ _ _ w (λ u h.
    let (attached, same) = (run_cycle-Ends interface ready_timeout number o w).at u h in
    record {
      at = λ a k. (
        _,
        attached,
        subst
            (λ (b : Routes).
              Chain interface ready_timeout b
                (run_cycle interface ready_timeout number o w).1.registry_id observed)
            same ((run_cycles-Ends interface ready_timeout (suc number) observed _).at a k),
      );
    })

-- The cycles of a check that returns, from the instance and the default route of the preflight on.
pub record IsChained (interface : String) (ready_timeout : ℕ) (p : Preflight)
    (observed : List Observed) : Type 0 where
  pub registry_id : ℕ
  pub entry_is : p.entry ≡ gives (some registry_id)
  pub baseline : Routes
  pub default_is : p.default_route ≡ gives baseline
  pub chain : Chain interface ready_timeout baseline registry_id observed

some_lem :
    {A : Type 0} (e : AttachError) (entry : Option A) {a : A}
    → found e entry ≡ ok a
    → entry ≡ some a
some_lem e none h = cc
some_lem e (some b) h = ap some (ok-inj h)

pub attempt-IsChained :
    (interface : String) (ready_timeout start : ℕ) (p : Preflight) (observed : List Observed)
    (w : Report)
    → Ends
        (λ _ after. IsChained interface ready_timeout p observed)
        (attempt interface ready_timeout start p observed)
        w
unfolding attempt arm
attempt-IsChained interface ready_timeout start p observed w = Ends-bind _ _ _ w (λ u h.
    let (registry_id, baseline, entry_is, default_is, r, b) = armed.at u h in
    Ends-bind _ _ _ _ (λ v k. record {
      at = λ _ _. record {
        registry_id = registry_id;
        entry_is = entry_is;
        baseline = baseline;
        default_is = default_is;
        chain =
            subst (λ (n : ℕ). Chain interface ready_timeout baseline n observed) r
              (subst
                (λ (d : Routes).
                  Chain interface ready_timeout d (arm interface p w).1.registry_id observed)
                b ((run_cycles-Ends interface ready_timeout start observed _).at v k));
      };
    }))
  where
    armed :
        Ends
          (λ _ after.
            (registry_id : ℕ) × (baseline : Routes) × (p.entry ≡ gives (some registry_id))
            × (p.default_route ≡ gives baseline)
            × (after.registry_id ≡ registry_id)
            × (after.baseline ≡ baseline))
          (arm interface p)
          w
    armed = Ends-known _ _ _ w (λ entry h₁. Ends-known _ _ _ _ (λ registry_id h₂.
        Ends-known _ _ _ _ (λ lease _. Ends-known _ _ _ _ (λ xid _. Ends-known _ _ _ _ (λ board _.
          Ends-known _ _ _ _ (λ baseline h₃. Ends-known _ _ _ _ (λ _ _.
            Ends-known _ _ _ _ (λ snapshot _. Ends-known _ _ _ _ (λ _ _. record {
              at = λ _ _. (
                registry_id,
                baseline,
                reply-gives p.entry h₁ ∙ ap gives (some_lem not_connected entry h₂),
                reply-gives p.default_route h₃,
                refl,
                refl,
              );
            })))))))))
