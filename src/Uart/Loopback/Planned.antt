-- ===== src/Uart/Loopback/Planned.antt =====
-- What a loopback check that passes has done (tools/uart_smoke.py).
use firmingo.Common.{
  refl, ap, ◌∙◌, Bool, false, not, ◌||◌, ◌⊎◌, inl, inr, Option, ◌==◌, arith, ℕ, ◌≡◌, true, ◌&&◌,
  none, some, List, [], ◌∷◌, ◌++◌, ok, check-ok,
}
use firmingo.Common.Run.{pure, ◌>>◌}
use firmingo.Common.Run.Logged.{LoggedPart-all, Logs-first, Logs-skip, Logs-part, Logs-whole}
use firmingo.Common.Run.Returned.{Returns, Returns-pure, Returns-bind, Returns-skip, Returns-known}
use firmingo.Python.{Value, null, bool, int, neg, real, str, obj, arr, Fields, lookup, equals_int}
use firmingo.Soak.Run.{Hello}
use firmingo.Uart.Rig.{
  bad_counts, bad_diagnostics, owner, observer, serial_open, serial_configure, serial_status,
  device_diagnostics, Event, connected, asked, denied, echoed, World, Answer, success, failure,
}
use firmingo.Uart.Rig.Plans.{
  events_of, Calls, Calls-pure, Calls-lift, Calls-connect, Calls-ask, steps,
}
use firmingo.Uart.Rig.Taken.{
  Takes, Takes-pure, Takes-weaken, Takes-bind, Takes-skip, Starts, Starts-bind, Starts-skip,
  Starts-whole, Begins, Quiet-lift, documents_of, Quiet-connect, Takes-ask, IsDenial, Takes-deny,
}
use firmingo.Uart.Smoke.{close_owner}
use firmingo.Uart.Smoke.Planned.{close_plan, Calls-close_owner}
use firmingo.Uart.Loopback.{
  is_integer, is_nonzero, test_configuration, changed, has_no_loss, refuse_second, configure,
  check_total, smoke,
}

abbrev pub second_plan : List Event
second_plan = connected observer ∷ denied observer (serial_open none) "busy" ∷ []

abbrev pub smoke_plan : List Event
smoke_plan =
    connected owner ∷ asked owner (serial_open (some test_configuration)) ∷ second_plan
    ++ (echoed owner 16384
        ∷ asked owner (serial_configure changed)
        ∷ echoed owner 4096
        ∷ asked owner serial_status
        ∷ asked owner device_diagnostics
        ∷ close_plan)

pub Calls-refuse_second : (hello : Hello) → Calls second_plan (refuse_second hello)
unfolding refuse_second
Calls-refuse_second hello = search steps depth 20

Calls-configure : Calls (asked owner (serial_configure changed) ∷ []) configure
unfolding configure
Calls-configure = search steps depth 20

pub Calls-check_total : (total : ℕ) → Calls (asked owner serial_status ∷ []) (check_total total)
unfolding check_total
Calls-check_total total = search steps depth 20

Calls-close : (out : Fields × Fields) → Calls close_plan (close_owner >> pure out)
Calls-close out =
    Logs-whole events_of close_plan close_owner _ Calls-close_owner (λ _. Calls-pure out)

Calls-smoke : Calls smoke_plan smoke
unfolding smoke
Calls-smoke = Logs-first events_of _ _ _ _ (Calls-connect owner) (λ hello.
    Logs-skip events_of _ _ _ (Calls-lift _) (λ _.
      Logs-first events_of _ _ _ _ (Calls-ask owner _) (λ _.
        Logs-part events_of second_plan _ _ _ (Calls-refuse_second hello) (λ _.
          search (steps, Calls-configure, Calls-check_total, Calls-close, Logs-whole) depth 20))))

-- What the counters say of a check that passes.
pub record IsClean (total : ℕ) (out : Fields × Fields) : Type 0 where
  pub received : equals_int (lookup "backend_rx_bytes" out.0) total ≡ true
  pub transmitted : equals_int (lookup "backend_tx_bytes" out.0) total ≡ true
  pub no_overrun : lookup "uart_rx_overrun_events" out.1 ≡ some (int 0)
  pub no_loss : lookup "uart_rx_lost_bytes_minimum" out.1 ≡ some (int 0)
  pub throttles : Value
  pub throttles_is : lookup "uart_tx_throttles" out.1 ≡ some throttles
  pub throttles_counted : ((n : ℕ) × (throttles ≡ int n)) ⊎ ((n : ℕ) × (throttles ≡ neg n))

both : (a b : Bool) → a && b ≡ true → (a ≡ true) × (b ≡ true)
both true b h = (refl, h)
both false b h = cc

neither : (a b : Bool) → not (a || b) ≡ true → (a ≡ false) × (b ≡ false)
neither true b h = cc
neither false true h = cc
neither false false h = (refl, refl)

equal_zero : (n : ℕ) → not (n == 0) ≡ false → n ≡ 0
equal_zero n h = ground arith

-- An integer that Python takes for false.
zero_lem : (v : Option Value) → is_integer v ≡ true → is_nonzero v ≡ false → v ≡ some (int 0)
zero_lem (some (int n)) h k = ap (λ m. some (int m)) (equal_zero n k)
zero_lem (some (neg n)) h k = cc
zero_lem (some null) h k = cc
zero_lem (some (bool b)) h k = cc
zero_lem (some (real r)) h k = cc
zero_lem (some (str s)) h k = cc
zero_lem (some (obj d)) h k = cc
zero_lem (some (arr items)) h k = cc
zero_lem none h k = cc

integer_lem :
    (v : Option Value)
    → is_integer v ≡ true
    → (u : Value) × (v ≡ some u) × (((n : ℕ) × (u ≡ int n)) ⊎ ((n : ℕ) × (u ≡ neg n)))
integer_lem (some (int n)) h = (int n, refl, inl (n, refl))
integer_lem (some (neg n)) h = (neg n, refl, inr (n, refl))
integer_lem (some null) h = cc
integer_lem (some (bool b)) h = cc
integer_lem (some (real r)) h = cc
integer_lem (some (str s)) h = cc
integer_lem (some (obj d)) h = cc
integer_lem (some (arr items)) h = cc
integer_lem none h = cc

IsClean-lem :
    (total : ℕ) (status diagnostics : Fields)
    → (equals_int (lookup "backend_rx_bytes" status) total
        && equals_int (lookup "backend_tx_bytes" status) total)
      ≡ true
    → has_no_loss diagnostics ≡ true
    → IsClean total (status, diagnostics)
unfolding has_no_loss
IsClean-lem total status diagnostics counted clean =
    let overruns = lookup "uart_rx_overrun_events" diagnostics in
    let lost = lookup "uart_rx_lost_bytes_minimum" diagnostics in
    let (received, transmitted) =
      both (equals_int (lookup "backend_rx_bytes" status) total) _ counted in
    let (integers, zeros) =
      both
        (is_integer overruns
          && (is_integer lost && is_integer (lookup "uart_tx_throttles" diagnostics)))
        _ clean in
    let (one, more) = both (is_integer overruns) _ integers in
    let (two, three) = both (is_integer lost) _ more in
    let (no_overruns, none_lost) = neither (is_nonzero overruns) (is_nonzero lost) zeros in
    let (throttles, throttles_is, counted') =
      integer_lem (lookup "uart_tx_throttles" diagnostics) three in
    record {
      received = received;
      transmitted = transmitted;
      no_overrun = zero_lem overruns one no_overruns;
      no_loss = zero_lem lost two none_lost;
      throttles = throttles;
      throttles_is = throttles_is;
      throttles_counted = counted';
    }

Returns-check_total :
    (total : ℕ)
    → Returns
        (λ (status : Fields).
          (equals_int (lookup "backend_rx_bytes" status) total
            && equals_int (lookup "backend_tx_bytes" status) total)
          ≡ true)
        (check_total total)
unfolding check_total
Returns-check_total total =
    Returns-skip _ _ _
      (λ status. Returns-known _ _ _ (λ _ h. Returns-pure _ status (check-ok _ bad_counts h)))

Returns-smoke : Returns (IsClean 20480) smoke
unfolding smoke
Returns-smoke = Returns-skip _ _ _ (λ hello. Returns-skip _ _ _ (λ _. Returns-skip _ _ _ (λ _.
    Returns-skip _ _ _ (λ _. Returns-skip _ _ _ (λ _. Returns-skip _ _ _ (λ _.
      Returns-skip _ _ _ (λ _. Returns-bind _ _ _ _ (Returns-check_total 20480) (λ status counted.
        Returns-skip _ _ _ (λ diagnostics. Returns-known _ _ _ (λ _ h. Returns-skip _ _ _ (λ _.
          Returns-pure _ (status, diagnostics)
            (IsClean-lem 20480 status diagnostics counted
              (check-ok (has_no_loss diagnostics) bad_diagnostics h)))))))))))))

-- The documents of the board: the open channel, and the refusal of the second session.
pub record IsBusy (xs : List Answer) : Type 0 where
  pub opened : Fields
  pub refusal : Fields
  pub split : xs ≡ success opened ∷ failure refusal ∷ []
  pub is_busy : IsDenial "busy" refusal

Takes-refuse_second :
    (hello : Hello)
    → Takes documents_of
        (λ other xs. (refusal : Fields) × (xs ≡ failure refusal ∷ []) × IsDenial "busy" refusal)
        (refuse_second hello)
unfolding refuse_second
Takes-refuse_second hello = Takes-skip documents_of _ _ (Quiet-connect _) _ (λ other.
    Takes-skip documents_of _ _ (Quiet-lift documents_of _) _ (λ _.
      Takes-bind documents_of _ _ _ (Takes-deny _ _ _) _
        (λ d xs (one, coded). Takes-pure documents_of _ other (d, ap (λ zs. zs ++ []) one, coded))))

Starts-smoke : Starts documents_of IsBusy smoke
unfolding smoke
Starts-smoke = Starts-skip documents_of _ _ (Quiet-connect _) _ (λ hello.
    Starts-skip documents_of _ _ (Quiet-lift documents_of _) _ (λ _.
      Starts-bind documents_of _ _ _ (Takes-ask _ _) _ (λ opened xs one.
        Starts-whole documents_of _ _ _ (
          Takes-weaken documents_of _ _ _ (Takes-refuse_second hello) (λ _ ys (refusal, two, coded).
            record {
              opened = opened;
              refusal = refusal;
              split = ap (λ zs. zs ++ ys) one ∙ ap (λ zs. success opened ∷ zs) two;
              is_busy = coded;
            })))))

-- A check that passes made the documented calls in their order, and no others: a second session asks for the channel before the
-- first echo, and the board, which had opened it for the first, answers with an error of the code `busy`; and the rate changes between
-- the two echoes. At the end the board counted all 20,480 bytes in each direction, and it reports its counters of overruns and of lost
-- bytes as integers that are zero.
pub smoke-IsClean :
    (w : World) {out : Fields × Fields}
    → (smoke w).0 ≡ ok out
    → ((smoke w).1.events ≡ w.events ++ smoke_plan)
      × (Begins IsBusy w.documents × IsClean 20480 out)
smoke-IsClean w {out} h = (
  LoggedPart-all events_of smoke_plan w (smoke w) (Calls-smoke.at w) h,
  (Starts-smoke.at w out h, Returns-smoke.at w out h),
)
