-- ===== src/Soak.antt =====
-- `diagnostics` of tools/soak.py: one reading of a device's counters, checked by itself and against the
-- reading before it.
pub mod Readings
pub mod Series
pub mod Run
mod Tests
use firmingo.Common.{
  ℕ, ◌+◌, ◌-◌, ◌^◌, Bool, true, false, not, ◌&&◌, ◌||◌, Option, none, some, List, [], ◌∷◌, ◌++◌,
  Result, ok, err, ◌>>=◌, ◌>>◌, raise_if, take, drop, leb, ltb, ◌==◌, if◌then◌else◌,
}
use firmingo.Common.Bytes.{slice}
use firmingo.Python.{Value, null, Fields, end, field, lookup, as_int}
use Prim.Native.String.{String}
use text.Mathlib.Text.{◌==◌ as str_eq}

-- The messages of the `RuntimeError`s.
pub data ReadingError : Type 0 where
  incomplete_application application_changed incomplete_uart multiple_backends uart_changed :
      ReadingError
  incomplete_transport transport_changed invalid inconsistent lifetime_changed : ReadingError

abbrev pub base_fields : List String
base_fields =
    "samples" ∷ "heap_free" ∷ "heap_min" ∷ "stack_free" ∷ "stack_min" ∷ "peak_to_backend"
    ∷ "peak_to_peer" ∷ []

abbrev pub application_fields : List String
application_fields =
    "application_rx_pending" ∷ "application_tx_pending" ∷ "application_rx_peak"
    ∷ "application_tx_peak" ∷ "application_rx_discarded" ∷ "application_tx_discarded" ∷ []

abbrev pub uart_fields : List String
uart_fields =
    "uart_rx_pending" ∷ "uart_rx_discarded" ∷ "uart_rx_overrun_events"
    ∷ "uart_rx_lost_bytes_minimum" ∷ "uart_tx_throttles" ∷ []

abbrev pub transport_narrow : List String
transport_narrow =
    "ncm_worker_runs" ∷ "ncm_rx_frames" ∷ "ncm_rx_deferred" ∷ "ncm_rx_batch_peak"
    ∷ "ncm_mutex_contentions" ∷ "ncm_budget_exhaustions" ∷ "ncm_wake_requests" ∷ "tcp_accepts"
    ∷ "tcp_rx_callbacks" ∷ "tcp_sent_callbacks" ∷ "tcp_errors" ∷ []

abbrev pub transport_fields : List String
transport_fields = transport_narrow ++ ("tcp_rx_bytes" ∷ "tcp_sent_bytes" ∷ [])

-- `k in value`
abbrev pub has : Fields → String → Bool
has d k = elim (lookup k d) [ none ↦ false | some v ↦ true ]

-- `tuple(k for k in fields if k in value)`
unfoldable pub present_in : Fields → List String → List String
present_in d [] = []
present_in d (k ∷ ks) = let rest = present_in d ks in if has d k then k ∷ rest else rest

unfoldable pub all_in : Fields → List String → Bool
all_in d [] = true
all_in d (k ∷ ks) = has d k && all_in d ks

abbrev pub some_of : List String → Bool
some_of [] = false
some_of (k ∷ ks) = true

-- `a != b` of tuples, where `a` are those of `b` that are present.
abbrev pub not_all : Fields → List String → Bool
not_all d fields = some_of (present_in d fields) && not (all_in d fields)

-- `previous and bool(present) != all(k in previous for k in fields)`
abbrev pub changed : Option Fields → Fields → List String → Bool
changed none d fields = false
changed (some p) d fields =
    if some_of (present_in d fields) then not (all_in p fields) else all_in p fields

-- An integer in the range 0 to `limit`.
abbrev pub bad_int : Fields → ℕ → String → Bool
bad_int d limit k = elim (as_int (lookup k d)) [ none ↦ true | some n ↦ ltb limit n ]

abbrev pub any_key : (String → Bool) → List String → Bool
any_key test [] = false
any_key test (k ∷ ks) = test k || any_key test ks

-- `value[k]` of a key that was checked to hold an integer.
unfoldable pub num : Fields → String → ℕ
num d k = elim (as_int (lookup k d)) [ none ↦ 0 | some n ↦ n ]

abbrev pub is_null : Option Value → Bool
is_null (some null) = true
is_null _ = false

abbrev pub narrow_keys : List String → List String → List String → List String
narrow_keys present uart transport =
    base_fields
    ++ (take 4 present ++ (take 1 uart ++ (slice 2 1 uart ++ (drop 4 uart ++ take 11 transport))))

abbrev pub wide_keys : List String → List String → List String → List String
wide_keys present uart transport =
    drop 4 present ++ (slice 1 1 uart ++ (drop 3 uart ++ drop 11 transport))

unfoldable pub bad_types : Fields → List String → List String → Bool
bad_types d narrow wide =
    any_key (bad_int d (2 ^ 32 - 1)) narrow
    || (any_key (bad_int d (2 ^ 64 - 1)) wide
        || (num d "samples" == 0 || not (is_null (lookup "lwip_free" d))))

unfoldable pub bad_levels : Fields → List String → List String → Bool
bad_levels d present uart =
    ltb (num d "heap_free") (num d "heap_min")
    || (ltb (num d "stack_free") (num d "stack_min")
        || (ltb 256 (num d "peak_to_backend")
            || (ltb 256 (num d "peak_to_peer")
                || (any_key (λ k. ltb 256 (num d k)) (take 4 present)
                    || (any_key (λ k. ltb 256 (num d k)) (take 1 uart)
                        || ((has d "ncm_rx_batch_peak" && ltb 10 (num d "ncm_rx_batch_peak"))
                            || any_key (λ k. ltb (2 ^ 64 - 1) (num d k)) (drop 4 present)))))))

-- The counters of a lifetime; `p` is what an earlier call returned, so it has the base fields.
unfoldable pub went_back : Fields → Fields → List String → List String → List String → Bool
went_back p d present uart transport =
    let lower : String → Bool = (λ k. has p k && ltb (num d k) (num p k)) in
    ltb (num d "samples") (num p "samples")
    || (ltb (num p "heap_min") (num d "heap_min")
        || (ltb (num p "stack_min") (num d "stack_min")
            || (ltb (num d "peak_to_backend") (num p "peak_to_backend")
                || (ltb (num d "peak_to_peer") (num p "peak_to_peer")
                    || (any_key lower (drop 2 present)
                        || (any_key lower (drop 1 uart) || any_key lower transport))))))

abbrev pub went_back_from : Option Fields → Fields → List String → List String → List String → Bool
went_back_from none d present uart transport = false
went_back_from (some p) d present uart transport = went_back p d present uart transport

abbrev pub with_key : Option Value → String → Fields → Fields
with_key none k rest = rest
with_key (some v) k rest = field k v rest

-- `{k: value[k] for k in keys}`
unfoldable pub project : Fields → List String → Fields
project d [] = end
project d (k ∷ ks) = with_key (lookup k d) k (project d ks)

unfoldable pub diagnostics : Option Fields → Fields → Result ReadingError Fields
diagnostics previous d = do
  let present = present_in d application_fields
  let uart = present_in d uart_fields
  let transport = present_in d transport_fields
  raise_if (not_all d application_fields) incomplete_application
  raise_if (changed previous d application_fields) application_changed
  raise_if (not_all d uart_fields) incomplete_uart
  raise_if (some_of present && some_of uart) multiple_backends
  raise_if (changed previous d uart_fields) uart_changed
  raise_if (not_all d transport_fields) incomplete_transport
  raise_if (changed previous d transport_fields) transport_changed
  raise_if (bad_types d (narrow_keys present uart transport) (wide_keys present uart transport))
      invalid
  raise_if (bad_levels d present uart) inconsistent
  raise_if (went_back_from previous d present uart transport) lifetime_changed
  ok (project d (base_fields ++ (present ++ (uart ++ (transport ++ ("lwip_free" ∷ []))))))
