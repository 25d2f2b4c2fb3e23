-- ===== src/Soak/Series.antt =====
-- What an accepted reading says, and what a chain of accepted readings says of its ends.
use firmingo.Common.{
  ℕ, ◌≤◌, ◌<◌, ◌≡◌, refl, subst, Bool, true, false, ◌&&◌, ◌||◌, Option, none, some, List, [], ◌∷◌,
  ◌++◌, ok, raise_if-eq-ok, ltb, ◌==◌, arith,
}
use firmingo.Python.{Fields}
use firmingo.Soak.{
  incomplete_application, application_changed, incomplete_uart, multiple_backends, uart_changed,
  incomplete_transport, transport_changed, invalid, inconsistent, lifetime_changed, base_fields,
  application_fields, uart_fields, transport_fields, present_in, some_of, not_all, changed, num,
  narrow_keys, wide_keys, bad_types, bad_levels, went_back, went_back_from, project, diagnostics,
}
use Prim.Native.String.{String}
use firmingo.Soak.Readings.{IsReading, IsLater, base_kept}

or_false : (a b : Bool) → (a || b) ≡ false → (a ≡ false) × (b ≡ false)
or_false true b h = cc
or_false false b h = (refl, h)

at_most : (a b : ℕ) → ltb a b ≡ false → b ≤ a
at_most a b h = ground arith

positive : (n : ℕ) → (n == 0) ≡ false → 0 < n
positive n h = ground arith

sampled_lem :
    (d : Fields) (narrow wide : List String) → bad_types d narrow wide ≡ false → 0 < num d "samples"
unfolding bad_types
sampled_lem d narrow wide h =
    let (_, h1) = or_false _ _ h in
    let (_, h2) = or_false _ _ h1 in
    let (zero_is, _) = or_false (num d "samples" == 0) _ h2 in positive (num d "samples") zero_is

levels_lem :
    (d : Fields) (present uart : List String)
    → 0 < num d "samples"
    → bad_levels d present uart ≡ false
    → IsReading d
unfolding bad_levels
levels_lem d present uart s h =
    let (heap, h1) = or_false (ltb (num d "heap_free") (num d "heap_min")) _ h in
    let (stack, h2) = or_false (ltb (num d "stack_free") (num d "stack_min")) _ h1 in
    let (backend, h3) = or_false (ltb 256 (num d "peak_to_backend")) _ h2 in
    let (peer, _) = or_false (ltb 256 (num d "peak_to_peer")) _ h3 in
    record {
      sampled = s;
      heap = at_most _ _ heap;
      stack = at_most _ _ stack;
      to_backend = at_most 256 _ backend;
      to_peer = at_most 256 _ peer;
    }

later_lem :
    (p d : Fields) (present uart transport : List String)
    → went_back p d present uart transport ≡ false
    → IsLater p d
unfolding went_back
later_lem p d present uart transport h =
    let (samples, h1) = or_false (ltb (num d "samples") (num p "samples")) _ h in
    let (heap, h2) = or_false (ltb (num p "heap_min") (num d "heap_min")) _ h1 in
    let (stack, h3) = or_false (ltb (num p "stack_min") (num d "stack_min")) _ h2 in
    let (backend, h4) = or_false (ltb (num d "peak_to_backend") (num p "peak_to_backend")) _ h3 in
    let (peer, _) = or_false (ltb (num d "peak_to_peer") (num p "peak_to_peer")) _ h4 in
    record {
      samples = at_most _ _ samples;
      heap_min = at_most _ _ heap;
      stack_min = at_most _ _ stack;
      to_backend = at_most _ _ backend;
      to_peer = at_most _ _ peer;
    }

-- The facts move to the projection that is returned.
module _ (d : Fields) (more : List String) where
  IsReading-project : IsReading d → IsReading (project d (base_fields ++ more))
  IsReading-project r =
      let (samples, heap_free, heap_min, stack_free, stack_min, backend, peer) = base_kept d more in
      record {
        sampled = omega (arith, samples, r.sampled);
        heap = omega (arith, heap_min, heap_free, r.heap);
        stack = omega (arith, stack_min, stack_free, r.stack);
        to_backend = omega (arith, backend, r.to_backend);
        to_peer = omega (arith, peer, r.to_peer);
      }

  IsLater-project : (p : Fields) → IsLater p d → IsLater p (project d (base_fields ++ more))
  IsLater-project p l =
      let (samples, heap_free, heap_min, stack_free, stack_min, backend, peer) = base_kept d more in
      record {
        samples = omega (arith, samples, l.samples);
        heap_min = omega (arith, heap_min, l.heap_min);
        stack_min = omega (arith, stack_min, l.stack_min);
        to_backend = omega (arith, backend, l.to_backend);
        to_peer = omega (arith, peer, l.to_peer);
      }

-- Later than the reading before, if there is one.
abbrev pub LaterThan : Option Fields → Fields → Type 0
LaterThan none d = Unit
LaterThan (some p) d = IsLater p d

after_lem :
    (previous : Option Fields) (d : Fields) (present uart transport more : List String)
    → went_back_from previous d present uart transport ≡ false
    → LaterThan previous (project d (base_fields ++ more))
after_lem none d present uart transport more h = tt
after_lem (some p) d present uart transport more h =
    IsLater-project d more p (later_lem p d present uart transport h)

-- A reading that `diagnostics` returns has consistent heap, stack and queue counters, and against the
-- reading before it none of the five lifetime values that every device reports has gone back.
pub diagnostics-IsReading :
    (previous : Option Fields) (d : Fields) {reading : Fields}
    → diagnostics previous d ≡ ok reading
    → IsReading reading × LaterThan previous reading
unfolding diagnostics
diagnostics-IsReading previous d {reading} h =
    let present = present_in d application_fields in
    let uart = present_in d uart_fields in
    let transport = present_in d transport_fields in
    let narrow = narrow_keys present uart transport in
    let wide = wide_keys present uart transport in
    let (_, h1) = raise_if-eq-ok (not_all d application_fields) incomplete_application _ h in
    let (_, h2) = raise_if-eq-ok (changed previous d application_fields) application_changed _ h1 in
    let (_, h3) = raise_if-eq-ok (not_all d uart_fields) incomplete_uart _ h2 in
    let (_, h4) = raise_if-eq-ok (some_of present && some_of uart) multiple_backends _ h3 in
    let (_, h5) = raise_if-eq-ok (changed previous d uart_fields) uart_changed _ h4 in
    let (_, h6) = raise_if-eq-ok (not_all d transport_fields) incomplete_transport _ h5 in
    let (_, h7) = raise_if-eq-ok (changed previous d transport_fields) transport_changed _ h6 in
    let (types, h8) = raise_if-eq-ok (bad_types d narrow wide) invalid _ h7 in
    let (levels, h9) = raise_if-eq-ok (bad_levels d present uart) inconsistent _ h8 in
    let (back, done) =
      raise_if-eq-ok (went_back_from previous d present uart transport) lifetime_changed _ h9 in
    let more = present ++ (uart ++ (transport ++ ("lwip_free" ∷ []))) in
    let is : project d (base_fields ++ more) ≡ reading = cc done in
    let reads = levels_lem d present uart (sampled_lem d narrow wide types) levels in
    subst (λ r. IsReading r × LaterThan previous r) is
      (IsReading-project d more reads, after_lem previous d present uart transport more back)

pub IsLater-refl : (d : Fields) → IsLater d d
IsLater-refl d = record {
  samples = omega arith;
  heap_min = omega arith;
  stack_min = omega arith;
  to_backend = omega arith;
  to_peer = omega arith;
}

pub IsLater-trans : (a b c : Fields) → IsLater a b → IsLater b c → IsLater a c
IsLater-trans a b c l m = record {
  samples = omega (arith, l.samples, m.samples);
  heap_min = omega (arith, l.heap_min, m.heap_min);
  stack_min = omega (arith, l.stack_min, m.stack_min);
  to_backend = omega (arith, l.to_backend, m.to_backend);
  to_peer = omega (arith, l.to_peer, m.to_peer);
}
