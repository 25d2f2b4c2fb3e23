-- ===== src/Fmgo/Echo/Exchange.antt =====
-- What went over the socket when `echo` returns.
use firmingo.Common.{
  ℕ, ◌+◌, ◌*◌, ◌≤◌, ◌≡◌, inl, inr, refl, sym, ap, subst, ◌∙◌, Bool, true, false, not, ◌&&◌, Option,
  List, [], ◌∷◌, ◌++◌, ok, err, >>=-eq-ok, ok-inj, raise_if, raise_if-eq-ok, length, leb, ltb, ◌==◌,
  if◌then◌else◌, length-append, append-nil, arith,
}
use firmingo.Common.Bytes.{Bytes, bytes_eq, bytes_eq_iff, pieces}
use firmingo.Fmgo.Echo.{
  EchoError, echo_timeout, bad_count, bad_seed, bad_delay, trailing_frame, Round, Echo, Plan,
  send_step, reads_now, receive_step, unfinished, exchange, verdict, frames_of, start,
  bad_seed_value, expected_bytes, echo,
}
use firmingo.Fmgo.Echo.Parse.{Stream, if-ok}
use firmingo.Fmgo.Echo.Kept.{
  IsKept, IsKept-start, if-result, not-ok, send_step-IsKept, receive_step-IsKept,
}

-- When the loop ends without an error, from a state in which the bytes sent are the first ones of the wire and those that
-- arrived are whole frames and a part of a frame, this still holds, and the state is finished.
pub exchange-IsKept :
    (p : Plan) (rounds : List Round) (s : Echo) {t : Echo}
    → IsKept p s
    → exchange p rounds s ≡ ok t
    → IsKept p t × (unfinished p t ≡ false)
unfolding exchange
exchange-IsKept p [] s {t} k h = elim (if-ok (unfinished p s) (err echo_timeout) (ok s) (ok t) h) [
  | inl (u, e) ↦ not-ok e
  | inr (u, e) ↦ subst (λ t. IsKept p t × (unfinished p t ≡ false)) (ok-inj e) (k, u)
]
exchange-IsKept p (r ∷ rounds) s {t} k h = elim (if-ok (unfinished p s) _ (ok s) (ok t) h) [
  | inr (u, e) ↦ subst (λ t. IsKept p t × (unfinished p t ≡ false)) (ok-inj e) (k, u)
  | inl (u, e) ↦ elim (if-ok (leb p.deadline r.now) (err echo_timeout) _ (ok t) e) [
    | inl (late, f) ↦ not-ok f
    | inr (late, f) ↦
        let (s1, sending, f1) = >>=-eq-ok (send_step p r.sending s) _ f in
        let (s2, receiving, f2) =
          >>=-eq-ok (if reads_now p r.now then receive_step p r.receiving s1 else ok s1) _ f1 in
        let k1 = send_step-IsKept p r.sending s sending k in
        let k2 : IsKept p s2 =
          if-result (IsKept p) (reads_now p r.now) (receive_step p r.receiving s1) (ok s1) receiving
            (λ e. receive_step-IsKept p r.receiving s1 e k1)
            (λ e. subst (IsKept p) (ok-inj e) k1) in
        exchange-IsKept p rounds s2 k2 f2
  ]
]

nothing_left : {A : Type 0} (xs : List A) → length xs ≡ 0 → xs ≡ []
nothing_left [] h = refl
nothing_left (x ∷ xs) h = absurd (omega arith)

finished-sent : (p : Plan) (s : Echo) → unfinished p s ≡ false → length p.wire ≤ s.sent
finished-sent p s h = ground (arith, h)

-- What went over the socket: all the stream frames of the expected bytes went out, and what came in is
-- whole stream frames that carried the expected bytes.
pub record IsExchanged (expected : Bytes) (s : Echo) : Type 0 where
  pub sent_all : frames_of (pieces 2048 expected) ≡ ok s.wire_out
  pub came_back : Stream s.wire_in expected
  pub received_is : s.received ≡ expected

not-raised : (b : Bool) (e : EchoError) → raise_if (not b) e ≡ ok tt → b ≡ true
not-raised true e h = refl
not-raised false e h = cc

-- A finished state that passes the last checks.
verdict-IsExchanged :
    (p : Plan) (s : Echo)
    → frames_of (pieces 2048 p.expected) ≡ ok p.wire
    → IsKept p s
    → unfinished p s ≡ false
    → verdict p s ≡ ok tt
    → IsExchanged p.expected s
unfolding verdict
verdict-IsExchanged p s made k finished h =
    let (no_rest, h1) = raise_if-eq-ok (not (length s.incoming == 0)) trailing_frame _ h in
    let equal : bytes_eq s.received p.expected ≡ true = not-raised _ _ h1 in
    let is = (bytes_eq_iff s.received p.expected).0 equal in
    let all_sent = finished-sent p s finished in
    let none_left : k.left ≡ [] =
      nothing_left k.left (
        omega (arith, all_sent, k.counted, ap length k.wire_is, length-append s.wire_out k.left)) in
    let none_partial : s.incoming ≡ [] = nothing_left s.incoming (ground (arith, no_rest)) in
    let out : p.wire ≡ s.wire_out =
      k.wire_is ∙ ap (λ z. s.wire_out ++ z) none_left ∙ append-nil s.wire_out in
    let in' : s.wire_in ≡ k.taken =
      k.arrived ∙ ap (λ z. k.taken ++ z) none_partial ∙ append-nil k.taken in
    record {
      sent_all = made ∙ ap ok out;
      came_back = subst (λ a. Stream a p.expected) (sym in') (subst (Stream k.taken) is k.stream);
      received_is = is;
    }

-- When `echo` returns, the stream frames of the whole of the bytes it chose went out, in pieces of at most 2048 bytes, and
-- what came in, however it was cut into segments, is stream frames of channel 1 that carried exactly these bytes.
pub echo-IsExchanged :
    (randbytes : ℕ → ℕ → Bytes) (second count : ℕ) (slow_read : Bool) (seed : Option ℕ)
    (read_delay started timeout : ℕ) (rounds : List Round) {s : Echo}
    → echo randbytes second count slow_read seed read_delay started timeout rounds ≡ ok s
    → IsExchanged (expected_bytes randbytes second seed count) s
unfolding echo
echo-IsExchanged randbytes second count slow_read seed read_delay started timeout rounds {s} h =
    let (_, h1) = raise_if-eq-ok (not (leb 1 count && leb count 262144)) bad_count _ h in
    let (_, h2) = raise_if-eq-ok (bad_seed_value seed) bad_seed _ h1 in
    let (_, h3) = raise_if-eq-ok (ltb (10 * second) read_delay) bad_delay _ h2 in
    let expected = expected_bytes randbytes second seed count in
    let (wire, made, h4) = >>=-eq-ok (frames_of (pieces 2048 expected)) _ h3 in
    let p : Plan = record {
      expected = expected;
      wire = wire;
      started = started;
      deadline = started + timeout;
      slow_read = slow_read;
      read_delay = read_delay;
    } in
    let (t, exchanged, h5) = >>=-eq-ok (exchange p rounds start) _ h4 in
    let (_, judged, done) = >>=-eq-ok (verdict p t) _ h5 in
    let (kept, finished) = exchange-IsKept p rounds start (IsKept-start p) exchanged in
    subst (IsExchanged expected) (ok-inj done) (verdict-IsExchanged p t made kept finished judged)
