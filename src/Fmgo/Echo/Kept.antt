-- ===== src/Fmgo/Echo/Kept.antt =====
-- What every round of `exchange` keeps.
use firmingo.Common.{
  ℕ, ◌≤◌, ◌≡◌, refl, sym, ap, subst, ◌∙◌, Bool, true, false, [], ◌++◌, Result, ok, err, >>=-eq-ok,
  ok-inj, raise_if-eq-ok, length, take, drop, ltb, ◌==◌, if◌then◌else◌, take-append-drop,
  drop-append_eq, length-append, append_assoc, arith,
}
use firmingo.Common.Bytes.{Bytes}
use firmingo.Fmgo.Echo.{
  channel_tag, EchoError, disconnected, send_failed, Sending, not_writable, would_block, send_error,
  takes, Receiving, not_readable, no_data, receive_error, gives, Echo, Plan, fragment_at, fragment,
  take_part, send_step, parse, take_chunk, receive_step, start,
}
use firmingo.Fmgo.Echo.Parse.{
  Stream, no_frames, one_frame, IsPartial, short, parse-Parsed, parse-IsPartial,
}

pub Stream-append : {a b x y : Bytes} → Stream a x → Stream b y → Stream (a ++ b) (x ++ y)
Stream-append no_frames t = t
Stream-append {b = b} {y = y} (one_frame head body rest out full decoded some_bytes s) t =
    let r =
      one_frame head body (rest ++ b) (out ++ y) full decoded some_bytes (Stream-append s t) in
    let ins : (head ++ ((channel_tag ++ body) ++ rest)) ++ b
        ≡ head ++ ((channel_tag ++ body) ++ (rest ++ b)) =
      append_assoc head ((channel_tag ++ body) ++ rest) b
      ∙ ap (λ z. head ++ z) (append_assoc (channel_tag ++ body) rest b) in
    subst (λ a. Stream a ((body ++ out) ++ y)) (sym ins)
      (subst (Stream _) (sym (append_assoc body out y)) r)

-- What stays true round after round: the bytes sent are the first ones of the wire, and the bytes that arrived are whole
-- frames that carried what is received, and behind them a part of a frame.
pub record IsKept (p : Plan) (s : Echo) : Type 0 where
  pub left : Bytes
  pub wire_is : p.wire ≡ s.wire_out ++ left
  pub counted : s.sent ≡ length s.wire_out
  pub taken : Bytes
  pub arrived : s.wire_in ≡ taken ++ s.incoming
  pub stream : Stream taken s.received
  pub within : length s.received ≤ length p.expected
  pub partial : IsPartial s.incoming

pub IsKept-start : (p : Plan) → IsKept p start
IsKept-start p = record {
  left = p.wire;
  wire_is = refl;
  counted = refl;
  taken = [];
  arrived = refl;
  stream = no_frames;
  within = omega arith;
  partial = short (omega arith);
}

IsKept-take_part :
    (p : Plan) (s : Echo) (n : ℕ) → IsKept p s → IsKept p (take_part s (take n (fragment p s)))
IsKept-take_part p s n k =
    let f = fragment_at s.turn in
    let offered : fragment p s ≡ take f k.left =
      ap (take f)
        (ap (drop s.sent) k.wire_is ∙ drop-append_eq s.sent s.wire_out k.left (sym k.counted)) in
    let part = take n (fragment p s) in
    let more = drop n (fragment p s) ++ drop f k.left in
    let same : k.left ≡ part ++ more =
      sym (take-append-drop f k.left)
      ∙ ap (λ z. z ++ drop f k.left) (sym offered ∙ sym (take-append-drop n (fragment p s)))
      ∙ append_assoc part (drop n (fragment p s)) (drop f k.left) in
    record {
      left = more;
      wire_is =
          k.wire_is ∙ ap (λ z. s.wire_out ++ z) same ∙ sym (append_assoc s.wire_out part more);
      counted = omega (arith, k.counted, length-append s.wire_out part);
      taken = k.taken;
      arrived = k.arrived;
      stream = k.stream;
      within = k.within;
      partial = k.partial;
    }

pub if-result :
    {A : Type 0} (P : A → Type 0) (b : Bool) (x y : Result EchoError A) {z : A}
    → (if b then x else y) ≡ ok z
    → (x ≡ ok z → P z)
    → (y ≡ ok z → P z)
    → P z
if-result P true x y h f g = f h
if-result P false x y h f g = g h

pub not-ok :
    {A : Type 0} {B : Type 0} {e : EchoError} {a : A}
    → ◌≡◌ {A = Result EchoError A} (err e) (ok a)
    → B
not-ok h = cc

pub send_step-IsKept :
    (p : Plan) (e : Sending) (s : Echo) {t : Echo}
    → send_step p e s ≡ ok t
    → IsKept p s
    → IsKept p t
unfolding send_step
send_step-IsKept p not_writable s h k = subst (IsKept p) (ok-inj h) k
send_step-IsKept p would_block s h k = subst (IsKept p) (ok-inj h) k
send_step-IsKept p send_error s h k =
    if-result (IsKept p) (ltb s.sent (length p.wire)) (err send_failed) (ok s) h (λ e. not-ok e)
      (λ e. subst (IsKept p) (ok-inj e) k)
send_step-IsKept p (takes n) s h k =
    if-result (IsKept p) (ltb s.sent (length p.wire)) (ok (take_part s (take n (fragment p s))))
      (ok s) h (λ e. subst (IsKept p) (ok-inj e) (IsKept-take_part p s n k))
      (λ e. subst (IsKept p) (ok-inj e) k)

take_chunk-IsKept :
    (p : Plan) (chunk : Bytes) (s : Echo) {t : Echo}
    → take_chunk p chunk s ≡ ok t
    → IsKept p s
    → IsKept p t
unfolding take_chunk
take_chunk-IsKept p chunk s {t} h k =
    let (_, h1) = raise_if-eq-ok (length chunk == 0) disconnected _ h in
    let incoming = s.incoming ++ chunk in
    let ((rest, out), parsed, done) =
      >>=-eq-ok (parse (length incoming) (length p.expected) incoming s.received) _ h1 in
    let q = parse-Parsed (length incoming) (length p.expected) incoming s.received parsed in
    subst (IsKept p) (ok-inj done) (record {
      left = k.left;
      wire_is = k.wire_is;
      counted = k.counted;
      taken = k.taken ++ q.taken;
      arrived =
          ap (λ z. z ++ chunk) k.arrived
          ∙ append_assoc k.taken s.incoming chunk
          ∙ ap (λ z. k.taken ++ z) q.split
          ∙ sym (append_assoc k.taken q.taken rest);
      stream = subst (Stream (k.taken ++ q.taken)) (sym q.gained) (Stream-append k.stream q.stream);
      within = q.bounded k.within;
      partial =
          parse-IsPartial (length incoming) (length p.expected) incoming s.received (omega arith)
            parsed;
    })

pub receive_step-IsKept :
    (p : Plan) (e : Receiving) (s : Echo) {t : Echo}
    → receive_step p e s ≡ ok t
    → IsKept p s
    → IsKept p t
unfolding receive_step
receive_step-IsKept p not_readable s h k = subst (IsKept p) (ok-inj h) k
receive_step-IsKept p no_data s h k = subst (IsKept p) (ok-inj h) k
receive_step-IsKept p receive_error s h k = not-ok h
receive_step-IsKept p (gives chunk) s h k = take_chunk-IsKept p chunk s h k
