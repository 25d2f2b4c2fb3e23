-- ===== src/Fmgo/Echo/Parse.antt =====
-- The loop over the frames that have arrived: what it takes, and where it stops.
use firmingo.Common.{
  ℕ, zero, suc, ◌+◌, ◌≤◌, ◌<◌, ◌≡◌, ◌⊎◌, inl, inr, refl, sym, ap, ap₂, subst, ◌∙◌, Bool, true,
  false, [], ◌++◌, Result, ok, >>=-eq-ok, ok-inj, raise_if-eq-ok, map_err, map_err-eq-ok, length,
  take, drop, ltb, if◌then◌else◌, take-append-drop, drop-drop, length-take, length-drop,
  length-append, append_assoc, append-nil, arith,
}
use firmingo.Common.Bytes.{Bytes, slice, length-slice, bytes_eq_iff}
use firmingo.Fmgo.Frame.{Header, header_size, decode_header}
use firmingo.Fmgo.Echo.{
  EchoError, in_frame, unexpected_frame, extra_bytes, channel_tag, bad_stream, parse,
}

-- Bytes that are stream frames of the channel, one after another, and the bytes that they carry.
pub data Stream : Bytes → Bytes → Type 0 where
  no_frames : Stream [] []
  one_frame :
      (head body rest out : Bytes)
      → length head ≡ 16
      → decode_header head ≡ ok (record { kind = 3; request = 0; size = 4 + length body })
      → 0 < length body
      → Stream rest out
      → Stream (head ++ ((channel_tag ++ body) ++ rest)) (body ++ out)

-- What a call of `parse` does with its input: the frames it takes, their bytes, and what it leaves.
pub record Parsed (limit : ℕ) (incoming received rest out : Bytes) : Type 0 where
  pub taken : Bytes
  pub body : Bytes
  pub split : incoming ≡ taken ++ rest
  pub gained : out ≡ received ++ body
  pub stream : Stream taken body
  pub bounded : length received ≤ limit → length out ≤ limit

Parsed-nothing :
    (limit : ℕ) (incoming received : Bytes) → Parsed limit incoming received incoming received
Parsed-nothing limit incoming received = record {
  taken = [];
  body = [];
  split = refl;
  gained = sym (append-nil received);
  stream = no_frames;
  bounded = λ h. h;
}

nothing-or :
    (limit : ℕ) (incoming received : Bytes) {rest out : Bytes}
    → ◌≡◌ {A = Result EchoError (Bytes × Bytes)} (ok (incoming, received)) (ok (rest, out))
    → Parsed limit incoming received rest out
nothing-or limit incoming received h =
    subst (λ (r : Bytes × Bytes). Parsed limit incoming received r.0 r.1) (ok-inj h)
      (Parsed-nothing limit incoming received)

pub if-ok :
    {A : Type 0} (b : Bool) (x y z : A)
    → (if b then x else y) ≡ z
    → ((b ≡ true) × (x ≡ z)) ⊎ ((b ≡ false) × (y ≡ z))
if-ok true x y z h = inl (refl, h)
if-ok false x y z h = inr (refl, h)

bad_stream-good :
    (h : Header) (payload : Bytes)
    → bad_stream h payload ≡ false
    → (h.kind ≡ 3) × ((h.request ≡ 0) × ((4 < h.size) × (take 4 payload ≡ channel_tag)))
bad_stream-good h payload good = (
  ground arith,
  (ground arith, (ground arith, ground (arith, (bytes_eq_iff (take 4 payload) channel_tag).0))),
)

-- A frame that is taken: its parts.
frame_parts :
    (incoming : Bytes) (h : Header)
    → decode_header (take 16 incoming) ≡ ok h
    → 16 + h.size ≤ length incoming
    → bad_stream h (slice 16 h.size incoming) ≡ false
    → (length (take 16 incoming) ≡ 16)
      × ((decode_header (take 16 incoming)
            ≡ ok (record {
              kind = 3;
              request = 0;
              size = 4 + length (drop 4 (slice 16 h.size incoming));
            }))
          × ((0 < length (drop 4 (slice 16 h.size incoming)))
              × (incoming
                  ≡ take 16 incoming
                    ++ ((channel_tag ++ drop 4 (slice 16 h.size incoming))
                        ++ drop (16 + h.size) incoming))))
frame_parts incoming h decoded full good =
    let payload = slice 16 h.size incoming in
    let body = drop 4 payload in
    let behind = drop 16 incoming in
    let (kind, (request, (large, tag))) = bad_stream-good h payload good in
    let whole : length payload ≡ h.size = length-slice 16 h.size incoming full in
    let size : h.size ≡ 4 + length body = omega (arith, length-drop 4 payload, whole, large) in
    let same : h ≡ record { kind = 3; request = 0; size = 4 + length body } =
      λ i. record { kind = kind i; request = request i; size = size i } in
    let cut : payload ≡ channel_tag ++ body =
      sym (take-append-drop 4 payload) ∙ ap (λ t. t ++ body) tag in
    let later : drop h.size behind ≡ drop (16 + h.size) incoming = drop-drop h.size 16 incoming in
    (
      omega (arith, length-take 16 incoming, full),
      (
        decoded ∙ ap ok same,
        (
          omega (arith, size, large),
          sym (take-append-drop 16 incoming)
              ∙ ap (λ t. take 16 incoming ++ t)
                  (sym (take-append-drop h.size behind) ∙ ap₂ (λ a b. a ++ b) cut later),
        ),
      ),
    )

-- Bytes that are no whole frame yet.
pub data IsPartial (incoming : Bytes) : Type 0 where
  short : length incoming < 16 → IsPartial incoming
  cut_off :
      (h : Header)
      → decode_header (take 16 incoming) ≡ ok h
      → length incoming < 16 + h.size
      → IsPartial incoming

-- One round of the loop stops, or takes a frame.
pub record Taken (fuel limit : ℕ) (incoming received : Bytes) (result : Bytes × Bytes)
    : Type 0 where
  pub header : Header
  pub decoded : decode_header (take 16 incoming) ≡ ok header
  pub full : 16 + header.size ≤ length incoming
  pub good : bad_stream header (slice 16 header.size incoming) ≡ false
  pub within : length received + length (drop 4 (slice 16 header.size incoming)) ≤ limit
  pub later :
      parse fuel limit
        (drop (16 + header.size) incoming)
        (received ++ drop 4 (slice 16 header.size incoming))
      ≡ ok result

pub parse-step :
    (fuel limit : ℕ) (incoming received : Bytes) {result : Bytes × Bytes}
    → parse (suc fuel) limit incoming received ≡ ok result
    → (((incoming, received) ≡ result) × IsPartial incoming)
      ⊎ Taken fuel limit incoming received result
unfolding parse
parse-step fuel limit incoming received {result} h =
    elim (if-ok (ltb (length incoming) header_size) _ _ _ h) [
      | inl (e, done) ↦ inl (ok-inj done, short (ground (arith, e)))
      | inr (e, h0) ↦
          let (header, decoded, h1) =
            >>=-eq-ok (map_err in_frame (decode_header (take header_size incoming))) _ h0 in
          let read = map_err-eq-ok in_frame (decode_header (take header_size incoming)) decoded in
          elim (if-ok (ltb (length incoming) (header_size + header.size)) _ _ _ h1) [
            | inl (f, done) ↦ inl (ok-inj done, cut_off header read (ground (arith, f)))
            | inr (f, h2) ↦
                let body = drop 4 (slice header_size header.size incoming) in
                let (good, h3) =
                  raise_if-eq-ok (bad_stream header (slice header_size header.size incoming))
                    unexpected_frame _ h2 in
                let (within, later) =
                  raise_if-eq-ok (ltb limit (length received + length body)) extra_bytes _ h3 in
                inr (record {
                  header = header;
                  decoded = read;
                  full = ground (arith, f);
                  good = good;
                  within = ground (arith, within);
                  later = later;
                })
          ]
    ]

-- `parse` takes whole frames of the channel, and adds what they carry to the received bytes, which stay in the limit.
pub parse-Parsed :
    (fuel limit : ℕ) (incoming received : Bytes) {rest out : Bytes}
    → parse fuel limit incoming received ≡ ok (rest, out)
    → Parsed limit incoming received rest out
unfolding parse
parse-Parsed zero limit incoming received h = nothing-or limit incoming received h
parse-Parsed (suc fuel) limit incoming received {rest} {out} h =
    elim (parse-step fuel limit incoming received h) [
      | inl (same, partial) ↦ nothing-or limit incoming received (ap ok same)
      | inr t ↦
          let head = take 16 incoming in
          let body = drop 4 (slice 16 t.header.size incoming) in
          let (sixteen, (decoded, (some_bytes, split))) =
            frame_parts incoming t.header t.decoded t.full t.good in
          let p =
            parse-Parsed fuel limit (drop (16 + t.header.size) incoming) (received ++ body)
              t.later in
          record {
            taken = head ++ ((channel_tag ++ body) ++ p.taken);
            body = body ++ p.body;
            split =
                split
                ∙ ap (λ r. head ++ ((channel_tag ++ body) ++ r)) p.split
                ∙ sym (
                    append_assoc head ((channel_tag ++ body) ++ p.taken) rest
                    ∙ ap (λ r. head ++ r) (append_assoc (channel_tag ++ body) p.taken rest));
            gained = p.gained ∙ append_assoc received body p.body;
            stream = one_frame head body p.taken p.body sixteen decoded some_bytes p.stream;
            bounded = λ small. p.bounded (omega (arith, length-append received body, t.within));
          }
    ]

-- When there is fuel for every byte, what `parse` leaves is no whole frame.
pub parse-IsPartial :
    (fuel limit : ℕ) (incoming received : Bytes) {rest out : Bytes}
    → length incoming ≤ fuel
    → parse fuel limit incoming received ≡ ok (rest, out)
    → IsPartial rest
unfolding parse
parse-IsPartial zero limit incoming received enough h =
    let is = ok-inj h in subst (λ (r : Bytes × Bytes). IsPartial r.0) is (short (omega arith))
parse-IsPartial (suc fuel) limit incoming received enough h =
    elim (parse-step fuel limit incoming received h) [
      | inl (same, partial) ↦ subst (λ (r : Bytes × Bytes). IsPartial r.0) same partial
      | inr t ↦
          let less : length (drop (16 + t.header.size) incoming) ≤ fuel =
            omega (arith, length-drop (16 + t.header.size) incoming, t.full) in
          parse-IsPartial fuel limit (drop (16 + t.header.size) incoming) _ less t.later
    ]
