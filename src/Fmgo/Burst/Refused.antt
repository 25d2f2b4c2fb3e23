-- ===== src/Fmgo/Burst/Refused.antt =====
-- What a burst that returns has sent and read (tools/ncm_burst.py).
use firmingo.Common.{
  ℕ, zero, suc, ◌+◌, ◌-◌, ◌*◌, length-append, length-replicate, replicate, ◌≡◌, refl, sym, ap, ap₂,
  ◌∙◌, Option, List, [], ◌∷◌, ◌++◌, ok, ok-inj, map_err-eq-ok, length, arith,
}
use firmingo.Common.Bytes.{Bytes, ascii}
use Prim.Native.Nat.{max}
use firmingo.Common.Run.Returned.{Ends, Ends-pure, Ends-bind, Ends-known}
use firmingo.Python.{Value}
use firmingo.Fmgo.Frame.{header_bytes, frame}
use firmingo.Fmgo.Frame.RoundTrip.{frame-eq, length-header_bytes}
use firmingo.Fmgo.Stream.Exact.{arriving}
use firmingo.Fmgo.Request.{in_frame, Link, take_number, send_all}
use firmingo.Fmgo.Burst.{
  diagnostics_payload, frames_loop, invalid_diagnostics_frames, BurstReport, send_invalid_burst,
}
use firmingo.Fmgo.Burst.Refusals.{Refusals, Refusals-subst, read_refusals-Refusals}

-- `count` numbers from `first` on.
abbrev pub numbers : ℕ → ℕ → List ℕ
numbers first zero = []
numbers first (suc count) = first ∷ numbers (first + 1) count

-- The frames of requests with these numbers.
abbrev pub requests_wire : Bytes → List ℕ → Bytes
requests_wire payload [] = []
requests_wire payload (request ∷ requests) =
    (header_bytes 1 request (length payload) ++ payload) ++ requests_wire payload requests

-- The frames are made without using the socket.
frames_loop-numbers :
    (payload : Bytes) (count : ℕ) (link : Link)
    → Ends
        (λ made after.
          (made.1 ≡ numbers link.next_request count)
          × (made.0 ≡ requests_wire payload (numbers link.next_request count))
          × (after ≡ record link { next_request = link.next_request + count }))
        (frames_loop payload count)
        link
unfolding frames_loop take_number
frames_loop-numbers payload zero link =
    Ends-pure _ _ link (refl, refl, ap (λ n. record link { next_request = n }) (omega arith))
frames_loop-numbers payload (suc count) link = Ends-bind _ _ _ link (λ request h₁.
    Ends-known _ _ _ _ (λ data' h₂. Ends-bind _ _ _ _ (λ rest h₃.
      let (numbered, wire_is, left) = (frames_loop-numbers payload count _).at rest h₃ in
      let (framed, _, _) =
        frame-eq 1 request payload (map_err-eq-ok in_frame (frame 1 request payload) h₂) in
      let number = sym (ok-inj h₁) in
      Ends-pure _ _ _ (
        ap₂ (λ n ns. n ∷ ns) number numbered,
        ap₂ (λ f bs. f ++ bs)
            (framed ∙ ap (λ n. header_bytes 1 n (length payload) ++ payload) number) wire_is,
        left ∙ ap (λ n. record link { next_request = n }) (omega arith),
      ))))

sent_lem :
    (data' : Bytes) (link : Link) (u : Unit {0})
    → (send_all data' link).0 ≡ ok u
    → (send_all data' link).1 ≡ record link { wire = link.wire ++ data' }
unfolding send_all
sent_lem data' link u h = ground (arith, h)

-- A request for the diagnostics of a channel, blanks, and the end of the object: as many bytes as were chosen, but at
-- least the 42 that are no blanks.
pub record IsPayload (payload_bytes : ℕ) (payload : Bytes) : Type 0 where
  pub blanks : ℕ
  pub text_is :
      payload
      ≡ ascii "{\"op\":\"device.diagnostics\",\"channel_id\":1"
        ++ (replicate blanks 0x20 ++ ascii "}")
  pub sized : length payload ≡ max 42 payload_bytes

diagnostics_payload-IsPayload :
    (payload_bytes : ℕ) → IsPayload payload_bytes (diagnostics_payload payload_bytes)
unfolding diagnostics_payload
diagnostics_payload-IsPayload payload_bytes =
    let n = payload_bytes - 41 - 1 in
    let blank : ℕ = 0x20 in
    record {
      blanks = n;
      text_is = refl;
      sized =
          omega (arith, length-append (replicate n blank) (ascii "}"), length-replicate n blank);
    }

length-requests_wire :
    (payload : Bytes) (first count : ℕ)
    → length (requests_wire payload (numbers first count)) ≡ count * (16 + length payload)
length-requests_wire payload first zero = omega arith
length-requests_wire payload first (suc count) =
    let head = header_bytes 1 first (length payload) in
    omega (
      arith,
      length-append (head ++ payload) (requests_wire payload (numbers (first + 1) count)),
      length-append head payload,
      length-header_bytes 1 first (length payload),
      length-requests_wire payload (first + 1) count,
    )

-- The requests went out in one piece, numbered from the link's next number on, and each was refused in its turn.
pub record IsRefused (loads : Bytes → Option Value) (deadline count payload_bytes : ℕ)
    (before : Link) (r : BurstReport) (after : Link) : Type 0 where
  pub payload : Bytes
  pub payload_is : IsPayload payload_bytes payload
  pub numbered : after.next_request ≡ before.next_request + count
  pub sent : after.wire ≡ before.wire ++ requests_wire payload (numbers before.next_request count)
  pub refused :
      Refusals loads
        (numbers before.next_request count)
        (arriving deadline before.turns)
        (arriving deadline after.turns)
  pub wire_bytes_is : r.wire_bytes ≡ count * (16 + max 42 payload_bytes)
  pub requests_is : r.requests ≡ count
  pub responses_is : r.responses ≡ count

length-numbers : (first count : ℕ) → length (numbers first count) ≡ count
length-numbers first zero = refl
length-numbers first (suc count) = ap suc (length-numbers (first + 1) count)

burst-Ends :
    (loads : Bytes → Option Value) (deadline count payload_bytes : ℕ) (link : Link)
    → Ends
        (IsRefused loads deadline count payload_bytes link)
        (send_invalid_burst loads deadline count payload_bytes)
        link
unfolding send_invalid_burst invalid_diagnostics_frames
burst-Ends loads deadline count payload_bytes link = Ends-bind _ _ _ link (λ made h₁.
    let (numbered, wire_is, left) = (frames_loop-numbers _ count link).at made h₁ in
    Ends-bind _ _ _ _ (λ u h₂.
      let state =
        sent_lem made.0 _ u h₂ ∙ ap (λ (l : Link). record l { wire = l.wire ++ made.0 }) left in
      Ends-bind _ _ _ _ (λ responses h₃.
        let (same, kept, refused) =
          (read_refusals-Refusals loads deadline made.1 _).at responses h₃ in
        let payload = diagnostics_payload payload_bytes in
        let is_payload = diagnostics_payload-IsPayload payload_bytes in
        Ends-pure _ _ _ (record {
          payload = payload;
          payload_is = is_payload;
          numbered = kept.numbered ∙ ap (λ (l : Link). l.next_request) state;
          sent =
              kept.wire_is ∙ ap (λ (l : Link). l.wire) state ∙ ap (λ bs. link.wire ++ bs) wire_is;
          refused =
              Refusals-subst loads _ refused numbered
                (ap (λ (l : Link). arriving deadline l.turns) state);
          wire_bytes_is =
              ap length wire_is
              ∙ length-requests_wire payload link.next_request count
              ∙ ap (λ n. count * (16 + n)) is_payload.sized;
          requests_is = ap length numbered ∙ length-numbers link.next_request count;
          responses_is = ap length (same ∙ numbered) ∙ length-numbers link.next_request count;
        }))))

-- When the burst returns, it has sent `count` requests in one piece, each a frame with a request for diagnostics that is
-- filled with blanks to the chosen number of bytes (to 42 where fewer are chosen). They are numbered from the link's next number on, and the link goes on behind the last of these numbers. What arrived begins with one
-- response to each of them, in their order and with nothing in between: a response frame with the request's
-- number whose body is a refusal with the code `invalid_argument`; the rest is left for later reads. The report counts
-- the bytes that were sent, and as many responses as requests.
pub send_invalid_burst-IsRefused :
    (loads : Bytes → Option Value) (deadline count payload_bytes : ℕ) (link : Link)
    {r : BurstReport}
    → (send_invalid_burst loads deadline count payload_bytes link).0 ≡ ok r
    → IsRefused loads deadline count payload_bytes link r
        (send_invalid_burst loads deadline count payload_bytes link).1
send_invalid_burst-IsRefused loads deadline count payload_bytes link {r} h =
    (burst-Ends loads deadline count payload_bytes link).at r h
