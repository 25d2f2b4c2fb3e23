-- ===== src/Fmgo/Request/Answered.antt =====
-- A request that the device answers returns the answer, however the network cuts it into segments.
use firmingo.Common.{
  ℕ, ◌+◌, ◌≡◌, ◌≢◌, refl, sym, ap, subst, ◌∙◌, true, Option, some, ◌++◌, Result, ok, err, check,
  map_err, length, take, drop, ◌==◌, if◌then◌else◌, arith, inl, length-append, append_assoc,
  take-append_eq, drop-append_eq,
}
use firmingo.Common.Bytes.{Bytes}
use firmingo.Common.Run.{continue, ◌>>=◌}
use firmingo.Python.{Value, Fields, obj}
use firmingo.Fmgo.Frame.{Header, header_size, header_bytes, frame, decode_header}
use firmingo.Fmgo.Frame.RoundTrip.{decode_header-header_bytes, frame-eq}
use firmingo.Fmgo.Stream.Exact.{arriving, exact_reads}
use firmingo.Fmgo.Request.{
  RequestError, in_frame, in_read, wrong_response, send_failed, Link, Talk, take_number, send_all,
  read_exact, select_result, response_dict, request_frame,
}
use Prim.Native.String.{String}

-- Reading the first of two parts of what arrives leaves the second.
read_exact-append :
    (deadline : ℕ) (link : Link) (part more : Bytes)
    → arriving deadline link.turns ≡ part ++ more
    → ((read_exact deadline (length part) link).0 ≡ ok part)
      × (arriving deadline (read_exact deadline (length part) link).1.turns ≡ more)
unfolding read_exact
read_exact-append deadline link part more h =
    let (first, rest) =
      exact_reads deadline (length part) link.turns
        (omega (arith, ap length h, length-append part more)) in
    (
      ap (map_err in_read) (first ∙ ap (λ bs. ok (take (length part) bs)) h)
          ∙ ap (λ bs. ok bs) (take-append_eq (length part) part more refl),
      rest ∙ ap (drop (length part)) h ∙ drop-append_eq (length part) part more refl,
    )

continue_ok :
    {A B : Type 0} (P : Result RequestError B × Link → Type 0) (r : Result RequestError A)
    (f : A → Talk B) (w : Link) (a : A)
    → r ≡ ok a
    → P (f a w)
    → P (continue r f w)
continue_ok P r f w a h p = subst (λ s. P (continue s f w)) (sym h) p

continue_pair :
    {A B : Type 0} (P : Result RequestError B × Link → Type 0) (m : Result RequestError A × Link)
    (f : A → Talk B) (a : A) (w : Link)
    → m ≡ (ok a, w)
    → P (f a w)
    → P (continue m.0 f m.1)
continue_pair P m f a w h p = subst (λ s. P (continue s.0 f s.1)) (sym h) p

-- The call returned `result`, sent `out`, used up one number, and left `more` to read.
pub record Answers (deadline : ℕ) (link : Link) (out more : Bytes) (result : Fields)
    (after : Result RequestError Fields × Link) : Type 0 where
  pub returned : after.0 ≡ ok result
  pub sent : after.1.wire ≡ link.wire ++ out
  pub numbered : after.1.next_request ≡ link.next_request + 1
  pub left : arriving deadline after.1.turns ≡ more

-- When the socket takes the request and the first bytes to arrive before the deadline, in segments of any
-- sizes, are the frame of a response with the request's number, whose body decodes to an object that is
-- the expected kind of answer, then `request_frame` returns that answer, has sent exactly the framed
-- request, takes the next number for the next request, and leaves what arrives behind the response.
pub request_frame-Answers :
    (loads : Bytes → Option Value) (deadline kind : ℕ) (payload body more : Bytes)
    (expected_error : Option String) (link : Link) {out answer : Bytes} {response result : Fields}
    → link.accepts ≡ true
    → link.next_request ≢ 0
    → frame kind link.next_request payload ≡ ok out
    → frame 2 link.next_request body ≡ ok answer
    → arriving deadline link.turns ≡ answer ++ more
    → loads body ≡ some (obj response)
    → select_result expected_error response ≡ ok result
    → Answers deadline link out more result
        (request_frame loads deadline kind payload expected_error link)
unfolding request_frame take_number send_all read_exact ◌>>=◌ header_bytes
request_frame-Answers loads deadline kind payload body more expected_error link {out} {answer}
      {response} {result} accepting numbered made answered arrives decoded selected =
    let request = link.next_request in
    let P : Result RequestError Fields × Link → Type 0 = Answers deadline link out more result in
    let (answer_is, small, narrow) = frame-eq 2 request body answered in
    let head = header_bytes 2 request (length body) in
    let started : Link = record link { next_request = request + 1 } in
    let asked : Link = record started { wire = link.wire ++ out } in
    let whole : arriving deadline link.turns ≡ head ++ (body ++ more) =
      arrives ∙ ap (λ a. a ++ more) answer_is ∙ append_assoc head body more in
    let (read_head, rest) = read_exact-append deadline asked head (body ++ more) whole in
    let after_head : Link = (read_exact deadline header_size asked).1 in
    let (read_body, left) = read_exact-append deadline after_head body more rest in
    let header : Header = record { kind = 2; request = request; size = length body } in
    let header_is =
      decode_header-header_bytes 2 request (length body) (inl (refl, numbered)) narrow small in
    let sends : send_all out started ≡ (ok tt, asked) =
      ap (λ b. if b then (ok tt, asked) else (err send_failed, started)) accepting in
    let same : check (request == request) wrong_response ≡ ok tt = ground arith in
    let finished : Link = (read_exact deadline (length body) after_head).1 in
    let done : P (ok result, finished) = record {
      returned = refl;
      sent = refl;
      numbered = refl;
      left = left;
    } in
    continue_ok P (map_err in_frame (frame kind request payload)) _ started out
      (ap (map_err in_frame) made)
      (continue_pair P (send_all out started) _ tt asked sends (
        continue_ok P (read_exact deadline header_size asked).0 _ after_head head read_head (
          continue_ok P (map_err in_frame (decode_header head)) _ after_head header
            (ap (map_err in_frame) header_is)
            (continue_ok P (check (request == request) wrong_response) _ after_head tt same (
              continue_ok P (read_exact deadline (length body) after_head).0 _ finished body
                read_body
                (continue_ok P (response_dict (loads body)) _ finished response
                  (ap response_dict decoded)
                  (subst (λ r. P (r, finished)) (sym selected) done)))))))
