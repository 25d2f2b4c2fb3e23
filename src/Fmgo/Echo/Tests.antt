-- ===== src/Fmgo/Echo/Tests.antt =====
-- An echo of five bytes, sent in three fragments and received in two segments.
use firmingo.Common.{
  ℕ, ◌≡◌, ◌≤◌, length, refl, false, List, [], ◌∷◌, ◌++◌, none, ok, take, drop, arith,
}
use firmingo.Common.Bytes.{Bytes, pieces, pieces_fuel, bytes_eq}
use firmingo.Fmgo.Frame.{frame, header_bytes, be_field, decode_header}
use firmingo.Fmgo.Echo.{
  not_readable, not_writable, takes, gives, Round, Echo, send_step, receive_step, parse, take_chunk,
  exchange, verdict, frames_of, ramp, expected_bytes, echo,
}
use firmingo.Fmgo.Echo.Parse.{IsPartial, parse-IsPartial}
use firmingo.Fmgo.Echo.Exchange.{IsExchanged, echo-IsExchanged}

abbrev no_random : ℕ → ℕ → Bytes
no_random seed count = []

abbrev sent_bytes : Bytes
unfolding ramp
sent_bytes = ramp 0 5

abbrev wire : Bytes
unfolding header_bytes
wire = header_bytes 3 0 9 ++ (0 ∷ 0 ∷ 0 ∷ 1 ∷ []) ++ sent_bytes

abbrev rounds : List Round
rounds =
    record { now = 0; sending = takes 511; receiving = not_readable }
    ∷ record { now = 1; sending = takes 511; receiving = not_readable }
    ∷ record { now = 2; sending = takes 511; receiving = gives (take 10 wire) }
    ∷ record { now = 3; sending = not_writable; receiving = gives (drop 10 wire) }
    ∷ []

abbrev after : Echo
after = record {
  sent = 25;
  turn = 3;
  incoming = [];
  received = sent_bytes;
  wire_out = wire;
  wire_in = wire;
}

echoed : echo no_random 1 5 false none 0 0 10 rounds ≡ ok after
unfolding echo sent_bytes wire header_bytes ramp frames_of frame pieces pieces_fuel exchange
    send_step receive_step take_chunk parse decode_header be_field bytes_eq verdict
echoed = refl

echo-IsExchanged_example : IsExchanged (expected_bytes no_random 1 none 5) after
echo-IsExchanged_example = echo-IsExchanged no_random 1 5 false none 0 0 10 rounds echoed

-- The first frame and four bytes of the next one.
abbrev arrived : Bytes
unfolding wire
arrived = wire ++ take 4 wire

parsed : parse 29 5 arrived [] ≡ ok (take 4 wire, sent_bytes)
unfolding parse decode_header be_field bytes_eq arrived wire header_bytes sent_bytes ramp
parsed = refl

small : length arrived ≤ 29
unfolding arrived wire header_bytes sent_bytes ramp
small = omega arith

parse-IsPartial_example : IsPartial (take 4 wire)
parse-IsPartial_example = parse-IsPartial 29 5 arrived [] small parsed
