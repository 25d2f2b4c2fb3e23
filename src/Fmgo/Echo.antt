-- ===== src/Fmgo/Echo.antt =====
-- `Probe.echo` of tools/session_smoke.py: bytes that go out in small fragments and must come back in stream frames.
-- What the socket does is a list of rounds: the clock, what `send` meets if the socket is writable, and
-- what `recv` meets if it is readable. Behind the last round the deadline has passed.
pub mod Parse
mod Kept
pub mod Exchange
mod Tests
use firmingo.Common.{
  ℕ, zero, suc, ◌+◌, ◌-◌, ◌*◌, ◌/◌, ◌%◌, ◌^◌, min, Bool, true, false, not, ◌&&◌, ◌||◌, Option, none,
  some, List, [], ◌∷◌, ◌++◌, Result, ok, err, ◌>>=◌, ◌>>◌, raise_if, map_err, length, take, drop,
  get_elem?, leb, ltb, ◌==◌, if◌then◌else◌,
}
use firmingo.Common.Bytes.{Bytes, slice, bytes_eq, pieces}
use firmingo.Fmgo.Frame.{FrameError, Header, header_size, frame, decode_header}
use Prim.Native.Nat.{bit_xor}

pub data EchoError : Type 0 where
  bad_count bad_seed bad_delay echo_timeout send_failed receive_failed disconnected : EchoError
  in_frame : FrameError → EchoError
  unexpected_frame extra_bytes trailing_frame : EchoError
  mismatch : ℕ → EchoError

-- `takes n`: the socket takes at most `n` of the bytes that are offered.
pub data Sending : Type 0 where
  not_writable would_block send_error : Sending
  takes : ℕ → Sending

-- `gives bytes`: what `recv(4096)` returns; no bytes are the peer's close.
pub data Receiving : Type 0 where
  not_readable no_data receive_error : Receiving
  gives : Bytes → Receiving

pub record Round : Type 0 where
  pub now : ℕ
  pub sending : Sending
  pub receiving : Receiving

-- `wire_out` and `wire_in` are what went over the socket; the code keeps only the count of the first.
pub record Echo : Type 0 where
  pub sent : ℕ
  pub turn : ℕ
  pub incoming : Bytes
  pub received : Bytes
  pub wire_out : Bytes
  pub wire_in : Bytes

-- What does not change during the loop.
pub record Plan : Type 0 where
  pub expected : Bytes
  pub wire : Bytes
  pub started : ℕ
  pub deadline : ℕ
  pub slow_read : Bool
  pub read_delay : ℕ

abbrev pub fragments : List ℕ
fragments = 1 ∷ 7 ∷ 19 ∷ 128 ∷ 511 ∷ []

-- `fragments[turn % len(fragments)]`; the index is always in the list.
abbrev pub fragment_at : ℕ → ℕ
fragment_at turn = elim (get_elem? fragments (turn % 5)) [ none ↦ 0 | some n ↦ n ]

abbrev pub fragment : Plan → Echo → Bytes
fragment p s = slice s.sent (fragment_at s.turn) p.wire

-- `sock.send` takes a part of the fragment.
abbrev pub take_part : Echo → Bytes → Echo
take_part s part = record s {
  sent = s.sent + length part;
  turn = s.turn + 1;
  wire_out = s.wire_out ++ part;
}

unfoldable pub send_step : Plan → Sending → Echo → Result EchoError Echo
send_step p not_writable s = ok s
send_step p would_block s = ok s
send_step p send_error s = if ltb s.sent (length p.wire) then err send_failed else ok s
send_step p (takes n) s =
    if ltb s.sent (length p.wire) then ok (take_part s (take n (fragment p s))) else ok s

-- `b"\0\0\0\1"`
abbrev pub channel_tag : Bytes
channel_tag = 0 ∷ 0 ∷ 0 ∷ 1 ∷ []

abbrev pub bad_stream : Header → Bytes → Bool
bad_stream h payload =
    not (h.kind == 3)
    || (not (h.request == 0) || (leb h.size 4 || not (bytes_eq (take 4 payload) channel_tag)))

-- The inner loop: `incoming` and `received`. Each round takes a frame of at least 16 bytes.
unfoldable pub parse : ℕ → ℕ → Bytes → Bytes → Result EchoError (Bytes × Bytes)
parse zero limit incoming received = ok (incoming, received)
parse (suc fuel) limit incoming received =
    if ltb (length incoming) header_size then ok (incoming, received) else (do
      h ← map_err in_frame (decode_header (take header_size incoming))
      let payload = slice header_size h.size incoming
      let later =
          parse fuel limit (drop (header_size + h.size) incoming) (received ++ drop 4 payload)
      let whole : Result EchoError (Bytes × Bytes) = (do
        raise_if (bad_stream h payload) unexpected_frame
        raise_if (ltb limit (length received + length (drop 4 payload))) extra_bytes
        later)
      if ltb (length incoming) (header_size + h.size) then ok (incoming, received) else whole)

-- `incoming.extend(chunk)`, and then the loop over the frames, for which the number of bytes is enough.
unfoldable pub take_chunk : Plan → Bytes → Echo → Result EchoError Echo
take_chunk p chunk s = do
  raise_if (length chunk == 0) disconnected
  let incoming = s.incoming ++ chunk
  parsed ← parse (length incoming) (length p.expected) incoming s.received
  ok (record s { incoming = parsed.0; received = parsed.1; wire_in = s.wire_in ++ chunk })

-- `read_now`
abbrev pub reads_now : Plan → ℕ → Bool
reads_now p now = not p.slow_read || leb (p.started + p.read_delay) now

unfoldable pub receive_step : Plan → Receiving → Echo → Result EchoError Echo
receive_step p not_readable s = ok s
receive_step p no_data s = ok s
receive_step p receive_error s = err receive_failed
receive_step p (gives chunk) s = take_chunk p chunk s

abbrev pub unfinished : Plan → Echo → Bool
unfinished p s = ltb s.sent (length p.wire) || ltb (length s.received) (length p.expected)

unfoldable pub exchange : Plan → List Round → Echo → Result EchoError Echo
exchange p [] s = if unfinished p s then err echo_timeout else ok s
exchange p (r ∷ rounds) s =
    let later = (do
      s1 ← send_step p r.sending s
      s2 ← if reads_now p r.now then receive_step p r.receiving s1 else ok s1
      exchange p rounds s2) in
    if unfinished p s then (if leb p.deadline r.now then err echo_timeout else later) else ok s

-- `next(i for i, (a, b) in enumerate(zip(expected, received)) if a != b)`; 0 stands for the end of the iteration.
unfoldable pub first_difference : Bytes → Bytes → ℕ
first_difference (x ∷ xs) (y ∷ ys) =
    let rest = first_difference xs ys in if x == y then suc rest else 0
first_difference _ _ = 0

unfoldable pub verdict : Plan → Echo → Result EchoError (Unit {0})
verdict p s = do
  raise_if (not (length s.incoming == 0)) trailing_frame
  raise_if (not (bytes_eq s.received p.expected))
      (mismatch (first_difference p.expected s.received))

-- The stream frames, one after another.
unfoldable pub frames_of : List Bytes → Result EchoError Bytes
frames_of [] = ok []
frames_of (piece ∷ pieces') = do
  one ← map_err in_frame (frame 3 0 (channel_tag ++ piece))
  rest ← frames_of pieces'
  ok (one ++ rest)

-- `((i * 73) ^ (i >> 8)) & 255` for `count` numbers from `i` on.
unfoldable pub ramp : ℕ → ℕ → Bytes
ramp i zero = []
ramp i (suc count) = bit_xor (i * 73) (i / 256) % 256 ∷ ramp (i + 1) count

-- The integer arguments; `seed` is none for None.
abbrev pub bad_seed_value : Option ℕ → Bool
bad_seed_value none = false
bad_seed_value (some seed) = not (ltb seed (2 ^ 32))

abbrev pub start : Echo
start = record { sent = 0; turn = 0; incoming = []; received = []; wire_out = []; wire_in = [] }

-- `randbytes seed count` are the bytes of a seeded generator, and `second` the clock's units in a second.
module _ (randbytes : ℕ → ℕ → Bytes) (second : ℕ) where
  abbrev pub expected_bytes : Option ℕ → ℕ → Bytes
  expected_bytes none count = ramp 0 count
  expected_bytes (some seed) count = randbytes seed count

  unfoldable pub echo : ℕ → Bool → Option ℕ → ℕ → ℕ → ℕ → List Round → Result EchoError Echo
  echo count slow_read seed read_delay started timeout rounds = do
    raise_if (not (leb 1 count && leb count 262144)) bad_count
    raise_if (bad_seed_value seed) bad_seed
    raise_if (ltb (10 * second) read_delay) bad_delay
    let expected = expected_bytes seed count
    wire ← frames_of (pieces 2048 expected)
    let p : Plan = record {
      expected = expected;
      wire = wire;
      started = started;
      deadline = started + timeout;
      slow_read = slow_read;
      read_delay = read_delay;
    }
    s ← exchange p rounds start
    verdict p s
    ok s
