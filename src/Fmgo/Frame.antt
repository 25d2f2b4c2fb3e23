-- ===== src/Fmgo/Frame.antt =====
-- `frame` and `decode_header` of tools/session_smoke.py, over `struct.Struct('!4sBBHII')`.
pub mod RoundTrip
use firmingo.Common.{
  ℕ, ◌+◌, Bool, true, false, not, ◌&&◌, ◌||◌, List, [], ◌∷◌, ◌++◌, Result, ok, err, ◌>>=◌, ◌>>◌,
  raise_if, length, ltb, leb, ◌^◌, ◌==◌,
}
use firmingo.Common.Bytes.{Bytes, slice, unpack_be, pack_be, bytes_eq}

abbrev pub max_payload : ℕ
max_payload = 4096

abbrev pub header_size : ℕ
header_size = 16

-- `b"FMGO"`
abbrev pub fmgo : Bytes
fmgo = 0x46 ∷ 0x4D ∷ 0x47 ∷ 0x4F ∷ []

pub data FrameError : Type 0 where
  payload_too_long cannot_pack invalid_header : FrameError

unfoldable pub header_bytes : ℕ → ℕ → ℕ → Bytes
header_bytes kind request size =
    fmgo ++ (1 ∷ kind ∷ (pack_be 2 0 ++ (pack_be 4 request ++ pack_be 4 size)))

-- `cannot_pack` is the `struct.error` of a field that its format does not hold.
unfoldable pub frame : ℕ → ℕ → Bytes → Result FrameError Bytes
unfolding header_bytes
frame kind request payload = do
  raise_if (ltb max_payload (length payload)) payload_too_long
  raise_if (leb 256 kind || leb (2 ^ 32) request) cannot_pack
  ok (header_bytes kind request (length payload) ++ payload)

-- A decoded header: `(kind, request, size)`.
pub record Header : Type 0 where
  pub kind : ℕ
  pub request : ℕ
  pub size : ℕ

-- `b != c` for two Booleans
abbrev pub differ : Bool → Bool → Bool
differ true b = not b
differ false b = b

unfoldable pub be_field : ℕ → ℕ → Bytes → ℕ
be_field o n header = unpack_be (slice o n header)

unfoldable pub decode_header : Bytes → Result FrameError Header
decode_header header = do
  let version = be_field 4 1 header
  let kind = be_field 5 1 header
  let flags = be_field 6 2 header
  let request = be_field 8 4 header
  let size = be_field 12 4 header
  raise_if
      (not (bytes_eq (slice 0 4 header) fmgo)
        || (not (version == 1)
            || (not (flags == 0)
                || (ltb max_payload size
                    || (not (kind == 2 || kind == 3) || differ (kind == 2) (not (request == 0)))))))
      invalid_header
  ok (record { kind = kind; request = request; size = size })
