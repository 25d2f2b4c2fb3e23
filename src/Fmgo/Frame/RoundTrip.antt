-- ===== src/Fmgo/Frame/RoundTrip.antt =====
-- What `frame` builds is what `decode_header` reads.
use firmingo.Common.{
  ℕ, ◌^◌, ◌≤◌, ◌<◌, ◌≡◌, ◌≢◌, ◌⊎◌, refl, ap, ◌∙◌, ◌++◌, ok, length, take, drop, arith,
  take-append_eq, drop-append_eq,
}
use firmingo.Common.Bytes.{Bytes, slice, unpack_be-pack_be, bytes_eq_iff}
use firmingo.Fmgo.Frame.{
  max_payload, header_size, fmgo, Header, header_bytes, frame, be_field, decode_header,
}

-- A response carries the number of its request, stream data carries none.
abbrev pub IsDeviceKind : ℕ → ℕ → Type 0
IsDeviceKind kind request = ((kind ≡ 2) × (request ≢ 0)) ⊎ ((kind ≡ 3) × (request ≡ 0))

module _ (kind request size : ℕ) where
  header_fields :
      kind < 256
      → request < 2 ^ 32
      → size < 2 ^ 32
      → (be_field 4 1 (header_bytes kind request size) ≡ 1)
        × (be_field 5 1 (header_bytes kind request size) ≡ kind)
        × (be_field 6 2 (header_bytes kind request size) ≡ 0)
        × (be_field 8 4 (header_bytes kind request size) ≡ request)
        × (be_field 12 4 (header_bytes kind request size) ≡ size)
        × (slice 0 4 (header_bytes kind request size) ≡ fmgo)
  unfolding be_field header_bytes
  header_fields hk hr hs = (
    refl,
    omega arith,
    refl,
    unpack_be-pack_be 4 request (omega arith),
    unpack_be-pack_be 4 size (omega arith),
    refl,
  )

  pub decode_header-header_bytes :
      IsDeviceKind kind request
      → request < 2 ^ 32
      → size ≤ max_payload
      → decode_header (header_bytes kind request size)
        ≡ ok (record { kind = kind; request = request; size = size })
  unfolding decode_header
  decode_header-header_bytes k hr hs =
      let (version, kind_is, flags, request_is, size_is, magic) =
        header_fields (ground arith) hr (omega arith) in
      rw
        (
          version,
          kind_is,
          flags,
          request_is,
          size_is,
          (bytes_eq_iff (slice 0 4 (header_bytes kind request size)) fmgo).1 magic,
        )
        (ground arith)

  pub length-header_bytes : length (header_bytes kind request size) ≡ header_size
  unfolding header_bytes
  length-header_bytes = refl

pub frame-eq :
    (kind request : ℕ) (payload : Bytes) {wire : Bytes}
    → frame kind request payload ≡ ok wire
    → (wire ≡ header_bytes kind request (length payload) ++ payload)
      × (length payload ≤ max_payload)
      × (request < 2 ^ 32)
unfolding frame
frame-eq kind request payload h = ground arith

-- A framed response with a number other than 0, or framed stream data with number 0, is read back:
-- its first 16 bytes decode to the kind, the number and the payload's length, and the rest is the payload.
pub decode_header-frame :
    (kind request : ℕ) (payload : Bytes) {wire : Bytes}
    → IsDeviceKind kind request
    → frame kind request payload ≡ ok wire
    → (decode_header (take header_size wire)
        ≡ ok (record { kind = kind; request = request; size = length payload }))
      × (drop header_size wire ≡ payload)
decode_header-frame kind request payload k made =
    let (same, small, hr) = frame-eq kind request payload made in
    let head = header_bytes kind request (length payload) in
    let full = length-header_bytes kind request (length payload) in
    rw same (
      ap decode_header (take-append_eq header_size head payload full)
          ∙ decode_header-header_bytes kind request (length payload) k hr small,
      drop-append_eq header_size head payload full,
    )

-- An accepted header is a device's: it has the magic and version 1, no flags, a payload of at most 4096
-- bytes, and kind 2 with a number other than 0 or kind 3 with number 0.
pub decode_header_sound :
    (header : Bytes) {h : Header}
    → decode_header header ≡ ok h
    → (slice 0 4 header ≡ fmgo)
      × (be_field 4 1 header ≡ 1)
      × (be_field 6 2 header ≡ 0)
      × (h.size ≡ be_field 12 4 header)
      × (h.size ≤ max_payload)
      × IsDeviceKind h.kind h.request
unfolding decode_header
decode_header_sound header {h} e = ground (arith, (bytes_eq_iff (slice 0 4 header) fmgo).0)
