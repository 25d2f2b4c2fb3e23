-- ===== src/Fmgo/Request.antt =====
-- `Probe.request_frame` and `Probe.upload_chunk` of tools/session_smoke.py: a request, and the response
-- that must carry its number. `loads` is `json.loads`, which fails on bytes that are no JSON document.
pub mod Answered
use firmingo.Common.{
  ℕ, ◌+◌, ◌^◌, Bool, true, false, not, ◌&&◌, ◌||◌, Option, none, some, List, [], ◌∷◌, ◌++◌, Result,
  ok, err, check, raise_if, map_err, leb, ltb, ◌==◌, if◌then◌else◌, length,
}
use firmingo.Common.Bytes.{Bytes, pack_be}
use firmingo.Common.Run.{Run, pure, lift, ◌>>=◌, ◌>>◌}
use firmingo.Python.{Value, Fields, bool, lookup, as_dict, equals_str}
use firmingo.Fmgo.Frame.{FrameError, Header, header_size, frame, decode_header}
use firmingo.Fmgo.Stream.{ReadError, Turn, exact}
use Prim.Native.String.{String}

-- `out_of_range` is the `ValueError` of `upload_chunk`.
pub data RequestError : Type 0 where
  in_frame : FrameError → RequestError
  in_read : ReadError → RequestError
  send_failed wrong_response not_json not_object unexpected_response command_failed out_of_range :
      RequestError

-- `next_request`, what the socket will deliver, whether it takes what is sent, and what it took.
pub record Link : Type 0 where
  pub next_request : ℕ
  pub turns : List Turn
  pub accepts : Bool
  pub wire : Bytes

abbrev pub Talk : Type 0 → Type 0
Talk = Run Link RequestError

unfoldable pub take_number : Talk ℕ
take_number link = (ok link.next_request, record link { next_request = link.next_request + 1 })

-- `sock.sendall`
unfoldable pub send_all : Bytes → Talk (Unit {0})
send_all data' link =
    if link.accepts
    then (ok tt, record link { wire = link.wire ++ data' })
    else (err send_failed, link)

-- `_exact`
unfoldable pub read_exact : ℕ → ℕ → Talk Bytes
read_exact deadline count link =
    let result = exact deadline count link.turns in
    (map_err in_read result.0, record link { turns = result.1 })

-- `response.get('ok') is b`
abbrev pub is_ok : Bool → Option Value → Bool
is_ok true (some (bool b)) = b
is_ok false (some (bool b)) = not b
is_ok _ _ = false

abbrev pub as_object : Option Value → Option Fields
as_object none = none
as_object (some v) = as_dict v

-- With an expected error code, the error of a failed response; otherwise the result of a successful one.
unfoldable pub select_result : Option String → Fields → Result RequestError Fields
select_result none response = elim (as_object (lookup "result" response)) [
  | none ↦ err command_failed
  | some result ↦ if is_ok true (lookup "ok" response) then ok result else err command_failed
]
select_result (some code) response = elim (as_object (lookup "error" response)) [
  | none ↦ err unexpected_response
  | some failure ↦
      if is_ok false (lookup "ok" response) && equals_str (lookup "code" failure) code
      then ok failure
      else err unexpected_response
]

abbrev pub response_dict : Option Value → Result RequestError Fields
response_dict none = err not_json
response_dict (some v) = elim (as_dict v) [ none ↦ err not_object | some d ↦ ok d ]

module _ (loads : Bytes → Option Value) where
  -- `deadline` is the clock at the call plus the timeout.
  unfoldable pub request_frame : ℕ → ℕ → Bytes → Option String → Talk Fields
  request_frame deadline kind payload expected_error = do
    request ← take_number
    data' ← lift (map_err in_frame (frame kind request payload))
    send_all data'
    head ← read_exact deadline header_size
    header ← lift (map_err in_frame (decode_header head))
    lift (check (header.kind == 2 && header.request == request) wrong_response)
    body ← read_exact deadline header.size
    response ← lift (response_dict (loads body))
    lift (select_result expected_error response)

  -- The number of the upload and the offset, and then the bytes of the chunk.
  unfoldable pub upload_chunk : ℕ → ℕ → ℕ → Bytes → Talk Fields
  upload_chunk deadline upload_id offset data' = do
    lift (
        raise_if
          (not (leb 1 upload_id && ltb upload_id (2 ^ 32))
            || (not (ltb offset (2 ^ 32)) || length data' == 0))
          out_of_range)
    request_frame deadline 4 (pack_be 4 upload_id ++ (pack_be 4 offset ++ data')) none
