-- ===== src/Fmgo/Burst.antt =====
-- The burst of tools/ncm_burst.py: requests that the device must refuse, sent in one piece, and the responses to them. `loads` is
-- `json.loads`. The barrier that starts the owner's echo at the same time is left out: the echo has its own connection.
pub mod Refusals
pub mod Refused
pub mod Check
mod Tests
use firmingo.Common.{
  ℕ, zero, suc, ◌-◌, Bool, true, false, ◌&&◌, Option, none, some, List, [], ◌∷◌, ◌++◌, Result, ok,
  err, check, map_err, length, replicate, ◌==◌, if◌then◌else◌,
}
use firmingo.Common.Bytes.{Bytes, ascii}
use firmingo.Common.Run.{pure, lift, ◌>>=◌, ◌>>◌}
use firmingo.Python.{Value, Fields, lookup, as_dict, equals_str}
use firmingo.Fmgo.Frame.{Header, header_size, frame, decode_header}
use firmingo.Fmgo.Request.{
  RequestError, in_frame, not_json, not_object, unexpected_response, Talk, take_number, send_all,
  read_exact, is_ok,
}

abbrev pub prefix : Bytes
prefix = ascii "{\"op\":\"device.diagnostics\",\"channel_id\":1"

abbrev pub suffix : Bytes
suffix = ascii "}"

-- A product of a byte string and a negative number is empty.
unfoldable pub diagnostics_payload : ℕ → Bytes
diagnostics_payload payload_bytes =
    prefix ++ (replicate (payload_bytes - length prefix - length suffix) 0x20 ++ suffix)

unfoldable pub frames_loop : Bytes → ℕ → Talk (Bytes × List ℕ)
frames_loop payload zero = pure ([], [])
frames_loop payload (suc count) = do
  request ← take_number
  data' ← lift (map_err in_frame (frame 1 request payload))
  rest ← frames_loop payload count
  pure (data' ++ rest.0, request ∷ rest.1)

unfoldable pub invalid_diagnostics_frames : ℕ → ℕ → Talk (Bytes × List ℕ)
invalid_diagnostics_frames count payload_bytes =
    frames_loop (diagnostics_payload payload_bytes) count

-- `not_object` is the `AttributeError` of a value that is no dictionary.
abbrev pub dict_of : Option Fields → Result RequestError Fields
dict_of none = err not_object
dict_of (some d) = ok d

-- `payload.get("error", {}).get("code")` of a dictionary, and `None` of another value.
unfoldable pub code_of : Option Fields → Result RequestError (Option Value)
code_of none = ok none
code_of (some d) = elim (lookup "error" d) [
  | none ↦ ok none
  | some failure ↦ elim (as_dict failure) [
    | none ↦ err not_object
    | some fields ↦ ok (lookup "code" fields)
  ]
]

abbrev pub value_of_json : Option Value → Result RequestError Value
value_of_json none = err not_json
value_of_json (some v) = ok v

-- What the reports count; the duration is left out.
pub record BurstReport : Type 0 where
  pub wire_bytes : ℕ
  pub requests : ℕ
  pub responses : ℕ

module _ (loads : Bytes → Option Value) (deadline : ℕ) where
  unfoldable pub read_refusal : ℕ → Talk (Unit {0})
  read_refusal expected_id = do
    head ← read_exact deadline header_size
    header ← lift (map_err in_frame (decode_header head))
    body ← read_exact deadline header.size
    payload ← lift (value_of_json (loads body))
    code ← lift (code_of (as_dict payload))
    lift (check (header.kind == 2 && header.request == expected_id) unexpected_response)
    d ← lift (dict_of (as_dict payload))
    lift (
        check (is_ok false (lookup "ok" d) && equals_str code "invalid_argument")
          unexpected_response)

  -- The numbers in `responses`.
  unfoldable pub read_refusals : List ℕ → Talk (List ℕ)
  read_refusals [] = pure []
  read_refusals (expected_id ∷ request_ids) = do
    read_refusal expected_id
    responses ← read_refusals request_ids
    pure (expected_id ∷ responses)

  -- `deadline` is the clock behind the barrier plus the timeout.
  unfoldable pub send_invalid_burst : ℕ → ℕ → Talk BurstReport
  send_invalid_burst count payload_bytes = do
    made ← invalid_diagnostics_frames count payload_bytes
    send_all made.0
    responses ← read_refusals made.1
    pure (record {
      wire_bytes = length made.0;
      requests = length made.1;
      responses = length responses;
    })
