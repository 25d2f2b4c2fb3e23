-- ===== src/Fmgo/Burst/Tests.antt =====
-- A burst of two requests (tools/ncm_burst.py).
use firmingo.Common.{◌≡◌, refl, true, false, Option, some, [], ◌∷◌, ◌++◌, ok, take, drop}
use firmingo.Common.Bytes.{Bytes, ascii, bytes_eq}
use firmingo.Common.Run.{◌>>=◌}
use firmingo.Python.{Value, obj, bool, str, field, end, lookup}
use firmingo.Fmgo.Frame.{header_bytes, frame, be_field, decode_header}
use firmingo.Fmgo.Stream.{segment, exact, exact_loop}
use firmingo.Fmgo.Request.{Link, take_number, send_all, read_exact}
use firmingo.Fmgo.Burst.{
  BurstReport, diagnostics_payload, frames_loop, invalid_diagnostics_frames, code_of, read_refusal,
  read_refusals, send_invalid_burst,
}
use firmingo.Fmgo.Burst.Refused.{IsRefused, send_invalid_burst-IsRefused}

-- A decoder that reads every body as the expected refusal.
abbrev loads : Bytes → Option Value
loads body = some (
    obj (
      field "ok" (bool false)
        (field "error" (obj (field "code" (str "invalid_argument") end)) end)))

abbrev answers : Bytes
answers =
    (0x46 ∷ 0x4D ∷ 0x47 ∷ 0x4F ∷ 1 ∷ 2 ∷ 0 ∷ 0 ∷ 0 ∷ 0 ∷ 0 ∷ 7 ∷ 0 ∷ 0 ∷ 0 ∷ 2 ∷ 0x7B ∷ 0x7D ∷ [])
    ++ (0x46 ∷ 0x4D ∷ 0x47 ∷ 0x4F ∷ 1 ∷ 2 ∷ 0 ∷ 0 ∷ 0 ∷ 0 ∷ 0 ∷ 8 ∷ 0 ∷ 0 ∷ 0 ∷ 1 ∷ 0x31 ∷ [])

-- The responses arrive in two segments, the first of which ends within the second response.
abbrev link : Link
link = record {
  next_request = 7;
  turns =
      record { now = 1; arrival = segment (take 20 answers) }
      ∷ record { now = 2; arrival = segment (drop 20 answers) }
      ∷ [];
  accepts = true;
  wire = [];
}

abbrev report : BurstReport
report = record { wire_bytes = 122; requests = 2; responses = 2 }

blanks : diagnostics_payload 45 ≡ ascii "{\"op\":\"device.diagnostics\",\"channel_id\":1   }"
unfolding diagnostics_payload
blanks = refl

refused : (send_invalid_burst loads 5 2 45 link).0 ≡ ok report
unfolding send_invalid_burst invalid_diagnostics_frames frames_loop diagnostics_payload take_number
    frame header_bytes send_all read_refusals read_refusal read_exact exact exact_loop decode_header
    be_field bytes_eq code_of lookup ◌>>=◌
refused = refl

send_invalid_burst-IsRefused_example :
    IsRefused loads 5 2 45 link report (send_invalid_burst loads 5 2 45 link).1
send_invalid_burst-IsRefused_example = send_invalid_burst-IsRefused loads 5 2 45 link refused
