-- ===== src/Fmgo/Tests.antt =====
-- Runs of tools/session_smoke.py on small frames and streams.
use firmingo.Common.{
  ◌++◌, ◌≤◌, ◌≡◌, ◌↔◌, refl, List, [], ◌∷◌, true, Option, some, none, ok, length, take, drop, inl,
  arith,
}
use firmingo.Common.Bytes.{Bytes, bytes_eq}
use firmingo.Fmgo.Request.{Link, request_frame, select_result}
use firmingo.Fmgo.Request.Answered.{Answers, request_frame-Answers}
use firmingo.Python.{Value, obj, bool, field, end, lookup}
use firmingo.Fmgo.Frame.{header_size, header_bytes, frame, be_field, decode_header}
use firmingo.Fmgo.Frame.RoundTrip.{decode_header-frame}
use firmingo.Fmgo.Stream.{Turn, segment, exact}
use firmingo.Fmgo.Stream.Exact.{arriving, exact_iff}

-- A response to request 7, with the payload `{}`.
abbrev wire : Bytes
wire = 0x46 ∷ 0x4D ∷ 0x47 ∷ 0x4F ∷ 1 ∷ 2 ∷ 0 ∷ 0 ∷ 0 ∷ 0 ∷ 0 ∷ 7 ∷ 0 ∷ 0 ∷ 0 ∷ 2 ∷ 0x7B ∷ 0x7D ∷ []

framed : frame 2 7 (0x7B ∷ 0x7D ∷ []) ≡ ok wire
unfolding frame header_bytes
framed = refl

decode_header-frame_example :
    (decode_header (take header_size wire) ≡ ok (record { kind = 2; request = 7; size = 2 }))
    × (drop header_size wire ≡ 0x7B ∷ 0x7D ∷ [])
decode_header-frame_example =
    decode_header-frame 2 7 (0x7B ∷ 0x7D ∷ []) (inl (refl, λ e. omega arith)) framed

decoded : decode_header (take 16 wire) ≡ ok (record { kind = 2; request = 7; size = 2 })
unfolding decode_header be_field bytes_eq
decoded = refl

abbrev two_segments : List Turn
two_segments =
    record { now = 1; arrival = segment (1 ∷ 2 ∷ []) }
    ∷ record { now = 2; arrival = segment (3 ∷ 4 ∷ []) }
    ∷ []

exact_iff_example : ((exact 5 3 two_segments).0 ≡ ok (1 ∷ 2 ∷ 3 ∷ [])) ↔ (
    (3 ≤ length (arriving 5 two_segments))
    × (1 ∷ 2 ∷ 3 ∷ [] ≡ take 3 (arriving 5 two_segments))
    × (arriving 5 (exact 5 3 two_segments).1 ≡ drop 3 (arriving 5 two_segments)))
exact_iff_example = exact_iff 5 3 two_segments (1 ∷ 2 ∷ 3 ∷ [])

-- A decoder that reads every body as a successful answer.
abbrev loads : Bytes → Option Value
loads body = some (obj (field "ok" (bool true) (field "result" (obj end) end)))

abbrev link : Link
link = record {
  next_request = 7;
  turns =
      record { now = 1; arrival = segment (take 5 wire) }
      ∷ record { now = 2; arrival = segment (drop 5 wire ++ (9 ∷ [])) }
      ∷ [];
  accepts = true;
  wire = [];
}

abbrev hello : Bytes
hello = 0x46 ∷ 0x4D ∷ 0x47 ∷ 0x4F ∷ 1 ∷ 1 ∷ 0 ∷ 0 ∷ 0 ∷ 0 ∷ 0 ∷ 7 ∷ 0 ∷ 0 ∷ 0 ∷ 1 ∷ 0x21 ∷ []

framed_hello : frame 1 7 (0x21 ∷ []) ≡ ok hello
unfolding frame header_bytes
framed_hello = refl

arrived : arriving 5 link.turns ≡ wire ++ (9 ∷ [])
unfolding arriving
arrived = refl

result_selected :
    select_result none (field "ok" (bool true) (field "result" (obj end) end)) ≡ ok end
unfolding select_result lookup
result_selected = refl

request_frame-Answers_example :
    Answers 5 link hello (9 ∷ []) end (request_frame loads 5 1 (0x21 ∷ []) none link)
request_frame-Answers_example =
    request_frame-Answers loads 5 1 (0x21 ∷ []) (0x7B ∷ 0x7D ∷ []) (9 ∷ []) none link refl
      (λ e. omega arith) framed_hello framed arrived refl result_selected
