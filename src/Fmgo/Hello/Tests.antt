-- ===== src/Fmgo/Hello/Tests.antt =====
-- A device whose hello is accepted, selected in mixed case.
use firmingo.Common.{◌≡◌, refl, true, Option, some, [], ◌∷◌, ok}
use firmingo.Common.Bytes.{Bytes, bytes_eq, ascii}
use firmingo.Common.Run.{◌>>=◌}
use firmingo.Python.{Value, Fields, no_items, item, obj, arr, str, int, bool, field, end, lookup}
use firmingo.Fmgo.Frame.{frame, header_bytes, be_field, decode_header}
use firmingo.Fmgo.Stream.{segment, exact, exact_loop}
use firmingo.Fmgo.Request.{Link, take_number, send_all, read_exact, select_result, request_frame}
use firmingo.Fmgo.Hello.{Expected, all_of, lower, open_session}
use firmingo.Fmgo.Hello.Identity.{IsIdentified, open_session-IsIdentified}

abbrev expected : Expected
expected = record {
  device_id = ascii "00112233AABBccdd";
  board = "nano_rp2040_connect";
  firmware_version = "1.0";
  backend = "application";
  same_targets = λ v. true;
}

abbrev hello : Fields
hello = field "device_id" (str "00112233aabbccdd") (
    field "board_id" (str "nano_rp2040_connect") (
      field "firmware_version" (str "1.0") (
        field "protocol_major" (int 1) (
          field "boot_id" (str "0123456789abcdef") (
            field "max_payload" (int 4096) (
              field "auth_mode" (str "open-development") (
                field "channels"
                  (arr (
                    item
                      (obj (
                        field "id" (int 1) (
                          field "backend" (str "application")
                            (field "controls" (arr no_items) end))))
                      no_items))
                  end)))))))

-- A decoder that reads every body as this hello.
abbrev loads : Bytes → Option Value
loads body = some (obj (field "ok" (bool true) (field "result" (obj hello) end)))

-- A response to request 1, with the payload `{}`.
abbrev link : Link
link = record {
  next_request = 1;
  turns =
      record {
        now = 1;
        arrival = segment (
            0x46 ∷ 0x4D ∷ 0x47 ∷ 0x4F ∷ 1 ∷ 2 ∷ 0 ∷ 0 ∷ 0 ∷ 0 ∷ 0 ∷ 1 ∷ 0 ∷ 0 ∷ 0 ∷ 2 ∷ 0x7B ∷ 0x7D
            ∷ []);
      }
      ∷ [];
  accepts = true;
  wire = [];
}

abbrev after : Link
after = record {
  next_request = 2;
  turns = [];
  accepts = true;
  wire = 0x46 ∷ 0x4D ∷ 0x47 ∷ 0x4F ∷ 1 ∷ 1 ∷ 0 ∷ 0 ∷ 0 ∷ 0 ∷ 0 ∷ 1 ∷ 0 ∷ 0 ∷ 0 ∷ 1 ∷ 0x21 ∷ [];
}

opened : open_session loads expected (some link) 5 (0x21 ∷ []) ≡ ok (hello, after)
unfolding open_session request_frame take_number send_all read_exact exact exact_loop select_result
    frame header_bytes decode_header be_field bytes_eq all_of lower lookup ◌>>=◌
opened = refl

open_session-IsIdentified_example : IsIdentified expected hello
open_session-IsIdentified_example =
    open_session-IsIdentified loads expected (some link) 5 (0x21 ∷ []) opened
