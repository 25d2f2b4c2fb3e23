-- ===== src/Fmgo/Hello.antt =====
-- `Probe.__init__` and `Probe.finish` of tools/session_smoke.py: the identity that a session starts with, and its
-- orderly end. The test of the address is another module's.
pub mod Identity
mod Tests
use firmingo.Common.{
  ℕ, ◌+◌, ◌^◌, Bool, true, false, not, ◌&&◌, ◌||◌, Option, none, some, List, [], ◌∷◌, Result, ok,
  err, ◌>>=◌, ◌>>◌, check, length, map, leb, ltb, ◌==◌, if◌then◌else◌,
}
use firmingo.Common.Bytes.{Bytes, bytes_eq, ascii}
use firmingo.Common.Run.{Run, lift, pure, ◌>>=◌ as bind, ◌>>◌ as then_do}
use firmingo.Python.{
  Value, int, str, arr, obj, Items, no_items, item, Fields, lookup, as_dict, as_int, equals_int,
  equals_str,
}
use firmingo.Fmgo.Frame.{max_payload}
use firmingo.Fmgo.Request.{RequestError, Link, Talk, request_frame}
use firmingo.Uart.Channel.{equals_texts}
use Prim.Native.String.{String}

-- `[0-9a-f]` and `[A-F]`
abbrev pub is_lower_hex : ℕ → Bool
is_lower_hex x = (leb 48 x && leb x 57) || (leb 97 x && leb x 102)

abbrev pub is_upper_hex : ℕ → Bool
is_upper_hex x = leb 65 x && leb x 70

unfoldable pub all_of : (ℕ → Bool) → List ℕ → Bool
all_of test [] = true
all_of test (x ∷ xs) = test x && all_of test xs

-- `re.fullmatch('[0-9a-fA-F]{16}', device_id)`
abbrev pub is_device_id : List ℕ → Bool
is_device_id id = length id == 16 && all_of (λ x. is_lower_hex x || is_upper_hex x) id

-- `device_id.lower()` of such a text.
unfoldable pub lower : List ℕ → List ℕ
lower [] = []
lower (x ∷ xs) = (if is_upper_hex x then x + 32 else x) ∷ lower xs

abbrev pub is_boot_text : List ℕ → Bool
is_boot_text text = length text == 16 && all_of is_lower_hex text

-- `re.fullmatch('[0-9a-f]{16}', str(value))`: the text of an integer of sixteen digits matches too; that of any
-- other value that is no text has another character or another length.
abbrev pub is_boot_id : Option Value → Bool
is_boot_id (some (str s)) = is_boot_text (ascii s)
is_boot_id (some (int n)) = leb (10 ^ 15) n && ltb n (10 ^ 16)
is_boot_id _ = false

abbrev pub equals_codes : Option Value → List ℕ → Bool
equals_codes (some (str s)) codes = bytes_eq (ascii s) codes
equals_codes _ codes = false

-- `channels` is a list of one dictionary.
abbrev pub one_channel : Option Value → Option Fields
one_channel (some (arr (item (obj channel) no_items))) = some channel
one_channel _ = none

abbrev pub good_channel : String → Option Fields → Bool
good_channel backend none = false
good_channel backend (some channel) =
    equals_int (lookup "id" channel) 1
    && (equals_str (lookup "backend" channel) backend
        && equals_texts (lookup "controls" channel) [])

abbrev pub is_max_payload : Option ℕ → Bool
is_max_payload none = false
is_max_payload (some n) = n == max_payload

-- What the caller expects; `same_targets` compares a value with the expected list of targets.
pub record Expected : Type 0 where
  pub device_id : List ℕ
  pub board : String
  pub firmware_version : String
  pub backend : String
  pub same_targets : Option Value → Bool

abbrev pub good_hello : Expected → Fields → Bool
good_hello e value =
    (equals_codes (lookup "device_id" value) (lower e.device_id)
      && (equals_str (lookup "board_id" value) e.board
          && (equals_str (lookup "firmware_version" value) e.firmware_version
              && equals_int (lookup "protocol_major" value) 1)))
    && ((is_boot_id (lookup "boot_id" value)
          && is_max_payload (as_int (lookup "max_payload" value)))
        && (equals_str (lookup "auth_mode" value) "open-development"
            && (e.same_targets (lookup "targets" value)
                && good_channel e.backend (one_channel (lookup "channels" value)))))

-- `not_connected` is the error of `create_connection`.
pub data HelloError : Type 0 where
  bad_device_id not_connected identity_mismatch : HelloError
  in_request : RequestError → HelloError

-- The hello of an accepted device, and the link after it; a refused device leaves no link. `payload` is the document of the
-- command `hello`.
unfoldable pub open_session :
    (Bytes → Option Value) → Expected → Option Link → ℕ → Bytes → Result HelloError (Fields × Link)
open_session loads e connection deadline payload = do
  check (is_device_id e.device_id) bad_device_id
  link ← elim connection [ none ↦ err not_connected | some link ↦ ok link ]
  let (answer, after) = request_frame loads deadline 1 payload none link
  value ← elim answer [ err raised ↦ err (in_request raised) | ok value ↦ ok value ]
  check (good_hello e value) identity_mismatch
  ok (value, after)

-- What the last `recv(1)` meets; `closes` and `resets` are the two ways in which the peer ends the connection.
pub data Ending : Type 0 where
  closes resets silent trailing shutdown_fails recv_fails : Ending

pub data FinishError : Type 0 where
  os_error not_observed trailing_data : FinishError

-- Whether `finish` returns; the socket is closed in each case.
unfoldable pub finish : Bool → Ending → Result FinishError (Unit {0}) × Bool
finish false ending = (ok tt, false)
finish true closes = (ok tt, false)
finish true resets = (ok tt, false)
finish true silent = (err not_observed, false)
finish true trailing = (err trailing_data, false)
finish true shutdown_fails = (err os_error, false)
finish true recv_fails = (err os_error, false)
