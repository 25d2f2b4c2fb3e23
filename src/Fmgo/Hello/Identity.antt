-- ===== src/Fmgo/Hello/Identity.antt =====
-- The identity of a device whose hello is accepted.
use firmingo.Common.{
  ℕ, ◌+◌, ◌≡◌, refl, ap, ap₂, subst, ◌∙◌, Bool, true, false, ◌&&◌, ◌||◌, Option, none, some, List,
  [], ◌∷◌, ok, err, ok-inj, >>=-eq-ok, check, length, ◌==◌, if◌then◌else◌, arith,
}
use firmingo.Common.Bytes.{Bytes, bytes_eq_iff, ascii}
use firmingo.Python.{
  Value, null, bool, int, neg, real, str, arr, obj, no_items, item, Fields, lookup, as_int,
  equals_int, equals_str,
}
use firmingo.Fmgo.Frame.{max_payload}
use firmingo.Fmgo.Request.{Link, request_frame}
use firmingo.Fmgo.Hello.{
  is_lower_hex, is_upper_hex, all_of, is_device_id, lower, is_boot_id, equals_codes, one_channel,
  good_channel, is_max_payload, Expected, good_hello, HelloError, bad_device_id, not_connected,
  identity_mismatch, in_request, open_session,
}
use Prim.Native.String.{String}

-- The text of the identifier, and what the documents fix of a session.
pub record IsIdentified (e : Expected) (value : Fields) : Type 0 where
  pub identifier : String
  pub device : lookup "device_id" value ≡ some (str identifier)
  pub selected : ascii identifier ≡ lower e.device_id
  pub sixteen : length (ascii identifier) ≡ 16
  pub lower_hex : all_of is_lower_hex (ascii identifier) ≡ true
  pub payload : as_int (lookup "max_payload" value) ≡ some max_payload
  pub boot : is_boot_id (lookup "boot_id" value) ≡ true
  pub channel : Fields
  pub channels : lookup "channels" value ≡ some (arr (item (obj channel) no_items))
  pub backend :
      (equals_str (lookup "backend" channel) e.backend ≡ true)
      × (equals_int (lookup "id" channel) 1 ≡ true)

both : (a b : Bool) → a && b ≡ true → (a ≡ true) × (b ≡ true)
both true b h = (refl, h)
both false b h = cc

length-lower : (xs : List ℕ) → length (lower xs) ≡ length xs
unfolding lower
length-lower [] = refl
length-lower (x ∷ xs) = omega (arith, length-lower xs)

lower_one :
    (x : ℕ)
    → is_lower_hex x || is_upper_hex x ≡ true
    → is_lower_hex (if is_upper_hex x then x + 32 else x) ≡ true
lower_one x h = ground (arith, h)

all_of-lower :
    (xs : List ℕ)
    → all_of (λ x. is_lower_hex x || is_upper_hex x) xs ≡ true
    → all_of is_lower_hex (lower xs) ≡ true
unfolding all_of lower
all_of-lower [] h = refl
all_of-lower (x ∷ xs) h =
    let (first, rest) =
      both (is_lower_hex x || is_upper_hex x) (all_of (λ x. is_lower_hex x || is_upper_hex x) xs)
        h in
    ap₂ (λ a b. a && b) (lower_one x first) (all_of-lower xs rest)

equals_codes-str :
    (value : Option Value) (codes : List ℕ)
    → equals_codes value codes ≡ true
    → (s : String) × ((value ≡ some (str s)) × (ascii s ≡ codes))
equals_codes-str none codes h = cc
equals_codes-str (some null) codes h = cc
equals_codes-str (some (bool b)) codes h = cc
equals_codes-str (some (int n)) codes h = cc
equals_codes-str (some (neg n)) codes h = cc
equals_codes-str (some (real n)) codes h = cc
equals_codes-str (some (str s)) codes h = (s, (refl, (bytes_eq_iff (ascii s) codes).0 h))
equals_codes-str (some (obj d)) codes h = cc
equals_codes-str (some (arr items)) codes h = cc

is_max_payload-some : (n : Option ℕ) → is_max_payload n ≡ true → n ≡ some max_payload
is_max_payload-some none h = cc
is_max_payload-some (some n) h = let e : n ≡ max_payload = ground (arith, h) in ap some e

value_of : Fields → Option Fields → Fields
value_of d none = d
value_of d (some found) = found

one_channel-some :
    (value : Option Value) {channel : Fields}
    → one_channel value ≡ some channel
    → value ≡ some (arr (item (obj channel) no_items))
unfolding value_of
one_channel-some none h = cc
one_channel-some (some null) h = cc
one_channel-some (some (bool b)) h = cc
one_channel-some (some (int n)) h = cc
one_channel-some (some (neg n)) h = cc
one_channel-some (some (real n)) h = cc
one_channel-some (some (str s)) h = cc
one_channel-some (some (obj d)) h = cc
one_channel-some (some (arr no_items)) h = cc
one_channel-some (some (arr (item null items))) h = cc
one_channel-some (some (arr (item (bool b) items))) h = cc
one_channel-some (some (arr (item (int n) items))) h = cc
one_channel-some (some (arr (item (neg n) items))) h = cc
one_channel-some (some (arr (item (real n) items))) h = cc
one_channel-some (some (arr (item (str s) items))) h = cc
one_channel-some (some (arr (item (arr more) items))) h = cc
one_channel-some (some (arr (item (obj d) (item v items)))) h = cc
one_channel-some (some (arr (item (obj d) no_items))) h =
    ap (λ (found : Option Fields). some (arr (item (obj (value_of d found)) no_items))) h

good_channel-some :
    (backend : String) (found : Option Fields)
    → good_channel backend found ≡ true
    → (channel : Fields) × ((found ≡ some channel)
        × ((equals_str (lookup "backend" channel) backend ≡ true)
            × (equals_int (lookup "id" channel) 1 ≡ true)))
good_channel-some backend none h = cc
good_channel-some backend (some channel) h =
    let (id, rest) = both (equals_int (lookup "id" channel) 1) _ h in
    let (name, _) = both (equals_str (lookup "backend" channel) backend) _ rest in
    (channel, (refl, (name, id)))

check-true : (b : Bool) (e : HelloError) → check b e ≡ ok tt → b ≡ true
check-true true e h = refl
check-true false e h = cc

good_hello-IsIdentified :
    (e : Expected) (value : Fields)
    → is_device_id e.device_id ≡ true
    → good_hello e value ≡ true
    → IsIdentified e value
good_hello-IsIdentified e value id h =
    let channel_test = good_channel e.backend (one_channel (lookup "channels" value)) in
    let device_test = equals_codes (lookup "device_id" value) (lower e.device_id) in
    let payload_test = is_max_payload (as_int (lookup "max_payload" value)) in
    let boot_test = is_boot_id (lookup "boot_id" value) in
    let (one, two) =
      both _
        ((boot_test && payload_test)
          && (equals_str (lookup "auth_mode" value) "open-development"
              && (e.same_targets (lookup "targets" value) && channel_test)))
        h in
    let (device, _) = both device_test _ one in
    let (limits, three) = both (boot_test && payload_test) _ two in
    let (boot, payload) = both boot_test payload_test limits in
    let (_, four) = both (equals_str (lookup "auth_mode" value) "open-development") _ three in
    let (_, channel_good) = both (e.same_targets (lookup "targets" value)) channel_test four in
    let (s, (found, selected)) =
      equals_codes-str (lookup "device_id" value) (lower e.device_id) device in
    let (channel, (at, backend)) =
      good_channel-some e.backend (one_channel (lookup "channels" value)) channel_good in
    let (sixteen, hex) =
      both (length e.device_id == 16) (all_of (λ x. is_lower_hex x || is_upper_hex x) e.device_id)
        id in
    record {
      identifier = s;
      device = found;
      selected = selected;
      sixteen = ap length selected ∙ length-lower e.device_id ∙ ground (arith, sixteen);
      lower_hex = ap (all_of is_lower_hex) selected ∙ all_of-lower e.device_id hex;
      payload = is_max_payload-some (as_int (lookup "max_payload" value)) payload;
      boot = boot;
      channel = channel;
      channels = one_channel-some (lookup "channels" value) at;
      backend = backend;
    }

-- A session opens only with the device that was selected: its identifier is a text of sixteen lower-case hexadecimal digits, the
-- selected one in lower case, whatever the case of the selection; the largest payload is 4096; and it has one channel, number 1 of the
-- selected backend.
pub open_session-IsIdentified :
    (loads : Bytes → Option Value) (e : Expected) (connection : Option Link) (deadline : ℕ)
    (payload : Bytes) {value : Fields} {after : Link}
    → open_session loads e connection deadline payload ≡ ok (value, after)
    → IsIdentified e value
unfolding open_session
open_session-IsIdentified loads e connection deadline payload {value} {after} h =
    let (_, id, h1) = >>=-eq-ok (check (is_device_id e.device_id) bad_device_id) _ h in
    let (link, _, h2) =
      >>=-eq-ok (elim connection [ none ↦ err not_connected | some link ↦ ok link ]) _ h1 in
    let answer = request_frame loads deadline 1 payload none link in
    let (v, _, h3) =
      >>=-eq-ok (elim answer.0 [ err raised ↦ err (in_request raised) | ok value ↦ ok value ]) _
        h2 in
    let (_, good, done) = >>=-eq-ok (check (good_hello e v) identity_mismatch) _ h3 in
    let is : v ≡ value = ap (λ (r : Fields × Link). r.0) (ok-inj done) in
    subst (IsIdentified e) is
      (good_hello-IsIdentified e v (check-true _ _ id) (check-true _ _ good))
