-- ===== src/Uart/Channel/Sound.antt =====
-- What an accepted UART channel has.
use firmingo.Common.{
  ℕ, ◌≤◌, ◌≡◌, refl, Bool, true, false, Option, none, some, ok, >>=-eq-ok, check, ◌&&◌, arith,
}
use firmingo.Python.{Value, Fields, obj, lookup, as_int}
use firmingo.Uart.Channel.{
  ChannelError, capability_mismatch, configuration_mismatch, bad_actual_baud, has_capabilities,
  in_range, is_positive, has_format, config_of, validate_channel,
}

-- A configuration that a UART can run: the fields are integers in their ranges.
pub record IsConfig (config : Fields) : Type 0 where
  pub baud : ℕ
  pub baud_is : as_int (lookup "baud" config) ≡ some baud
  pub baud_low : 300 ≤ baud
  pub baud_high : baud ≤ 2000000
  pub data_bits : ℕ
  pub data_bits_is : as_int (lookup "data_bits" config) ≡ some data_bits
  pub data_bits_low : 5 ≤ data_bits
  pub data_bits_high : data_bits ≤ 8
  pub actual : ℕ
  pub actual_is : as_int (lookup "actual_baud" config) ≡ some actual
  pub actual_low : 1 ≤ actual

in_range_lem :
    (o : Option ℕ) (low high : ℕ)
    → in_range o low high ≡ true
    → (n : ℕ) × (o ≡ some n) × (low ≤ n) × (n ≤ high)
in_range_lem none low high h = cc
in_range_lem (some n) low high h = (n, refl, ground arith, ground arith)

is_positive_lem : (o : Option ℕ) → is_positive o ≡ true → (n : ℕ) × (o ≡ some n) × (1 ≤ n)
is_positive_lem none h = cc
is_positive_lem (some n) h = (n, refl, ground arith)

passed : (b : Bool) (e : ChannelError) {u : Unit {0}} → check b e ≡ ok u → b ≡ true
passed true e h = refl
passed false e h = cc

and_true : (a b : Bool) → (a && b) ≡ true → (a ≡ true) × (b ≡ true)
and_true true b h = (refl, h)
and_true false b h = cc

has_format_lem :
    (config : Fields)
    → has_format config ≡ true
    → (n : ℕ) × (as_int (lookup "data_bits" config) ≡ some n) × (5 ≤ n) × (n ≤ 8)
unfolding has_format
has_format_lem config h =
    let (range, _) = and_true (in_range (as_int (lookup "data_bits" config)) 5 8) _ h in
    in_range_lem (as_int (lookup "data_bits" config)) 5 8 range

config_of_lem :
    (o : Option Value) {config : Fields} → config_of o ≡ ok config → o ≡ some (obj config)
config_of_lem o h = ground arith

-- An accepted channel has the capabilities that the tools expect, and an object as its configuration, whose
-- baud rate is an integer from 300 to 2000000, whose number of data bits is one from 5 to 8, and whose actual
-- baud rate is a positive integer.
pub validate_channel-IsConfig :
    (channel : Fields)
    → validate_channel channel ≡ ok tt
    → (has_capabilities channel ≡ true)
      × ((config : Fields) × (lookup "config" channel ≡ some (obj config)) × IsConfig config)
unfolding validate_channel
validate_channel-IsConfig channel h =
    let (_, able, h1) = >>=-eq-ok (check (has_capabilities channel) capability_mismatch) _ h in
    let (config, found, h2) = >>=-eq-ok (config_of (lookup "config" channel)) _ h1 in
    let (_, rate, h3) =
      >>=-eq-ok
        (check (in_range (as_int (lookup "baud" config)) 300 2000000) configuration_mismatch) _
        h2 in
    let (_, format, h4) = >>=-eq-ok (check (has_format config) configuration_mismatch) _ h3 in
    let (baud, baud_is, low, high) =
      in_range_lem _ 300 2000000 (
        passed (in_range (as_int (lookup "baud" config)) 300 2000000) configuration_mismatch
          rate) in
    let (bits, bits_is, bits_low, bits_high) =
      has_format_lem config (passed (has_format config) configuration_mismatch format) in
    let (actual, actual_is, positive) =
      is_positive_lem _
        (passed (is_positive (as_int (lookup "actual_baud" config))) bad_actual_baud h4) in
    (
      passed (has_capabilities channel) capability_mismatch able,
      (
        config,
        config_of_lem (lookup "config" channel) found,
        record {
          baud = baud;
          baud_is = baud_is;
          baud_low = low;
          baud_high = high;
          data_bits = bits;
          data_bits_is = bits_is;
          data_bits_low = bits_low;
          data_bits_high = bits_high;
          actual = actual;
          actual_is = actual_is;
          actual_low = positive;
        },
      ),
    )
