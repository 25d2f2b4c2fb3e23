-- ===== src/Uart/Channel.antt =====
-- `validate_channel` of tools/uart_smoke.py: the capabilities and the current configuration of a UART channel.
pub mod Sound
use firmingo.Common.{
  ℕ, Bool, true, false, not, ◌&&◌, ◌||◌, Option, none, some, [], ◌∷◌, List, Result, ok, err, ◌>>=◌,
  ◌>>◌, check, raise_if, leb, ltb, if◌then◌else◌,
}
use firmingo.Python.{
  Value, Items, no_items, item, arr, str, Fields, lookup, as_dict, as_int, equals_int, equals_str,
}
use Prim.Native.String.{String}
use text.Mathlib.Text.{◌==◌ as str_eq}

pub data ChannelError : Type 0 where
  capability_mismatch configuration_mismatch bad_actual_baud : ChannelError

-- `value == [t for t in texts]`
abbrev pub equals_items : Items → List String → Bool
equals_items no_items [] = true
equals_items (item (str s) items) (t ∷ texts) = str_eq s t && equals_items items texts
equals_items _ _ = false

abbrev pub equals_texts : Option Value → List String → Bool
equals_texts (some (arr items)) texts = equals_items items texts
equals_texts _ texts = false

abbrev pub configurable : List String
configurable = "baud" ∷ "data_bits" ∷ "parity" ∷ "stop_bits" ∷ []

unfoldable pub has_capabilities : Fields → Bool
has_capabilities channel =
    equals_int (lookup "id" channel) 1
    && (equals_str (lookup "backend" channel) "uart"
        && (equals_texts (lookup "controls" channel) []
            && (equals_int (lookup "rx_queue" channel) 256
                && (equals_int (lookup "tx_queue" channel) 256
                    && (equals_texts (lookup "configurable" channel) configurable
                        && (equals_int (lookup "baud_min" channel) 300
                            && equals_int (lookup "baud_max" channel) 2000000))))))

-- An integer, not a Boolean or a float, from `low` to `high`.
abbrev pub in_range : Option ℕ → ℕ → ℕ → Bool
in_range none low high = false
in_range (some n) low high = leb low n && leb n high

abbrev pub is_positive : Option ℕ → Bool
is_positive none = false
is_positive (some n) = leb 1 n

unfoldable pub has_format : Fields → Bool
has_format config =
    in_range (as_int (lookup "data_bits" config)) 5 8
    && ((equals_str (lookup "parity" config) "none"
          || (equals_str (lookup "parity" config) "even"
              || equals_str (lookup "parity" config) "odd"))
        && ((equals_int (lookup "stop_bits" config) 1 || equals_int (lookup "stop_bits" config) 2)
            && equals_str (lookup "flow_control" config) "none"))

abbrev pub config_of : Option Value → Result ChannelError Fields
config_of none = err capability_mismatch
config_of (some v) = elim (as_dict v) [ none ↦ err capability_mismatch | some config ↦ ok config ]

unfoldable pub validate_channel : Fields → Result ChannelError (Unit {0})
validate_channel channel = do
  check (has_capabilities channel) capability_mismatch
  config ← config_of (lookup "config" channel)
  check (in_range (as_int (lookup "baud" config)) 300 2000000) configuration_mismatch
  check (has_format config) configuration_mismatch
  check (is_positive (as_int (lookup "actual_baud" config))) bad_actual_baud
