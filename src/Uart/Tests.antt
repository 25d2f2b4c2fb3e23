-- ===== src/Uart/Tests.antt =====
-- A pattern of three bytes (tools/uart_peer_smoke.py), and a channel (tools/uart_smoke.py).
use firmingo.Common.{◌≡◌, refl, [], ◌∷◌, ok}
use firmingo.Common.Bytes.{Bytes}
use firmingo.Python.{Fields, end, field, int, str, arr, obj, no_items, item, lookup}
use firmingo.Uart.Channel.{has_capabilities, has_format, validate_channel}
use firmingo.Uart.{next_state, pattern_loop, pattern}

abbrev three : Bytes
three = 60 ∷ 71 ∷ 209 ∷ []

made : pattern 3 0 8 ≡ ok three
unfolding pattern pattern_loop next_state
made = refl

abbrev config : Fields
config = field "baud" (int 115200) (
    field "data_bits" (int 8) (
      field "parity" (str "none") (
        field "stop_bits" (int 1)
          (field "flow_control" (str "none") (field "actual_baud" (int 115207) end)))))

abbrev channel : Fields
channel = field "id" (int 1) (
    field "backend" (str "uart") (
      field "controls" (arr no_items) (
        field "rx_queue" (int 256) (
          field "tx_queue" (int 256) (
            field "configurable"
              (arr (
                item (str "baud")
                  (item (str "data_bits") (item (str "parity") (item (str "stop_bits") no_items)))))
              (field "baud_min" (int 300)
                (field "baud_max" (int 2000000) (field "config" (obj config) end))))))))

validated : validate_channel channel ≡ ok tt
unfolding validate_channel has_capabilities has_format lookup
validated = refl
