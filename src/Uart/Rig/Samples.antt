-- ===== src/Uart/Rig/Samples.antt =====
-- Answers of a board and of a test peer that work.
use firmingo.Common.{
  ℕ, false, Option, none, some, List, [], ◌∷◌, ◌++◌, map, replicate, leb, ltb, ◌==◌,
}
use firmingo.Common.Bytes.{Bytes, ascii}
use firmingo.Python.{Fields, end, field, int, str, arr, obj, no_items, item, as_int}
use firmingo.Soak.Run.{Hello}
use firmingo.Uart.Text.{decimal}
use Prim.Native.String.{String}
use firmingo.Uart.Rig.{
  Answer, success, failure, Reply, gives, Config, SerialFrame, World, Comparison,
}
use firmingo.Uart.Rig.Transfer.{channel_tag}

abbrev pub config_fields : Config → ℕ → Fields
config_fields c actual_baud = field "baud" (int c.baud) (
    field "data_bits" (int c.data_bits) (
      field "parity" (str c.parity) (
        field "stop_bits" (int c.stop_bits)
          (field "flow_control" (str c.flow_control) (field "actual_baud" (int actual_baud) end)))))

abbrev pub hello_with : Config → ℕ → Hello
hello_with c actual_baud = record {
  boot_id = "boot";
  channel = field "id" (int 1) (
      field "backend" (str "uart") (
        field "controls" (arr no_items) (
          field "rx_queue" (int 256) (
            field "tx_queue" (int 256) (
              field "configurable"
                (arr (
                  item (str "baud") (
                    item (str "data_bits")
                      (item (str "parity") (item (str "stop_bits") no_items)))))
                (field "baud_min" (int 300) (
                  field "baud_max" (int 2000000)
                    (field "config" (obj (config_fields c actual_baud)) end))))))));
}

abbrev pub counters : ℕ → Fields
counters n = field "backend_rx_bytes" (int n) (
    field "backend_tx_bytes" (int n)
      (field "pending_to_backend" (int 0) (field "pending_to_peer" (int 0) end)))

-- The numbers of overruns and of discarded bytes, and those that wait.
abbrev pub errors : ℕ → ℕ → ℕ → Fields
errors n discarded pending = field "uart_rx_overrun_events" (int n) (
    field "uart_rx_lost_bytes_minimum" (int n) (
      field "tcp_errors" (int 0)
        (field "uart_rx_discarded" (int discarded) (field "uart_rx_pending" (int pending) end))))

abbrev pub identity : Bytes
identity = ascii "OK peer=pico-uart-peer-v2"

abbrev pub okay : Bytes
okay = ascii "OK"

abbrev pub event_line : Bytes → Bytes
event_line name =
    ascii "EVENT " ++ (name ++ ascii " overruns=0 mismatches=0 expect_remaining=0 send_remaining=0")

abbrev pub both_ways : List Bytes
both_ways = okay ∷ event_line (ascii "expect_done") ∷ okay ∷ event_line (ascii "send_done") ∷ []

abbrev pub stats : ℕ → Bytes
stats n =
    ascii "OK rx="
    ++ (decimal n ++ (ascii " tx=" ++ (decimal n ++ ascii " overruns=0 mismatches=0")))

abbrev pub frame_with : Bytes → SerialFrame
frame_with bytes = record { kind = 3; request = 0; payload = channel_tag ++ bytes }

abbrev pub answering : List Bytes → List Hello → List Fields → List SerialFrame → World
answering lines hellos documents frames = record {
  lines = map gives lines;
  writes = replicate 400 (gives tt);
  hellos = map gives hellos;
  documents = map (λ d. gives (success d)) documents;
  frames = map gives frames;
  events = [];
  passed = [];
}

-- The response to a request that fails with this code.
abbrev pub refusal : String → Answer
refusal code = failure (field "code" (str code) end)

-- The first requests succeed, the next one is refused, and the others succeed.
abbrev pub refusing : List Fields → String → List Fields → List (Reply Answer)
refusing before code after =
    map (λ d. gives (success d)) before
    ++ (gives (refusal code) ∷ map (λ d. gives (success d)) after)

abbrev pub both : {A : Type 0} → (ℕ → ℕ → A) → A → Option ℕ → Option ℕ → A
both f other (some m) (some n) = f m n
both f other _ _ = other

-- Python's comparisons on natural numbers.
abbrev pub on_naturals : Comparison
on_naturals = record {
  same = λ v u. both ◌==◌ false (as_int v) (as_int u);
  below = λ v u. both (λ m n. some (ltb m n)) none (as_int (some v)) (as_int (some u));
  at_most = λ v u. both (λ m n. some (leb m n)) none (as_int (some v)) (as_int (some u));
}
