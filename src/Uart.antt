-- ===== src/Uart.antt =====
-- The UART tools: the test data (`pattern` of tools/uart_peer_smoke.py) and the check of a device's channel
-- (`validate_channel` of tools/uart_smoke.py).
pub mod Pattern
pub mod Channel
pub mod Peer
pub mod Text
pub mod Rig
pub mod Smoke
pub mod Matrix
pub mod Overrun
pub mod Loopback
mod Tests
use firmingo.Common.{
  ℕ, zero, suc, ◌+◌, ◌*◌, ◌/◌, ◌%◌, ◌^◌, Bool, not, ◌&&◌, ◌||◌, List, [], ◌∷◌, ◌++◌, Result, ok,
  ◌>>=◌, ◌>>◌, raise_if, leb, ltb,
}
use firmingo.Common.Bytes.{Bytes}

pub data PatternError : Type 0 where
  invalid_request : PatternError

-- The state after one round, of 32 bits.
unfoldable pub next_state : ℕ → ℕ
next_state state = (state * 1664525 + 1013904223) % 2 ^ 32

-- The loop: each round keeps the low `data_bits` bits of the state's highest byte.
unfoldable pub pattern_loop : ℕ → ℕ → ℕ → Bytes
pattern_loop data_bits state zero = []
pattern_loop data_bits state (suc count) =
    let state' = next_state state in
    (state' / 2 ^ 24) % 2 ^ data_bits ∷ pattern_loop data_bits state' count

abbrev pub bad_request : ℕ → ℕ → ℕ → Bool
bad_request count seed data_bits =
    not (leb 1 count && leb count 262144)
    || (not (leb seed 0xffffffff) || not (leb 5 data_bits && leb data_bits 8))

unfoldable pub pattern : ℕ → ℕ → ℕ → Result PatternError Bytes
pattern count seed data_bits = do
  raise_if (bad_request count seed data_bits) invalid_request
  ok (pattern_loop data_bits seed count)
