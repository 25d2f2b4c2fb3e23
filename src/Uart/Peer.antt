-- ===== src/Uart/Peer.antt =====
-- `PicoPeer._line` of tools/uart_peer_smoke.py: the lines that the test peer sends over its USB port. What the port does is
-- a list of turns, each with the clock at the test of the deadline and what `select` and `os.read` then bring.
pub mod Lines
mod Tests
use firmingo.Common.{
  ℕ, Bool, true, false, ◌&&◌, Option, none, some, List, [], ◌∷◌, ◌++◌, Result, ok, err, check, ◌>>◌,
  leb, ltb, ◌==◌, if◌then◌else◌,
}
use firmingo.Common.Bytes.{Bytes}

-- `quiet`: the descriptor was not readable; `blocked`: `BlockingIOError`. An empty chunk is the end of the port.
pub data Wake : Type 0 where
  quiet blocked : Wake
  chunk : Bytes → Wake

pub record Turn : Type 0 where
  pub now : ℕ
  pub wake : Wake

pub data LineError : Type 0 where
  not_ascii response_timeout disconnected : LineError

abbrev pub add_byte : ℕ → Option (Bytes × Bytes) → Option (Bytes × Bytes)
add_byte x none = none
add_byte x (some (raw, after)) = some (x ∷ raw, after)

-- The bytes before the first line feed, and those after it.
unfoldable pub cut_line : Bytes → Option (Bytes × Bytes)
cut_line [] = none
cut_line (x ∷ xs) = let rest = cut_line xs in if x == 10 then some ([], xs) else add_byte x rest

-- `rstrip(b'\r')`
unfoldable pub strip_returns : Bytes → Bytes
strip_returns [] = []
strip_returns (x ∷ xs) =
    let rest = strip_returns xs in
    elim rest [ [] ↦ if x == 13 then [] else x ∷ [] | y ∷ ys ↦ x ∷ y ∷ ys ]

unfoldable pub is_ascii : Bytes → Bool
is_ascii [] = true
is_ascii (x ∷ xs) = ltb x 128 && is_ascii xs

abbrev pub decode_line : Bytes → Result LineError Bytes
decode_line raw = check (is_ascii raw) not_ascii >> ok raw

-- The result, with the buffer and the turns that are left.
abbrev pub Line : Type 0
Line = Result LineError Bytes × (Bytes × List Turn)

-- When the buffer has a line it is taken, otherwise the port is read.
abbrev pub take_line : Option (Bytes × Bytes) → List Turn → Line → Line
take_line none turns reading = reading
take_line (some (raw, after)) turns reading = (decode_line (strip_returns raw), (after, turns))

abbrev pub on_wake : Wake → Line → Line → (Bytes → Line) → Line
on_wake quiet again gone more = again
on_wake blocked again gone more = again
on_wake (chunk []) again gone more = gone
on_wake (chunk (b ∷ bs)) again gone more = more (b ∷ bs)

-- When no turn is left nothing arrives before the deadline.
unfoldable pub read_line : ℕ → Bytes → List Turn → Line
read_line deadline buffer [] = take_line (cut_line buffer) [] (err response_timeout, (buffer, []))
read_line deadline buffer (turn ∷ turns) =
    let again = read_line deadline buffer turns in
    let reading =
      on_wake turn.wake again (err disconnected, (buffer, turns))
        (λ bs. read_line deadline (buffer ++ bs) turns) in
    take_line (cut_line buffer) (turn ∷ turns)
      (if leb deadline turn.now then (err response_timeout, (buffer, turns)) else reading)
