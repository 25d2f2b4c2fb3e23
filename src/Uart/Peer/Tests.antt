-- ===== src/Uart/Peer/Tests.antt =====
-- The line `OK` in two chunks, with the start of the next line behind it (tools/uart_peer_smoke.py).
use firmingo.Common.{ℕ, ◌≡◌, refl, List, [], ◌∷◌, ◌++◌, ok}
use firmingo.Uart.Peer.{Wake, quiet, chunk, Turn, cut_line, strip_returns, is_ascii, read_line}
use firmingo.Uart.Peer.Lines.{arrived, IsLine, read_line-IsLine}

abbrev turn : ℕ → Wake → Turn
turn now wake = record { now = now; wake = wake }

abbrev turns : List Turn
turns =
    turn 1 (chunk (79 ∷ []))
    ∷ turn 2 quiet
    ∷ turn 3 (chunk (75 ∷ 13 ∷ 10 ∷ 69 ∷ []))
    ∷ turn 9 (chunk (86 ∷ []))
    ∷ []

abbrev rest : List Turn
rest = turn 9 (chunk (86 ∷ [])) ∷ []

returned : read_line 5 [] turns ≡ (ok (79 ∷ 75 ∷ []), (69 ∷ [], rest))
unfolding read_line cut_line strip_returns is_ascii
returned = refl

read_line-IsLine_example : IsLine ([] ++ arrived turns) (79 ∷ 75 ∷ []) ((69 ∷ []) ++ arrived rest)
read_line-IsLine_example = read_line-IsLine 5 [] turns returned
