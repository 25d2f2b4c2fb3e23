-- ===== src/Uart/Rig/Transfer.antt =====
-- The transfers between the board and the peer, in both directions (tools/uart_peer_smoke.py).
use firmingo.Common.{
  ℕ, Bool, not, ◌&&◌, ◌||◌, List, [], ◌∷◌, ◌++◌, Result, ok, err, check, map_err, length, drop, leb,
  ltb, ◌==◌, if◌then◌else◌,
}
use firmingo.Common.Bytes.{Bytes, bytes_eq, pieces, slice, ascii}
use firmingo.Common.Run.{pure, lift, ◌>>=◌, ◌>>◌}
use firmingo.Uart.{pattern}
use firmingo.Uart.Text.{decimal, fields, value_of, is_text}
use firmingo.Uart.Rig.{
  RigError, lost, mismatch, unexpected_frame, extra_bytes, peer_failure, bad_pattern, Reply, gives,
  fails, SerialFrame, sent, Rig, write, command, event,
}

-- `b'\0\0\0\1'`
abbrev pub channel_tag : Bytes
channel_tag = 0 ∷ 0 ∷ 0 ∷ 1 ∷ []

unfoldable pub send_parts : List Bytes → Rig (Unit {0})
send_parts [] = pure tt
send_parts (part ∷ parts) = do write (sent (channel_tag ++ part)); send_parts parts

unfoldable pub send_serial : Bytes → Rig (Unit {0})
send_serial bytes = send_parts (pieces 2048 bytes)

abbrev pub bad_frame : SerialFrame → Bool
bad_frame f =
    not (f.kind == 3)
    || (not (f.request == 0)
        || (leb (length f.payload) 4 || not (bytes_eq (slice 0 4 f.payload) channel_tag)))

-- The loop of `receive_serial`.
unfoldable pub receive :
    ℕ → Bytes → List (Reply SerialFrame) → Result RigError Bytes × List (Reply SerialFrame)
receive count received [] = (if leb count (length received) then ok received else err lost, [])
receive count received (fails ∷ frames) =
    if leb count (length received) then (ok received, fails ∷ frames) else (err lost, frames)
receive count received (gives f ∷ frames) =
    let longer = received ++ drop 4 f.payload in
    let rest = receive count longer frames in
    if leb count (length received)
    then (ok received, gives f ∷ frames)
    else if bad_frame f
    then (err unexpected_frame, frames)
    else if ltb count (length longer)
    then (err extra_bytes, frames)
    else rest

unfoldable pub receive_serial : ℕ → Rig Bytes
receive_serial count w =
    let (result, frames) = receive count [] w.frames in (result, record w { frames = frames })

abbrev pub is_zero : List (Bytes × Bytes) → Bytes → Bool
is_zero items key = is_text (value_of key items) (ascii "0")

unfoldable pub require_peer_event : Bytes → Result RigError (Unit {0})
require_peer_event line =
    let items = fields line in
    check
      (is_zero items (ascii "overruns")
        && (is_zero items (ascii "mismatches")
            && (is_zero items (ascii "expect_remaining")
                && is_zero items (ascii "send_remaining"))))
      peer_failure

abbrev pub two_numbers : Bytes → ℕ → ℕ → Bytes
two_numbers name a b = name ++ (32 ∷ (decimal a ++ (32 ∷ decimal b)))

-- A `try` that raises again with another message.
unfoldable pub attempt : {A : Type 0} → (RigError → RigError) → Rig A → Rig A
attempt wrap m w = let (result, w') = m w in (map_err wrap result, w')

unfoldable pub await_transfer : Bytes → Rig (Unit {0})
await_transfer name = do line ← event name; lift (require_peer_event line)

-- The bytes from the board to the peer, which checks them.
unfoldable pub to_peer : (RigError → RigError) → ℕ → ℕ → ℕ → Rig (Unit {0})
to_peer wrap bits count seed = do
  expected ← lift (map_err bad_pattern (pattern count seed bits))
  _ ← command (two_numbers (ascii "EXPECT") count seed)
  send_serial expected
  attempt wrap (await_transfer (ascii "expect_done"))

-- The same with the pattern after the command.
unfoldable pub to_peer_late : ℕ → ℕ → ℕ → Rig (Unit {0})
to_peer_late bits count seed = do
  _ ← command (two_numbers (ascii "EXPECT") count seed)
  expected ← lift (map_err bad_pattern (pattern count seed bits))
  send_serial expected
  await_transfer (ascii "expect_done")

unfoldable pub collect : ℕ → Rig Bytes
collect count = do
  received ← receive_serial count
  await_transfer (ascii "send_done")
  pure received

-- The bytes from the peer to the board, which are compared.
unfoldable pub to_board : (RigError → RigError) → ℕ → ℕ → ℕ → Rig (Unit {0})
to_board wrap bits count seed = do
  expected ← lift (map_err bad_pattern (pattern count seed bits))
  _ ← command (two_numbers (ascii "SEND") count seed)
  received ← attempt wrap (collect count)
  lift (check (bytes_eq received expected) mismatch)
