-- ===== src/Fmgo/Stream.antt =====
-- `Probe._exact` of tools/session_smoke.py: a read of an exact number of bytes, against one deadline.
-- What the network does is a list of turns. At each turn the clock shows `now`, and the next `recv`
-- meets a segment of bytes, the peer's close, or the end of the socket's timeout. `recv n` takes at most
-- `n` bytes of a segment and leaves the others for the next call; an empty segment reads as the close.
pub mod Exact
use firmingo.Common.{
  ℕ, ◌+◌, ◌-◌, Bool, true, false, List, [], ◌∷◌, ◌++◌, Result, ok, err, length, take, drop, leb,
  if◌then◌else◌,
}
use firmingo.Common.Bytes.{Bytes}

pub data Arrival : Type 0 where
  segment : Bytes → Arrival
  closed timed_out : Arrival

pub record Turn : Type 0 where
  pub now : ℕ
  pub arrival : Arrival

-- The two `RuntimeError`s of `_exact`, and the `socket.timeout` that `recv` raises.
pub data ReadError : Type 0 where
  deadline_passed disconnected recv_timeout : ReadError

abbrev pub Read : Type 0
Read = Result ReadError Bytes × List Turn

-- The loop: `received` is the `bytearray`. When no turn is left nothing arrives before the timeout.
unfoldable pub exact_loop : ℕ → ℕ → Bytes → List Turn → Read
exact_loop deadline count received [] =
    if leb count (length received) then (ok received, []) else (err recv_timeout, [])
exact_loop deadline count received (turn ∷ turns) =
    let go_on : Read = elim turn.arrival [
      | closed ↦ (err disconnected, turns)
      | timed_out ↦ (err recv_timeout, turns)
      | segment [] ↦ (err disconnected, turns)
      | segment (b ∷ bs) ↦
          (let missing = count - length received in
            let later = exact_loop deadline count (received ++ (b ∷ bs)) turns in
            if leb (length (b ∷ bs)) missing then later else (
              ok (received ++ take missing (b ∷ bs)),
              record turn { arrival = segment (drop missing (b ∷ bs)) } ∷ turns,
            ))
    ] in
    if leb count (length received)
    then (ok received, turn ∷ turns)
    else if leb deadline turn.now
    then (err deadline_passed, turn ∷ turns)
    else go_on

unfoldable pub exact : ℕ → ℕ → List Turn → Read
unfolding exact_loop
exact deadline count turns = exact_loop deadline count [] turns
