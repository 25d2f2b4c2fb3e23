-- ===== src/Uart/Rig/Plans.antt =====
-- The calls of each action, whatever the devices answer.
use firmingo.Common.{
  ℕ, ◌≡◌, refl, sym, List, [], ◌∷◌, ◌++◌, Result, ok, err, map_err, map_err-eq-ok, raise_if-eq-ok,
  ok-inj, append-nil, subst,
}
use firmingo.Common.Bytes.{Bytes, pieces, ascii}
use firmingo.Common.Run.{pure, lift}
use firmingo.Common.Run.Logged.{
  LoggedPart, Logs, Logs-lift, Logs-always, Logs-first, Logs-skip, Logs-part, Logs-whole,
  Logs-known,
}
use firmingo.Uart.{invalid_request, bad_request, pattern_loop, pattern}
use Prim.Native.String.{String}
use firmingo.Uart.Rig.{
  RigError, Case, pass_case, bad_pattern, Role, Operation, Event, commanded, connected, asked, sent,
  World, Rig, write, read_line, connect, ask, deny, denied, command, refused, event,
}
use firmingo.Uart.Rig.Transfer.{
  channel_tag, send_parts, send_serial, receive_serial, two_numbers, attempt, await_transfer,
  to_peer, to_peer_late, collect, to_board,
}

abbrev pub events_of : World → List Event
events_of w = w.events

abbrev pub Calls : {A : Type 0} → List Event → Rig A → Type 0
Calls plan m = Logs events_of plan m

pub Calls-pure : {A : Type 0} (a : A) → Calls [] (pure {W = World} {E = RigError} a)
Calls-pure a = Logs-lift events_of (ok a)

pub Calls-lift : {A : Type 0} (r : Result RigError A) → Calls [] (lift r)
Calls-lift r = Logs-lift events_of r

pub Calls-write : (e : Event) → Calls (e ∷ []) (write e)
unfolding write
Calls-write e = Logs-always events_of (e ∷ []) (write e) (λ w. refl)

pub Calls-read_line : Calls [] read_line
unfolding read_line
Calls-read_line = Logs-always events_of [] read_line (λ w. sym (append-nil w.events))

pub Calls-connect : (role : Role) → Calls (connected role ∷ []) (connect role)
unfolding connect
Calls-connect role = Logs-always events_of _ (connect role) (λ w. refl)

pub Calls-ask :
    (role : Role) (operation : Operation) → Calls (asked role operation ∷ []) (ask role operation)
unfolding ask
Calls-ask role operation = Logs-always events_of _ (ask role operation) (λ w. refl)

pub Calls-deny :
    (role : Role) (operation : Operation) (code : String)
    → Calls (denied role operation code ∷ []) (deny role operation code)
unfolding deny
Calls-deny role operation code = Logs-always events_of _ (deny role operation code) (λ w. refl)

pub Calls-pass_case : (c : Case) → Calls [] (pass_case c)
unfolding pass_case
Calls-pass_case c = Logs-always events_of [] (pass_case c) (λ w. sym (append-nil w.events))

pub Calls-event : (name : Bytes) → Calls [] (event name)
unfolding event
Calls-event name = Logs-always events_of [] (event name) (λ w. sym (append-nil w.events))

pub Calls-receive_serial : (count : ℕ) → Calls [] (receive_serial count)
unfolding receive_serial
Calls-receive_serial count =
    Logs-always events_of [] (receive_serial count) (λ w. sym (append-nil w.events))

pub ruleset steps = (
  Calls-pure, Calls-lift, Calls-write, Calls-read_line, Calls-connect, Calls-ask, Calls-deny,
  Calls-event, Calls-pass_case, Calls-receive_serial, Logs-first, Logs-skip,
)

pub Calls-command : (text : Bytes) → Calls (commanded text ∷ []) (command text)
unfolding command
Calls-command text = search steps depth 20

pub Calls-refused : (text error : Bytes) → Calls (commanded text ∷ []) (refused text error)
unfolding refused
Calls-refused text error = search steps depth 20

-- The frames of a transfer.
abbrev pub part_frames : List Bytes → List Event
part_frames [] = []
part_frames (part ∷ parts) = sent (channel_tag ++ part) ∷ part_frames parts

Calls-send_parts : (parts : List Bytes) → Calls (part_frames parts) (send_parts parts)
unfolding send_parts
Calls-send_parts [] = Calls-pure tt
Calls-send_parts (part ∷ parts) =
    Logs-first events_of _ (part_frames parts) _ _ (Calls-write _) (λ _. Calls-send_parts parts)

pub Calls-send_serial :
    (bytes : Bytes) → Calls (part_frames (pieces 2048 bytes)) (send_serial bytes)
unfolding send_serial
Calls-send_serial bytes = Calls-send_parts (pieces 2048 bytes)

attempt_part :
    {A : Type 0} (wrap : RigError → RigError) (plan : List Event) (w : World)
    (r : Result RigError A) (w' : World)
    → LoggedPart events_of plan w (r, w')
    → LoggedPart events_of plan w (map_err wrap r, w')
attempt_part wrap plan w (ok a) w' s = s
attempt_part wrap plan w (err e) w' s = record {
  done = s.done;
  rest = s.rest;
  split = s.split;
  log_is = s.log_is;
  all = λ a h. cc;
}

pub Calls-attempt :
    {A : Type 0} (wrap : RigError → RigError) (plan : List Event) (m : Rig A)
    → Calls plan m
    → Calls plan (attempt wrap m)
unfolding attempt
Calls-attempt wrap plan m s = record { at = λ w. attempt_part wrap plan w (m w).0 (m w).1 (s.at w) }

pub ruleset more_steps = (steps, Calls-command, Calls-refused, Calls-attempt)

pub Calls-await_transfer : (name : Bytes) → Calls [] (await_transfer name)
unfolding await_transfer
Calls-await_transfer name = search more_steps depth 20

Calls-attempt_transfer :
    (wrap : RigError → RigError) (name : Bytes) → Calls [] (attempt wrap (await_transfer name))
Calls-attempt_transfer wrap name =
    Calls-attempt wrap [] (await_transfer name) (Calls-await_transfer name)

pub Calls-collect : (count : ℕ) → Calls [] (collect count)
unfolding collect
Calls-collect count = search (more_steps, Calls-await_transfer) depth 20

-- What goes to the two devices in a transfer to the peer: the announcement, and the frames of the pattern.
pub to_peer_plan : ℕ → ℕ → ℕ → List Event
to_peer_plan bits count seed =
    commanded (two_numbers (ascii "EXPECT") count seed)
    ∷ part_frames (pieces 2048 (pattern_loop bits seed count))

pub to_board_plan : ℕ → ℕ → List Event
to_board_plan count seed = commanded (two_numbers (ascii "SEND") count seed) ∷ []

module _ (bits count seed : ℕ) where
  pub pattern-ok :
      (expected : Bytes)
      → pattern count seed bits ≡ ok expected
      → pattern_loop bits seed count ≡ expected
  unfolding pattern
  pattern-ok expected h =
      ok-inj
        (raise_if-eq-ok (bad_request count seed bits) invalid_request
          (ok (pattern_loop bits seed count)) h).1

  send_pattern :
      (expected : Bytes)
      → map_err bad_pattern (pattern count seed bits) ≡ ok expected
      → Calls (part_frames (pieces 2048 (pattern_loop bits seed count))) (send_serial expected)
  send_pattern expected h =
      subst (λ p. Calls (part_frames (pieces 2048 p)) (send_serial expected))
        (sym (pattern-ok expected (map_err-eq-ok bad_pattern _ h))) (Calls-send_serial expected)

  pub Calls-to_board :
      (wrap : RigError → RigError)
      → Calls (to_board_plan count seed) (to_board wrap bits count seed)
  unfolding to_board to_board_plan
  Calls-to_board wrap = search (more_steps, Calls-collect) depth 20

  pub Calls-to_peer :
      (wrap : RigError → RigError)
      → Calls (to_peer_plan bits count seed) (to_peer wrap bits count seed)
  unfolding to_peer to_peer_plan
  Calls-to_peer wrap = Logs-known events_of _ _ _ (λ expected h.
      Logs-first events_of _ _ _ _ (Calls-command _)
        (λ _. search (steps, Calls-attempt_transfer, send_pattern expected h, Logs-whole) depth 20))

  pub Calls-to_peer_late : Calls (to_peer_plan bits count seed) (to_peer_late bits count seed)
  unfolding to_peer_late to_peer_plan
  Calls-to_peer_late = Logs-first events_of _ _ _ _ (Calls-command _) (λ _.
      Logs-known events_of _ _ _ (λ expected h.
        search (more_steps, Calls-await_transfer, send_pattern expected h, Logs-whole) depth 20))
