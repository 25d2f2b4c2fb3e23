-- ===== src/Uart/Rig/Delivered.antt =====
-- The bytes that a part of a check takes from the board.
use firmingo.Common.{
  ℕ, ◌≡◌, refl, sym, ap, ◌∙◌, false, List, [], ◌∷◌, ◌++◌, map, map-append, append_assoc, append-nil,
  Result, ok, map_err-eq-ok, All, All-append, drop, subst,
}
use firmingo.Common.Bytes.{Bytes}
use firmingo.Common.Run.{pure, lift, ◌>>=◌, run-bind-eq-ok}
use Prim.Native.String.{String}
use firmingo.Uart.Rig.{
  RigError, Case, pass_case, Reply, gives, Role, Operation, Event, SerialFrame, World, Rig, write,
  read_line, connect, ask, deny, command, refused, event,
}
use firmingo.Uart.Rig.Transfer.{
  send_parts, send_serial, bad_frame, attempt, await_transfer, to_peer, to_peer_late,
}
use firmingo.Common.Run.Logged.{LoggedPart-all}
use firmingo.Uart.Rig.Plans.{events_of, Calls}

-- What the frames carry behind the channel's tag.
abbrev pub bytes_in : List SerialFrame → Bytes
bytes_in [] = []
bytes_in (f ∷ frames) = drop 4 f.payload ++ bytes_in frames

-- The first frames are taken: each belongs to the channel and has bytes, and together they carry `bytes`.
pub record Carries (bytes : Bytes) (before after : List (Reply SerialFrame)) : Type 0 where
  pub taken : List SerialFrame
  pub split : before ≡ map gives taken ++ after
  pub good : All (λ f. bad_frame f ≡ false) taken
  pub carried : bytes_in taken ≡ bytes

bytes_in-append : (fs gs : List SerialFrame) → bytes_in (fs ++ gs) ≡ bytes_in fs ++ bytes_in gs
bytes_in-append [] gs = refl
bytes_in-append (f ∷ fs) gs =
    ap (λ t. drop 4 f.payload ++ t) (bytes_in-append fs gs)
    ∙ sym (append_assoc (drop 4 f.payload) (bytes_in fs) (bytes_in gs))

pub Carries-nil : (frames : List (Reply SerialFrame)) → Carries [] frames frames
Carries-nil frames = record { taken = []; split = refl; good = tt; carried = refl }

pub Carries-append :
    (bs cs : Bytes) (f g h : List (Reply SerialFrame))
    → Carries bs f g
    → Carries cs g h
    → Carries (bs ++ cs) f h
Carries-append bs cs f g h s t = record {
  taken = s.taken ++ t.taken;
  split =
      s.split
      ∙ ap (λ r. map gives s.taken ++ r) t.split
      ∙ sym (append_assoc (map gives s.taken) (map gives t.taken) h)
      ∙ ap (λ r. r ++ h) (sym (map-append gives s.taken t.taken));
  good = All-append _ s.taken t.taken s.good t.good;
  carried =
      bytes_in-append s.taken t.taken
      ∙ ap (λ r. r ++ bytes_in t.taken) s.carried
      ∙ ap (λ r. bs ++ r) t.carried;
}

-- What is taken when the action returns.
pub record Delivers {A : Type 0} (bytes : Bytes) (m : Rig A) : Type 0 where
  pub at : (w : World) (a : A) → (m w).0 ≡ ok a → Carries bytes w.frames (m w).1.frames

-- An action that takes no frame.
idle : {A : Type 0} (m : Rig A) → ((w : World) → (m w).1.frames ≡ w.frames) → Delivers [] m
idle m h = record {
  at = λ w a e. subst (λ fs. Carries [] w.frames fs) (sym (h w)) (Carries-nil w.frames);
}

pub Delivers-pure : {A : Type 0} (a : A) → Delivers [] (pure {W = World} {E = RigError} a)
Delivers-pure a = idle (pure a) (λ w. refl)

pub Delivers-lift : {A : Type 0} (r : Result RigError A) → Delivers [] (lift r)
Delivers-lift r = idle (lift r) (λ w. refl)

pub Delivers-write : (e : Event) → Delivers [] (write e)
unfolding write
Delivers-write e = idle (write e) (λ w. refl)

pub Delivers-read_line : Delivers [] read_line
unfolding read_line
Delivers-read_line = idle read_line (λ w. refl)

pub Delivers-connect : (role : Role) → Delivers [] (connect role)
unfolding connect
Delivers-connect role = idle (connect role) (λ w. refl)

pub Delivers-ask : (role : Role) (operation : Operation) → Delivers [] (ask role operation)
unfolding ask
Delivers-ask role operation = idle (ask role operation) (λ w. refl)

pub Delivers-deny :
    (role : Role) (operation : Operation) (code : String) → Delivers [] (deny role operation code)
unfolding deny
Delivers-deny role operation code = idle (deny role operation code) (λ w. refl)

pub Delivers-pass_case : (c : Case) → Delivers [] (pass_case c)
unfolding pass_case
Delivers-pass_case c = idle (pass_case c) (λ w. refl)

pub Delivers-event : (name : Bytes) → Delivers [] (event name)
unfolding event
Delivers-event name = idle (event name) (λ w. refl)

module _ {A B : Type 0} where
  pub Delivers-append :
      (bs cs : Bytes) (m : Rig A) (f : A → Rig B)
      → Delivers bs m
      → ((a : A) → Delivers cs (f a))
      → Delivers (bs ++ cs) (m >>= f)
  Delivers-append bs cs m f s k = record {
    at = λ w b e.
        let (a, first, later, same) = run-bind-eq-ok m f w e in
        subst (λ (r : Result RigError B × World). Carries (bs ++ cs) w.frames r.1.frames) (sym same)
          (Carries-append bs cs w.frames (m w).1.frames (f a (m w).1).1.frames (s.at w a first)
            ((k a).at (m w).1 b later));
  }

  pub Delivers-skip :
      (bs : Bytes) (m : Rig A) (f : A → Rig B)
      → Delivers [] m
      → ((a : A) → Delivers bs (f a))
      → Delivers bs (m >>= f)
  Delivers-skip bs m f s k = Delivers-append [] bs m f s k

  pub Delivers-whole :
      (bs : Bytes) (m : Rig A) (f : A → Rig B)
      → Delivers bs m
      → ((a : A) → Delivers [] (f a))
      → Delivers bs (m >>= f)
  Delivers-whole bs m f s k =
      subst (λ r. Delivers r (m >>= f)) (append-nil bs) (Delivers-append bs [] m f s k)

pub Delivers-attempt :
    {A : Type 0} (wrap : RigError → RigError) (bs : Bytes) (m : Rig A)
    → Delivers bs m
    → Delivers bs (attempt wrap m)
unfolding attempt
Delivers-attempt wrap bs m s = record { at = λ w a e. s.at w a (map_err-eq-ok wrap (m w).0 e) }

pub ruleset idle_steps = (
  Delivers-pure, Delivers-lift, Delivers-write, Delivers-read_line, Delivers-connect, Delivers-ask,
  Delivers-deny, Delivers-pass_case, Delivers-event, Delivers-skip, Delivers-attempt,
)

pub Delivers-command : (text : Bytes) → Delivers [] (command text)
unfolding command
Delivers-command text = search idle_steps depth 20

pub Delivers-refused : (text error : Bytes) → Delivers [] (refused text error)
unfolding refused
Delivers-refused text error = search idle_steps depth 20

Delivers-send_parts : (parts : List Bytes) → Delivers [] (send_parts parts)
unfolding send_parts
Delivers-send_parts [] = Delivers-pure tt
Delivers-send_parts (part ∷ parts) =
    Delivers-skip [] _ _ (Delivers-write _) (λ _. Delivers-send_parts parts)

Delivers-send_serial : (bytes : Bytes) → Delivers [] (send_serial bytes)
unfolding send_serial
Delivers-send_serial bytes = Delivers-send_parts _

pub Delivers-await_transfer : (name : Bytes) → Delivers [] (await_transfer name)
unfolding await_transfer
Delivers-await_transfer name = search idle_steps depth 20

pub Delivers-to_peer :
    (wrap : RigError → RigError) (bits count seed : ℕ) → Delivers [] (to_peer wrap bits count seed)
unfolding to_peer
Delivers-to_peer wrap bits count seed =
    search (idle_steps, Delivers-command, Delivers-send_serial, Delivers-await_transfer) depth 20

pub Delivers-to_peer_late : (bits count seed : ℕ) → Delivers [] (to_peer_late bits count seed)
unfolding to_peer_late
Delivers-to_peer_late bits count seed =
    search (idle_steps, Delivers-command, Delivers-send_serial, Delivers-await_transfer) depth 20

-- An action that returned has made all calls of its plan.
pub returned_lem :
    {A : Type 0} (plan : List Event) (bytes : Bytes) (m : Rig A)
    → Calls plan m
    → Delivers bytes m
    → (w : World) {w' : World} {a : A} → m w ≡ (ok a, w')
    → (w'.events ≡ w.events ++ plan) × Carries bytes w.frames w'.frames
returned_lem {A} plan bytes m calls gives_bytes w {w'} {a} h =
    let result : (m w).0 ≡ ok a = ap (λ (r : Result RigError A × World). r.0) h in
    let after : (m w).1 ≡ w' = ap (λ (r : Result RigError A × World). r.1) h in
    subst (λ (v : World). (v.events ≡ w.events ++ plan) × Carries bytes w.frames v.frames) after
      (LoggedPart-all events_of plan w (m w) (calls.at w) result, gives_bytes.at w a result)
