-- ===== src/Uart/Rig/Collected.antt =====
-- The bytes that `receive_serial` returns are those that it takes from the board.
use firmingo.Common.{
  ℕ, ◌≡◌, refl, sym, ap, ◌∙◌, Bool, true, false, if◌then◌else◌, List, [], ◌∷◌, ◌++◌, append_assoc,
  append-nil, Result, ok, err, ok-inj, map_err, map_err-eq-ok, check-ok, check, length, drop, leb,
  ltb, subst,
}
use firmingo.Common.Bytes.{Bytes, bytes_eq, bytes_eq_iff, ascii}
use firmingo.Common.Run.{pure, lift, ◌>>=◌, ◌>>◌, run-bind-eq-ok}
use firmingo.Uart.{pattern_loop, pattern}
use firmingo.Uart.Rig.{
  RigError, lost, unexpected_frame, extra_bytes, mismatch, bad_pattern, Reply, gives, fails,
  SerialFrame, World, Rig,
}
use firmingo.Uart.Rig.Transfer.{
  bad_frame, receive, receive_serial, attempt, await_transfer, collect, to_board,
}
use firmingo.Uart.Rig.Plans.{pattern-ok}
use firmingo.Uart.Rig.Delivered.{
  Carries, Carries-nil, Carries-append, Delivers, Delivers-lift, Delivers-skip, Delivers-command,
  Delivers-await_transfer,
}

-- What `receive` adds to the bytes that it has.
record Received (received bytes : Bytes) (before after : List (Reply SerialFrame)) : Type 0 where
  pub more : Bytes
  pub carries : Carries more before after
  pub bytes_is : bytes ≡ received ++ more

abbrev Receives :
    Bytes → List (Reply SerialFrame) → Result RigError Bytes × List (Reply SerialFrame) → Type 0
Receives received before out =
    (bytes : Bytes) (after : List (Reply SerialFrame))
    → out ≡ (ok bytes, after)
    → Received received bytes before after

Receives-done :
    (received : Bytes) (frames : List (Reply SerialFrame))
    → Receives received frames (ok received, frames)
Receives-done received frames bytes after h =
    let same : received ≡ bytes =
      ok-inj (ap (λ (r : Result RigError Bytes × List (Reply SerialFrame)). r.0) h) in
    let left : frames ≡ after =
      ap (λ (r : Result RigError Bytes × List (Reply SerialFrame)). r.1) h in
    record {
      more = [];
      carries = subst (λ fs. Carries [] frames fs) left (Carries-nil frames);
      bytes_is = sym same ∙ sym (append-nil received);
    }

Receives-err :
    (received : Bytes) (before : List (Reply SerialFrame)) (e : RigError)
    (rest : List (Reply SerialFrame))
    → Receives received before (err e, rest)
Receives-err received before e rest bytes after h =
    let first : Result RigError Bytes × List (Reply SerialFrame) → Result RigError Bytes =
      (λ r. r.0) in
    let same : err e ≡ ok bytes = ap first h in cc

Receives-frame :
    (full bad extra : Bool) (received : Bytes) (f : SerialFrame) (frames : List (Reply SerialFrame))
    (rest : Result RigError Bytes × List (Reply SerialFrame)) (e₁ e₂ : RigError)
    → bad_frame f ≡ bad
    → Receives (received ++ drop 4 f.payload) frames rest
    → Receives received (gives f ∷ frames) (
        if full
        then (ok received, gives f ∷ frames)
        else if bad
        then (err e₁, frames)
        else if extra
        then (err e₂, frames)
        else rest)
Receives-frame true bad extra received f frames rest e₁ e₂ good later = Receives-done received _
Receives-frame false true extra received f frames rest e₁ e₂ good later =
    Receives-err received _ e₁ _
Receives-frame false false true received f frames rest e₁ e₂ good later =
    Receives-err received _ e₂ _
Receives-frame false false false received f frames rest e₁ e₂ good later = λ bytes after h.
    let r = later bytes after h in
    record {
      more = drop 4 f.payload ++ r.more;
      carries = record {
        taken = f ∷ r.carries.taken;
        split = ap (λ fs. gives f ∷ fs) r.carries.split;
        good = (good, r.carries.good);
        carried = ap (λ t. drop 4 f.payload ++ t) r.carries.carried;
      };
      bytes_is = r.bytes_is ∙ append_assoc received (drop 4 f.payload) r.more;
    }

Receives-stop :
    (full : Bool) (received : Bytes) (before rest : List (Reply SerialFrame)) (e : RigError)
    → Receives received before (if full then (ok received, before) else (err e, rest))
Receives-stop true received before rest e = Receives-done received before
Receives-stop false received before rest e = Receives-err received before e rest

Receives-receive :
    (count : ℕ) (received : Bytes) (frames : List (Reply SerialFrame))
    → Receives received frames (receive count received frames)
unfolding receive
Receives-receive count received [] = Receives-nil (leb count (length received))
  where
    Receives-nil : (full : Bool) → Receives received [] (if full then ok received else err lost, [])
    Receives-nil true = Receives-done received []
    Receives-nil false = Receives-err received [] lost []
Receives-receive count received (fails ∷ frames) =
    Receives-stop (leb count (length received)) received (fails ∷ frames) frames lost
Receives-receive count received (gives f ∷ frames) =
    Receives-frame (leb count (length received)) (bad_frame f)
      (ltb count (length (received ++ drop 4 f.payload))) received f frames
      (receive count (received ++ drop 4 f.payload) frames) unexpected_frame extra_bytes refl
      (Receives-receive count (received ++ drop 4 f.payload) frames)

-- The action returns the bytes that it takes.
record Collects (m : Rig Bytes) : Type 0 where
  pub at : (w : World) (bytes : Bytes) → (m w).0 ≡ ok bytes → Carries bytes w.frames (m w).1.frames

pair_eq :
    (p : Result RigError Bytes × List (Reply SerialFrame)) (bytes : Bytes)
    → p.0 ≡ ok bytes
    → p ≡ (ok bytes, p.1)
pair_eq p bytes e = ap (λ (q : Result RigError Bytes). (q, p.1)) e

Collects-receive_serial : (count : ℕ) → Collects (receive_serial count)
unfolding receive_serial
Collects-receive_serial count = record {
  at = λ w bytes h.
      let out = receive count [] w.frames in
      let r = Receives-receive count [] w.frames bytes out.1 (pair_eq out bytes h) in
      subst (λ bs. Carries bs w.frames out.1) (sym r.bytes_is) r.carries;
}

Collects-attempt :
    (wrap : RigError → RigError) (m : Rig Bytes) → Collects m → Collects (attempt wrap m)
unfolding attempt
Collects-attempt wrap m s = record { at = λ w a e. s.at w a (map_err-eq-ok wrap (m w).0 e) }

-- The bytes that are taken are those that the rest accepts.
Delivers-take :
    {B : Type 0} (bs : Bytes) (m : Rig Bytes) (f : Bytes → Rig B)
    → Collects m
    → ((a : Bytes) → Delivers [] (f a))
    → ((a : Bytes) (w : World) (b : B) → (f a w).0 ≡ ok b → a ≡ bs)
    → Delivers bs (m >>= f)
Delivers-take {B} bs m f s k only = record {
  at = λ w b e.
      let (a, first, later, same) = run-bind-eq-ok m f w e in
      let one =
        subst (λ bytes. Carries bytes w.frames (m w).1.frames) (only a (m w).1 b later)
          (s.at w a first) in
      subst (λ (r : Result RigError B × World). Carries bs w.frames r.1.frames) (sym same)
        (subst (λ bytes. Carries bytes w.frames (f a (m w).1).1.frames) (append-nil bs)
          (Carries-append bs [] w.frames (m w).1.frames (f a (m w).1).1.frames one
            ((k a).at (m w).1 b later)));
}

-- The bytes are returned after something else.
Collects-then :
    (m : Rig Bytes) (n : Rig (Unit {0}))
    → Collects m
    → Delivers [] n
    → Collects (m >>= λ bytes. n >> pure bytes)
Collects-then m n s d = record {
  at = λ w bytes e.
      let (a, first, later, same) = run-bind-eq-ok m (λ bytes. n >> pure bytes) w e in
      let (u, second, last, same') = run-bind-eq-ok n (λ _. pure a) (m w).1 later in
      let one = subst (λ bs. Carries bs w.frames (m w).1.frames) (ok-inj last) (s.at w a first) in
      subst (λ (r : Result RigError Bytes × World). Carries bytes w.frames r.1.frames)
        (sym (same ∙ same'))
        (subst (λ bs. Carries bs w.frames (n (m w).1).1.frames) (append-nil bytes)
          (Carries-append bytes [] w.frames (m w).1.frames (n (m w).1).1.frames one
            (d.at (m w).1 u second)));
}

Collects-collect : (count : ℕ) → Collects (collect count)
unfolding collect
Collects-collect count =
    Collects-then (receive_serial count) (await_transfer (ascii "send_done"))
      (Collects-receive_serial count) (Delivers-await_transfer _)

Delivers-known :
    {A B : Type 0} (bs : Bytes) (r : Result RigError A) (f : A → Rig B)
    → ((a : A) → r ≡ ok a → Delivers bs (f a))
    → Delivers bs (lift r >>= f)
unfolding ◌>>=◌
Delivers-known bs (ok a) f k = k a refl
Delivers-known bs (err e) f k = record { at = λ w a h. cc }

module _ (bits count seed : ℕ) where
  compared :
      (expected received : Bytes) (w : World) (b : Unit {0})
      → map_err bad_pattern (pattern count seed bits) ≡ ok expected
      → (lift (check (bytes_eq received expected) mismatch) w).0 ≡ ok b
      → received ≡ pattern_loop bits seed count
  compared expected received w b h e =
      (bytes_eq_iff received expected).0 (check-ok (bytes_eq received expected) mismatch e)
      ∙ sym (
          pattern-ok bits count seed expected
            (map_err-eq-ok bad_pattern (pattern count seed bits) h))

  -- What the board gave is the pattern.
  pub Delivers-to_board :
      (wrap : RigError → RigError)
      → Delivers (pattern_loop bits seed count) (to_board wrap bits count seed)
  unfolding to_board
  Delivers-to_board wrap = Delivers-known _ _ _ (λ expected h.
      Delivers-skip _ _ _ (Delivers-command _) (λ _.
        Delivers-take _ (attempt wrap (collect count)) _
          (Collects-attempt wrap (collect count) (Collects-collect count)) (λ _. Delivers-lift _)
          (λ received w b e. compared expected received w b h e)))
