-- ===== src/Uart/Peer/Lines.antt =====
-- The lines that `read_line` gives are those of the bytes that arrive, however they are cut (tools/uart_peer_smoke.py).
use firmingo.Common.{
  ℕ, ◌≡◌, ◌≢◌, refl, sym, ap, subst, ◌∙◌, Bool, true, false, Option, none, some, List, [], ◌∷◌,
  ◌++◌, Result, ok, err, ok-inj, check-eq-ok, leb, ◌==◌, if◌then◌else◌, All, append_assoc, ==_iff,
  arith,
}
use firmingo.Common.Bytes.{Bytes}
use firmingo.Uart.Peer.{
  Wake, quiet, blocked, chunk, Turn, LineError, not_ascii, response_timeout, disconnected, cut_line,
  strip_returns, is_ascii, Line, add_byte, on_wake, take_line, read_line,
}
use mathlib.Core.Option.{some-injective}

abbrev pub bytes_of : Wake → Bytes
bytes_of quiet = []
bytes_of blocked = []
bytes_of (chunk bs) = bs

abbrev pub arrived : List Turn → Bytes
arrived [] = []
arrived (turn ∷ turns) = bytes_of turn.wake ++ arrived turns

-- `bytes` is a line without a line feed, the line feed, and what is left.
pub record IsLine (bytes line left : Bytes) : Type 0 where
  pub raw : Bytes
  pub split : bytes ≡ raw ++ (10 ∷ left)
  pub first : All (λ x. x ≢ 10) raw
  pub stripped : line ≡ strip_returns raw
  pub ascii : is_ascii line ≡ true

record IsCut (bytes raw after : Bytes) : Type 0 where
  pub split : bytes ≡ raw ++ (10 ∷ after)
  pub first : All (λ x. x ≢ 10) raw

IsCut-add_byte :
    (x : ℕ) (xs : Bytes) {raw after : Bytes} (b : Bool) (cut : Option (Bytes × Bytes))
    → (x == 10) ≡ b
    → ((r a : Bytes) → cut ≡ some (r, a) → IsCut xs r a)
    → (if b then some ([], xs) else add_byte x cut) ≡ some (raw, after)
    → IsCut (x ∷ xs) raw after
IsCut-add_byte x xs {raw} {after} true cut e later h =
    let same : ([], xs) ≡ (raw, after) = some-injective _ _ h in
    subst (λ (p : Bytes × Bytes). IsCut (x ∷ xs) p.0 p.1) same
      (record { split = ap (λ y. y ∷ xs) ((==_iff x 10).0 e); first = tt })
IsCut-add_byte x xs false none e later h = cc
IsCut-add_byte x xs {raw} {after} false (some (r, a)) e later h =
    let c = later r a refl in
    let other : x ≢ 10 = ground arith in
    let same : (x ∷ r, a) ≡ (raw, after) = some-injective _ _ h in
    subst (λ (p : Bytes × Bytes). IsCut (x ∷ xs) p.0 p.1) same
      (record { split = ap (λ t. x ∷ t) c.split; first = (other, c.first) })

cut_line-IsCut :
    (bytes : Bytes) {raw after : Bytes} → cut_line bytes ≡ some (raw, after) → IsCut bytes raw after
unfolding cut_line
cut_line-IsCut [] h = cc
cut_line-IsCut (x ∷ xs) h =
    IsCut-add_byte x xs (x == 10) (cut_line xs) refl (λ r a. cut_line-IsCut xs) h

-- What a result of `read_line` owes, for the bytes that were to come.
abbrev Owes : Bytes → Line → Type 0
Owes bytes out =
    (line left : Bytes) (turns : List Turn)
    → out ≡ (ok line, (left, turns))
    → IsLine bytes line (left ++ arrived turns)

Owes-take_line :
    (buffer : Bytes) (turns : List Turn) (cut : Option (Bytes × Bytes)) (reading : Line)
    → cut_line buffer ≡ cut
    → Owes (buffer ++ arrived turns) reading
    → Owes (buffer ++ arrived turns) (take_line cut turns reading)
Owes-take_line buffer turns none reading e later line left turns' h = later line left turns' h
Owes-take_line buffer turns (some (raw, after)) reading e later line left turns' h =
    let c = cut_line-IsCut buffer e in
    let (ascii, same) = check-eq-ok (is_ascii (strip_returns raw)) not_ascii (ap (λ r. r.0) h) in
    let line_is : strip_returns raw ≡ line = ok-inj same in
    let made : IsLine (buffer ++ arrived turns) line (after ++ arrived turns) = record {
      raw = raw;
      split = ap (λ t. t ++ arrived turns) c.split ∙ append_assoc raw (10 ∷ after) (arrived turns);
      first = c.first;
      stripped = sym line_is;
      ascii = subst (λ t. is_ascii t ≡ true) line_is ascii;
    } in
    subst (λ (r : Bytes × List Turn). IsLine (buffer ++ arrived turns) line (r.0 ++ arrived r.1))
      (ap (λ r. r.1) h) made

Owes-err : (bytes : Bytes) (e : LineError) (rest : Bytes × List Turn) → Owes bytes (err e, rest)
Owes-err bytes e rest line left turns h =
    let first : Result LineError Bytes × (Bytes × List Turn) → Result LineError Bytes =
      (λ r. r.0) in
    let same : err e ≡ ok line = ap first h in cc

Owes-on_wake :
    (wake : Wake) (buffer : Bytes) (turns : List Turn) (again : Line) (more : Bytes → Line)
    (late : Bool)
    → Owes (buffer ++ arrived turns) again
    → ((bs : Bytes) → Owes ((buffer ++ bs) ++ arrived turns) (more bs))
    → Owes (buffer ++ (bytes_of wake ++ arrived turns)) (
        if late
        then (err response_timeout, (buffer, turns))
        else on_wake wake again (err disconnected, (buffer, turns)) more)
Owes-on_wake wake buffer turns again more true h k = Owes-err _ response_timeout _
Owes-on_wake quiet buffer turns again more false h k = h
Owes-on_wake blocked buffer turns again more false h k = h
Owes-on_wake (chunk []) buffer turns again more false h k = Owes-err _ disconnected _
Owes-on_wake (chunk (b ∷ bs)) buffer turns again more false h k =
    subst (λ bytes. Owes bytes (more (b ∷ bs))) (append_assoc buffer (b ∷ bs) (arrived turns))
      (k (b ∷ bs))

Owes-read_line :
    (deadline : ℕ) (buffer : Bytes) (turns : List Turn)
    → Owes (buffer ++ arrived turns) (read_line deadline buffer turns)
unfolding read_line
Owes-read_line deadline buffer [] =
    Owes-take_line buffer [] (cut_line buffer) _ refl (Owes-err _ response_timeout _)
Owes-read_line deadline buffer (turn ∷ turns) =
    Owes-take_line buffer (turn ∷ turns) (cut_line buffer) _ refl (
      Owes-on_wake turn.wake buffer turns (read_line deadline buffer turns)
        (λ bs. read_line deadline (buffer ++ bs) turns) (leb deadline turn.now)
        (Owes-read_line deadline buffer turns) (λ bs. Owes-read_line deadline (buffer ++ bs) turns))

-- However the bytes are cut into chunks: a line that is returned is the start of the buffered bytes and those that arrive, up
-- to the first line feed and without the carriage returns before it; it is ASCII, and no byte behind the line feed is
-- lost.
pub read_line-IsLine :
    (deadline : ℕ) (buffer : Bytes) (turns : List Turn) {line left : Bytes} {rest : List Turn}
    → read_line deadline buffer turns ≡ (ok line, (left, rest))
    → IsLine (buffer ++ arrived turns) line (left ++ arrived rest)
read_line-IsLine deadline buffer turns {line} {left} {rest} h =
    Owes-read_line deadline buffer turns line left rest h
