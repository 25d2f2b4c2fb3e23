-- ===== src/Uart/Rig/Taken.antt =====
-- The answers that a part of a check takes from one of the two devices (tools/uart_peer_smoke.py).
use firmingo.Common.{
  ◌≡◌, refl, sym, ap, ◌∙◌, Bool, true, false, if◌then◌else◌, List, [], ◌∷◌, ◌++◌, map, map-append,
  append_assoc, append-nil, Result, ok, ok-inj, err, subst,
}
use firmingo.Common.Bytes.{Bytes}
use firmingo.Common.Run.{pure, lift, ◌>>=◌, run-bind-eq-ok}
use firmingo.Python.{equals_str, Fields, lookup}
use Prim.Native.String.{String}
use firmingo.Uart.Rig.{
  RigError, Reply, gives, fails, reply, behind, Answer, success, failure, result_of, failure_of,
  Role, Operation, Event, World, Rig, write, read_line, connect, ask, deny, command,
}

-- At least the first answers are as `P` says.
abbrev pub Begins : {X : Type 0} → (List X → Type 0) → List (Reply X) → Type 0
Begins {X} P answers =
    (taken : List X) × (after : List (Reply X)) × (answers ≡ map gives taken ++ after) × P taken

module _ {X : Type 0} (of : World → List (Reply X)) where
  -- The action that returns takes the first answers, and they are as `P` says.
  pub record Takes {A : Type 0} (P : A → List X → Type 0) (m : Rig A) : Type 0 where
    pub at :
        (w : World) (a : A)
        → (m w).0 ≡ ok a
        → (taken : List X) × (of w ≡ map gives taken ++ of (m w).1) × P a taken

  -- The action that returns had such answers.
  pub record Starts {A : Type 0} (P : List X → Type 0) (m : Rig A) : Type 0 where
    pub at : (w : World) (a : A) → (m w).0 ≡ ok a → Begins P (of w)

  joined :
      (xs ys : List X) (before between after : List (Reply X))
      → before ≡ map gives xs ++ between
      → between ≡ map gives ys ++ after
      → before ≡ map gives (xs ++ ys) ++ after
  joined xs ys before between after h k =
      h
      ∙ ap (λ r. map gives xs ++ r) k
      ∙ sym (append_assoc (map gives xs) (map gives ys) after)
      ∙ ap (λ r. r ++ after) (sym (map-append gives xs ys))

  pub Starts-stop : {A : Type 0} (P : List X → Type 0) (m : Rig A) → P [] → Starts P m
  Starts-stop P m p = record { at = λ w a h. ([], of w, refl, p) }

  pub Takes-pure :
      {A : Type 0} (P : A → List X → Type 0) (a : A) → P a [] → Takes P (pure {W = World} a)
  Takes-pure P a p = record { at = λ w b h. ([], refl, subst (λ c. P c []) (ok-inj h) p) }

  pub Takes-weaken :
      {A : Type 0} (P Q : A → List X → Type 0) (m : Rig A)
      → Takes P m
      → ((a : A) (xs : List X) → P a xs → Q a xs)
      → Takes Q m
  Takes-weaken P Q m s k = record {
    at = λ w a h. let (xs, split, p) = s.at w a h in (xs, split, k a xs p);
  }

  module _ {A B : Type 0} (m : Rig A) (f : A → Rig B) (P : A → List X → Type 0)
      (taken_first : Takes P m) where
    pub Takes-bind :
        (Q : B → List X → Type 0)
        → ((a : A) (xs : List X) → P a xs → Takes (λ b ys. Q b (xs ++ ys)) (f a))
        → Takes Q (m >>= f)
    Takes-bind Q k = record {
      at = λ w b h.
          let (a, first, later, same) = run-bind-eq-ok m f w h in
          let (xs, one, p) = taken_first.at w a first in
          let (ys, two, q) = (k a xs p).at (m w).1 b later in
          subst
            (λ (out : Result RigError B × World).
              (taken : List X) × (of w ≡ map gives taken ++ of out.1) × Q b taken)
            (sym same) (xs ++ ys, joined xs ys _ _ _ one two, q);
    }

    pub Starts-bind :
        (Q : List X → Type 0)
        → ((a : A) (xs : List X) → P a xs → Starts (λ ys. Q (xs ++ ys)) (f a))
        → Starts Q (m >>= f)
    Starts-bind Q k = record {
      at = λ w b h.
          let (a, first, later, same) = run-bind-eq-ok m f w h in
          let (xs, one, p) = taken_first.at w a first in
          let (ys, after, two, q) = (k a xs p).at (m w).1 b later in
          (xs ++ ys, after, joined xs ys _ _ _ one two, q);
    }

  pub Starts-whole :
      {A B : Type 0} (P : List X → Type 0) (m : Rig A) (f : A → Rig B)
      → Takes (λ a xs. P xs) m
      → Starts P (m >>= f)
  Starts-whole P m f s =
      Starts-bind m f _ s P (λ a xs p. Starts-stop _ (f a) (subst P (sym (append-nil xs)) p))

  pub Starts-first :
      {A B : Type 0} (P Q : List X → Type 0) (m : Rig A) (f : A → Rig B)
      → Starts P m
      → ((xs : List X) → P xs → Q xs)
      → Starts Q (m >>= f)
  Starts-first P Q m f s k = record {
    at = λ w b h.
        let (a, first, later, same) = run-bind-eq-ok m f w h in
        let (xs, after, split, p) = s.at w a first in (xs, after, split, k xs p);
  }

  -- The action takes nothing.
  abbrev pub Quiet : {A : Type 0} → Rig A → Type 0
  Quiet m = Takes (λ a xs. xs ≡ []) m

  pub Quiet-lift : {A : Type 0} (r : Result RigError A) → Quiet (lift r)
  Quiet-lift r = record { at = λ w a h. ([], refl, refl) }

  module _ {A B : Type 0} (m : Rig A) (f : A → Rig B) (quiet : Quiet m) where
    pub Takes-skip : (Q : B → List X → Type 0) → ((a : A) → Takes Q (f a)) → Takes Q (m >>= f)
    Takes-skip Q k = Takes-bind m f _ quiet Q (λ a xs none_taken.
        subst (λ zs. Takes (λ b ys. Q b (zs ++ ys)) (f a)) (sym none_taken) (k a))

    pub Starts-skip : (Q : List X → Type 0) → ((a : A) → Starts Q (f a)) → Starts Q (m >>= f)
    Starts-skip Q k =
        Starts-bind m f _ quiet Q (λ a xs none_taken.
          subst (λ zs. Starts (λ ys. Q (zs ++ ys)) (f a)) (sym none_taken) (k a))

    pub Quiet-skip : ((a : A) → Quiet (f a)) → Quiet (m >>= f)
    Quiet-skip k = Takes-skip _ k

abbrev pub lines_of : World → List (Reply Bytes)
lines_of w = w.lines

abbrev pub documents_of : World → List (Reply Answer)
documents_of w = w.documents

pub Takes-read_line : Takes lines_of (λ line xs. xs ≡ line ∷ []) read_line
unfolding read_line
Takes-read_line = record { at = λ w line h. (line ∷ [], split w.lines line h, refl) }
  where
    split :
        (lines : List (Reply Bytes)) (line : Bytes)
        → reply lines ≡ ok line
        → lines ≡ gives line ∷ behind lines
    split [] line h = cc
    split (gives a ∷ lines) line h = ap (λ b. gives b ∷ lines) (ok-inj h)
    split (fails ∷ lines) line h = cc

pub Quiet-write-lines : (e : Event) → Quiet lines_of (write e)
unfolding write
Quiet-write-lines e = record { at = λ w a h. ([], refl, refl) }

pub Takes-command : (text : Bytes) → Takes lines_of (λ line xs. xs ≡ line ∷ []) (command text)
unfolding command
Takes-command text = Takes-skip lines_of _ _ (Quiet-write-lines _) _ (λ _.
    Takes-bind lines_of _ _ _ Takes-read_line _ (λ line xs one.
      Takes-skip lines_of _ _ (Quiet-lift lines_of _) _
        (λ _. Takes-pure lines_of _ line (ap (λ zs. zs ++ []) one))))

pub Quiet-read_line : Quiet documents_of read_line
unfolding read_line
Quiet-read_line = record { at = λ w a h. ([], refl, refl) }

pub Quiet-write : (e : Event) → Quiet documents_of (write e)
unfolding write
Quiet-write e = record { at = λ w a h. ([], refl, refl) }

pub Quiet-connect : (role : Role) → Quiet documents_of (connect role)
unfolding connect
Quiet-connect role = record { at = λ w a h. ([], refl, refl) }

pub Quiet-command : (text : Bytes) → Quiet documents_of (command text)
unfolding command
Quiet-command text = Quiet-skip documents_of _ _ (Quiet-write _) (λ _.
    Quiet-skip documents_of _ _ Quiet-read_line (λ line.
      Quiet-skip documents_of _ _ (Quiet-lift documents_of _)
        (λ _. Takes-pure documents_of _ line refl)))

pub Takes-ask :
    (role : Role) (operation : Operation)
    → Takes documents_of (λ d xs. xs ≡ success d ∷ []) (ask role operation)
unfolding ask
Takes-ask role operation = record { at = λ w d h. (success d ∷ [], split w.documents d h, refl) }
  where
    split :
        (documents : List (Reply Answer)) (d : Fields)
        → result_of (reply documents) ≡ ok d
        → documents ≡ gives (success d) ∷ behind documents
    split [] d h = cc
    split (gives (success a) ∷ documents) d h = ap (λ b. gives (success b) ∷ documents) (ok-inj h)
    split (gives (failure a) ∷ documents) d h = cc
    split (fails ∷ documents) d h = cc

-- The answer is an error with the code.
abbrev pub IsDenial : String → Fields → Type 0
IsDenial code d = equals_str (lookup "code" d) code ≡ true

pub Takes-deny :
    (role : Role) (operation : Operation) (code : String)
    → Takes documents_of
        (λ d xs. (xs ≡ failure d ∷ []) × IsDenial code d)
        (deny role operation code)
unfolding deny
Takes-deny role operation code = record {
  at = λ w d h.
      let (split, denied) = refusal w.documents d h in (failure d ∷ [], split, (refl, denied));
}
  where
    tested :
        (b : Bool) (a d : Fields) (e : RigError)
        → (if b then ok a else err e) ≡ ok d
        → (b ≡ true) × (a ≡ d)
    tested true a d e h = (refl, ok-inj h)
    tested false a d e h = cc

    refusal :
        (documents : List (Reply Answer)) (d : Fields)
        → failure_of code (reply documents) ≡ ok d
        → (documents ≡ gives (failure d) ∷ behind documents) × IsDenial code d
    refusal [] d h = cc
    refusal (gives (success a) ∷ documents) d h = cc
    refusal (gives (failure a) ∷ documents) d h =
        let (coded, same) = tested (equals_str (lookup "code" a) code) a d _ h in
        (
          ap (λ b. gives (failure b) ∷ documents) same,
          ap (λ b. equals_str (lookup "code" b) code) (sym same) ∙ coded,
        )
    refusal (fails ∷ documents) d h = cc
