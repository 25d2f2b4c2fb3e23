-- ===== src/Upload/Trace.antt =====
-- The requests that an action sends, whatever the network answers.
use firmingo.Common.{◌≡◌, refl, sym, ◌∙◌, List, [], ◌∷◌, ◌++◌, Result, ok, err, append-nil, arith}
use firmingo.Common.Run.{continue, pure, lift, ◌>>=◌}
use firmingo.Common.Run.Logged.{Logs, Logs-lift, Logs-bind, Logs-quiet, Logs-always}
use firmingo.Upload.Session.{Network, Session, Command, UploadError, connect, request, close}

abbrev pub sent_of : Network → List Command
sent_of w = w.sent

-- The action sends `plan`, and stops early only with an error.
abbrev pub Sends : {A : Type 0} → List Command → Session A → Type 0
Sends plan m = Logs sent_of plan m

pub Sends-lift : {A : Type 0} (r : Result UploadError A) → Sends [] (lift {A = A} r)
Sends-lift r = Logs-lift sent_of r

pub Sends-pure : {A : Type 0} (a : A) → Sends [] (pure {A = A} a)
Sends-pure a = Sends-lift (ok a)

pub Sends-bind :
    {A B : Type 0} (plan more : List Command) (f : A → Session B) (m : Session A)
    → Sends plan m
    → ((a : A) → Sends more (f a))
    → Sends (plan ++ more) (m >>= f)
Sends-bind plan more f m s k = Logs-bind sent_of plan more f m s k

-- An action that sends nothing first.
pub Sends-quiet :
    {A B : Type 0} (plan : List Command) (f : A → Session B) (m : Session A)
    → Sends [] m
    → ((a : A) → Sends plan (f a))
    → Sends plan (m >>= f)
Sends-quiet plan f m s k = Logs-quiet sent_of plan f m s k

-- An action that sends all of its plan in any case.
pub Sends-always :
    {A : Type 0} (plan : List Command) (m : Session A)
    → ((w : Network) → (m w).1.sent ≡ w.sent ++ plan)
    → Sends plan m
Sends-always plan m h = Logs-always sent_of plan m h

pub sent-request : (c : Command) (w : Network) → (request c w).1.sent ≡ w.sent ++ (c ∷ [])
unfolding request
sent-request c w = ground arith

pub sent-connect : (w : Network) → (connect w).1.sent ≡ w.sent
unfolding connect
sent-connect w = ground arith

pub sent-close : (w : Network) → (close w).1.sent ≡ w.sent
unfolding close
sent-close w = ground arith

pub Sends-request : (c : Command) → Sends (c ∷ []) (request c)
Sends-request c = Sends-always (c ∷ []) (request c) (sent-request c)

pub Sends-connect : Sends [] connect
Sends-connect = Sends-always [] connect (λ w. sent-connect w ∙ sym (append-nil w.sent))

pub Sends-close : Sends [] close
Sends-close = Sends-always [] close (λ w. sent-close w ∙ sym (append-nil w.sent))

-- What follows a request and sends nothing leaves the log as it is.
pub sent-continue :
    {A B : Type 0} (r : Result UploadError A) (f : A → Session B) (w : Network)
    → ((a : A) (v : Network) → (f a v).1.sent ≡ v.sent)
    → (continue r f w).1.sent ≡ w.sent
sent-continue (ok a) f w h = h a w
sent-continue (err e) f w h = refl
