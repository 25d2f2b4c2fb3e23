-- ===== src/Upload/Plan.antt =====
-- `transfer` sends an initial part of one fixed sequence of requests, and then status requests only.
use firmingo.Common.{
  ℕ, ◌+◌, ◌≡◌, refl, sym, ap, ◌∙◌, Bool, true, false, List, [], ◌∷◌, ◌++◌, Result, ok, err,
  append_assoc, append-nil, length, check, raise_if, if◌then◌else◌, not, ◌&&◌, ◌||◌, ◌⊎◌,
}
use firmingo.Common.Bytes.{Bytes, pieces}
use firmingo.Common.Run.{continue, pure, ◌>>=◌, ◌>>◌}
use firmingo.Upload.Session.{
  Network, Session, Command, begin, chunk, finish, commit, status, UploadError, boot_changed,
  not_disposed, connect, request, close,
}
use firmingo.Upload.Snapshot.{Snapshot, in_state, aborted}
use firmingo.Python.{Value}
use firmingo.Upload.Transfer.{
  Selected, chunk_size, ask, check_status, send_chunks, send_commit, stage, commit_or_leave, ended,
  poll, transact, conclude, reconcile,
}
use firmingo.Upload.Trace.{
  Sends, Sends-always, sent-request, sent-connect, sent-close, sent-continue, Sends-lift,
  Sends-pure, Sends-bind, Sends-quiet, Sends-request, Sends-close,
}
use Prim.Native.String.{String}
use text.Mathlib.Text.{◌==◌ as str_eq}

-- One chunk after another, each at the offset where the one before it ends.
abbrev pub chunk_plan : ℕ → ℕ → List Bytes → List Command
chunk_plan upload_id offset [] = []
chunk_plan upload_id offset (part ∷ parts) =
    chunk upload_id offset part ∷ chunk_plan upload_id (offset + length part) parts

abbrev pub stage_plan : ℕ → Bytes → List Command
stage_plan upload_id capsule =
    chunk_plan upload_id 0 (pieces chunk_size capsule) ++ (finish upload_id ∷ [])

abbrev pub commit_plan : ℕ → Bool → List Command
commit_plan upload_id install = if install then commit upload_id ∷ [] else []

Sends-ask : (t : Selected) (c : Command) → Sends (c ∷ []) (ask t c)
unfolding ask
Sends-ask t c =
    Sends-bind (c ∷ []) [] (check_status t) (request c) (Sends-request c) (λ value. Sends-lift _)

Sends-send_chunks :
    (t : Selected) (offset : ℕ) (parts : List Bytes)
    → Sends (chunk_plan t.upload_id offset parts) (send_chunks t offset parts)
unfolding send_chunks
Sends-send_chunks t offset [] = Sends-pure tt
Sends-send_chunks t offset (part ∷ parts) =
    Sends-bind (chunk t.upload_id offset part ∷ [])
      (chunk_plan t.upload_id (offset + length part) parts) _
      (ask t (chunk t.upload_id offset part)) (Sends-ask t _)
      (λ value.
        Sends-quiet (chunk_plan t.upload_id (offset + length part) parts) _ _ (Sends-lift _)
          (λ _. Sends-send_chunks t (offset + length part) parts))

Sends-stage :
    (t : Selected) (capsule : Bytes) → Sends (stage_plan t.upload_id capsule) (stage t capsule)
unfolding stage
Sends-stage t capsule =
    Sends-bind (chunk_plan t.upload_id 0 (pieces chunk_size capsule)) (finish t.upload_id ∷ []) _
      (send_chunks t 0 (pieces chunk_size capsule)) (Sends-send_chunks t 0 _)
      (λ _.
        Sends-bind (finish t.upload_id ∷ []) [] _ (ask t (finish t.upload_id)) (Sends-ask t _)
          (λ value. Sends-lift _))

-- The one commit is sent even when its reply is lost.
Sends-send_commit : (t : Selected) → Sends (commit t.upload_id ∷ []) (send_commit t)
unfolding send_commit ask ◌>>=◌
Sends-send_commit t = Sends-always (commit t.upload_id ∷ []) (send_commit t) (λ w.
    let c = commit t.upload_id in
    sent-continue (ask t c w).0 _ (ask t c w).1 (λ s v. refl)
    ∙ sent-continue (request c w).0 _ (request c w).1 (λ value v. refl)
    ∙ sent-request c w)

decide_leave : (lost : Bool) → Session Bool
decide_leave lost = if lost then pure true else (do close; pure false)

Sends-decide_leave : (lost : Bool) → Sends [] (decide_leave lost)
unfolding decide_leave
Sends-decide_leave true = Sends-pure true
Sends-decide_leave false = Sends-bind [] [] _ close Sends-close (λ _. Sends-pure false)

Sends-commit_or_leave :
    (t : Selected) (install : Bool)
    → Sends (commit_plan t.upload_id install) (commit_or_leave t install)
unfolding commit_or_leave decide_leave
Sends-commit_or_leave t true =
    Sends-bind (commit t.upload_id ∷ []) [] decide_leave (send_commit t) (Sends-send_commit t)
      Sends-decide_leave
Sends-commit_or_leave t false =
    Sends-bind [] [] decide_leave (pure false) (Sends-pure false) Sends-decide_leave

-- The status requests of one transaction.
abbrev pub Polls : ℕ → List Command → Type 0
Polls upload_id [] = Unit
Polls upload_id (c ∷ cs) = (c ≡ status upload_id) × Polls upload_id cs

Polls-append :
    (upload_id : ℕ) (cs ds : List Command)
    → Polls upload_id cs
    → Polls upload_id ds
    → Polls upload_id (cs ++ ds)
Polls-append upload_id [] ds h k = k
Polls-append upload_id (c ∷ cs) ds h k = (h.0, Polls-append upload_id cs ds h.1 k)

-- The action sends status requests only.
pub record OnlyPolls {A : Type 0} (upload_id : ℕ) (w : Network)
    (after : Result UploadError A × Network) : Type 0 where
  pub polls : List Command
  pub log : after.1.sent ≡ w.sent ++ polls
  pub all : Polls upload_id polls

OnlyPolls-continue :
    {A B : Type 0} (upload_id : ℕ) (w : Network) (r : Result UploadError A) (w' : Network)
    (f : A → Session B)
    → OnlyPolls upload_id w (r, w')
    → ((a : A) (v : Network) → OnlyPolls upload_id v (f a v))
    → OnlyPolls upload_id w (continue r f w')
OnlyPolls-continue upload_id w (ok a) w' f h k =
    let n = k a w' in
    record {
      polls = h.polls ++ n.polls;
      log = n.log ∙ ap (λ p. p ++ n.polls) h.log ∙ append_assoc w.sent h.polls n.polls;
      all = Polls-append upload_id h.polls n.polls h.all n.all;
    }
OnlyPolls-continue upload_id w (err e) w' f h k = record {
  polls = h.polls;
  log = h.log;
  all = h.all;
}

quiet :
    {A : Type 0} (upload_id : ℕ) (w : Network) (after : Result UploadError A × Network)
    → after.1.sent ≡ w.sent
    → OnlyPolls upload_id w after
quiet upload_id w after h = record { polls = []; log = h ∙ sym (append-nil w.sent); all = tt }

polls_once : (t : Selected) (w : Network) → OnlyPolls t.upload_id w (ask t (status t.upload_id) w)
unfolding ask ◌>>=◌
polls_once t w = record {
  polls = status t.upload_id ∷ [];
  log =
      sent-continue (request (status t.upload_id) w).0 _ (request (status t.upload_id) w).1
        (λ value v. refl)
      ∙ sent-request (status t.upload_id) w;
  all = (refl, tt);
}

polls-leave :
    (t : Selected) (s : Snapshot) (w : Network) → OnlyPolls t.upload_id w ((do close; pure s) w)
unfolding ◌>>=◌
polls-leave t s w =
    OnlyPolls-continue t.upload_id w (close w).0 (close w).1 _
      (quiet t.upload_id w (close w) (sent-close w)) (λ _ u. quiet t.upload_id u _ refl)

polls-if :
    (t : Selected) (leave : Bool) (s : Snapshot) (lates : List Bool) (w : Network)
    → OnlyPolls t.upload_id w (poll t lates w)
    → OnlyPolls t.upload_id w ((if leave then (do close; pure s) else poll t lates) w)
polls-if t true s lates w h = polls-leave t s w
polls-if t false s lates w h = h

polls-poll :
    (t : Selected) (lates : List Bool) (w : Network) → OnlyPolls t.upload_id w (poll t lates w)
unfolding poll ◌>>=◌
polls-poll t [] w =
    OnlyPolls-continue t.upload_id w (ask t (status t.upload_id) w).0
      (ask t (status t.upload_id) w).1 _ (polls_once t w) (polls-leave t)
polls-poll t (late ∷ lates) w =
    OnlyPolls-continue t.upload_id w (ask t (status t.upload_id) w).0
      (ask t (status t.upload_id) w).1 _ (polls_once t w)
      (λ s v. polls-if t (ended s || late) s lates v (polls-poll t lates v))

pub polls-conclude :
    (boot_id : String) (t : Selected) (install : Bool) (lates : List Bool) (lost : Bool)
    (w : Network)
    → OnlyPolls t.upload_id w (conclude boot_id t install lates lost w)
unfolding conclude reconcile ◌>>=◌
polls-conclude boot_id t install lates lost w =
    OnlyPolls-continue t.upload_id w (reconcile boot_id t lates w).0 (reconcile boot_id t lates w).1
      _
      (OnlyPolls-continue t.upload_id w (connect w).0 (connect w).1 _
        (quiet t.upload_id w (connect w) (sent-connect w))
        (λ boot v.
          OnlyPolls-continue t.upload_id v (check (str_eq boot boot_id) boot_changed) v _
            (quiet t.upload_id v _ refl) (λ _ u. polls-poll t lates u)))
      (λ final v.
        OnlyPolls-continue t.upload_id v
          (raise_if (not install && (not (in_state final.state aborted) || final.slot_touched))
            not_disposed)
          v _ (quiet t.upload_id v _ refl) (λ _ u. quiet t.upload_id u _ refl))

pub Sends-transact :
    (t : Selected) (first : Value) (capsule : Bytes) (install : Bool)
    → Sends
        (stage_plan t.upload_id capsule ++ commit_plan t.upload_id install)
        (transact t first capsule install)
unfolding transact
Sends-transact t first capsule install = Sends-quiet _ _ _ (Sends-lift _) (λ begun.
    Sends-quiet _ _ _ (Sends-lift _) (λ _.
      Sends-bind (stage_plan t.upload_id capsule) (commit_plan t.upload_id install) _
        (stage t capsule) (Sends-stage t capsule) (λ _. Sends-commit_or_leave t install)))

-- The requests of one transaction up to the commit, in order.
abbrev pub transfer_plan : ℕ → String → Bytes → Bool → List Command
transfer_plan upload_id digest capsule install =
    begin (length capsule) digest ∷ (stage_plan upload_id capsule ++ commit_plan upload_id install)

-- What was sent is an initial part of the plan, followed by status requests if the plan is complete.
pub record IsTransaction (digest : String) (capsule : Bytes) (install : Bool) (log : List Command)
    : Type 0 where
  pub upload_id : ℕ
  pub done : List Command
  pub rest : List Command
  pub polls : List Command
  pub log_is : log ≡ done ++ polls
  pub split : transfer_plan upload_id digest capsule install ≡ done ++ rest
  pub only : Polls upload_id polls
  pub order : (polls ≡ []) ⊎ (rest ≡ [])
