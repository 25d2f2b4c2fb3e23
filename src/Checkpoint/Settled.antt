-- ===== src/Checkpoint/Settled.antt =====
-- The commit of a transfer, and the journal behind it.
use firmingo.Common.{
  ℕ, ◌≡◌, refl, subst, ◌∙◌, Bool, true, false, ◌⊎◌, inl, inr, none, some, [], ◌∷◌, Result, ok, err,
  check, ok-inj,
}
use firmingo.Common.Run.{continue, pure, lift, ◌>>=◌, ◌>>◌, run-bind-eq-ok}
use firmingo.Common.Run.Logged.{Logs, Logs-always}
use firmingo.Upload.Session.{commit}
use firmingo.Upload.Snapshot.{Snapshot, in_state, committing}
use firmingo.Checkpoint.{
  CheckpointError, unexpected_commit, is_committing, outcome_unknown, Journal, sent, World, Act,
  request, Selected, ask, settled, send_commit, with_intent,
}
use firmingo.Checkpoint.Plan.{events_of, events-request}

-- The last record of the journal: one attempt, and either a reply that is committing, or an unknown outcome.
pub record IsSettled (upload_id : ℕ) (j : Journal) : Type 0 where
  pub attempts : j.commit_attempts ≡ 1
  pub identified : j.upload_id ≡ some upload_id
  pub outcome_is :
      ((s : Snapshot) × ((j.reply ≡ some s)
          × ((j.state ≡ is_committing) × (in_state s.state committing ≡ true))))
      ⊎ ((j.state ≡ outcome_unknown) × (j.reply ≡ none))

log-continue :
    {A B : Type 0} (r : Result CheckpointError A) (f : A → Act B) (w : World)
    → ((a : A) (v : World) → (f a v).1.events ≡ v.events)
    → (continue r f w).1.events ≡ w.events
log-continue (ok a) f w h = h a w
log-continue (err e) f w h = refl

judge : Snapshot → Act Snapshot
judge value = do lift (check (in_state value.state committing) unexpected_commit); pure value

pub attempt : Selected → Act Snapshot
attempt t = do value ← ask t (commit t.upload_id); judge value

events-judge : (s : Snapshot) (w : World) → (judge s w).1.events ≡ w.events
unfolding judge ◌>>=◌
events-judge s w =
    log-continue (check (in_state s.state committing) unexpected_commit) (λ _. pure s) w
      (λ _ v. refl)

-- The one commit is sent, whether its reply is lost or not.
pub Logs-send_commit :
    (t : Selected) (j : Journal) → Logs events_of (sent (commit t.upload_id) ∷ []) (send_commit t j)
unfolding send_commit ask judge ◌>>=◌
Logs-send_commit t j =
    Logs-always events_of (sent (commit t.upload_id) ∷ []) (send_commit t j) (λ w.
      let c = commit t.upload_id in
      log-continue (ask t c w).0 judge (ask t c w).1 events-judge
      ∙ log-continue (request c w).0 _ (request c w).1 (λ value v. refl)
      ∙ events-request c w)

check-true : (b : Bool) (e : CheckpointError) → check b e ≡ ok tt → b ≡ true
check-true true e h = refl
check-true false e h = cc

pub attempt-committing :
    (t : Selected) (w : World) {s : Snapshot}
    → (attempt t w).0 ≡ ok s
    → in_state s.state committing ≡ true
unfolding attempt judge
attempt-committing t w {s} h =
    let (value, _, h1, _) = run-bind-eq-ok (ask t (commit t.upload_id)) _ w h in
    let (_, good, h2, _) =
      run-bind-eq-ok (lift (check (in_state value.state committing) unexpected_commit)) _ _ h1 in
    let is : value ≡ s = ok-inj h2 in
    subst (λ (s : Snapshot). in_state s.state committing ≡ true) is (check-true _ _ good)

pub settled-IsSettled :
    (upload_id : ℕ) (j : Journal) (r : Result CheckpointError Snapshot)
    → j.reply ≡ none
    → ((s : Snapshot) → r ≡ ok s → in_state s.state committing ≡ true)
    → IsSettled upload_id (settled (with_intent j upload_id) r)
settled-IsSettled upload_id j (ok s) none_yet h = record {
  attempts = refl;
  identified = refl;
  outcome_is = inl (s, (refl, (refl, h s refl)));
}
settled-IsSettled upload_id j (err e) none_yet h = record {
  attempts = refl;
  identified = refl;
  outcome_is = inr (refl, none_yet);
}

pub send_commit-ok :
    (t : Selected) (j : Journal) (w : World)
    → (send_commit t j w).0 ≡ ok (settled j (attempt t w).0)
unfolding send_commit attempt judge
send_commit-ok t j w = refl
