-- ===== src/Checkpoint/Recorded.antt =====
-- Whatever the device and the disk answer, the events of a transfer are an initial part of one sequence.
use firmingo.Common.{
  ℕ, ◌≡◌, refl, sym, ap, subst, ◌∙◌, ◌⊎◌, inl, inr, List, [], ◌∷◌, ◌++◌, Result, ok, err, ok-inj,
  map_err, length,
}
use firmingo.Common.Bytes.{Bytes}
use firmingo.Common.Run.{continue, pure, ◌>>=◌, ◌>>◌, run-bind-eq-ok}
use firmingo.Common.Run.Logged.{LoggedPart, LoggedPart-continue, Logs, Logs-lift, Logs-bind}
use firmingo.Python.{Value}
use firmingo.Upload.Session.{begin, commit}
use firmingo.Upload.Transfer.{begin_id}
use firmingo.Checkpoint.{
  CheckpointError, os_error, in_upload, Journal, Event, saved, sent, World, Act, save, request,
  settled, send_commit, stage, with_intent, selected, first_journal, record_commit, transfer,
}
use firmingo.Checkpoint.Plan.{events_of, stage_events, Logs-save, Logs-request, Logs-stage}
use Prim.Native.String.{String}
use firmingo.Checkpoint.Settled.{
  IsSettled, attempt, Logs-send_commit, attempt-committing, settled-IsSettled, send_commit-ok,
}

-- An action whose events are an initial part of one of the plans `later i`, all of it if the action returns,
-- and then it returns the journal of that plan.
record Ended {I : Type 0} (final : I → Journal) (later : I → List Event) (w : World)
    (after : Result CheckpointError Journal × World) : Type 0 where
  index : I
  part : LoggedPart events_of (later index) w after
  returned : (j : Journal) → after.0 ≡ ok j → j ≡ final index

continue-Ended :
    {I A : Type 0} (final : I → Journal) (otherwise : I) (before : List Event)
    (later : I → List Event) (f : A → Act Journal) (w : World) (r : Result CheckpointError A)
    (w' : World)
    → LoggedPart events_of before w (r, w')
    → ((a : A) → r ≡ ok a → Ended final later w' (f a w'))
    → Ended final (λ i. before ++ later i) w (continue r f w')
continue-Ended final otherwise before later f w (ok a) w' s k =
    let e = k a refl in
    record {
      index = e.index;
      part =
          LoggedPart-continue events_of before (later e.index) f w (ok a) w' s (λ b h.
            subst (λ c. LoggedPart events_of (later e.index) w' (f c w')) (ok-inj h) e.part);
      returned = e.returned;
    }
continue-Ended final otherwise before later f w (err e) w' s k = record {
  index = otherwise;
  part = LoggedPart-continue events_of before (later otherwise) f w (err e) w' s (λ b h. cc);
  returned = λ j h. cc;
}

conclude : Journal → Act Journal
conclude base = do save base; pure base

Logs-conclude : (base : Journal) → Logs events_of (saved base ∷ []) (conclude base)
unfolding conclude
Logs-conclude base =
    Logs-bind events_of (saved base ∷ []) [] (λ _. pure base) (save base) (Logs-save base)
      (λ _. Logs-lift events_of (ok base))

not-ok : {E A B : Type 0} {e : E} {a : A} → ◌≡◌ {A = Result E A} (err e) (ok a) → B
not-ok h = cc

module _ (hexdigest : Bytes → String) (boot_id : String) (capsule : Bytes) where
  -- The end of the plan: the intent, the one commit, and the outcome.
  abbrev pub commit_events : ℕ → Journal → List Event
  commit_events upload_id final =
      (saved (with_intent (first_journal hexdigest boot_id capsule) upload_id) ∷ [])
      ++ ((sent (commit upload_id) ∷ []) ++ (saved final ∷ []))

  abbrev pub transfer_events : ℕ → Journal → List Event
  transfer_events upload_id final =
      (saved (first_journal hexdigest boot_id capsule) ∷ [])
      ++ ((sent (begin (length capsule) (hexdigest capsule)) ∷ [])
          ++ ([] ++ (stage_events upload_id capsule ++ commit_events upload_id final)))

  abbrev Settled : ℕ → Type 0
  Settled upload_id = (j : Journal) × IsSettled upload_id j

  -- What is written when the reply is lost.
  abbrev lost : (upload_id : ℕ) → Settled upload_id
  lost upload_id =
      let first = first_journal hexdigest boot_id capsule in
      (
        settled (with_intent first upload_id) (err os_error),
        settled-IsSettled upload_id first (err os_error) refl (λ s h. not-ok h),
      )

  record_commit-Ended :
      (upload_id : ℕ) (w : World)
      → Ended {I = Settled upload_id}
          (λ i. i.0)
          (λ i. commit_events upload_id i.0)
          w
          (record_commit hexdigest boot_id capsule upload_id w)
  unfolding record_commit conclude ◌>>=◌
  record_commit-Ended upload_id w =
      let first = first_journal hexdigest boot_id capsule in
      let intent = with_intent first upload_id in
      let t = selected hexdigest boot_id capsule upload_id in
      continue-Ended {I = Settled upload_id} (λ i. i.0) (lost upload_id) (saved intent ∷ [])
        (λ i. (sent (commit upload_id) ∷ []) ++ (saved i.0 ∷ [])) _ w (save intent w).0
        (save intent w).1 ((Logs-save intent).at w)
        (λ _ _.
          let w1 = (save intent w).1 in
          let r = (attempt t w1).0 in
          let end : Settled upload_id = (
            settled intent r,
            settled-IsSettled upload_id first r refl (λ s h. attempt-committing t w1 h),
          ) in
          record {
            index = end;
            part =
                LoggedPart-continue events_of (sent (commit upload_id) ∷ []) (saved end.0 ∷ []) _ w1
                  (send_commit t intent w1).0 (send_commit t intent w1).1
                  ((Logs-send_commit t intent).at w1)
                  (λ base h.
                    subst
                      (λ b.
                        LoggedPart events_of (saved end.0 ∷ []) (send_commit t intent w1).1
                          (conclude b (send_commit t intent w1).1))
                      (ok-inj (sym (send_commit-ok t intent w1) ∙ h))
                      ((Logs-conclude end.0).at (send_commit t intent w1).1));
            returned = λ j h.
                let (base, h1, h2, _) = run-bind-eq-ok (send_commit t intent) conclude w1 h in
                let (_, _, h3, _) =
                  run-bind-eq-ok (save base) (λ _. pure base) (send_commit t intent w1).1 h2 in
                ok-inj (sym h3) ∙ ok-inj (sym h1 ∙ send_commit-ok t intent w1);
          })

  abbrev Outcome : Type 0
  Outcome = (upload_id : ℕ) × Settled upload_id

  abbrev nothing_known : Outcome
  nothing_known = (0, lost 0)

  transact-Ended :
      (upload_id : ℕ) (first : Value) (w : World)
      → Ended {I = Outcome}
          (λ i. i.1.0)
          (λ i. stage_events i.0 capsule ++ commit_events i.0 i.1.0)
          w
          ((stage (selected hexdigest boot_id capsule upload_id) first capsule
              >> record_commit hexdigest boot_id capsule upload_id)
            w)
  unfolding ◌>>=◌
  transact-Ended upload_id first w =
      let t = selected hexdigest boot_id capsule upload_id in
      let e =
        continue-Ended {I = Settled upload_id} (λ i. i.0) (lost upload_id)
          (stage_events upload_id capsule) (λ i. commit_events upload_id i.0)
          (λ _. record_commit hexdigest boot_id capsule upload_id) w (stage t first capsule w).0
          (stage t first capsule w).1 ((Logs-stage t first capsule).at w)
          (λ _ _. record_commit-Ended upload_id (stage t first capsule w).1) in
      record { index = (upload_id, e.index); part = e.part; returned = e.returned }

  transfer-Ended :
      (w : World)
      → Ended {I = Outcome}
          (λ i. i.1.0)
          (λ i. transfer_events i.0 i.1.0)
          w
          (transfer hexdigest boot_id capsule w)
  unfolding transfer ◌>>=◌
  transfer-Ended w =
      let first = first_journal hexdigest boot_id capsule in
      let c = begin (length capsule) (hexdigest capsule) in
      let later = λ (i : Outcome). stage_events i.0 capsule ++ commit_events i.0 i.1.0 in
      continue-Ended {I = Outcome} (λ i. i.1.0) nothing_known (saved first ∷ [])
        (λ i. (sent c ∷ []) ++ ([] ++ later i)) _ w (save first w).0 (save first w).1
        ((Logs-save first).at w)
        (λ _ _.
          let w1 = (save first w).1 in
          continue-Ended {I = Outcome} (λ i. i.1.0) nothing_known (sent c ∷ []) (λ i. [] ++ later i)
            _ w1 (request c w1).0 (request c w1).1 ((Logs-request c).at w1)
            (λ value _.
              let w2 = (request c w1).1 in
              continue-Ended {I = Outcome} (λ i. i.1.0) nothing_known [] later _ w2
                (map_err in_upload (begin_id value)) w2
                ((Logs-lift events_of (map_err in_upload (begin_id value))).at w2)
                (λ upload_id _. transact-Ended upload_id value w2)))

  -- The events after a transfer, and what it returned.
  pub record IsRecorded (after : Result CheckpointError Journal × World) : Type 0 where
    pub upload_id : ℕ
    pub final : Journal
    pub settled_is : IsSettled upload_id final
    pub rest : List Event
    pub order : transfer_events upload_id final ≡ after.1.events ++ rest
    pub ends : ((after.0 ≡ ok final) × (rest ≡ [])) ⊎ ((e : CheckpointError) × (after.0 ≡ err e))

  ends_lem :
      (r : Result CheckpointError Journal) (final : Journal) (rest : List Event)
      → ((j : Journal) → r ≡ ok j → j ≡ final)
      → ((j : Journal) → r ≡ ok j → rest ≡ [])
      → ((r ≡ ok final) × (rest ≡ [])) ⊎ ((e : CheckpointError) × (r ≡ err e))
  ends_lem (ok j) final rest h k = inl (ap ok (h j refl), k j refl)
  ends_lem (err e) final rest h k = inr (e, refl)

  -- Whatever the device and the disk answer, what a transfer saves and sends is an initial part of: the journal in
  -- staging, `flash.begin`, the capsule's chunks in order, `flash.finish`, the journal with the intent and one attempt, one
  -- `flash.commit`, and the journal with the outcome, which is committing only after a reply that says so. A
  -- transfer that returns has done all of it, and returns what it saved last.
  pub transfer-IsRecorded :
      (w : World) → w.events ≡ [] → IsRecorded (transfer hexdigest boot_id capsule w)
  transfer-IsRecorded w empty =
      let e = transfer-Ended w in
      let p = e.part in
      record {
        upload_id = e.index.0;
        final = e.index.1.0;
        settled_is = e.index.1.1;
        rest = p.rest;
        order = p.split ∙ ap (λ l. l ++ p.rest) (sym (p.log_is ∙ ap (λ l. l ++ p.done) empty));
        ends = ends_lem _ e.index.1.0 p.rest e.returned p.all;
      }
