-- ===== src/Upload/Order.antt =====
-- The whole of `transfer` of experiments/managed_sketch/fmgo_upload.py: the order of its requests.
use firmingo.Common.{
  ℕ, ◌≡◌, refl, sym, ap, ◌∙◌, Bool, List, [], ◌∷◌, ◌++◌, Result, ok, err, append-nil, length, check,
  ◌&&◌, ltb, leb, inl, inr,
}
use firmingo.Common.Bytes.{Bytes}
use firmingo.Common.Run.{continue, ◌>>=◌}
use firmingo.Upload.Session.{
  Network, Session, Command, begin, UploadError, capsule_size, connect, request,
}
use firmingo.Upload.Transfer.{begin_id, max_size, selected, transact, conclude, transfer}
use firmingo.Common.Run.Logged.{LoggedPart}
use firmingo.Upload.Trace.{sent_of, sent-request, sent-connect}
use firmingo.Upload.Plan.{
  OnlyPolls, IsTransaction, stage_plan, commit_plan, transfer_plan, Sends-transact, polls-conclude,
}
use Prim.Native.String.{String}

continue_sent :
    {A B : Type 0} (P : List Command → Type 0) (r : Result UploadError A) (f : A → Session B)
    (w : Network)
    → P w.sent
    → ((a : A) → r ≡ ok a → P (f a w).1.sent)
    → P (continue r f w).1.sent
continue_sent P (ok a) f w h k = k a refl
continue_sent P (err e) f w h k = h

module _ (digest : String) (capsule : Bytes) (install : Bool) where
  first_request : Command
  first_request = begin (length capsule) digest

  -- The requests after the first.
  later : ℕ → List Command
  later upload_id = stage_plan upload_id capsule ++ commit_plan upload_id install

  nothing_sent : (log : List Command) → log ≡ [] → IsTransaction digest capsule install log
  nothing_sent log h = record {
    upload_id = 0;
    done = [];
    rest = transfer_plan 0 digest capsule install;
    polls = [];
    log_is = h;
    split = refl;
    only = tt;
    order = inl refl;
  }

  begun_only :
      (log : List Command)
      → log ≡ begin (length capsule) digest ∷ []
      → IsTransaction digest capsule install log
  begun_only log h = record {
    upload_id = 0;
    done = begin (length capsule) digest ∷ [];
    rest = stage_plan 0 capsule ++ commit_plan 0 install;
    polls = [];
    log_is = h;
    split = refl;
    only = tt;
    order = inl refl;
  }

  module _ {A : Type 0} (upload_id : ℕ) (w : Network) (after : Result UploadError A × Network) where
    stopped :
        w.sent ≡ begin (length capsule) digest ∷ []
        → LoggedPart sent_of (stage_plan upload_id capsule ++ commit_plan upload_id install) w after
        → IsTransaction digest capsule install after.1.sent
    stopped h part = record {
      upload_id = upload_id;
      done = begin (length capsule) digest ∷ part.done;
      rest = part.rest;
      polls = [];
      log_is =
          part.log_is
          ∙ ap (λ l. l ++ part.done) h
          ∙ sym (append-nil (begin (length capsule) digest ∷ part.done));
      split = ap (λ l. begin (length capsule) digest ∷ l) part.split;
      only = tt;
      order = inl refl;
    }

    polled :
        {B : Type 0} (final : Result UploadError B × Network)
        → w.sent ≡ begin (length capsule) digest ∷ []
        → (part : LoggedPart sent_of
            (stage_plan upload_id capsule ++ commit_plan upload_id install)
            w
            after)
        → part.rest ≡ []
        → OnlyPolls upload_id after.1 final
        → IsTransaction digest capsule install final.1.sent
    polled final h part whole o = record {
      upload_id = upload_id;
      done = begin (length capsule) digest ∷ part.done;
      rest = part.rest;
      polls = o.polls;
      log_is = o.log ∙ ap (λ l. l ++ o.polls) (part.log_is ∙ ap (λ l. l ++ part.done) h);
      split = ap (λ l. begin (length capsule) digest ∷ l) part.split;
      only = o.all;
      order = inr whole;
    }

-- When nothing was sent before, the requests `transfer` sends are, whatever the network answers, an initial part of `flash.begin`, the
-- capsule's chunks in order, `flash.finish` and, only with `install`, one `flash.commit`; and after the
-- complete sequence, status requests about the same upload, and nothing else.
pub transfer_trace :
    (hexdigest : Bytes → String) (capsule : Bytes) (install : Bool) (lates : List Bool)
    (w : Network)
    → w.sent ≡ []
    → IsTransaction
        (hexdigest capsule)
        capsule
        install
        (transfer hexdigest capsule install lates w).1.sent
unfolding transfer ◌>>=◌
transfer_trace hexdigest capsule install lates w fresh =
    let digest = hexdigest capsule in
    let P : List Command → Type 0 = IsTransaction digest capsule install in
    let c = begin (length capsule) digest in
    let v : Network = (connect w).1 in
    let u : Network = (request c v).1 in
    let quiet : v.sent ≡ [] = sent-connect w ∙ fresh in
    let one : u.sent ≡ c ∷ [] = sent-request c v ∙ ap (λ l. l ++ (c ∷ [])) quiet in
    continue_sent P (check (ltb 256 (length capsule) && leb (length capsule) max_size) capsule_size)
      _ w (nothing_sent digest capsule install w.sent fresh)
      (λ _ _.
        continue_sent P (connect w).0 _ v (nothing_sent digest capsule install v.sent quiet)
          (λ boot_id _.
            continue_sent P (request c v).0 _ u (begun_only digest capsule install u.sent one)
              (λ first _.
                continue_sent P (begin_id first) _ u (begun_only digest capsule install u.sent one)
                  (λ upload_id _.
                    let t = selected hexdigest capsule upload_id in
                    let after = transact t first capsule install u in
                    let part = (Sends-transact t first capsule install).at u in
                    continue_sent P after.0 _ after.1
                      (stopped digest capsule install upload_id u after one part)
                      (λ lost e.
                        polled digest capsule install upload_id u after
                          (conclude boot_id t install lates lost after.1) one part (part.all lost e)
                          (polls-conclude boot_id t install lates lost after.1))))))
