-- ===== src/Upload/Commits.antt =====
-- What the requests of `transfer` of experiments/managed_sketch/fmgo_upload.py carry: how often a commit
-- is asked for, and which bytes are staged.
use firmingo.Common.{
  ℕ, ◌+◌, ◌≤◌, ◌≡◌, refl, sym, ap, ap₂, ◌∙◌, Bool, true, false, List, [], ◌∷◌, ◌++◌, append_assoc,
  append-nil, length, join, if◌then◌else◌, arith,
}
use firmingo.Common.Bytes.{Bytes, pieces, join-pieces}
use firmingo.Upload.Session.{Network, Command, begin, chunk, finish, commit, status}
use firmingo.Upload.Transfer.{chunk_size, transfer}
use firmingo.Upload.Plan.{chunk_plan, stage_plan, commit_plan, transfer_plan, Polls, IsTransaction}
use firmingo.Upload.Order.{transfer_trace}
use Prim.Native.String.{String}

abbrev pub is_commit : Command → Bool
is_commit (commit upload_id) = true
is_commit _ = false

-- How many of the requests are commits.
abbrev pub commits : List Command → ℕ
commits [] = 0
commits (c ∷ cs) = (if is_commit c then 1 else 0) + commits cs

-- The bytes that the chunks among the requests carry, in order.
abbrev pub uploaded : List Command → Bytes
uploaded [] = []
uploaded (chunk upload_id offset part ∷ cs) = part ++ uploaded cs
uploaded (begin size digest ∷ cs) = uploaded cs
uploaded (finish upload_id ∷ cs) = uploaded cs
uploaded (commit upload_id ∷ cs) = uploaded cs
uploaded (status upload_id ∷ cs) = uploaded cs

commits-append : (cs ds : List Command) → commits (cs ++ ds) ≡ commits cs + commits ds
commits-append [] ds = omega arith
commits-append (c ∷ cs) ds = omega (arith, commits-append cs ds)

commits-Polls : (upload_id : ℕ) (cs : List Command) → Polls upload_id cs → commits cs ≡ 0
commits-Polls upload_id [] h = refl
commits-Polls upload_id (c ∷ cs) h =
    omega (arith, ap (λ d. commits (d ∷ cs)) h.0, commits-Polls upload_id cs h.1)

commits-chunk_plan :
    (upload_id offset : ℕ) (parts : List Bytes) → commits (chunk_plan upload_id offset parts) ≡ 0
commits-chunk_plan upload_id offset [] = refl
commits-chunk_plan upload_id offset (part ∷ parts) =
    omega (arith, commits-chunk_plan upload_id (offset + length part) parts)

abbrev pub allowed : Bool → ℕ
allowed install = if install then 1 else 0

commits-commit_plan :
    (upload_id : ℕ) (install : Bool) → commits (commit_plan upload_id install) ≡ allowed install
commits-commit_plan upload_id true = refl
commits-commit_plan upload_id false = refl

commits-transfer_plan :
    (upload_id : ℕ) (digest : String) (capsule : Bytes) (install : Bool)
    → commits (transfer_plan upload_id digest capsule install) ≡ allowed install
commits-transfer_plan upload_id digest capsule install =
    let parts = pieces chunk_size capsule in
    omega (
      arith,
      commits-append (stage_plan upload_id capsule) (commit_plan upload_id install),
      commits-append (chunk_plan upload_id 0 parts) (finish upload_id ∷ []),
      commits-chunk_plan upload_id 0 parts,
      commits-commit_plan upload_id install,
    )

commits-IsTransaction :
    (digest : String) (capsule : Bytes) (install : Bool) (log : List Command)
    → IsTransaction digest capsule install log
    → commits log ≤ allowed install
commits-IsTransaction digest capsule install log t = omega (
  arith,
  ap commits t.log_is,
  ap commits t.split,
  commits-append t.done t.polls,
  commits-append t.done t.rest,
  commits-Polls t.upload_id t.polls t.only,
  commits-transfer_plan t.upload_id digest capsule install,
)

-- When nothing was sent before, `transfer` asks for a commit at most once, whatever the network answers, and
-- never without `install`.
pub transfer-commits :
    (hexdigest : Bytes → String) (capsule : Bytes) (install : Bool) (lates : List Bool)
    (w : Network)
    → w.sent ≡ []
    → commits (transfer hexdigest capsule install lates w).1.sent ≤ allowed install
transfer-commits hexdigest capsule install lates w fresh =
    commits-IsTransaction (hexdigest capsule) capsule install _
      (transfer_trace hexdigest capsule install lates w fresh)

uploaded-append : (cs ds : List Command) → uploaded (cs ++ ds) ≡ uploaded cs ++ uploaded ds
uploaded-append [] ds = refl
uploaded-append (chunk upload_id offset part ∷ cs) ds =
    ap (λ l. part ++ l) (uploaded-append cs ds)
    ∙ sym (append_assoc part (uploaded cs) (uploaded ds))
uploaded-append (begin size digest ∷ cs) ds = uploaded-append cs ds
uploaded-append (finish upload_id ∷ cs) ds = uploaded-append cs ds
uploaded-append (commit upload_id ∷ cs) ds = uploaded-append cs ds
uploaded-append (status upload_id ∷ cs) ds = uploaded-append cs ds

uploaded-Polls : (upload_id : ℕ) (cs : List Command) → Polls upload_id cs → uploaded cs ≡ []
uploaded-Polls upload_id [] h = refl
uploaded-Polls upload_id (c ∷ cs) h =
    ap (λ d. uploaded (d ∷ cs)) h.0 ∙ uploaded-Polls upload_id cs h.1

uploaded-chunk_plan :
    (upload_id offset : ℕ) (parts : List Bytes)
    → uploaded (chunk_plan upload_id offset parts) ≡ join parts
uploaded-chunk_plan upload_id offset [] = refl
uploaded-chunk_plan upload_id offset (part ∷ parts) =
    ap (λ l. part ++ l) (uploaded-chunk_plan upload_id (offset + length part) parts)

uploaded-commit_plan :
    (upload_id : ℕ) (install : Bool) → uploaded (commit_plan upload_id install) ≡ []
uploaded-commit_plan upload_id true = refl
uploaded-commit_plan upload_id false = refl

uploaded-transfer_plan :
    (upload_id : ℕ) (digest : String) (capsule : Bytes) (install : Bool)
    → uploaded (transfer_plan upload_id digest capsule install) ≡ capsule
uploaded-transfer_plan upload_id digest capsule install =
    let parts = pieces chunk_size capsule in
    uploaded-append (stage_plan upload_id capsule) (commit_plan upload_id install)
    ∙ ap₂ (λ x y. x ++ y)
        (uploaded-append (chunk_plan upload_id 0 parts) (finish upload_id ∷ [])
          ∙ append-nil _
          ∙ uploaded-chunk_plan upload_id 0 parts)
        (uploaded-commit_plan upload_id install)
    ∙ append-nil _
    ∙ join-pieces chunk_size capsule (omega arith)

-- When nothing was sent before, the bytes `transfer` has staged, chunk after chunk, are, whatever the network
-- answers, an initial part of
-- the capsule.
pub transfer-uploaded :
    (hexdigest : Bytes → String) (capsule : Bytes) (install : Bool) (lates : List Bool)
    (w : Network)
    → w.sent ≡ []
    → (rest : Bytes) × (uploaded (transfer hexdigest capsule install lates w).1.sent ++ rest
        ≡ capsule)
transfer-uploaded hexdigest capsule install lates w fresh =
    let t = transfer_trace hexdigest capsule install lates w fresh in
    (
      uploaded t.rest,
      ap (λ l. l ++ uploaded t.rest)
            (ap uploaded t.log_is
              ∙ uploaded-append t.done t.polls
              ∙ ap (λ l. uploaded t.done ++ l) (uploaded-Polls t.upload_id t.polls t.only)
              ∙ append-nil _)
          ∙ sym (uploaded-append t.done t.rest)
          ∙ ap uploaded (sym t.split)
          ∙ uploaded-transfer_plan t.upload_id (hexdigest capsule) capsule install,
    )

-- When nothing was sent before, and whatever the network answers: `transfer` asks for a commit at most once, and never
-- without `install`; and the bytes that it has staged, chunk after chunk, are an initial part of the capsule.
pub transfer_bounded :
    (hexdigest : Bytes → String) (capsule : Bytes) (install : Bool) (lates : List Bool)
    (w : Network)
    → w.sent ≡ []
    → (commits (transfer hexdigest capsule install lates w).1.sent ≤ allowed install)
      × ((rest : Bytes) × (uploaded (transfer hexdigest capsule install lates w).1.sent ++ rest
            ≡ capsule))
transfer_bounded hexdigest capsule install lates w fresh = (
  transfer-commits hexdigest capsule install lates w fresh,
  transfer-uploaded hexdigest capsule install lates w fresh,
)
