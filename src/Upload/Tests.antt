-- ===== src/Upload/Tests.antt =====
-- Runs of experiments/managed_sketch/fmgo_upload.py with a capsule of two chunks.
use firmingo.Common.{◌≤◌, ◌≡◌, refl, true, false, [], ◌∷◌, ◌++◌, replicate}
use firmingo.Common.Bytes.{Bytes}
use firmingo.Upload.Session.{Network}
use firmingo.Upload.Transfer.{selected, transfer}
use firmingo.Upload.Plan.{IsTransaction}
use firmingo.Upload.Order.{transfer_trace}
use firmingo.Upload.Commits.{commits, uploaded, transfer_bounded}
use firmingo.Upload.Success.{good_device}
use Prim.Native.String.{String}

abbrev no_hexdigest : Bytes → String
no_hexdigest data' = "00"

abbrev capsule : Bytes
capsule = replicate 1500 7

abbrev device : Network
device = good_device (selected no_hexdigest capsule 3) "boot" capsule

transfer_trace_example :
    IsTransaction "00" capsule true (transfer no_hexdigest capsule true (false ∷ []) device).1.sent
transfer_trace_example = transfer_trace no_hexdigest capsule true (false ∷ []) device refl

transfer_bounded_example :
    (commits (transfer no_hexdigest capsule true [] device).1.sent ≤ 1)
    × ((rest : Bytes) × (uploaded (transfer no_hexdigest capsule true [] device).1.sent ++ rest
          ≡ capsule))
transfer_bounded_example = transfer_bounded no_hexdigest capsule true [] device refl
