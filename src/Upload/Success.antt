-- ===== src/Upload/Success.antt =====
-- `transfer` of experiments/managed_sketch/fmgo_upload.py with a device that answers each request as the
-- protocol documents it.
use firmingo.Common.{true, false, [], ◌∷◌}
use firmingo.Common.Bytes.{Bytes, pieces}
use firmingo.Upload.Session.{Network, answered}
use firmingo.Upload.Transfer.{Selected, chunk_size}
use text.Mathlib.TextPositions.{eq_refl as str_eq_refl}
use Prim.Native.String.{String}
use firmingo.Upload.Answers.{reply, net, chunk_replies}

-- A device that stays on one boot, takes both connections and closes, and answers as docs/protocol.md has it: the slot is
-- untouched until the installation that the commit only queues, and it is touched when the boot is confirmed.
abbrev pub good_device : Selected → String → Bytes → Network
good_device t boot capsule =
    net (answered boot ∷ answered boot ∷ [])
      (reply t "accepted" 0 false
        ∷ chunk_replies t [] [] 0 (pieces chunk_size capsule) (
            reply t "verified" t.size false
            ∷ reply t "committing" t.size false
            ∷ reply t "boot_confirmed" t.size true
            ∷ []))
      (answered tt ∷ answered tt ∷ []) []
