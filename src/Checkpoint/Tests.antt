-- ===== src/Checkpoint/Tests.antt =====
-- A transfer of a capsule of two chunks to a device that takes it and starts to write.
use firmingo.Common.{◌≡◌, refl, false, [], ◌∷◌, none, some, ok, replicate}
use firmingo.Common.Bytes.{Bytes, pieces, pieces_fuel}
use firmingo.Common.Run.{◌>>=◌}
use firmingo.Python.{lookup}
use firmingo.Upload.Session.{answered}
use firmingo.Upload.Snapshot.{snapshot, snapshot_dict, state_of, committing}
use firmingo.Upload.Transfer.{Selected}
use firmingo.Upload.Answers.{reply}
use firmingo.Checkpoint.{
  is_committing, Journal, World, save, request, ask, send_chunks, send_commit, stage, record_commit,
  transfer,
}
use firmingo.Checkpoint.Recorded.{IsRecorded, transfer-IsRecorded}
use Prim.Native.String.{String}

abbrev no_hexdigest : Bytes → String
no_hexdigest bytes = "00"

abbrev capsule : Bytes
capsule = replicate 1500 7

abbrev transaction : Selected
transaction = record { upload_id = 3; digest = "00"; size = 1500 }

abbrev world : World
world = record {
  replies =
      reply transaction "accepted" 0 false
      ∷ reply transaction "accepted" 1024 false
      ∷ reply transaction "accepted" 1500 false
      ∷ reply transaction "verified" 1500 false
      ∷ reply transaction "committing" 1500 false
      ∷ [];
  writes = replicate 3 (answered tt);
  events = [];
}

abbrev final : Journal
final = record {
  boot_id = "boot";
  digest = "00";
  size = 1500;
  state = is_committing;
  commit_attempts = 1;
  upload_id = some 3;
  reply = some (record { state = committing; received = 1500; slot_touched = false });
  cause = none;
}

returned : (transfer no_hexdigest "boot" capsule world).0 ≡ ok final
unfolding transfer record_commit save request ask send_chunks send_commit stage ◌>>=◌ snapshot
    snapshot_dict state_of lookup pieces pieces_fuel
returned = refl

transfer-IsRecorded_example :
    IsRecorded no_hexdigest "boot" capsule (transfer no_hexdigest "boot" capsule world)
transfer-IsRecorded_example = transfer-IsRecorded no_hexdigest "boot" capsule world refl
