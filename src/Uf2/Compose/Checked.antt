-- ===== src/Uf2/Compose/Checked.antt =====
-- What `compose` returns: its frames, and the bytes that it writes.
use firmingo.Common.{
  ℕ, ◌+◌, ◌-◌, ◌≤◌, ◌<◌, ◌≡◌, refl, sym, ap, subst, ◌∙◌, not, ◌&&◌, some, ◌≢◌, List, [], ◌∷◌,
  length, get_elem?, join, arith, ltb, leb, if◌then◌else◌, ok, ◌==◌, raise_if, map_err,
  map_err-eq-ok, >>=-eq-ok,
}
use firmingo.Common.Bytes.{Bytes, pieces, pieces-join}
use firmingo.Uf2.{slot, checked_resident_bytes}
use firmingo.Uf2.Resident.{IsBlock, InOrder, IsResident, checked_resident_bytes-IsResident}
use firmingo.Uf2.Memory.{places, read_byte, read_byte-Elsewhere}
use firmingo.Uf2.Capsule.{checked_capsule}
use firmingo.Uf2.Compose.{
  sector_bytes, in_resident, in_capsule, capsule_too_big, other_api, padded_sector, composite,
  compose,
}
use firmingo.Uf2.Compose.Layout.{resident-Elsewhere}
use firmingo.Uf2.Compose.Image.{
  composite-HasLength, length-composite, composite-IsBlock, read_byte-composite,
  length-padded_sector,
}

-- What a successful `compose` went through.
pub record Composed (resident capsule image : Bytes) : Type 0 where
  pub blocks : List Bytes
  pub accepted : checked_resident_bytes resident ≡ ok blocks
  pub small : length capsule ≤ sector_bytes
  pub joined : image ≡ join (composite blocks (padded_sector capsule))

pub compose-Composed :
    (sha256 : Bytes → Bytes) (resident capsule : Bytes) (api : ℕ) {image : Bytes}
    → compose sha256 resident capsule api ≡ ok image
    → Composed resident capsule image
unfolding compose
compose-Composed sha256 resident capsule api h =
    let (blocks, first, rest) =
      >>=-eq-ok (map_err in_resident (checked_resident_bytes resident)) _ h in
    let (_, small, rest2) =
      >>=-eq-ok (raise_if (ltb sector_bytes (length capsule)) capsule_too_big) _ rest in
    let (found, _, rest3) =
      >>=-eq-ok (map_err in_capsule (checked_capsule sha256 capsule)) _ rest2 in
    let (_, _, done) = >>=-eq-ok (raise_if (not (found == api)) other_api) _ rest3 in
    record {
      blocks = blocks;
      accepted = map_err-eq-ok in_resident (checked_resident_bytes resident) first;
      small = ground (arith, small);
      joined = cc done;
    }

pub Composed-IsResident :
    {resident capsule image : Bytes} (c : Composed resident capsule image)
    → IsResident resident c.blocks
Composed-IsResident {resident} c =
    (checked_resident_bytes-IsResident resident c.blocks).0 c.accepted

Composed-pieces :
    {resident capsule image : Bytes} (c : Composed resident capsule image)
    → pieces 512 image ≡ composite c.blocks (padded_sector capsule)
Composed-pieces {resident} {capsule} c =
    ap (pieces 512) c.joined
    ∙ pieces-join 512 (composite c.blocks (padded_sector capsule)) (omega arith) (
        composite-HasLength resident c.blocks (Composed-IsResident c) (padded_sector capsule)
          (length-padded_sector capsule c.small))

-- The two properties of an image that is composed.
pub Composed-InOrder :
    {resident capsule image : Bytes} (c : Composed resident capsule image)
    → InOrder (IsBlock (length (pieces 512 image))) 0 (pieces 512 image)
      × (length (pieces 512 image) ≡ length (pieces 512 resident) + 16)
Composed-InOrder {resident} {capsule} c =
    let r = Composed-IsResident c in
    let sector = padded_sector capsule in
    let full = length-padded_sector capsule c.small in
    let count = length-composite resident c.blocks r sector full in
    rw (Composed-pieces c) (
      subst (λ n. InOrder (IsBlock n) 0 (composite c.blocks sector)) (sym count)
          (composite-IsBlock resident c.blocks r sector full),
      count ∙ ap (λ bs. length bs + 16) r.cut,
    )

pub read_byte-Composed :
    {resident capsule image : Bytes} (c : Composed resident capsule image) (a : ℕ)
    → read_byte (places (pieces 512 image)) a ≡ (
        if leb slot a && ltb a (slot + sector_bytes)
        then get_elem? (padded_sector capsule) (a - slot)
        else read_byte (places (pieces 512 resident)) a)
read_byte-Composed {resident} {capsule} c a =
    let r = Composed-IsResident c in
    rw (Composed-pieces c) (
      rw (← r.cut) (
        read_byte-composite resident c.blocks r (padded_sector capsule)
          (length-padded_sector capsule c.small) a))

-- When `compose` returns an image, its blocks have the UF2 frame and are numbered from 0 to their count,
-- and there are sixteen more of them than the resident image has.
pub compose-InOrder :
    (sha256 : Bytes → Bytes) (resident capsule : Bytes) (api : ℕ) {image : Bytes}
    → compose sha256 resident capsule api ≡ ok image
    → InOrder (IsBlock (length (pieces 512 image))) 0 (pieces 512 image)
      × (length (pieces 512 image) ≡ length (pieces 512 resident) + 16)
compose-InOrder sha256 resident capsule api made =
    Composed-InOrder (compose-Composed sha256 resident capsule api made)

-- When `compose` returns an image, that image writes at each address of the slot's first sector the byte
-- of the capsule, or 0xff behind the capsule's end, and at any other address what the resident image writes.
pub read_byte-compose :
    (sha256 : Bytes → Bytes) (resident capsule : Bytes) (api : ℕ) {image : Bytes}
    → compose sha256 resident capsule api ≡ ok image
    → (a : ℕ)
    → read_byte (places (pieces 512 image)) a ≡ (
        if leb slot a && ltb a (slot + sector_bytes)
        then get_elem? (padded_sector capsule) (a - slot)
        else read_byte (places (pieces 512 resident)) a)
read_byte-compose sha256 resident capsule api made a =
    read_byte-Composed (compose-Composed sha256 resident capsule api made) a

first_byte : (xs : Bytes) → 0 < length xs → (b : ℕ) × (get_elem? xs 0 ≡ some b)
first_byte [] h = absurd (omega arith)
first_byte (x ∷ xs) h = (x, refl)

-- An image that `compose` returns is never accepted as a resident image.
pub compose-not-resident :
    (sha256 : Bytes → Bytes) (resident capsule : Bytes) (api : ℕ) {image : Bytes}
    (blocks : List Bytes)
    → compose sha256 resident capsule api ≡ ok image
    → checked_resident_bytes image ≢ ok blocks
compose-not-resident sha256 resident capsule api {image} blocks made accepted =
    let c = compose-Composed sha256 resident capsule api made in
    let own = (checked_resident_bytes-IsResident image blocks).0 accepted in
    let (b, is_b) =
      first_byte (padded_sector capsule) (omega (arith, length-padded_sector capsule c.small)) in
    let nothing =
      read_byte-Elsewhere slot (places blocks)
        (resident-Elsewhere (length blocks) 0 slot blocks own.order (omega arith)) in
    cc (read_byte-compose sha256 resident capsule api made slot, is_b, nothing, own.cut)
