-- ===== src/Uf2/Resident.antt =====
-- `checked_resident_bytes` accepts exactly the well-formed resident images.
use firmingo.Common.{
  ℕ, ◌+◌, ◌≤◌, ◌<◌, ◌%◌, ◌/◌, ◌≡◌, ◌↔◌, refl, sym, subst, List, [], ◌∷◌, map, ok, not, ◌||◌, ◌==◌,
  raise_if, length, arith, >>=-eq-ok, All,
}
use firmingo.Common.Bytes.{
  Bytes, HasLength, pieces-HasLength, pieces, Absent, Distinct, contains_iff,
}
use firmingo.Uf2.{
  magic_start0, magic_start1, magic_end, family, slot, flash_start, bad_size, word, address_of,
  check_block, check_blocks, checked_resident_bytes,
}

-- The frame of a block that carries 256 bytes, number `index` of `total`.
pub record IsBlock (total index : ℕ) (block : Bytes) : Type 0 where
  pub start0 : word 0 block ≡ magic_start0
  pub start1 : word 4 block ≡ magic_start1
  pub flags : word 8 block ≡ 0x2000
  pub size : word 16 block ≡ 256
  pub number : word 20 block ≡ index
  pub count : word 24 block ≡ total
  pub family_id : word 28 block ≡ family
  pub end : word 508 block ≡ magic_end

-- The block writes 256 aligned bytes inside the flash that is reserved for the resident.
pub record InReservation (block : Bytes) : Type 0 where
  pub above : flash_start ≤ address_of block
  pub below : address_of block < slot
  pub aligned : address_of block % 256 ≡ 0

abbrev pub IsResidentBlock : ℕ → ℕ → Bytes → Type 0
IsResidentBlock total index block = IsBlock total index block × InReservation block

-- The blocks are numbered from `index` on.
abbrev pub InOrder : (ℕ → Bytes → Type 0) → ℕ → List Bytes → Type 0
InOrder P index [] = Unit
InOrder P index (block ∷ blocks) = P index block × InOrder P (index + 1) blocks

abbrev pub addresses : List Bytes → List ℕ
addresses = map address_of

pub check_block_sound :
    (total index : ℕ) (seen : List ℕ) (block : Bytes) {a : ℕ}
    → check_block total index seen block ≡ ok a
    → IsResidentBlock total index block × (a ≡ address_of block) × Absent (address_of block) seen
unfolding check_block
check_block_sound total index seen block h =
    ground (arith, (contains_iff (address_of block) seen).0)

pub check_block_complete :
    (total index : ℕ) (seen : List ℕ) (block : Bytes)
    → IsResidentBlock total index block
    → Absent (address_of block) seen
    → check_block total index seen block ≡ ok (address_of block)
unfolding check_block
check_block_complete total index seen block (b, r) a =
    ground (arith, (contains_iff (address_of block) seen).1 a)

abbrev Fresh : List ℕ → List Bytes → Type 0
Fresh seen = All (λ b. Absent (address_of b) seen)

Fresh-cons :
    (a : ℕ) (seen : List ℕ) (blocks : List Bytes)
    → Fresh (a ∷ seen) blocks ↔ (Absent a (addresses blocks) × Fresh seen blocks)
Fresh-cons a seen [] = (λ h. (tt, tt), λ h. tt)
Fresh-cons a seen (b ∷ blocks) = (
  λ h. let (x, y) = (Fresh-cons a seen blocks).0 h.1 in (((λ e. h.0.0 (sym e)), x), (h.0.1, y)),
  λ h. (((λ e. h.0.0 (sym e)), h.1.0), (Fresh-cons a seen blocks).1 (h.0.1, h.1.1)),
)

check_blocks_sound :
    (total index : ℕ) (seen : List ℕ) (blocks : List Bytes)
    → check_blocks total index seen blocks ≡ ok tt
    → InOrder (IsResidentBlock total) index blocks × Distinct (addresses blocks) × Fresh seen blocks
unfolding check_blocks
check_blocks_sound total index seen [] h = (tt, tt, tt)
check_blocks_sound total index seen (block ∷ blocks) h =
    let (a, first, rest) = >>=-eq-ok (check_block total index seen block) _ h in
    let (is_block, a_eq, absent) = check_block_sound total index seen block first in
    let (order, distinct, fresh) = check_blocks_sound total (index + 1) (a ∷ seen) blocks rest in
    let (new, fresh') = (Fresh-cons a seen blocks).0 fresh in
    (
      (is_block, order),
      (subst (λ t. Absent t (addresses blocks)) a_eq new, distinct),
      (absent, fresh'),
    )

check_blocks_complete :
    (total index : ℕ) (seen : List ℕ) (blocks : List Bytes)
    → InOrder (IsResidentBlock total) index blocks
    → Distinct (addresses blocks)
    → Fresh seen blocks
    → check_blocks total index seen blocks ≡ ok tt
unfolding check_blocks
check_blocks_complete total index seen [] o d f = refl
check_blocks_complete total index seen (block ∷ blocks) o d f =
    rw (check_block_complete total index seen block o.0 f.0) (
      check_blocks_complete total (index + 1) (address_of block ∷ seen) blocks o.1 d.1
        ((Fresh-cons (address_of block) seen blocks).1 (d.0, f.1)))

-- A resident image: whole blocks, numbered from 0, inside the reservation, at distinct addresses.
pub record IsResident (image : Bytes) (blocks : List Bytes) : Type 0 where
  pub whole : length image % 512 ≡ 0
  pub some_block : 0 < length image
  pub cut : blocks ≡ pieces 512 image
  pub order : InOrder (IsResidentBlock (length blocks)) 0 blocks
  pub distinct : Distinct (addresses blocks)

Fresh-nothing : (blocks : List Bytes) → Fresh [] blocks
Fresh-nothing [] = tt
Fresh-nothing (b ∷ blocks) = (tt, Fresh-nothing blocks)

checked_sound :
    (image : Bytes) {blocks : List Bytes}
    → checked_resident_bytes image ≡ ok blocks
    → IsResident image blocks
unfolding checked_resident_bytes
checked_sound image {blocks} h =
    let (_, size_ok, rest) =
      >>=-eq-ok (raise_if (length image == 0 || not (length image % 512 == 0)) bad_size) _ h in
    let (_, loop, done) =
      >>=-eq-ok (check_blocks (length (pieces 512 image)) 0 [] (pieces 512 image)) _ rest in
    let (order, distinct, _) =
      check_blocks_sound (length (pieces 512 image)) 0 [] (pieces 512 image) loop in
    let same : pieces 512 image ≡ blocks = cc done in
    record {
      whole = ground (arith, size_ok);
      some_block = ground (arith, size_ok);
      cut = sym same;
      order = subst (λ bs. InOrder (IsResidentBlock (length bs)) 0 bs) same order;
      distinct = subst (λ bs. Distinct (addresses bs)) same distinct;
    }

checked_complete :
    (image : Bytes) (blocks : List Bytes)
    → IsResident image blocks
    → checked_resident_bytes image ≡ ok blocks
unfolding checked_resident_bytes
checked_complete image blocks r =
    let loop =
      check_blocks_complete (length blocks) 0 [] blocks r.order r.distinct (Fresh-nothing blocks) in
    ground (arith, r.whole, r.some_block, r.cut, loop)

-- `checked_resident_bytes` returns `blocks` exactly when they are the 512-byte pieces of a non-empty
-- image of whole blocks, every block has the UF2 frame and is numbered by its place, every block writes
-- 256 aligned bytes inside the resident's reservation, and no two blocks have one address.
pub checked_resident_bytes-IsResident :
    (image : Bytes) (blocks : List Bytes)
    → (checked_resident_bytes image ≡ ok blocks) ↔ IsResident image blocks
checked_resident_bytes-IsResident image blocks =
    (checked_sound image, checked_complete image blocks)

pub IsResident-HasLength :
    (image : Bytes) (blocks : List Bytes) → IsResident image blocks → All (HasLength 512) blocks
IsResident-HasLength image blocks r =
    rw r.cut
      ((pieces-HasLength 512 (length image / 512) image (omega arith) (omega (arith, r.whole))).0)
