-- ===== src/Uf2/Compare/Sound.antt =====
-- `check_uf2` succeeds exactly when the image writes every byte that the segments load.
use firmingo.Common.{
  ℕ, zero, suc, ◌+◌, ◌-◌, ◌%◌, ◌<◌, ◌≡◌, ◌≢◌, ◌↔◌, refl, ap, ◌∙◌, true, none, some, List, [], ◌∷◌,
  ok, check, subst, map_err, map_err-eq-ok, >>=-eq-ok, length, get_elem?, All, ◌==◌, arith,
  Bool-cases, inl, inr,
}
use firmingo.Common.Bytes.{Bytes, pieces, Absent, Distinct}
use firmingo.Uf2.{address_of, payload_of, checked_resident_bytes}
use firmingo.Uf2.Resident.{
  IsResidentBlock, IsResident, InOrder, addresses, checked_resident_bytes-IsResident,
}
use firmingo.Uf2.Memory.{Place, places, covers, place_of, read_byte}
use firmingo.Uf2.Compare.{
  in_image, differs, image_get, byte_at, is_byte, compare_segment, compare_flash, check_uf2,
}

image_get-Absent :
    (blocks : List Bytes) (key : ℕ) → Absent key (addresses blocks) → image_get blocks key ≡ none
unfolding image_get
image_get-Absent [] key h = refl
image_get-Absent (b ∷ blocks) key h = ground (arith, image_get-Absent blocks key h.1)

-- The dictionary of aligned blocks at distinct addresses is the memory of the image.
image_get-read_byte :
    (old index : ℕ) (blocks : List Bytes) (a : ℕ)
    → InOrder (IsResidentBlock old) index blocks
    → Distinct (addresses blocks)
    → read_byte (places blocks) a ≡ byte_at (image_get blocks (a - a % 256)) (a % 256)
unfolding image_get read_byte
image_get-read_byte old index [] a o d = refl
image_get-read_byte old index (b ∷ blocks) a o d = elim (Bool-cases (covers (place_of b) a)) [
  | inl here ↦
      let aligned : address_of b % 256 ≡ 0 = o.0.1.aligned in
      let key : address_of b ≡ a - a % 256 = ground arith in
      let offset : a - address_of b ≡ a % 256 = ground arith in
      let alone : image_get blocks (a - a % 256) ≡ none =
        image_get-Absent blocks (a - a % 256) (subst (λ k. Absent k (addresses blocks)) key d.0) in
      let same : (address_of b == a - a % 256) ≡ true = ground (arith, key) in
      rw here (rw (alone, same) (ap (get_elem? (payload_of b)) offset))
  | inr there ↦
      let aligned : address_of b % 256 ≡ 0 = o.0.1.aligned in
      let key : address_of b ≢ a - a % 256 = ground arith in
      rw there (image_get-read_byte old (index + 1) blocks a o.1 d.1 ∙ ground (arith, key))
]

-- The image writes the bytes `xs` from `position` on.
abbrev pub Writes : List Bytes → ℕ → Bytes → Type 0
Writes blocks position xs =
    (k : ℕ) → k < length xs → read_byte (places blocks) (position + k) ≡ get_elem? xs k

pub Writes-cons :
    (blocks : List Bytes) (position x : ℕ) (xs : Bytes)
    → Writes blocks position (x ∷ xs)
      ↔ ((read_byte (places blocks) position ≡ some x) × Writes blocks (position + 1) xs)
Writes-cons blocks position x xs = (
  λ w. (
    ap (read_byte (places blocks)) (omega arith) ∙ w 0 (omega arith),
    λ k h. ap (read_byte (places blocks)) (omega arith) ∙ w (suc k) (omega arith),
  ),
  λ (first, rest) k h. at first rest k h,
)
  where
    at :
        read_byte (places blocks) position ≡ some x
        → Writes blocks (position + 1) xs
        → (k : ℕ) → k < length (x ∷ xs)
        → read_byte (places blocks) (position + k) ≡ get_elem? (x ∷ xs) k
    at first rest zero h = ap (read_byte (places blocks)) (omega arith) ∙ first
    at first rest (suc k) h = ap (read_byte (places blocks)) (omega arith) ∙ rest k (omega arith)

abbrev pub total_length : List Place → ℕ
total_length [] = 0
total_length (p ∷ flash) = length p.1 + total_length flash

module _ (blocks : List Bytes) where
  module _
      (memory : (a : ℕ)
        → read_byte (places blocks) a ≡ byte_at (image_get blocks (a - a % 256)) (a % 256)) where
    segment_sound :
        (position : ℕ) (xs : Bytes)
        → compare_segment blocks position xs ≡ ok tt
        → Writes blocks position xs
    unfolding compare_segment
    segment_sound position [] h = λ k l. absurd (omega arith)
    segment_sound position (x ∷ xs) h =
        let (_, first, rest) =
          >>=-eq-ok
            (check
              (is_byte (byte_at (image_get blocks (position - position % 256)) (position % 256)) x)
              differs)
            _ h in
        (Writes-cons blocks position x xs).1
          (ground (arith, first, memory position), segment_sound (position + 1) xs rest)

    segment_complete :
        (position : ℕ) (xs : Bytes)
        → Writes blocks position xs
        → compare_segment blocks position xs ≡ ok tt
    unfolding compare_segment
    segment_complete position [] w = refl
    segment_complete position (x ∷ xs) w =
        let (first, rest) = (Writes-cons blocks position x xs).0 w in
        let later = segment_complete (position + 1) xs rest in ground (arith, memory position)

    flash_sound :
        (compared : ℕ) (flash : List Place) {n : ℕ}
        → compare_flash blocks compared flash ≡ ok n
        → All (λ p. Writes blocks p.0 p.1) flash × (n ≡ compared + total_length flash)
    unfolding compare_flash
    flash_sound compared [] h = (tt, ground arith)
    flash_sound compared ((address, payload) ∷ flash) h =
        let (_, first, rest) = >>=-eq-ok (compare_segment blocks address payload) _ h in
        let (writes, count) = flash_sound (compared + length payload) flash rest in
        ((segment_sound address payload first, writes), omega arith)

    flash_complete :
        (compared : ℕ) (flash : List Place)
        → All (λ p. Writes blocks p.0 p.1) flash
        → compare_flash blocks compared flash ≡ ok (compared + total_length flash)
    unfolding compare_flash
    flash_complete compared [] w = ap ok (omega arith)
    flash_complete compared ((address, payload) ∷ flash) w =
        rw (segment_complete address payload w.0)
          (flash_complete (compared + length payload) flash w.1 ∙ ap ok (omega arith))

-- `check_uf2` returns `n` exactly when the image is a resident image that writes every byte of every
-- segment at the segment's address plus the byte's offset, and `n` is the number of those bytes.
pub check_uf2_iff :
    (image : Bytes) (flash : List Place) (n : ℕ)
    → (check_uf2 image flash ≡ ok n) ↔ (
        (IsResident image (pieces 512 image))
        × All (λ p. Writes (pieces 512 image) p.0 p.1) flash
        × (n ≡ total_length flash))
unfolding check_uf2
check_uf2_iff image flash n = (sound, complete)
  where
    sound :
        check_uf2 image flash ≡ ok n
        → (IsResident image (pieces 512 image))
          × All (λ p. Writes (pieces 512 image) p.0 p.1) flash
          × (n ≡ total_length flash)
    sound h =
        let (blocks, accepted, rest) =
          >>=-eq-ok (map_err in_image (checked_resident_bytes image)) _ h in
        let r =
          (checked_resident_bytes-IsResident image blocks).0
            (map_err-eq-ok in_image (checked_resident_bytes image) accepted) in
        let (writes, count) =
          flash_sound blocks
            (λ a. image_get-read_byte (length blocks) 0 blocks a r.order r.distinct) 0 flash rest in
        (
          subst (IsResident image) r.cut r,
          subst (λ bs. All (λ p. Writes bs p.0 p.1) flash) r.cut writes,
          omega arith,
        )

    complete :
        (IsResident image (pieces 512 image))
          × All (λ p. Writes (pieces 512 image) p.0 p.1) flash
          × (n ≡ total_length flash)
        → check_uf2 image flash ≡ ok n
    complete (r, writes, count) =
        rw ((checked_resident_bytes-IsResident image (pieces 512 image)).1 r) (
          flash_complete (pieces 512 image)
            (λ a.
              image_get-read_byte (length (pieces 512 image)) 0 (pieces 512 image) a r.order
                r.distinct)
            0 flash writes
          ∙ ap ok (omega arith))
