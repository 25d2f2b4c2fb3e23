-- ===== src/Uf2/Capsule/Sound.antt =====
-- `checked_capsule` accepts exactly the well-formed capsules.
use firmingo.Common.{
  ℕ, ◌+◌, ◌%◌, ◌≤◌, ◌<◌, ◌≡◌, ◌↔◌, refl, sym, ap, subst, ◌∙◌, false, raise_if-eq-ok, [], ◌∷◌, ok,
  length, drop, arith, All,
}
use firmingo.Common.Bytes.{Bytes, slice, bytes_eq_iff}
use firmingo.Uf2.{slot, slot_end, flash_start, word}
use firmingo.Uf2.Capsule.{
  fms1, board_tag, half_word, any_set, bad_entry, api_outside_flash, bad_code_length,
  entry_outside_code, header_mismatch, nonzero_padding, outside_slot, sha_mismatch, bad_size,
  bad_header, bad_api, bad_code_size, bad_digest, checked_capsule,
}

-- A Thumb entry point inside the code: odd, and its instruction starts in the code.
pub record IsEntry (code_at code_bytes entry : ℕ) : Type 0 where
  pub odd : entry % 2 ≡ 1
  pub above : code_at < entry
  pub below : entry ≤ code_at + code_bytes

abbrev pub IsZero : ℕ → Type 0
IsZero b = b ≡ 0

-- A version-1 capsule for the slot: 256 bytes of header, and the code that the header's digest is about.
pub record IsCapsule (sha256 : Bytes → Bytes) (capsule : Bytes) (api : ℕ) : Type 0 where
  pub magic : slice 0 4 capsule ≡ fms1
  pub version : half_word 4 capsule ≡ 1
  pub header_size : half_word 6 capsule ≡ 64
  pub board : word 8 capsule ≡ board_tag
  pub api_is : api ≡ word 12 capsule
  pub api_above : flash_start ≤ api
  pub api_below : api < slot
  pub api_aligned : api % 4 ≡ 0
  pub code_at : word 16 capsule ≡ slot + 256
  pub code_length : length capsule ≡ word 20 capsule + 256
  pub some_code : 0 < word 20 capsule
  pub fits : slot + length capsule ≤ slot_end
  pub digest : sha256 (drop 256 capsule) ≡ slice 32 32 capsule
  pub setup : IsEntry (slot + 256) (word 20 capsule) (word 24 capsule)
  pub loop : IsEntry (slot + 256) (word 20 capsule) (word 28 capsule)
  pub padding : All IsZero (slice 64 192 capsule)

any_set_iff : (bs : Bytes) → (any_set bs ≡ false) ↔ All IsZero bs
unfolding any_set
any_set_iff [] = (λ h. tt, λ h. refl)
any_set_iff (b ∷ bs) =
    (λ h. ground (arith, (any_set_iff bs).0), λ h. ground (arith, (any_set_iff bs).1 h.1))

bad_entry_iff :
    (code_at code_bytes entry : ℕ)
    → (bad_entry code_at code_bytes entry ≡ false) ↔ IsEntry code_at code_bytes entry
unfolding bad_entry
bad_entry_iff code_at code_bytes entry = (
  λ h. record { odd = ground arith; above = ground arith; below = ground arith },
  λ e. ground (arith, e.odd, e.above, e.below),
)

bad_size_iff :
    (capsule : Bytes)
    → (bad_size capsule ≡ false) ↔ ((256 < length capsule) × (slot + length capsule ≤ slot_end))
bad_size_iff capsule = (λ h. ground arith, λ h. ground arith)

bad_api_iff :
    (api : ℕ) → (bad_api api ≡ false) ↔ ((flash_start ≤ api) × (api < slot) × (api % 4 ≡ 0))
bad_api_iff api = (λ h. ground arith, λ h. ground arith)

bad_code_size_iff :
    (capsule : Bytes)
    → (bad_code_size capsule ≡ false)
      ↔ ((0 < word 20 capsule) × (length capsule ≡ word 20 capsule + 256))
bad_code_size_iff capsule = (λ h. ground arith, λ h. ground arith)

bad_digest_iff :
    (sha256 : Bytes → Bytes) (capsule : Bytes)
    → (bad_digest sha256 capsule ≡ false) ↔ (sha256 (drop 256 capsule) ≡ slice 32 32 capsule)
bad_digest_iff sha256 capsule =
    let (same, eq) = bytes_eq_iff (sha256 (drop 256 capsule)) (slice 32 32 capsule) in
    (λ h. same (ground arith), λ h. rw (eq h) refl)

bad_header_iff :
    (capsule : Bytes)
    → (bad_header capsule ≡ false) ↔ (
        (slice 0 4 capsule ≡ fms1)
        × (half_word 4 capsule ≡ 1)
        × (half_word 6 capsule ≡ 64)
        × (word 8 capsule ≡ board_tag)
        × (word 16 capsule ≡ slot + 256))
bad_header_iff capsule =
    let (same, eq) = bytes_eq_iff (slice 0 4 capsule) fms1 in
    (λ h. ground (arith, same), λ h. ground (arith, eq h.0))

module _ (sha256 : Bytes → Bytes) (capsule : Bytes) (api : ℕ) where
  IsCapsule-checked : checked_capsule sha256 capsule ≡ ok api → IsCapsule sha256 capsule api
  unfolding checked_capsule
  IsCapsule-checked h =
      let (size, h1) = raise_if-eq-ok (bad_size capsule) outside_slot _ h in
      let (head, h2) = raise_if-eq-ok (bad_header capsule) header_mismatch _ h1 in
      let (place, h3) = raise_if-eq-ok (bad_api (word 12 capsule)) api_outside_flash _ h2 in
      let (code, h4) = raise_if-eq-ok (bad_code_size capsule) bad_code_length _ h3 in
      let (sha, h5) = raise_if-eq-ok (bad_digest sha256 capsule) sha_mismatch _ h4 in
      let (one, h6) =
        raise_if-eq-ok (bad_entry (word 16 capsule) (word 20 capsule) (word 24 capsule))
          entry_outside_code _ h5 in
      let (two, h7) =
        raise_if-eq-ok (bad_entry (word 16 capsule) (word 20 capsule) (word 28 capsule))
          entry_outside_code _ h6 in
      let (pad, h8) = raise_if-eq-ok (any_set (slice 64 192 capsule)) nonzero_padding _ h7 in
      let api_is : api ≡ word 12 capsule = cc (h8) in
      let (_, fits) = (bad_size_iff capsule).0 size in
      let (magic, version, header_size, board, code_at) = (bad_header_iff capsule).0 head in
      let (above, below, aligned) = (bad_api_iff (word 12 capsule)).0 place in
      let (some_code, code_length) = (bad_code_size_iff capsule).0 code in
      let entry : (e : ℕ)
          → bad_entry (word 16 capsule) (word 20 capsule) e ≡ false
          → IsEntry (slot + 256) (word 20 capsule) e =
        (λ e h.
          (bad_entry_iff (slot + 256) (word 20 capsule) e).0
            (ap (λ p. bad_entry p (word 20 capsule) e) (sym code_at) ∙ h)) in
      record {
        magic = magic;
        version = version;
        header_size = header_size;
        board = board;
        api_is = api_is;
        api_above = rw api_is above;
        api_below = rw api_is below;
        api_aligned = rw api_is aligned;
        code_at = code_at;
        code_length = code_length;
        some_code = some_code;
        fits = fits;
        digest = (bad_digest_iff sha256 capsule).0 sha;
        setup = entry (word 24 capsule) one;
        loop = entry (word 28 capsule) two;
        padding = (any_set_iff (slice 64 192 capsule)).0 pad;
      }

  checked-IsCapsule : IsCapsule sha256 capsule api → checked_capsule sha256 capsule ≡ ok api
  unfolding checked_capsule
  checked-IsCapsule c =
      let size : bad_size capsule ≡ false =
        (bad_size_iff capsule).1 (omega (arith, c.some_code, c.code_length), c.fits) in
      let head : bad_header capsule ≡ false =
        (bad_header_iff capsule).1 (c.magic, c.version, c.header_size, c.board, c.code_at) in
      let place : bad_api (word 12 capsule) ≡ false =
        subst (λ a. bad_api a ≡ false) c.api_is
          ((bad_api_iff api).1 (c.api_above, c.api_below, c.api_aligned)) in
      let code : bad_code_size capsule ≡ false =
        (bad_code_size_iff capsule).1 (c.some_code, c.code_length) in
      let sha : bad_digest sha256 capsule ≡ false = (bad_digest_iff sha256 capsule).1 c.digest in
      let one : bad_entry (word 16 capsule) (word 20 capsule) (word 24 capsule) ≡ false =
        ap (λ p. bad_entry p (word 20 capsule) (word 24 capsule)) c.code_at
        ∙ (bad_entry_iff (slot + 256) (word 20 capsule) (word 24 capsule)).1 c.setup in
      let two : bad_entry (word 16 capsule) (word 20 capsule) (word 28 capsule) ≡ false =
        ap (λ p. bad_entry p (word 20 capsule) (word 28 capsule)) c.code_at
        ∙ (bad_entry_iff (slot + 256) (word 20 capsule) (word 28 capsule)).1 c.loop in
      let pad : any_set (slice 64 192 capsule) ≡ false =
        (any_set_iff (slice 64 192 capsule)).1 c.padding in
      rw (size, head, place, code, sha, one, two, pad) (ap ok (sym c.api_is))

-- `checked_capsule` returns `api` exactly when the bytes are a version-1 capsule for the slot with that
-- interface address: the whole header is as documented, the entries lie in the code, the digest is
-- that of the code, the unused part of the header is zero, and the capsule fits into the slot.
pub checked_capsule_iff :
    (sha256 : Bytes → Bytes) (capsule : Bytes) (api : ℕ)
    → (checked_capsule sha256 capsule ≡ ok api) ↔ IsCapsule sha256 capsule api
checked_capsule_iff sha256 capsule api =
    (IsCapsule-checked sha256 capsule api, checked-IsCapsule sha256 capsule api)
