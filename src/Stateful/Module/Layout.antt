-- ===== src/Stateful/Module/Layout.antt =====
-- The layout of an FMS2 capsule, read back from its bytes.
use firmingo.Common.{
  ℕ, ◌+◌, ◌≤◌, ◌≡◌, refl, sym, ap, ◌∙◌, List, [], ◌∷◌, ◌++◌, ok, length, map, take, drop, replicate,
  length-append, take-append_eq, drop-append_eq, append_assoc, arith,
}
use firmingo.Common.Bytes.{Bytes, slice, pieces, unpack_le, ascii}
use firmingo.Stateful.Contract.{Contract}
use firmingo.Stateful.Module.{code_address, Parts, capsule_words, packed, Extents, module_capsule}
use firmingo.Stateful.Module.Packed.{fms2_header_lem, read-packed, length-packed}
use firmingo.Stateful.Module.Sound.{module_capsule-IsMade}

-- The words of the header, from the reported extents.
abbrev pub header_words : Contract → Extents → List ℕ
header_words c e =
    0x4f4e414e
    ∷ c.api_address
    ∷ code_address
    ∷ e.code_bytes
    ∷ e.setup_address
    ∷ e.loop_address
    ∷ c.state
    ∷ e.data_bytes
    ∷ (c.state + e.data_bytes)
    ∷ e.bss_bytes
    ∷ (256 + e.code_bytes)
    ∷ (256 + e.code_bytes + e.data_bytes)
    ∷ 0
    ∷ 0
    ∷ []

pub record IsCapsule (sha256 : Bytes → Bytes) (c : Contract) (capsule : Bytes) (e : Extents)
    : Type 0 where
  pub size : length capsule ≡ 256 + e.code_bytes + e.data_bytes
  pub fits : length capsule ≤ c.maximum
  pub magic : take 8 capsule ≡ ascii "FMS2" ++ (2 ∷ 0 ∷ 128 ∷ 0 ∷ [])
  pub words : map unpack_le (pieces 4 (slice 8 56 capsule)) ≡ header_words c e
  pub payload_digest : slice 64 32 capsule ≡ sha256 (drop 256 capsule)
  pub header_digest : slice 96 32 capsule ≡ sha256 (take 96 capsule)

module _ (sha256 : Bytes → Bytes) (fixed : (bytes : Bytes) → length (sha256 bytes) ≡ 32) where
  -- Four parts of known sizes, cut apart again.
  parts_lem :
      (p s d z payload : Bytes)
      → length p ≡ 64
      → length s ≡ 32
      → length d ≡ 32
      → length z ≡ 128
      → (take 96 (((p ++ s) ++ (d ++ z)) ++ payload) ≡ p ++ s)
        × ((slice 64 32 (((p ++ s) ++ (d ++ z)) ++ payload) ≡ s)
            × ((slice 96 32 (((p ++ s) ++ (d ++ z)) ++ payload) ≡ d)
                × (drop 256 (((p ++ s) ++ (d ++ z)) ++ payload) ≡ payload)))
  parts_lem p s d z payload lp ls ld lz =
      let whole = ((p ++ s) ++ (d ++ z)) ++ payload in
      let ps : length (p ++ s) ≡ 96 = omega (arith, length-append p s) in
      let all : length ((p ++ s) ++ (d ++ z)) ≡ 256 =
        omega (arith, length-append (p ++ s) (d ++ z), length-append d z, ps) in
      let rest = (d ++ z) ++ payload in
      let flat : whole ≡ (p ++ s) ++ rest = append_assoc (p ++ s) (d ++ z) payload in
      let flat2 : whole ≡ p ++ (s ++ rest) = flat ∙ append_assoc p s rest in
      let flat3 : rest ≡ d ++ (z ++ payload) = append_assoc d z payload in
      (
        ap (take 96) flat ∙ take-append_eq 96 (p ++ s) rest ps,
        (
          ap (slice 64 32) flat2
              ∙ ap (take 32) (drop-append_eq 64 p (s ++ rest) lp)
              ∙ take-append_eq 32 s rest ls,
          (
            ap (slice 96 32) flat
                ∙ ap (take 32) (drop-append_eq 96 (p ++ s) rest ps)
                ∙ ap (take 32) flat3
                ∙ take-append_eq 32 d (z ++ payload) ld,
            drop-append_eq 256 ((p ++ s) ++ (d ++ z)) payload all,
          ),
        ),
      )

  length_lem :
      (p s d z payload : Bytes)
      → length p ≡ 64
      → length s ≡ 32
      → length d ≡ 32
      → length z ≡ 128
      → length (((p ++ s) ++ (d ++ z)) ++ payload) ≡ 256 + length payload
  length_lem p s d z payload lp ls ld lz = omega (
    arith,
    length-append ((p ++ s) ++ (d ++ z)) payload,
    length-append (p ++ s) (d ++ z),
    length-append p s,
    length-append d z,
  )

  words_lem :
      (c : Contract) (p : Parts) (e : Extents)
      → e.code_bytes ≡ length p.code
      → e.data_bytes ≡ length p.initialized
      → e.bss_bytes ≡ p.bss.size
      → capsule_words c p e.setup_address e.loop_address ≡ header_words c e
  words_lem c p e code data' bss = cc

  -- When `module_capsule` returns and SHA-256 gives 32 bytes, the capsule has the reported number of bytes and at most the
  -- maximum; its magic and sizes are those of FMS2; the fourteen words of its header, read back, are the board, the
  -- address of the interface, the reported extents and entries, and the ends of the code and of the data; and
  -- it holds the digest of all behind its header, and the digest of its first 96 bytes.
  pub module_capsule-IsCapsule :
      (file : Bytes) (c : Contract) {capsule : Bytes} {e : Extents}
      → module_capsule sha256 file c ≡ ok (capsule, e)
      → IsCapsule sha256 c capsule e
  module_capsule-IsCapsule file c {capsule} {e} h =
      let linked = module_capsule-IsMade sha256 file c h in
      let k = linked.packed in
      let code = linked.parts.code in
      let data' = linked.parts.initialized in
      let payload = code ++ data' in
      let (code_is, (data_is, bss_is)) = k.sizes in
      let words = capsule_words c linked.parts e.setup_address e.loop_address in
      let p = packed words in
      let s = sha256 payload in
      let d = sha256 (p ++ s) in
      let z : Bytes = replicate 128 0 in
      let is : capsule ≡ ((p ++ s) ++ (d ++ z)) ++ payload =
        k.capsule_is
        ∙ ap (λ header. header ++ payload) (fms2_header_lem sha256 fixed words payload refl) in
      let (first, (second, (third, fourth))) =
        parts_lem p s d z payload (length-packed words refl) (fixed payload) (fixed (p ++ s))
          refl in
      let size : length capsule ≡ 256 + e.code_bytes + e.data_bytes =
        ap length is
        ∙ length_lem p s d z payload (length-packed words refl) (fixed payload) (fixed (p ++ s))
            refl
        ∙ omega (arith, length-append code data', code_is, data_is) in
      let rest = s ++ ((d ++ z) ++ payload) in
      let flat : capsule ≡ p ++ rest =
        is ∙ append_assoc (p ++ s) (d ++ z) payload ∙ append_assoc p s ((d ++ z) ++ payload) in
      record {
        size = size;
        fits = omega (arith, size, code_is, data_is, linked.checked.placed.fits.1);
        magic = ap (take 8) is;
        words =
            ap (λ b. map unpack_le (pieces 4 (slice 8 56 b))) flat
            ∙ read-packed words rest refl k.words_fit
            ∙ words_lem c linked.parts e code_is data_is bss_is;
        payload_digest =
            ap (slice 64 32) is ∙ second ∙ ap sha256 (sym fourth ∙ ap (drop 256) (sym is));
        header_digest = ap (slice 96 32) is ∙ third ∙ ap sha256 (sym first ∙ ap (take 96) (sym is));
      }
