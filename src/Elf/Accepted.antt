-- ===== src/Elf/Accepted.antt =====
-- What `resident_elf` and `check_uf2` of experiments/managed_sketch/export_resident.py establish together.
use firmingo.Common.{
  ℕ, ◌+◌, ◌-◌, ◌*◌, ◌%◌, ◌≤◌, ◌≡◌, ◌≢◌, sym, ap, subst, ◌∙◌, false, List, [], ◌∷◌, ok, >>=-eq-ok,
  raise_if-eq-ok, length, drop, All, arith, leb, not, ◌&&◌, map,
}
use firmingo.Common.Bytes.{Bytes, pieces, unpack_le}
use firmingo.Uf2.{flash_start, word}
use firmingo.Uf2.Capsule.{half_word}
use firmingo.Uf2.Memory.{Place}
use firmingo.Uf2.Compare.{check_uf2}
use firmingo.Uf2.Compare.Sound.{Writes, check_uf2_iff}
use firmingo.Elf.{
  Section, flash_end, extent, elf_size, not_arm, unsupported, not_readonly, exceeds_section,
  wrong_api, is_arm_executable, bad_limits, elf_limit, table_of, section_at, segment_at,
}
use firmingo.Elf.Symbols.{scan_sections, only_match, section_of}
use firmingo.Elf.Load.{load_segments}
use firmingo.Elf.Resident.{
  Facts, resident_elf, bad_place, bad_extent, bad_api, check_functions, facts_of,
}
use firmingo.Elf.Served.{InFlash, extent_lem, load_segments-Good}

-- The table of the interface that the resident serves, in the flash that the UF2 image writes.
pub record IsServed (blocks : List Bytes) (facts : Facts) (flash : List Place) : Type 0 where
  pub aligned : facts.api_address % 4 ≡ 0
  pub above : flash_start ≤ facts.api_address
  pub below : facts.api_address + 40 ≤ flash_end
  pub full : length facts.api ≡ 40
  pub magic : word 0 facts.api ≡ 0x49504146
  pub written : Writes blocks facts.api_address facts.api
  pub in_flash : All InFlash flash

facts_of-eq-ok :
    (address : ℕ) (api : Bytes) (functions : List ℕ) (flash : List Place) (mappings : List ℕ)
    {facts : Facts} {places' : List Place}
    → facts_of address api functions flash mappings ≡ ok (facts, places')
    → (facts.api_address ≡ address) × (facts.api ≡ api) × (places' ≡ flash) × (mappings ≢ [])
facts_of-eq-ok address api functions (place ∷ ps) (permissions ∷ []) {facts} {places'} h =
    let made : Facts = record {
      api_address = address;
      api = api;
      functions = functions;
      load_flags = permissions;
    } in
    let is : ◌≡◌ {A = Facts × List Place} (facts, places') (made, place ∷ ps) = cc h in
    (
      ap (λ (r : Facts × List Place). r.0.api_address) is,
      ap (λ (r : Facts × List Place). r.0.api) is,
      ap (λ (r : Facts × List Place). r.1) is,
      λ e. cc,
    )
facts_of-eq-ok address api functions (place ∷ ps) [] h = cc
facts_of-eq-ok address api functions (place ∷ ps) (p ∷ q ∷ ms) h = cc
facts_of-eq-ok address api functions [] ms h = cc

good_place :
    (address : ℕ) (section : Section)
    → bad_place address section ≡ false
    → (address % 4 ≡ 0) × (flash_start ≤ address) × (address + 40 ≤ flash_end)
good_place address section h = ground arith

good_magic : (api : Bytes) → bad_api api ≡ false → word 0 api ≡ 0x49504146
good_magic api h = ground arith

-- When `resident_elf` accepts an ELF file with `facts` and the flash bytes `flash`, and `check_uf2` accepts
-- a UF2 image against these bytes, then the table of the interface lies, aligned and with its magic number,
-- in the resident's reservation, the UF2 image writes each of its 40 bytes at its address, and all the
-- bytes that the ELF file loads lie in the reservation too.
pub resident_elf-IsServed :
    (elf image : Bytes) {facts : Facts} {flash : List Place} {n : ℕ}
    → resident_elf elf ≡ ok (facts, flash)
    → check_uf2 image flash ≡ ok n
    → IsServed (pieces 512 image) facts flash
unfolding resident_elf
resident_elf-IsServed elf image {facts} {flash} {n} h checked =
    let (_, h1) =
      raise_if-eq-ok (not (leb 52 (length elf) && leb (length elf) elf_limit)) elf_size _ h in
    let (_, h2) = raise_if-eq-ok (not (is_arm_executable elf)) not_arm _ h1 in
    let (_, h3) = raise_if-eq-ok (bad_limits elf) unsupported _ h2 in
    let (_, _, h4) = >>=-eq-ok (extent elf (word 28 elf) (half_word 44 elf * 32)) _ h3 in
    let (_, _, h5) = >>=-eq-ok (extent elf (word 32 elf) (half_word 48 elf * 40)) _ h4 in
    let sections = table_of (section_at elf) (word 32 elf) 40 (half_word 48 elf) in
    let segments = table_of (segment_at elf) (word 28 elf) 32 (half_word 44 elf) in
    let (matches, _, h6) = >>=-eq-ok (scan_sections elf sections sections) _ h5 in
    let ((address, index), _, h7) = >>=-eq-ok (only_match matches) _ h6 in
    let (section, _, h8) = >>=-eq-ok (section_of sections index) _ h7 in
    let (place, h9) = raise_if-eq-ok (bad_place address section) not_readonly _ h8 in
    let (_, h10) = raise_if-eq-ok (bad_extent address section) exceeds_section _ h9 in
    let (api, read, h11) =
      >>=-eq-ok (extent elf (section.offset + (address - section.addr)) 40) _ h10 in
    let (good_api, h12) = raise_if-eq-ok (bad_api api) wrong_api _ h11 in
    let (_, _, h13) =
      >>=-eq-ok (check_functions sections (map unpack_le (pieces 4 (drop 8 api)))) _ h12 in
    let (loaded, load, done) = >>=-eq-ok (load_segments elf address api segments) _ h13 in
    let (address_is, api_is, flash_is, some_map) =
      facts_of-eq-ok address api (map unpack_le (pieces 4 (drop 8 api))) loaded.flash
        loaded.mappings done in
    let (_, full) = extent_lem elf (section.offset + (address - section.addr)) 40 read in
    let (aligned, above, below) = good_place address section place in
    let blocks = pieces 512 image in
    let (inside, serves) = load_segments-Good blocks elf address api segments load full in
    let (_, writes, _) = (check_uf2_iff image flash n).0 checked in
    record {
      aligned = ap (λ a. a % 4) address_is ∙ aligned;
      above = subst (λ a. flash_start ≤ a) (sym address_is) above;
      below = subst (λ a. a + 40 ≤ flash_end) (sym address_is) below;
      full = ap length api_is ∙ full;
      magic = ap (word 0) api_is ∙ good_magic api good_api;
      written =
          subst (λ a. Writes blocks a facts.api) (sym address_is)
            (subst (Writes blocks address) (sym api_is) (
              serves some_map
                (subst (λ f. All (λ (p : Place). Writes blocks p.0 p.1) f) flash_is writes)));
      in_flash = subst (All InFlash) (sym flash_is) inside;
    }
