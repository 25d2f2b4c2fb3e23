-- ===== src/Elf/Resident.antt =====
-- `resident_elf` as a whole: the facts about the interface table, and the flash bytes.
use firmingo.Common.{
  ℕ, ◌+◌, ◌-◌, ◌*◌, ◌/◌, ◌%◌, Bool, false, not, ◌&&◌, ◌||◌, List, [], ◌∷◌, Result, ok, err, ◌>>=◌,
  ◌>>◌, raise_if, map, length, drop, leb, ltb, ◌==◌,
}
use firmingo.Common.Bytes.{Bytes, unpack_le, pieces}
use firmingo.Uf2.{flash_start, word}
use firmingo.Uf2.Capsule.{half_word}
use firmingo.Uf2.Memory.{Place}
use firmingo.Elf.{
  ElfError, elf_size, not_arm, unsupported, not_readonly, exceeds_section, wrong_api,
  wrong_function, no_unique_mapping, Section, extent, section_at, segment_at, table_of,
  is_arm_executable, bad_limits, elf_limit, flash_end,
}
use firmingo.Elf.Symbols.{scan_sections, section_of, only_match}
use firmingo.Elf.Load.{load_segments}

-- The dictionary of facts, less the digest of the table.
pub record Facts : Type 0 where
  pub api_address : ℕ
  pub api : Bytes
  pub functions : List ℕ
  pub load_flags : ℕ

-- `any(s[2] & 6 == 6 and s[3] <= entry < s[3] + s[5] for s in sections)`
unfoldable pub in_code : List Section → ℕ → Bool
in_code [] entry = false
in_code (s ∷ sections) entry =
    ((s.flags / 2) % 4 == 3 && (leb s.addr entry && ltb entry (s.addr + s.size)))
    || in_code sections entry

abbrev pub bad_function : List Section → ℕ → Bool
bad_function sections function =
    let entry = function - function % 2 in
    not (function % 2 == 1)
    || (not (
          (leb flash_start entry && ltb entry flash_end)
          || (leb 0x20000000 entry && ltb entry 0x20042000))
        || not (in_code sections entry))

unfoldable pub check_functions : List Section → List ℕ → Result ElfError (Unit {0})
check_functions sections [] = ok tt
check_functions sections (function ∷ functions) = do
  raise_if (bad_function sections function) wrong_function
  check_functions sections functions

abbrev pub bad_place : ℕ → Section → Bool
bad_place address section =
    not (address % 4 == 0)
    || (not (leb flash_start address && leb address (flash_end - 40))
        || (not (section.kind == 1) || not (section.flags % 4 == 2)))

-- `relative < 0` or the table's end behind the section's.
abbrev pub bad_extent : ℕ → Section → Bool
bad_extent address section =
    ltb address section.addr || ltb section.size ((address - section.addr) + 40)

abbrev pub bad_api : Bytes → Bool
bad_api api = not (word 0 api == 0x49504146 && (half_word 4 api == 1 && half_word 6 api == 40))

abbrev pub facts_of :
    ℕ → Bytes → List ℕ → List Place → List ℕ → Result ElfError (Facts × List Place)
facts_of address api functions (place ∷ places) (permissions ∷ []) = ok (
  record { api_address = address; api = api; functions = functions; load_flags = permissions },
  place ∷ places,
)
facts_of address api functions _ _ = err no_unique_mapping

unfoldable pub resident_elf : Bytes → Result ElfError (Facts × List Place)
resident_elf data' = do
  raise_if (not (leb 52 (length data') && leb (length data') elf_limit)) elf_size
  raise_if (not (is_arm_executable data')) not_arm
  raise_if (bad_limits data') unsupported
  let phoff = word 28 data'
  let shoff = word 32 data'
  let phcount = half_word 44 data'
  let shcount = half_word 48 data'
  program_table ← extent data' phoff (phcount * 32)
  header_table ← extent data' shoff (shcount * 40)
  let sections = table_of (section_at data') shoff 40 shcount
  let segments = table_of (segment_at data') phoff 32 phcount
  matches ← scan_sections data' sections sections
  (address, index) ← only_match matches
  section ← section_of sections index
  raise_if (bad_place address section) not_readonly
  raise_if (bad_extent address section) exceeds_section
  api ← extent data' (section.offset + (address - section.addr)) 40
  raise_if (bad_api api) wrong_api
  let functions = map unpack_le (pieces 4 (drop 8 api))
  check_functions sections functions
  loaded ← load_segments data' address api segments
  facts_of address api functions loaded.flash loaded.mappings
