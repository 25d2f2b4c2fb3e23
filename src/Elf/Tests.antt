-- ===== src/Elf/Tests.antt =====
-- A run of `resident_elf` of experiments/managed_sketch/export_resident.py on a file with one segment.
use firmingo.Common.{ℕ, ◌+◌, ◌≡◌, refl, List, [], ◌∷◌, ◌++◌, ok, replicate, join, map}
use firmingo.Common.Bytes.{Bytes, pack_le, pieces, pieces_fuel, contains, bytes_eq}
use firmingo.Uf2.{flash_start, word, checked_resident_bytes, check_blocks, check_block}
use firmingo.Uf2.Capsule.{half_word}
use firmingo.Uf2.Compose.{slot_block, block_head}
use firmingo.Uf2.Memory.{Place}
use firmingo.Uf2.Compare.{check_uf2, compare_flash, compare_segment, image_get}
use firmingo.Elf.{extent, table_of, elf_ident}
use firmingo.Elf.Symbols.{
  api_name, until_zero, scan_symbol, scan_entries, scan_section, scan_sections,
}
use firmingo.Elf.Load.{mapping_of, load_segment, load_segments}
use firmingo.Elf.Resident.{Facts, in_code, check_functions, resident_elf}
use firmingo.Elf.Accepted.{IsServed, resident_elf-IsServed}

abbrev words : List ℕ → Bytes
words ns = join (map (pack_le 4) ns)

abbrev halves : List ℕ → Bytes
halves ns = join (map (pack_le 2) ns)

abbrev functions : List ℕ
functions = replicate 8 (flash_start + 1)

abbrev api : Bytes
api = pack_le 4 0x49504146 ++ halves (1 ∷ 40 ∷ []) ++ words functions

abbrev elf : Bytes
elf =
    elf_ident
    ++ replicate 8 0
    ++ halves (2 ∷ 40 ∷ [])
    ++ words (1 ∷ 0 ∷ 52 ∷ 84 ∷ 0x05000000 ∷ [])
    ++ halves (52 ∷ 32 ∷ 1 ∷ 40 ∷ 4 ∷ 0 ∷ [])
    ++ words (1 ∷ 244 ∷ flash_start ∷ flash_start ∷ 40 ∷ 40 ∷ 5 ∷ 4 ∷ [])
    ++ replicate 40 0
    ++ words (0 ∷ 1 ∷ 6 ∷ flash_start ∷ 244 ∷ 40 ∷ 0 ∷ 0 ∷ 4 ∷ 0 ∷ [])
    ++ words (0 ∷ 2 ∷ 0 ∷ 0 ∷ 284 ∷ 16 ∷ 3 ∷ 0 ∷ 4 ∷ 16 ∷ [])
    ++ words (0 ∷ 3 ∷ 0 ∷ 0 ∷ 300 ∷ 21 ∷ 0 ∷ 0 ∷ 1 ∷ 0 ∷ [])
    ++ api
    ++ words (1 ∷ flash_start ∷ 40 ∷ [])
    ++ (0x11 ∷ 0 ∷ [])
    ++ pack_le 2 1
    ++ (0 ∷ [])
    ++ api_name
    ++ (0 ∷ [])

abbrev facts : Facts
facts = record { api_address = flash_start; api = api; functions = functions; load_flags = 5 }

abbrev flash : List Place
flash = (flash_start, api) ∷ []

accepted_elf : resident_elf elf ≡ ok (facts, flash)
unfolding resident_elf extent table_of until_zero scan_symbol scan_entries scan_section
    scan_sections mapping_of load_segment load_segments in_code check_functions word half_word
    bytes_eq pieces pieces_fuel
accepted_elf = refl

abbrev uf2 : Bytes
uf2 = slot_block flash_start 0 1 (api ++ replicate 216 0)

compared : check_uf2 uf2 flash ≡ ok 40
unfolding check_uf2 compare_flash compare_segment image_get checked_resident_bytes check_blocks
    check_block word slot_block block_head pieces pieces_fuel contains
compared = refl

resident_elf-IsServed_example : IsServed (pieces 512 uf2) facts flash
resident_elf-IsServed_example = resident_elf-IsServed elf uf2 accepted_elf compared
