-- ===== src/Stateful/Tests/Resident.antt =====
-- A resident with the two interfaces, the arena and the linker's symbols.
use firmingo.Common.{
  ℕ, ◌+◌, ◌≡◌, ◌⊎◌, ◌≢◌, arith, get_elem?, ◌≤◌, refl, List, [], ◌∷◌, ◌++◌, none, some, ok, value_or,
  replicate, false,
}
use firmingo.Common.Bytes.{Bytes, pack_le, pieces, pieces_fuel, contains, bytes_eq, ascii}
use firmingo.Uf2.{flash_start, word, checked_resident_bytes, check_blocks, check_block}
use firmingo.Uf2.Capsule.{half_word}
use firmingo.Uf2.Compose.{slot_block, block_head}
use firmingo.Uf2.Memory.{Place}
use firmingo.Uf2.Compare.{check_uf2, compare_flash, compare_segment, image_get}
use firmingo.Elf.{Section, extent, table_of}
use firmingo.Elf.Symbols.{until_zero, scan_symbol, scan_entries, scan_section, scan_sections}
use firmingo.Elf.Load.{mapping_of, load_segment, load_segments}
use firmingo.Elf.Resident.{in_code, check_functions, resident_elf}
use firmingo.Stateful.{ElfFile, Symbol}
use firmingo.Stateful.Reader.{
  string_at, section_bytes, find_section, name_sections, read_entries, read_table, read_tables,
  read_elf, symbols_of, object,
}
use firmingo.Stateful.Contract.{
  mappings, state_name, object_bytes, read_bounds, check_symbols, Contract, read_api, check_arena,
  finish_contract, resident_contract,
}
use firmingo.Stateful.Contract.Memory.{
  IsLaidOut, resident_contract-IsLaidOut, resident_contract-apart,
}
use firmingo.Stateful.Contract.Served.{IsPublished, resident_contract-IsPublished}
use firmingo.Stateful.Tests.{words, halves, header, entry, nothing}

abbrev functions : List ℕ
functions = replicate 8 (flash_start + 1)

abbrev legacy_api : Bytes
legacy_api = pack_le 4 0x49504146 ++ halves (1 ∷ 40 ∷ []) ++ words functions

abbrev table : Bytes
table =
    pack_le 4 0x49504146
    ++ halves (2 ∷ 52 ∷ [])
    ++ words functions
    ++ words (0x20000000 ∷ 4096 ∷ 4096 ∷ [])

abbrev strings : Bytes
strings =
    (0 ∷ [])
    ++ ascii "firmingo_sketch_api"
    ++ (0 ∷ [])
    ++ ascii "firmingo_sketch_api_v2"
    ++ (0 ∷ [])
    ++ ascii "firmingo_sketch_state"
    ++ (0 ∷ [])
    ++ ascii "__bss_start__"
    ++ (0 ∷ [])
    ++ ascii "__bss_end__"
    ++ (0 ∷ [])
    ++ ascii "__end__"
    ++ (0 ∷ [])
    ++ ascii "__HeapLimit"
    ++ (0 ∷ [])
    ++ ascii "__StackOneBottom"
    ++ (0 ∷ [])
    ++ ascii "__StackOneTop"
    ++ (0 ∷ [])
    ++ ascii "__StackBottom"
    ++ (0 ∷ [])
    ++ ascii "__StackTop"
    ++ (0 ∷ [])
    ++ ascii "counter"
    ++ (0 ∷ [])

abbrev symbols : Bytes
symbols =
    entry 1 0x10000000 40 0x11 1
    ++ entry 21 0x10000028 52 0x11 2
    ++ entry 44 0x20000000 4096 0x11 3
    ++ entry 66 0x20000000 0 0x10 3
    ++ entry 80 0x20001004 0 0x10 3
    ++ entry 92 0x20001004 0 0x10 3
    ++ entry 100 0x20040000 0 0x10 3
    ++ entry 112 0x20040000 0 0x10 3
    ++ entry 129 0x20041000 0 0x10 3
    ++ entry 143 0x20041000 0 0x10 3
    ++ entry 157 0x20042000 0 0x10 3
    ++ entry 168 0x20001000 4 0x11 3

abbrev file : Bytes
file =
    header 1 6 4
    ++ words (1 ∷ 324 ∷ 0x10000000 ∷ 0x10000000 ∷ 92 ∷ 92 ∷ 5 ∷ 4 ∷ [])
    ++ words (0 ∷ 0 ∷ 0 ∷ 0 ∷ 0 ∷ 0 ∷ 0 ∷ 0 ∷ 0 ∷ 0 ∷ [])
    ++ words (1 ∷ 1 ∷ 6 ∷ 0x10000000 ∷ 324 ∷ 40 ∷ 0 ∷ 0 ∷ 4 ∷ 0 ∷ [])
    ++ words (2 ∷ 1 ∷ 2 ∷ 0x10000028 ∷ 364 ∷ 52 ∷ 0 ∷ 0 ∷ 4 ∷ 0 ∷ [])
    ++ words (3 ∷ 8 ∷ 3 ∷ 0x20000000 ∷ 0 ∷ 4100 ∷ 0 ∷ 0 ∷ 4 ∷ 0 ∷ [])
    ++ words (4 ∷ 3 ∷ 0 ∷ 0 ∷ 608 ∷ 176 ∷ 0 ∷ 0 ∷ 1 ∷ 0 ∷ [])
    ++ words (5 ∷ 2 ∷ 0 ∷ 0 ∷ 416 ∷ 192 ∷ 4 ∷ 0 ∷ 4 ∷ 16 ∷ [])
    ++ legacy_api
    ++ table
    ++ symbols
    ++ strings

abbrev elf : ElfFile
unfolding read_elf extent table_of word half_word bytes_eq section_bytes until_zero string_at
    find_section name_sections read_entries read_table read_tables pieces pieces_fuel
elf = value_or nothing (read_elf file)

abbrev contract : Contract
contract = record {
  elf = elf;
  api_address = flash_start + 40;
  table = table;
  state = 0x20000000;
  capacity = 4096;
  maximum = 4096;
  bounds = record {
    bss_start = 0x20000000;
    bss_end = 0x20001004;
    end = 0x20001004;
    heap_limit = 0x20040000;
    stack_one_bottom = 0x20040000;
    stack_one_top = 0x20041000;
    stack_bottom = 0x20041000;
    stack_top = 0x20042000;
  };
  runtime_enabled = false;
  upload = none;
  checkpoint = none;
}

abbrev flash : List Place
flash = (flash_start, legacy_api ++ table) ∷ []

accepted : resident_contract file ≡ ok (contract, flash)
unfolding resident_contract read_api check_arena finish_contract resident_elf extent table_of
    until_zero scan_symbol scan_entries scan_section scan_sections mapping_of load_segment
    load_segments in_code check_functions word half_word bytes_eq pieces pieces_fuel read_elf
    section_bytes string_at find_section name_sections read_entries read_table read_tables object
    symbols_of mappings check_symbols read_bounds object_bytes
accepted = refl

abbrev uf2 : Bytes
uf2 = slot_block flash_start 0 1 (legacy_api ++ table ++ replicate 164 0)

compared : check_uf2 uf2 flash ≡ ok 92
unfolding check_uf2 compare_flash compare_segment image_get checked_resident_bytes check_blocks
    check_block word slot_block block_head pieces pieces_fuel contains
compared = refl

-- The object behind the arena.
abbrev counter : Symbol
counter = record { address = 0x20001000; size = 4; info = 0x11; other = 0; index = 3 }

counter-listed : get_elem? contract.elf.symbols 11 ≡ some (ascii "counter", counter)
unfolding elf
counter-listed = refl

other_name : ascii "counter" ≢ state_name
other_name e = cc

abbrev bss : Section
bss = record {
  name = 3;
  kind = 8;
  flags = 3;
  addr = 0x20000000;
  offset = 0;
  size = 0x1004;
  link = 0;
  info = 0;
  align = 4;
  entry_size = 0;
}

in_bss : get_elem? contract.elf.sections 3 ≡ some bss
unfolding elf
in_bss = refl

resident_contract-IsLaidOut_example :
    (contract.capacity ≡ 4096)
    × ((contract.maximum ≡ 4096) × IsLaidOut contract.state contract.capacity contract.bounds)
resident_contract-IsLaidOut_example = resident_contract-IsLaidOut file accepted

resident_contract-apart_example :
    (0x20001000 + 4 ≤ contract.state) ⊎ (contract.state + contract.capacity ≤ 0x20001000)
resident_contract-apart_example =
    resident_contract-apart file 11 accepted counter-listed other_name (omega arith) refl
      (omega arith) in_bss refl

resident_contract-IsPublished_example : IsPublished (pieces 512 uf2) contract
resident_contract-IsPublished_example = resident_contract-IsPublished file uf2 accepted compared
