-- ===== src/Stateful/Tests/Sketch.antt =====
-- A sketch with code, an initialized word and a word of BSS.
use firmingo.Common.{◌≡◌, refl, [], ◌∷◌, ◌++◌, none, ok, false, replicate}
use firmingo.Common.Bytes.{Bytes, pieces, pieces_fuel, bytes_eq, ascii}
use firmingo.Uf2.{word}
use firmingo.Uf2.Capsule.{half_word}
use firmingo.Elf.{extent, table_of}
use firmingo.Elf.Symbols.{until_zero}
use firmingo.Stateful.Reader.{
  string_at, section_bytes, find_section, name_sections, read_entries, read_table, read_tables,
  read_elf, symbols_of,
}
use firmingo.Stateful.Contract.{Contract}
use firmingo.Stateful.Module.{
  check_sections, check_defined, read_parts, read_loads, loads_eq, entry_of, exceeds_word,
  fms2_header, Extents, check_parts, pack_parts, module_capsule,
}
use firmingo.Stateful.Module.Sound.{IsLinked, module_capsule-IsLinked}
use firmingo.Stateful.Module.Layout.{IsCapsule, header_words, module_capsule-IsCapsule}
use firmingo.Stateful.Tests.{words, header, entry, nothing}

abbrev no_sha256 : Bytes → Bytes
no_sha256 bytes = replicate 32 0

abbrev contract : Contract
contract = record {
  elf = nothing;
  api_address = 0x10000028;
  table = [];
  state = 0x20000000;
  capacity = 4096;
  maximum = 4096;
  bounds = record {
    bss_start = 0;
    bss_end = 0;
    end = 0;
    heap_limit = 0;
    stack_one_bottom = 0;
    stack_one_top = 0;
    stack_bottom = 0;
    stack_top = 0;
  };
  runtime_enabled = false;
  upload = none;
  checkpoint = none;
}

abbrev code : Bytes
code = 0x70 ∷ 0x47 ∷ 0x70 ∷ 0x47 ∷ []

abbrev initialized : Bytes
initialized = 7 ∷ 0 ∷ 0 ∷ 0 ∷ []

abbrev file : Bytes
file =
    header 2 6 4
    ++ words (1 ∷ 356 ∷ 0x10200100 ∷ 0x10200100 ∷ 4 ∷ 4 ∷ 5 ∷ 4 ∷ [])
    ++ words (1 ∷ 360 ∷ 0x20000000 ∷ 0x10200104 ∷ 4 ∷ 8 ∷ 6 ∷ 4 ∷ [])
    ++ words (0 ∷ 0 ∷ 0 ∷ 0 ∷ 0 ∷ 0 ∷ 0 ∷ 0 ∷ 0 ∷ 0 ∷ [])
    ++ words (44 ∷ 1 ∷ 6 ∷ 0x10200100 ∷ 356 ∷ 4 ∷ 0 ∷ 0 ∷ 4 ∷ 0 ∷ [])
    ++ words (50 ∷ 1 ∷ 3 ∷ 0x20000000 ∷ 360 ∷ 4 ∷ 0 ∷ 0 ∷ 4 ∷ 0 ∷ [])
    ++ words (56 ∷ 8 ∷ 3 ∷ 0x20000004 ∷ 0 ∷ 4 ∷ 0 ∷ 0 ∷ 4 ∷ 0 ∷ [])
    ++ words (0 ∷ 3 ∷ 0 ∷ 0 ∷ 396 ∷ 61 ∷ 0 ∷ 0 ∷ 1 ∷ 0 ∷ [])
    ++ words (1 ∷ 2 ∷ 0 ∷ 0 ∷ 364 ∷ 32 ∷ 4 ∷ 0 ∷ 4 ∷ 16 ∷ [])
    ++ code
    ++ initialized
    ++ entry 1 0x10200101 2 0x12 1
    ++ entry 23 0x10200103 2 0x12 1
    ++ (0 ∷ [])
    ++ ascii "firmingo_sketch_setup"
    ++ (0 ∷ [])
    ++ ascii "firmingo_sketch_loop"
    ++ (0 ∷ [])
    ++ ascii ".text"
    ++ (0 ∷ [])
    ++ ascii ".data"
    ++ (0 ∷ [])
    ++ ascii ".bss"
    ++ (0 ∷ [])

abbrev extents : Extents
extents = record {
  code_bytes = 4;
  data_bytes = 4;
  bss_bytes = 4;
  setup_address = 0x10200101;
  loop_address = 0x10200103;
}

abbrev capsule : Bytes
unfolding fms2_header
capsule =
    fms2_header no_sha256 (header_words contract extents) (code ++ initialized)
    ++ (code ++ initialized)

made : module_capsule no_sha256 file contract ≡ ok (capsule, extents)
unfolding module_capsule check_parts pack_parts check_sections check_defined read_parts read_loads
    loads_eq entry_of exceeds_word fms2_header read_elf extent table_of word half_word bytes_eq
    section_bytes until_zero string_at find_section name_sections read_entries read_table
    read_tables pieces pieces_fuel symbols_of capsule
made = refl

module_capsule-IsLinked_example : IsLinked file contract extents
module_capsule-IsLinked_example = module_capsule-IsLinked no_sha256 file contract made

module_capsule-IsCapsule_example : IsCapsule no_sha256 contract capsule extents
module_capsule-IsCapsule_example =
    module_capsule-IsCapsule no_sha256 (λ bytes. refl) file contract made
