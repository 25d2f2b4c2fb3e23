-- ===== src/Stateful/Reader.antt =====
-- The class `Elf` of experiments/managed_sketch/build_stateful_proof.py.
use firmingo.Common.{
  ℕ, ◌+◌, ◌*◌, ◌%◌, Bool, true, false, not, ◌&&◌, ◌||◌, Option, none, some, List, [], ◌∷◌, ◌++◌,
  Result, ok, err, ◌>>=◌, ◌>>◌, raise_if, map_err, length, drop, get_elem?, leb, ltb, ◌==◌,
  if◌then◌else◌,
}
use firmingo.Common.Bytes.{Bytes, bytes_eq, pieces}
use firmingo.Uf2.{word}
use firmingo.Uf2.Capsule.{half_word}
use firmingo.Elf.{
  Section, extent, section_at, segment_at, table_of, is_arm_executable, bad_limits, elf_limit,
}
use firmingo.Elf.Symbols.{until_zero, byte_of, bad_symbol_table as bad_table}
use firmingo.Stateful.{
  StatefulError, in_resident, elf_size, not_arm, no_section_names, duplicate_section,
  bad_symbol_table, bad_symbol_names, bad_string, not_ascii, nobits, one_symbol, bad_object,
  outside_section, key_error, Symbol, ElfFile,
}

-- `Elf.extent`
abbrev pub file_extent : Bytes → ℕ → ℕ → Result StatefulError Bytes
file_extent file offset size = map_err in_resident (extent file offset size)

abbrev pub all_ascii : Bytes → Bool
all_ascii [] = true
all_ascii (b ∷ bs) = ltb b 128 && all_ascii bs

abbrev pub decoded : Option Bytes → Result StatefulError Bytes
decoded none = err bad_string
decoded (some name) = if all_ascii name then ok name else err not_ascii

-- `Elf.string`: an offset outside the table has no zero behind it.
unfoldable pub string_at : Bytes → ℕ → Result StatefulError Bytes
string_at table offset = decoded (until_zero (drop offset table))

unfoldable pub section_bytes : Bytes → Section → Result StatefulError Bytes
section_bytes file section =
    raise_if (section.kind == 8) nobits >> file_extent file section.offset section.size

abbrev pub section_no : List Section → ℕ → Result StatefulError Section
section_no sections index = elim (get_elem? sections index) [ none ↦ err key_error | some s ↦ ok s ]

-- `named.get(name)`
unfoldable pub find_section : Bytes → List (Bytes × Section) → Option Section
find_section name [] = none
find_section name ((other, section) ∷ named) =
    if bytes_eq other name then some section else find_section name named

abbrev pub is_some : {A : Type 0} → Option A → Bool
is_some none = false
is_some (some a) = true

-- The loop that fills `named`.
unfoldable pub name_sections :
    Bytes → List (Bytes × Section) → List Section → Result StatefulError (List (Bytes × Section))
name_sections names named [] = ok named
name_sections names named (section ∷ sections) = do
  name ← string_at names section.name
  raise_if (is_some (find_section name named)) duplicate_section
  name_sections names (named ++ ((name, section) ∷ [])) sections

abbrev pub symbol_of : Bytes → Symbol
symbol_of entry = record {
  address = word 4 entry;
  size = word 8 entry;
  info = byte_of 12 entry;
  other = byte_of 13 entry;
  index = half_word 14 entry;
}

unfoldable pub read_entries : Bytes → List Bytes → Result StatefulError (List (Bytes × Symbol))
read_entries names [] = ok []
read_entries names (entry ∷ entries) = do
  name ← string_at names (word 0 entry)
  later ← read_entries names entries
  ok ((name, symbol_of entry) ∷ later)

unfoldable pub read_table :
    Bytes → List Section → Section → Result StatefulError (List (Bytes × Symbol))
read_table file sections section =
    if section.kind == 2
    then (do
      raise_if (bad_table (length sections) section) bad_symbol_table
      strings ← section_no sections section.link
      raise_if (not (strings.kind == 3)) bad_symbol_names
      names ← section_bytes file strings
      table ← section_bytes file section
      read_entries names (pieces 16 table))
    else ok []

-- The loop that fills `symbols`; `sections` is the whole table.
unfoldable pub read_tables :
    Bytes → List Section → List Section → Result StatefulError (List (Bytes × Symbol))
read_tables file sections [] = ok []
read_tables file sections (section ∷ rest) = do
  found ← read_table file sections section
  later ← read_tables file sections rest
  ok (found ++ later)

-- `Elf.__init__`
unfoldable pub read_elf : Bytes → Result StatefulError ElfFile
read_elf file = do
  raise_if (not (leb 52 (length file) && leb (length file) elf_limit)) elf_size
  raise_if (not (is_arm_executable file) || bad_limits file) not_arm
  let phoff = word 28 file
  let shoff = word 32 file
  let phcount = half_word 44 file
  let shcount = half_word 48 file
  let strings = half_word 50 file
  program_table ← file_extent file phoff (phcount * 32)
  header_table ← file_extent file shoff (shcount * 40)
  let sections = table_of (section_at file) shoff 40 shcount
  raise_if (not (ltb 0 strings && ltb strings shcount)) no_section_names
  names_section ← section_no sections strings
  raise_if (not (names_section.kind == 3)) no_section_names
  names ← section_bytes file names_section
  named ← name_sections names [] (drop 1 sections)
  symbols ← read_tables file sections sections
  ok (record {
    file = file;
    sections = sections;
    segments = table_of (segment_at file) phoff 32 phcount;
    named = named;
    symbols = symbols;
  })

-- `symbols.get(name, [])`
unfoldable pub symbols_of : Bytes → List (Bytes × Symbol) → List Symbol
symbols_of name [] = []
symbols_of name ((other, symbol) ∷ symbols) =
    let rest = symbols_of name symbols in if bytes_eq other name then symbol ∷ rest else rest

abbrev pub only : List Symbol → Result StatefulError Symbol
only (symbol ∷ []) = ok symbol
only _ = err one_symbol

-- `Elf.symbol`
abbrev pub symbol : ElfFile → Bytes → Result StatefulError Symbol
symbol elf name = only (symbols_of name elf.symbols)

-- `name in elf.symbols`
abbrev pub has_symbol : ElfFile → Bytes → Bool
has_symbol elf name = elim (symbols_of name elf.symbols) [ [] ↦ false | s ∷ rest ↦ true ]

abbrev pub is_index : ElfFile → ℕ → Bool
is_index elf index = ltb 0 index && ltb index (length elf.sections)

abbrev pub holds : Section → ℕ → ℕ → Bool
holds section address size =
    leb section.addr address && leb (address + size) (section.addr + section.size)

-- `Elf.object`: the address of a global object, and its section.
unfoldable pub object : ElfFile → Bytes → ℕ → ℕ → ℕ → Result StatefulError (ℕ × Section)
object elf name size kind flags = do
  s ← symbol elf name
  raise_if
      (not (s.size == size)
        || (not (s.info == 0x11) || (not (s.other == 0) || not (is_index elf s.index))))
      bad_object
  section ← section_no elf.sections s.index
  raise_if
      (not (section.kind == kind)
        || (not (section.flags == flags)
            || (not (s.address % 4 == 0) || not (holds section s.address size))))
      outside_section
  ok (s.address, section)
