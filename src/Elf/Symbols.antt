-- ===== src/Elf/Symbols.antt =====
-- The scan of the symbol tables for `firmingo_sketch_api`.
use firmingo.Common.{
  ℕ, ◌/◌, ◌%◌, Bool, not, ◌&&◌, ◌||◌, Option, none, some, List, [], ◌∷◌, ◌++◌, Result, ok, err,
  ◌>>=◌, ◌>>◌, raise_if, length, drop, get_elem?, leb, ltb, ◌==◌, if◌then◌else◌,
}
use firmingo.Common.Bytes.{Bytes, slice, unpack_le, bytes_eq, pieces}
use firmingo.Uf2.{word}
use firmingo.Uf2.Capsule.{half_word}
use firmingo.Elf.{
  ElfError, symbol_table, symbol_strings, symbol_name, unterminated, api_symbol, not_one_symbol,
  no_section, Section, extent, source_limit,
}

-- `b"firmingo_sketch_api"`
abbrev pub api_name : Bytes
api_name =
    0x66 ∷ 0x69 ∷ 0x72 ∷ 0x6D ∷ 0x69 ∷ 0x6E ∷ 0x67 ∷ 0x6F ∷ 0x5F ∷ 0x73 ∷ 0x6B ∷ 0x65 ∷ 0x74 ∷ 0x63
    ∷ 0x68 ∷ 0x5F ∷ 0x61 ∷ 0x70 ∷ 0x69 ∷ []

-- `names[name:names.find(b"\0", name)]`, from `names[name:]`; nothing if no zero follows.
unfoldable pub until_zero : Bytes → Option Bytes
until_zero [] = none
until_zero (b ∷ bs) =
    let rest = until_zero bs in
    if b == 0 then some [] else elim rest [ none ↦ none | some name ↦ some (b ∷ name) ]

-- The address and the section of the interface table.
abbrev pub Match : Type 0
Match = ℕ × ℕ

abbrev pub section_of : List Section → ℕ → Result ElfError Section
section_of sections index = elim (get_elem? sections index) [
  | none ↦ err no_section
  | some s ↦ ok s
]

abbrev pub byte_of : ℕ → Bytes → ℕ
byte_of o entry = unpack_le (slice o 1 entry)

-- One entry of 16 bytes: the name, the address, the size, the two bytes of kind, and the section.
unfoldable pub scan_symbol : ℕ → Bytes → Bytes → Result ElfError (List Match)
scan_symbol shcount names entry = do
  raise_if (leb (length names) (word 0 entry)) symbol_name
  let index = half_word 14 entry
  let wrong =
      not (byte_of 12 entry == 0x11)
      || (not (byte_of 13 entry == 0)
          || (not (word 8 entry == 40) || not (ltb 0 index && ltb index shcount)))
  elim (until_zero (drop (word 0 entry) names)) [
    | none ↦ err unterminated
    | some name ↦
        if bytes_eq name api_name
        then raise_if wrong api_symbol >> ok ((word 4 entry, index) ∷ [])
        else ok []
  ]

unfoldable pub scan_entries : ℕ → Bytes → List Bytes → Result ElfError (List Match)
scan_entries shcount names [] = ok []
scan_entries shcount names (entry ∷ entries) = do
  found ← scan_symbol shcount names entry
  later ← scan_entries shcount names entries
  ok (found ++ later)

abbrev pub bad_symbol_table : ℕ → Section → Bool
bad_symbol_table shcount section =
    not (section.entry_size == 16)
    || (not (section.size % 16 == 0)
        || (ltb 65536 (section.size / 16) || not (ltb 0 section.link && ltb section.link shcount)))

unfoldable pub scan_section : Bytes → List Section → Section → Result ElfError (List Match)
scan_section data' sections section =
    if section.kind == 2
    then (do
      raise_if (bad_symbol_table (length sections) section) symbol_table
      strings ← section_of sections section.link
      raise_if (not (strings.kind == 3) || ltb source_limit strings.size) symbol_strings
      names ← extent data' strings.offset strings.size
      table ← extent data' section.offset section.size
      scan_entries (length sections) names (pieces 16 table))
    else ok []

-- The loop over the sections; `sections` is the whole table.
unfoldable pub scan_sections : Bytes → List Section → List Section → Result ElfError (List Match)
scan_sections data' sections [] = ok []
scan_sections data' sections (section ∷ rest) = do
  found ← scan_section data' sections section
  later ← scan_sections data' sections rest
  ok (found ++ later)

abbrev pub only_match : List Match → Result ElfError Match
only_match (m ∷ []) = ok m
only_match _ = err not_one_symbol
