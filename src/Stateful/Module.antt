-- ===== src/Stateful/Module.antt =====
-- `module_capsule` of experiments/managed_sketch/build_stateful_proof.py: the FMS2 capsule of a linked sketch.
pub mod Packed
pub mod Loads
pub mod Sound
pub mod Layout
use firmingo.Common.{
  ℕ, ◌+◌, ◌-◌, ◌%◌, ◌/◌, ◌^◌, Bool, true, false, not, ◌&&◌, ◌||◌, Option, none, some, List, [], ◌∷◌,
  ◌++◌, Result, ok, err, ◌>>=◌, ◌>>◌, raise_if, length, take, map, join, replicate, get_elem?, leb,
  ltb, ◌==◌, if◌then◌else◌,
}
use firmingo.Common.Bytes.{Bytes, bytes_eq, splice, pack_le, ascii}
use firmingo.Elf.{Section, Segment}
use firmingo.Stateful.{
  StatefulError, key_error, cannot_pack, allocated_section, relocations, undefined_symbol,
  extent_mismatch, load_mismatch, bad_entry, Symbol, ElfFile,
}
use firmingo.Stateful.Reader.{file_extent, find_section, section_bytes, symbol, is_index, read_elf}
use firmingo.Stateful.Contract.{Contract}

abbrev pub code_address : ℕ
code_address = 0x10200100

-- `(section[1], section[2]) == allowed.get(name)`
abbrev pub is_allowed : Bytes → Section → Bool
is_allowed name section =
    (bytes_eq name (ascii ".text") && (section.kind == 1 && section.flags == 6))
    || ((bytes_eq name (ascii ".data") && (section.kind == 1 && section.flags == 3))
        || (bytes_eq name (ascii ".bss") && (section.kind == 8 && section.flags == 3)))

abbrev pub has_bytes : Section → Bool
has_bytes section = not (section.size == 0)

unfoldable pub check_sections : List (Bytes × Section) → Result StatefulError (Unit {0})
check_sections [] = ok tt
check_sections ((name, section) ∷ named) =
    raise_if ((section.flags / 2) % 2 == 1 && (has_bytes section && not (is_allowed name section)))
      allocated_section
    >> raise_if ((section.kind == 4 || section.kind == 9) && has_bytes section) relocations
    >> check_sections named

abbrev pub is_undefined : Symbol → Bool
is_undefined s = not (s.info / 16 == 0) && s.index == 0

unfoldable pub check_defined : List (Bytes × Symbol) → Result StatefulError (Unit {0})
check_defined [] = ok tt
check_defined ((name, s) ∷ symbols) =
    raise_if (is_undefined s) undefined_symbol >> check_defined symbols

-- `elf.named[name]`
abbrev pub named_section : ElfFile → Bytes → Result StatefulError Section
named_section elf name = elim (find_section name elf.named) [
  | none ↦ err key_error
  | some section ↦ ok section
]

pub record Parts : Type 0 where
  pub text : Section
  pub data_section : Section
  pub bss : Section
  pub code : Bytes
  pub initialized : Bytes

unfoldable pub read_parts : ElfFile → Result StatefulError Parts
read_parts elf = do
  text ← named_section elf (ascii ".text")
  data_section ← named_section elf (ascii ".data")
  bss ← named_section elf (ascii ".bss")
  code ← section_bytes elf.file text
  initialized ← section_bytes elf.file data_section
  ok (record {
    text = text;
    data_section = data_section;
    bss = bss;
    code = code;
    initialized = initialized;
  })

-- The extents in the flash slot and in the arena of the resident.
abbrev pub bad_code : Parts → Bool
bad_code p =
    not (p.text.addr == code_address) || (length p.code == 0 || not (length p.code % 4 == 0))

abbrev pub bad_data : Contract → Parts → Bool
bad_data c p =
    not (p.data_section.addr == c.state)
    || (not (p.bss.addr == c.state + length p.initialized)
        || (not (length p.initialized % 4 == 0) || not (p.bss.size % 4 == 0)))

abbrev pub bad_sizes : Contract → Parts → Bool
bad_sizes c p =
    ltb c.capacity (length p.initialized + p.bss.size)
    || ltb c.maximum (256 + length p.code + length p.initialized)

-- An entry of `loads`: two addresses and the bytes.
pub record Load : Type 0 where
  pub virtual : ℕ
  pub physical : ℕ
  pub bytes : Bytes

abbrev pub load_of : Segment → Bytes → List Load
load_of s bytes = record { virtual = s.virtual; physical = s.physical; bytes = bytes } ∷ []

abbrev pub is_load : Segment → Bool
is_load s = s.kind == 1 && not (s.file_bytes == 0)

unfoldable pub read_loads : Bytes → List Segment → Result StatefulError (List Load)
read_loads file [] = ok []
read_loads file (s ∷ segments) = do
  here ←
      if is_load s
      then (do bytes ← file_extent file s.offset s.file_bytes; ok (load_of s bytes))
      else ok []
  later ← read_loads file segments
  ok (here ++ later)

-- The code is not empty when this is computed.
abbrev pub expected_loads : ℕ → Bytes → Bytes → List Load
expected_loads base code initialized =
    record { virtual = code_address; physical = code_address; bytes = code }
    ∷ (if length initialized == 0
        then []
        else record { virtual = base; physical = code_address + length code; bytes = initialized }
          ∷ [])

unfoldable pub loads_eq : List Load → List Load → Bool
loads_eq [] [] = true
loads_eq [] (y ∷ ys) = false
loads_eq (x ∷ xs) [] = false
loads_eq (x ∷ xs) (y ∷ ys) =
    (x.virtual == y.virtual && (x.physical == y.physical && bytes_eq x.bytes y.bytes))
    && loads_eq xs ys

-- `==` of the ten words of two section headers.
abbrev pub section_eq : Section → Section → Bool
section_eq s t =
    (s.name == t.name
      && (s.kind == t.kind && (s.flags == t.flags && (s.addr == t.addr && s.offset == t.offset))))
    && (s.size == t.size
        && (s.link == t.link
            && (s.info == t.info && (s.align == t.align && s.entry_size == t.entry_size))))

abbrev pub is_section : Option Section → Section → Bool
is_section none text = false
is_section (some section) text = section_eq section text

-- `address | 1`
abbrev pub thumb : ℕ → ℕ
thumb address = address + (1 - address % 2)

abbrev pub is_in_code : ℕ → Bytes → Bool
is_in_code entry code =
    leb code_address (entry - 1) && leb (entry - 1) (code_address + length code - 2)

-- The address of one of the two functions, with the bit of the instruction set.
unfoldable pub entry_of : ElfFile → Parts → Bytes → Result StatefulError ℕ
entry_of elf p name = do
  s ← symbol elf name
  raise_if
      (not (s.info == 0x12)
        || (not (is_index elf s.index)
            || (not (is_section (get_elem? elf.sections s.index) p.text)
                || not (is_in_code (thumb s.address) p.code))))
      bad_entry
  ok (thumb s.address)

-- The words that are packed behind the sizes of the header.
abbrev pub capsule_words : Contract → Parts → ℕ → ℕ → List ℕ
capsule_words c p setup loop' =
    0x4f4e414e
    ∷ c.api_address
    ∷ code_address
    ∷ length p.code
    ∷ setup
    ∷ loop'
    ∷ c.state
    ∷ length p.initialized
    ∷ (c.state + length p.initialized)
    ∷ p.bss.size
    ∷ (256 + length p.code)
    ∷ (256 + length p.code + length p.initialized)
    ∷ 0
    ∷ 0
    ∷ []

-- A word that `pack_into` refuses.
unfoldable pub exceeds_word : List ℕ → Bool
exceeds_word [] = false
exceeds_word (v ∷ vs) = not (ltb v (2 ^ 32)) || exceeds_word vs

-- `pack_into("<4sHH14I", …)`
abbrev pub packed : List ℕ → Bytes
packed words = ascii "FMS2" ++ (pack_le 2 2 ++ (pack_le 2 128 ++ join (map (pack_le 4) words)))

-- The header of 256 bytes, with the digest of the payload and then the digest of what stands before it.
unfoldable pub fms2_header : (Bytes → Bytes) → List ℕ → Bytes → Bytes
fms2_header sha256 words payload =
    let header = splice 64 (sha256 payload) (splice 0 (packed words) (replicate 256 0)) in
    splice 96 (sha256 (take 96 header)) header

pub record Extents : Type 0 where
  pub code_bytes : ℕ
  pub data_bytes : ℕ
  pub bss_bytes : ℕ
  pub setup_address : ℕ
  pub loop_address : ℕ

-- The checks of the sections, the symbols and the loads.
unfoldable pub check_parts : ElfFile → Contract → Result StatefulError Parts
check_parts elf c = do
  check_sections elf.named
  check_defined elf.symbols
  p ← read_parts elf
  raise_if (bad_code p || (bad_data c p || bad_sizes c p)) extent_mismatch
  loads ← read_loads elf.file elf.segments
  raise_if (not (loads_eq loads (expected_loads c.state p.code p.initialized))) load_mismatch
  ok p

unfoldable pub pack_parts :
    (Bytes → Bytes) → ElfFile → Contract → Parts → Result StatefulError (Bytes × Extents)
pack_parts sha256 elf c p = do
  setup ← entry_of elf p (ascii "firmingo_sketch_setup")
  loop' ← entry_of elf p (ascii "firmingo_sketch_loop")
  raise_if (exceeds_word (capsule_words c p setup loop')) cannot_pack
  let payload = p.code ++ p.initialized
  ok (
    fms2_header sha256 (capsule_words c p setup loop') payload ++ payload,
    record {
      code_bytes = length p.code;
      data_bytes = length p.initialized;
      bss_bytes = p.bss.size;
      setup_address = setup;
      loop_address = loop';
    },
  )

unfoldable pub module_capsule :
    (Bytes → Bytes) → Bytes → Contract → Result StatefulError (Bytes × Extents)
module_capsule sha256 file c = do
  elf ← read_elf file
  p ← check_parts elf c
  pack_parts sha256 elf c p
