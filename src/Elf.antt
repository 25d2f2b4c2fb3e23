-- ===== src/Elf.antt =====
-- `resident_elf` of experiments/managed_sketch/export_resident.py: the tables of an ELF32 file, the symbol
-- of the interface table, and the bytes that the file loads into flash.
pub mod Symbols
pub mod Load
pub mod Resident
pub mod Served
pub mod Accepted
mod Tests
use firmingo.Common.{
  ℕ, ◌+◌, ◌-◌, ◌*◌, ◌/◌, ◌%◌, Bool, not, ◌&&◌, ◌||◌, List, [], ◌∷◌, Result, ok, ◌>>=◌, ◌>>◌, check,
  raise_if, length, leb, ltb, ◌==◌, zero, suc,
}
use firmingo.Common.Bytes.{Bytes, slice, bytes_eq}
use firmingo.Uf2.{word}
use firmingo.Uf2.Capsule.{half_word}

-- The messages of the `ValueError`s. An index outside the section table cannot be met.
pub data ElfError : Type 0 where
  elf_size not_arm unsupported truncated symbol_table symbol_strings symbol_name unterminated :
      ElfError
  api_symbol not_one_symbol not_readonly exceeds_section wrong_api wrong_function : ElfError
  exceeds_flash inconsistent_mapping no_unique_mapping no_section : ElfError

abbrev pub elf_limit : ℕ
elf_limit = 8 * 1024 * 1024

abbrev pub source_limit : ℕ
source_limit = 2 * 1024 * 1024

abbrev pub flash_end : ℕ
flash_end = 0x10200000

-- The ten words of a section header.
pub record Section : Type 0 where
  pub name : ℕ
  pub kind : ℕ
  pub flags : ℕ
  pub addr : ℕ
  pub offset : ℕ
  pub size : ℕ
  pub link : ℕ
  pub info : ℕ
  pub align : ℕ
  pub entry_size : ℕ

-- The words of a program header that the code reads.
pub record Segment : Type 0 where
  pub kind : ℕ
  pub offset : ℕ
  pub virtual : ℕ
  pub physical : ℕ
  pub file_bytes : ℕ
  pub memory_bytes : ℕ
  pub permissions : ℕ

-- `extent`: a slice that lies in the data as a whole.
unfoldable pub extent : Bytes → ℕ → ℕ → Result ElfError Bytes
extent data' offset count =
    raise_if (not (leb offset (length data') && leb count (length data' - offset))) truncated
    >> ok (slice offset count data')

abbrev pub section_at : Bytes → ℕ → Section
section_at data' o = record {
  name = word o data';
  kind = word (o + 4) data';
  flags = word (o + 8) data';
  addr = word (o + 12) data';
  offset = word (o + 16) data';
  size = word (o + 20) data';
  link = word (o + 24) data';
  info = word (o + 28) data';
  align = word (o + 32) data';
  entry_size = word (o + 36) data';
}

abbrev pub segment_at : Bytes → ℕ → Segment
segment_at data' o = record {
  kind = word o data';
  offset = word (o + 4) data';
  virtual = word (o + 8) data';
  physical = word (o + 12) data';
  file_bytes = word (o + 16) data';
  memory_bytes = word (o + 20) data';
  permissions = word (o + 24) data';
}

-- `[unpack_from(…, data, offset + i * step) for i in range(count)]`
unfoldable pub table_of : {A : Type 0} → (ℕ → A) → ℕ → ℕ → ℕ → List A
table_of read offset step zero = []
table_of read offset step (suc count) = read offset ∷ table_of read (offset + step) step count

-- `b"\x7fELF\x01\x01\x01\x00"`
abbrev pub elf_ident : Bytes
elf_ident = 0x7F ∷ 0x45 ∷ 0x4C ∷ 0x46 ∷ 1 ∷ 1 ∷ 1 ∷ 0 ∷ []

-- The kind, the machine, the version, and the sizes of the header and of the entries of both tables.
abbrev pub is_arm_executable : Bytes → Bool
is_arm_executable data' =
    bytes_eq (slice 0 8 data') elf_ident
    && (half_word 16 data' == 2
        && (half_word 18 data' == 40
            && (word 20 data' == 1
                && (half_word 40 data' == 52
                    && (half_word 42 data' == 32 && half_word 46 data' == 40)))))

-- `flags >> 24 != 5 or flags & 0x400`, and the limits of the tables.
abbrev pub bad_limits : Bytes → Bool
bad_limits data' =
    not (word 36 data' / 0x1000000 == 5)
    || ((word 36 data' / 0x400) % 2 == 1
        || (not (leb 1 (half_word 44 data') && leb (half_word 44 data') 128)
            || not (leb 1 (half_word 48 data') && leb (half_word 48 data') 512)))
