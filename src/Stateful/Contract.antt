-- ===== src/Stateful/Contract.antt =====
-- `resident_contract` and `upload_facts` of experiments/managed_sketch/build_stateful_proof.py.
pub mod Arena
pub mod Memory
pub mod Served
use firmingo.Common.{
  ℕ, ◌+◌, ◌-◌, ◌*◌, ◌/◌, ◌%◌, Bool, true, false, not, ◌&&◌, ◌||◌, Option, none, some, List, [], ◌∷◌,
  ◌++◌, Result, ok, err, ◌>>=◌, ◌>>◌, check, raise_if, map_err, length, take, drop, get_elem?, map,
  leb, ltb, ◌==◌, if◌then◌else◌,
}
use firmingo.Common.Bytes.{Bytes, slice, bytes_eq, pieces, pack_le, unpack_le, ascii}
use firmingo.Uf2.{word, flash_start}
use firmingo.Uf2.Capsule.{half_word}
use firmingo.Uf2.Memory.{Place}
use firmingo.Elf.{Section, flash_end}
use firmingo.Elf.Resident.{Facts, resident_elf}
use firmingo.Stateful.{
  StatefulError, in_resident, outside_flash, api_differs, arena_differs, api_not_loaded, overlap,
  bad_extents, bad_marker, bad_upload, upload_not_loaded, needs_runtime, bad_checkpoint, Symbol,
  ElfFile,
}
use firmingo.Stateful.Reader.{file_extent, read_elf, symbol, has_symbol, is_index, object}

-- `[payload[address - base:address - base + size] for base, payload in flash if …]`
unfoldable pub mappings : ℕ → ℕ → List Place → List Bytes
mappings address size [] = []
mappings address size ((base, payload) ∷ flash) =
    let rest = mappings address size flash in
    if leb base address && leb (address + size) (base + length payload)
    then slice (address - base) size payload ∷ rest
    else rest

-- `mappings == [table]`
abbrev pub is_only : List Bytes → Bytes → Bool
is_only (mapped ∷ []) table = bytes_eq mapped table
is_only _ table = false

-- An object that lies in a read-only section, and its bytes in the file.
unfoldable pub object_bytes : ElfFile → Bytes → ℕ → Result StatefulError (ℕ × Bytes)
object_bytes elf name size = do
  (address, section) ← object elf name size 1 2
  table ← file_extent elf.file ((section.offset + address) - section.addr) size
  ok (address, table)

-- The facts of the upload target, read from the table.
pub record UploadFacts : Type 0 where
  pub target_id : ℕ
  pub max_size : ℕ
  pub max_chunk : ℕ
  pub timeout_ms : ℕ
  pub format : Bytes
  pub authorization : Bytes
  pub table_address : ℕ
  pub table : Bytes

-- The fields that the service must have, in their order.
abbrev pub good_upload : Bytes → Bool
good_upload table =
    (word 0 table == 0x32505546 && (half_word 4 table == 1 && half_word 6 table == 56))
    && ((word 8 table == 2
          && (word 12 table == 4096 && (word 16 table == 1024 && word 20 table == 30000)))
        && (bytes_eq (slice 24 16 table) (ascii "nano-managed-v2" ++ (0 ∷ []))
            && bytes_eq (slice 40 16 table) (ascii "physical-d2-gnd" ++ (0 ∷ []))))

unfoldable pub upload_facts : ElfFile → List Place → Result StatefulError UploadFacts
upload_facts elf flash = do
  (address, table) ← object_bytes elf (ascii "firmingo_stateful_upload_contract") 56
  raise_if (not (good_upload table)) bad_upload
  raise_if (not (is_only (mappings address 56 flash) table)) upload_not_loaded
  ok (record {
    target_id = word 8 table;
    max_size = word 12 table;
    max_chunk = word 16 table;
    timeout_ms = word 20 table;
    format = slice 24 15 table;
    authorization = slice 40 15 table;
    table_address = address;
    table = table;
  })

-- The linker's symbols, as a dictionary from their names.
pub record Bounds : Type 0 where
  pub bss_start : ℕ
  pub bss_end : ℕ
  pub end : ℕ
  pub heap_limit : ℕ
  pub stack_one_bottom : ℕ
  pub stack_one_top : ℕ
  pub stack_bottom : ℕ
  pub stack_top : ℕ

abbrev pub address_of_symbol : ElfFile → Bytes → Result StatefulError ℕ
address_of_symbol elf name = do s ← symbol elf name; ok s.address

unfoldable pub read_bounds : ElfFile → Result StatefulError Bounds
read_bounds elf = do
  bss_start ← address_of_symbol elf (ascii "__bss_start__")
  bss_end ← address_of_symbol elf (ascii "__bss_end__")
  end ← address_of_symbol elf (ascii "__end__")
  heap_limit ← address_of_symbol elf (ascii "__HeapLimit")
  stack_one_bottom ← address_of_symbol elf (ascii "__StackOneBottom")
  stack_one_top ← address_of_symbol elf (ascii "__StackOneTop")
  stack_bottom ← address_of_symbol elf (ascii "__StackBottom")
  stack_top ← address_of_symbol elf (ascii "__StackTop")
  ok (record {
    bss_start = bss_start;
    bss_end = bss_end;
    end = end;
    heap_limit = heap_limit;
    stack_one_bottom = stack_one_bottom;
    stack_one_top = stack_one_top;
    stack_bottom = stack_bottom;
    stack_top = stack_top;
  })

-- The chain of comparisons from the BSS to the top of the stack, in three parts.
abbrev pub good_bss : ℕ → ℕ → Bounds → Bool
good_bss state capacity b =
    leb b.bss_start state
    && (ltb state (state + capacity) && (leb (state + capacity) b.bss_end && leb b.bss_end b.end))

abbrev pub good_heap : Bounds → Bool
good_heap b =
    ltb b.end b.heap_limit && (b.heap_limit == 0x20040000 && leb 0x20040000 b.stack_one_bottom)

abbrev pub good_stacks : Bounds → Bool
good_stacks b =
    ltb b.stack_one_bottom b.stack_one_top
    && (leb b.stack_one_top b.stack_bottom
        && (ltb b.stack_bottom b.stack_top && leb b.stack_top 0x20042000))

abbrev pub good_bounds : ℕ → ℕ → Bounds → Bool
good_bounds state capacity b = good_bss state capacity b && (good_heap b && good_stacks b)

abbrev pub state_name : Bytes
state_name = ascii "firmingo_sketch_state"

-- `sections[index][2] & 2`, for an index in the table.
abbrev pub is_allocated : List Section → ℕ → Bool
is_allocated sections index = elim (get_elem? sections index) [
  | none ↦ false
  | some section ↦ (section.flags / 2) % 2 == 1
]

-- An object of another name that owns a part of the arena.
abbrev pub intrudes : ElfFile → ℕ → ℕ → Bytes → Symbol → Bool
intrudes elf state capacity name s =
    not (bytes_eq name state_name)
    && (not (s.size == 0)
        && (s.info % 16 == 1
            && ((is_index elf s.index && is_allocated elf.sections s.index)
                && (ltb s.address (state + capacity) && ltb state (s.address + s.size)))))

unfoldable pub check_symbols :
    ElfFile → ℕ → ℕ → List (Bytes × Symbol) → Result StatefulError (Unit {0})
check_symbols elf state capacity [] = ok tt
check_symbols elf state capacity ((name, s) ∷ symbols) =
    raise_if (intrudes elf state capacity name s) overlap
    >> check_symbols elf state capacity symbols

-- The marker of the boot runtime holds 1, and the flash bytes hold the marker.
unfoldable pub check_marker : ElfFile → List Place → Result StatefulError (Unit {0})
check_marker elf flash = do
  (marker, value) ← object_bytes elf (ascii "firmingo_stateful_boot_mode") 4
  raise_if (not (bytes_eq value (pack_le 4 1)) || not (is_only (mappings marker 4 flash) value))
      bad_marker

abbrev pub optional_marker : Bool → ElfFile → List Place → Result StatefulError (Unit {0})
optional_marker false elf flash = ok tt
optional_marker true elf flash = check_marker elf flash

abbrev pub optional_upload : Bool → ElfFile → List Place → Result StatefulError (Option UploadFacts)
optional_upload false elf flash = ok none
optional_upload true elf flash = do facts ← upload_facts elf flash; ok (some facts)

pub data Checkpoint : Type 0 where
  after_erase after_first_page : Checkpoint

abbrev pub is_upload : Option UploadFacts → Bool
is_upload none = false
is_upload (some facts) = true

unfoldable pub checkpoint_of : Bool → ElfFile → List Place → Result StatefulError Checkpoint
checkpoint_of upload elf flash = do
  (marker, value) ← object_bytes elf (ascii "firmingo_flash_checkpoint_contract") 16
  raise_if
      (not upload
        || (not (word 0 value == 0x31504346 && (word 4 value == 1 && word 12 value == 60000))
            || (not (word 8 value == 1 || word 8 value == 2)
                || not (is_only (mappings marker 16 flash) value))))
      bad_checkpoint
  ok (if word 8 value == 1 then after_erase else after_first_page)

abbrev pub optional_checkpoint :
    Bool → Bool → ElfFile → List Place → Result StatefulError (Option Checkpoint)
optional_checkpoint false upload elf flash = ok none
optional_checkpoint true upload elf flash = do c ← checkpoint_of upload elf flash; ok (some c)

-- The facts of the returned dictionary that are not constants, and the reader; the digests are left out.
pub record Contract : Type 0 where
  pub elf : ElfFile
  pub api_address : ℕ
  pub table : Bytes
  pub state : ℕ
  pub capacity : ℕ
  pub maximum : ℕ
  pub bounds : Bounds
  pub runtime_enabled : Bool
  pub upload : Option UploadFacts
  pub checkpoint : Option Checkpoint

abbrev pub bad_table : Bytes → List ℕ → Bool
bad_table table functions =
    not (word 0 table == 0x49504146 && (half_word 4 table == 2 && half_word 6 table == 52))
    || not (bytes_eq (map unpack_le (pieces 4 (slice 8 32 table))) functions)

abbrev pub bad_arena : Bytes → ℕ → Bool
bad_arena table allocation =
    let state = word 40 table in
    let capacity = word 44 table in
    not (state == allocation)
    || (not (capacity == 4096)
        || (not (word 48 table == 4096)
            || not (
                leb 0x20000000 state
                && (ltb state (state + capacity) && leb (state + capacity) 0x20040000))))

-- The first checks: the table of the candidate interface.
pub record Api : Type 0 where
  pub elf : ElfFile
  pub flash : List Place
  pub address : ℕ
  pub table : Bytes

unfoldable pub read_api : Bytes → Result StatefulError Api
read_api file = do
  (legacy, flash) ← map_err in_resident (resident_elf file)
  elf ← read_elf file
  (address, section) ← object elf (ascii "firmingo_sketch_api_v2") 52 1 2
  raise_if (not (leb flash_start address && leb address (flash_end - 52))) outside_flash
  table ← file_extent file ((section.offset + address) - section.addr) 52
  raise_if (bad_table table legacy.functions) api_differs
  ok (record { elf = elf; flash = flash; address = address; table = table })

-- The checks of the arena, and the linker's bounds.
unfoldable pub check_arena : Api → Result StatefulError Bounds
check_arena a = do
  (allocation, bss) ← object a.elf state_name 4096 8 3
  raise_if (bad_arena a.table allocation) arena_differs
  raise_if (not (is_only (mappings a.address 52 a.flash) a.table)) api_not_loaded
  check_symbols a.elf (word 40 a.table) (word 44 a.table) a.elf.symbols
  bounds ← read_bounds a.elf
  raise_if (not (good_bounds (word 40 a.table) (word 44 a.table) bounds)) bad_extents
  ok bounds

-- The optional parts, each with its marker.
unfoldable pub finish_contract : Api → Bounds → Result StatefulError Contract
finish_contract a bounds = do
  let runtime = has_symbol a.elf (ascii "firmingo_stateful_boot_mode")
  optional_marker runtime a.elf a.flash
  upload ←
      optional_upload (has_symbol a.elf (ascii "firmingo_stateful_upload_contract")) a.elf a.flash
  raise_if (is_upload upload && not runtime) needs_runtime
  checkpoint ←
      optional_checkpoint (has_symbol a.elf (ascii "firmingo_flash_checkpoint_contract"))
        (is_upload upload) a.elf a.flash
  ok (record {
    elf = a.elf;
    api_address = a.address;
    table = a.table;
    state = word 40 a.table;
    capacity = word 44 a.table;
    maximum = word 48 a.table;
    bounds = bounds;
    runtime_enabled = runtime;
    upload = upload;
    checkpoint = checkpoint;
  })

unfoldable pub resident_contract : Bytes → Result StatefulError (Contract × List Place)
resident_contract file = do
  a ← read_api file
  bounds ← check_arena a
  contract ← finish_contract a bounds
  ok (contract, a.flash)
