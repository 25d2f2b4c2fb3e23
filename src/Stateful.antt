-- ===== src/Stateful.antt =====
-- experiments/managed_sketch/build_stateful_proof.py: the bounded reader of ELF32 files (class `Elf`), the
-- contract of a resident that serves stateful sketches, and the FMS2 capsule of a sketch.
pub mod Reader
pub mod Contract
pub mod Module
pub mod Compose
mod Tests
use firmingo.Common.{ℕ, List, Option}
use firmingo.Common.Bytes.{Bytes}
use firmingo.Elf.{ElfError, Section, Segment}

-- The messages of the `ValueError`s. `not_ascii` is the error of `decode`, `key_error` that of a section that
-- is not there, and `cannot_pack` that of a word that does not fit into 32 bits.
pub data StatefulError : Type 0 where
  in_resident : ElfError → StatefulError
  elf_size not_arm no_section_names duplicate_section bad_symbol_table bad_symbol_names :
      StatefulError
  bad_string not_ascii nobits one_symbol bad_object outside_section key_error cannot_pack :
      StatefulError
  outside_flash api_differs arena_differs api_not_loaded overlap bad_extents : StatefulError
  bad_marker bad_upload upload_not_loaded needs_runtime bad_checkpoint : StatefulError
  allocated_section relocations undefined_symbol extent_mismatch load_mismatch bad_entry :
      StatefulError

-- An entry of `symbols`, without its name.
pub record Symbol : Type 0 where
  pub address : ℕ
  pub size : ℕ
  pub info : ℕ
  pub other : ℕ
  pub index : ℕ

-- The object that `Elf(data)` makes. `symbols` is the dictionary as a list of entries in the order of the
-- tables: the entries of a name are those of the dictionary's list.
pub record ElfFile : Type 0 where
  pub file : Bytes
  pub sections : List Section
  pub segments : List Segment
  pub named : List (Bytes × Section)
  pub symbols : List (Bytes × Symbol)
