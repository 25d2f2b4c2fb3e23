-- ===== src/Stateful/Contract/Arena.antt =====
-- The state arena of an accepted resident: where it lies, and that no other object owns a part of it.
use firmingo.Common.{
  ℕ, ◌+◌, ◌-◌, ◌≤◌, ◌≡◌, refl, subst, Bool, true, false, not, ◌&&◌, List, ok, >>=-eq-ok, ok-inj,
  raise_if-eq-ok, map_err, map_err-eq-ok, length, leb, arith,
}
use firmingo.Common.Bytes.{Bytes, ascii}
use firmingo.Uf2.{word, flash_start}
use firmingo.Uf2.Memory.{Place}
use firmingo.Elf.{flash_end}
use firmingo.Elf.Served.{extent_lem}
use firmingo.Elf.Resident.{Facts, resident_elf}
use firmingo.Stateful.{
  in_resident, outside_flash, api_differs, arena_differs, api_not_loaded, bad_extents,
  needs_runtime,
}
use firmingo.Stateful.Reader.{file_extent, read_elf, has_symbol, object}
use firmingo.Stateful.Contract.{
  mappings, is_only, Bounds, read_bounds, good_bounds, state_name, check_symbols, optional_marker,
  optional_upload, is_upload, optional_checkpoint, Contract, Api, read_api, check_arena,
  finish_contract, bad_table, bad_arena, resident_contract,
}

pub not-false : (b : Bool) → not b ≡ false → b ≡ true
not-false true h = refl
not-false false h = cc

-- What `read_api` establishes.
pub record Read (file : Bytes) (a : Api) : Type 0 where
  pub legacy : Facts
  pub loads : resident_elf file ≡ ok (legacy, a.flash)
  pub low : flash_start ≤ a.address
  pub high : a.address + 52 ≤ flash_end
  pub full : length a.table ≡ 52
  pub good_table : bad_table a.table legacy.functions ≡ false

in_flash_lem :
    (address : ℕ)
    → not (leb flash_start address && leb address (flash_end - 52)) ≡ false
    → (flash_start ≤ address) × (address + 52 ≤ flash_end)
in_flash_lem address h = (ground arith, ground arith)

pub read_api-Read : (file : Bytes) {a : Api} → read_api file ≡ ok a → Read file a
unfolding read_api
read_api-Read file {a} h =
    let ((legacy, flash), loads, h1) = >>=-eq-ok (map_err in_resident (resident_elf file)) _ h in
    let (elf, _, h2) = >>=-eq-ok (read_elf file) _ h1 in
    let ((address, section), _, h3) =
      >>=-eq-ok (object elf (ascii "firmingo_sketch_api_v2") 52 1 2) _ h2 in
    let (in_flash, h4) =
      raise_if-eq-ok (not (leb flash_start address && leb address (flash_end - 52))) outside_flash _
        h3 in
    let (table, read, h5) =
      >>=-eq-ok (file_extent file ((section.offset + address) - section.addr) 52) _ h4 in
    let (good_table, done) = raise_if-eq-ok (bad_table table legacy.functions) api_differs _ h5 in
    let made : Api = record { elf = elf; flash = flash; address = address; table = table } in
    let is : made ≡ a = ok-inj done in
    let (low, high) = in_flash_lem address in_flash in
    let (_, full) =
      extent_lem file ((section.offset + address) - section.addr) 52
        (map_err-eq-ok in_resident _ read) in
    subst (Read file) is (record {
      legacy = legacy;
      loads = map_err-eq-ok in_resident (resident_elf file) loads;
      low = low;
      high = high;
      full = full;
      good_table = good_table;
    })

-- What `check_arena` establishes.
pub record Arena (a : Api) (b : Bounds) : Type 0 where
  pub allocation : ℕ
  pub good_arena : bad_arena a.table allocation ≡ false
  pub mapped : is_only (mappings a.address 52 a.flash) a.table ≡ true
  pub alone : check_symbols a.elf (word 40 a.table) (word 44 a.table) a.elf.symbols ≡ ok tt
  pub bounded : good_bounds (word 40 a.table) (word 44 a.table) b ≡ true

pub check_arena-Arena : (a : Api) {b : Bounds} → check_arena a ≡ ok b → Arena a b
unfolding check_arena
check_arena-Arena a {b} h =
    let ((allocation, bss), _, h1) = >>=-eq-ok (object a.elf state_name 4096 8 3) _ h in
    let (good_arena, h2) = raise_if-eq-ok (bad_arena a.table allocation) arena_differs _ h1 in
    let (mapped, h3) =
      raise_if-eq-ok (not (is_only (mappings a.address 52 a.flash) a.table)) api_not_loaded _ h2 in
    let (_, alone, h4) =
      >>=-eq-ok (check_symbols a.elf (word 40 a.table) (word 44 a.table) a.elf.symbols) _ h3 in
    let (bounds, _, h5) = >>=-eq-ok (read_bounds a.elf) _ h4 in
    let (bounded, done) =
      raise_if-eq-ok (not (good_bounds (word 40 a.table) (word 44 a.table) bounds)) bad_extents _
        h5 in
    let is : bounds ≡ b = ok-inj done in
    subst (Arena a) is (record {
      allocation = allocation;
      good_arena = good_arena;
      mapped = not-false _ mapped;
      alone = alone;
      bounded = not-false _ bounded;
    })

-- The contract repeats what was read.
pub record Finished (a : Api) (b : Bounds) (c : Contract) : Type 0 where
  pub elf_is : c.elf ≡ a.elf
  pub address_is : c.api_address ≡ a.address
  pub table_is : c.table ≡ a.table
  pub state_is : c.state ≡ word 40 a.table
  pub capacity_is : c.capacity ≡ word 44 a.table
  pub maximum_is : c.maximum ≡ word 48 a.table
  pub bounds_is : c.bounds ≡ b

pub finish_contract-Finished :
    (a : Api) (b : Bounds) {c : Contract} → finish_contract a b ≡ ok c → Finished a b c
unfolding finish_contract
finish_contract-Finished a b {c} h =
    let runtime : Bool = has_symbol a.elf (ascii "firmingo_stateful_boot_mode") in
    let (_, _, h1) = >>=-eq-ok (optional_marker runtime a.elf a.flash) _ h in
    let (upload, _, h2) =
      >>=-eq-ok
        (optional_upload (has_symbol a.elf (ascii "firmingo_stateful_upload_contract")) a.elf
          a.flash)
        _ h1 in
    let (_, h3) = raise_if-eq-ok (is_upload upload && not runtime) needs_runtime _ h2 in
    let (checkpoint, _, done) =
      >>=-eq-ok
        (optional_checkpoint (has_symbol a.elf (ascii "firmingo_flash_checkpoint_contract"))
          (is_upload upload) a.elf a.flash)
        _ h3 in
    let is = ok-inj done in
    subst (Finished a b) is (record {
      elf_is = refl;
      address_is = refl;
      table_is = refl;
      state_is = refl;
      capacity_is = refl;
      maximum_is = refl;
      bounds_is = refl;
    })

-- The stages of an accepted file.
pub record Accepted (file : Bytes) (c : Contract) (flash : List Place) : Type 0 where
  pub api : Api
  pub bounds : Bounds
  pub read : Read file api
  pub arena : Arena api bounds
  pub finished : Finished api bounds c
  pub flash_is : flash ≡ api.flash

pub resident_contract-Accepted :
    (file : Bytes) {c : Contract} {flash : List Place}
    → resident_contract file ≡ ok (c, flash)
    → Accepted file c flash
unfolding resident_contract
resident_contract-Accepted file {c} {flash} h =
    let (a, read, h1) = >>=-eq-ok (read_api file) _ h in
    let (b, arena, h2) = >>=-eq-ok (check_arena a) _ h1 in
    let (made, finished, done) = >>=-eq-ok (finish_contract a b) _ h2 in
    let is : ◌≡◌ {A = Contract × List Place} (made, a.flash) (c, flash) = ok-inj done in
    subst (λ (r : Contract × List Place). Accepted file r.0 r.1) is
      (record {
        api = a;
        bounds = b;
        read = read_api-Read file read;
        arena = check_arena-Arena a arena;
        finished = finish_contract-Finished a b finished;
        flash_is = refl;
      })
