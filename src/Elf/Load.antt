-- ===== src/Elf/Load.antt =====
-- The scan of the program headers for the bytes that the file loads into flash.
use firmingo.Common.{
  ℕ, ◌+◌, ◌-◌, ◌/◌, ◌%◌, Bool, not, ◌&&◌, ◌||◌, List, [], ◌∷◌, ◌++◌, Result, ok, ◌>>=◌, ◌>>◌,
  raise_if, leb, ltb, ◌==◌, if◌then◌else◌,
}
use firmingo.Common.Bytes.{Bytes, slice, bytes_eq}
use firmingo.Uf2.{flash_start}
use firmingo.Uf2.Memory.{Place}
use firmingo.Elf.{ElfError, exceeds_flash, inconsistent_mapping, Segment, extent, flash_end}

-- `flash` and `table_mappings`.
pub record Loaded : Type 0 where
  pub flash : List Place
  pub mappings : List ℕ

abbrev pub outside_flash : Segment → Bool
outside_flash s =
    ltb s.memory_bytes s.file_bytes
    || not (
        leb flash_start s.physical
        && (ltb s.physical (s.physical + s.file_bytes)
            && leb (s.physical + s.file_bytes) flash_end))

module _ (data' : Bytes) (address : ℕ) (api : Bytes) where
  abbrev pub has_table : Segment → Bool
  has_table s = leb s.virtual address && leb (address + 40) (s.virtual + s.file_bytes)

  -- The addresses differ, the segment cannot be read or has unknown permissions, or the bytes differ.
  abbrev pub bad_mapping : Segment → Bytes → Bool
  bad_mapping s payload =
      not ((s.physical + address) - s.virtual == address)
      || (not ((s.permissions / 4) % 2 == 1)
          || (not (s.permissions / 8 == 0)
              || not (bytes_eq (slice (address - s.virtual) 40 payload) api)))

  -- `table_mappings` of one segment.
  unfoldable pub mapping_of : Segment → Bytes → Result ElfError (List ℕ)
  mapping_of s payload =
      if has_table s
      then raise_if (bad_mapping s payload) inconsistent_mapping >> ok (s.permissions ∷ [])
      else ok []

  unfoldable pub load_segment : Segment → Result ElfError Loaded
  load_segment s = do
    payload ← extent data' s.offset s.file_bytes
    raise_if (outside_flash s) exceeds_flash
    mappings ← mapping_of s payload
    ok (record { flash = (s.physical, payload) ∷ []; mappings = mappings })

  -- A segment that is not loaded, or loads no bytes, is passed over.
  unfoldable pub load_segments : List Segment → Result ElfError Loaded
  load_segments [] = ok (record { flash = []; mappings = [] })
  load_segments (s ∷ segments) = do
    let nothing : Result ElfError Loaded = ok (record { flash = []; mappings = [] })
    first ← if s.kind == 1 && not (s.file_bytes == 0) then load_segment s else nothing
    later ← load_segments segments
    ok (record { flash = first.flash ++ later.flash; mappings = first.mappings ++ later.mappings })
