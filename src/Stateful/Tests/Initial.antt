-- ===== src/Stateful/Tests/Initial.antt =====
-- A composite image of a resident with one block and a capsule of 260 bytes.
use firmingo.Common.{ℕ, ◌≡◌, refl, [], ◌∷◌, ◌++◌, Option, some, ok, replicate, join}
use firmingo.Common.Bytes.{Bytes, pack_le, pieces, pieces_fuel, contains}
use firmingo.Uf2.{flash_start, word, checked_resident_bytes, check_blocks, check_block}
use firmingo.Uf2.Capsule.{half_word}
use firmingo.Uf2.Compose.{slot_block, block_head, composite, padded_sector}
use firmingo.Stateful.Compose.{Check, memory_get, read_memory, strip, lstrip, compose}
use firmingo.Stateful.Compose.Checked.{IsServed, compose-IsServed}
use firmingo.Stateful.Tests.{words, halves}

abbrev resident : Bytes
resident = slot_block flash_start 0 1 (
    pack_le 4 0x49504146
    ++ halves (2 ∷ 52 ∷ [])
    ++ replicate 32 0
    ++ words (0x20000000 ∷ 1024 ∷ 4096 ∷ [])
    ++ replicate 204 0)

abbrev capsule : Bytes
capsule = replicate 260 1

-- A checker that accepts the capsule and prints a line.
abbrev accepts : Bytes → ℕ → ℕ → ℕ → Option Check
accepts bytes api state capacity =
    some (record { returncode = 0; stdout = 0x6F ∷ 0x6B ∷ 10 ∷ []; stderr = [] })

abbrev image : Bytes
image = join (composite (resident ∷ []) (padded_sector capsule))

composed :
    compose accepts resident capsule flash_start 0x20000000 1024 ≡ ok (image, 0x6F ∷ 0x6B ∷ [])
unfolding compose checked_resident_bytes slot_block block_head check_blocks check_block word
    half_word pieces pieces_fuel contains memory_get read_memory strip lstrip
composed = refl

compose-IsServed_example :
    IsServed image flash_start 0x20000000 1024
    × ((check : Check) × ((accepts capsule flash_start 0x20000000 1024 ≡ some check)
          × (check.returncode ≡ 0)))
compose-IsServed_example =
    compose-IsServed accepts resident capsule flash_start 0x20000000 1024 composed
