-- ===== src/Stateful/Tests.antt =====
-- Runs of experiments/managed_sketch/build_stateful_proof.py and compose_stateful_initial.py on small files.
mod Resident
mod Sketch
mod Initial
use firmingo.Common.{ℕ, ◌+◌, ◌*◌, List, [], ◌∷◌, ◌++◌, map, join, replicate, length}
use firmingo.Common.Bytes.{Bytes, pack_le}
use firmingo.Elf.{elf_ident}
use firmingo.Stateful.{ElfFile}

abbrev pub words : List ℕ → Bytes
words ns = join (map (pack_le 4) ns)

abbrev pub halves : List ℕ → Bytes
halves ns = join (map (pack_le 2) ns)

-- A header with its program headers behind it, and the section headers behind these.
abbrev pub header : ℕ → ℕ → ℕ → Bytes
header programs sections names =
    elf_ident
    ++ replicate 8 0
    ++ halves (2 ∷ 40 ∷ [])
    ++ words (1 ∷ 0 ∷ 52 ∷ (52 + 32 * programs) ∷ 0x05000000 ∷ [])
    ++ halves (52 ∷ 32 ∷ programs ∷ 40 ∷ sections ∷ names ∷ [])

abbrev pub entry : ℕ → ℕ → ℕ → ℕ → ℕ → Bytes
entry name address size info index =
    words (name ∷ address ∷ size ∷ []) ++ (info ∷ 0 ∷ []) ++ pack_le 2 index

abbrev pub nothing : ElfFile
nothing = record { file = []; sections = []; segments = []; named = []; symbols = [] }
