-- ===== src/Stateful/Compose.antt =====
-- `compose` of experiments/managed_sketch/compose_stateful_initial.py: one image for the ROM, from a resident that serves
-- stateful sketches and an FMS2 capsule that the native checker accepts.
pub mod Memory
pub mod Checked
use firmingo.Common.{
  ℕ, suc, zero, ◌+◌, ◌-◌, Bool, true, false, not, ◌&&◌, ◌||◌, Option, none, some, List, [], ◌∷◌,
  Result, ok, err, ◌>>=◌, ◌>>◌, raise_if, map_err, length, get_elem?, join, ltb, leb, ◌==◌,
  if◌then◌else◌,
}
use mathlib.Core.List.{reverse}
use firmingo.Common.Bytes.{Bytes}
use firmingo.Uf2.{Uf2Error, word, payload_of, checked_resident_bytes}
use firmingo.Uf2.Capsule.{half_word}
use firmingo.Uf2.Memory.{covers, place_of}
use firmingo.Uf2.Compose.{padded_sector, composite}

-- `no_check` is any error of the call of the checker itself.
pub data InitialError : Type 0 where
  in_resident : Uf2Error → InitialError
  no_api facts_differ capsule_size no_check rejected : InitialError

-- What `subprocess.run` gives: the code and the two texts, as code points.
pub record Check : Type 0 where
  pub returncode : ℕ
  pub stdout : List ℕ
  pub stderr : List ℕ

-- `memory.get(address)` of the dictionary of all bytes: a later block replaces an earlier one.
unfoldable pub memory_get : List Bytes → ℕ → Option ℕ
memory_get [] a = none
memory_get (block ∷ blocks) a = elim (memory_get blocks a) [
  | some x ↦ some x
  | none ↦
      if covers (place_of block) a
      then get_elem? (payload_of block) (a - (place_of block).0)
      else none
]

-- `bytes(memory[address + i] for i in range(count))`
unfoldable pub read_memory : List Bytes → ℕ → ℕ → Result InitialError Bytes
read_memory blocks address zero = ok []
read_memory blocks address (suc count) = do
  x ← elim (memory_get blocks address) [ none ↦ err no_api | some x ↦ ok x ]
  later ← read_memory blocks (address + 1) count
  ok (x ∷ later)

-- The facts of the table against those that the caller selected.
abbrev pub bad_facts : Bytes → ℕ → ℕ → Bool
bad_facts table state capacity =
    not (word 0 table == 0x49504146 && (half_word 4 table == 2 && half_word 6 table == 52))
    || not (word 40 table == state && (word 44 table == capacity && word 48 table == 4096))

-- `str.isspace` of one character.
abbrev pub is_space : ℕ → Bool
is_space x =
    (leb 9 x && leb x 13)
    || ((leb 28 x && leb x 32)
        || (x == 0x85
            || (x == 0xa0
                || (x == 0x1680
                    || ((leb 0x2000 x && leb x 0x200a)
                        || (x == 0x2028
                            || (x == 0x2029 || (x == 0x202f || (x == 0x205f || x == 0x3000)))))))))

unfoldable pub lstrip : List ℕ → List ℕ
lstrip [] = []
lstrip (x ∷ xs) = let rest = lstrip xs in if is_space x then rest else x ∷ xs

unfoldable pub strip : List ℕ → List ℕ
strip xs = reverse (lstrip (reverse (lstrip xs)))

-- `check` is the native checker, called with the capsule and the three numbers; `none` when the call raises.
unfoldable pub compose :
    (Bytes → ℕ → ℕ → ℕ → Option Check)
    → Bytes
    → Bytes
    → ℕ
    → ℕ
    → ℕ
    → Result InitialError (Bytes × List ℕ)
compose validate resident capsule api state capacity = do
  blocks ← map_err in_resident (checked_resident_bytes resident)
  table ← read_memory blocks api 52
  raise_if (bad_facts table state capacity) facts_differ
  raise_if (not (leb 260 (length capsule) && leb (length capsule) 4096)) capsule_size
  check ← elim (validate capsule api state capacity) [ none ↦ err no_check | some check ↦ ok check ]
  raise_if
      (not (check.returncode == 0)
        || (ltb 8192 (length check.stdout) || ltb 8192 (length check.stderr)))
      rejected
  ok (join (composite blocks (padded_sector capsule)), strip check.stdout)
