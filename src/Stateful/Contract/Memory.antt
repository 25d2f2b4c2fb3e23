-- ===== src/Stateful/Contract/Memory.antt =====
-- Where the arena of an accepted resident lies, between the linker's bounds and apart from every other object.
use firmingo.Common.{
  ℕ, ◌+◌, ◌≤◌, ◌<◌, ◌%◌, ◌/◌, ◌≡◌, ◌≢◌, ◌⊎◌, inl, inr, refl, sym, ap, subst, ◌∙◌, Bool-cases, Bool,
  true, false, not, ◌&&◌, Option, none, some, List, [], ◌∷◌, zero, suc, ok, raise_if-eq-ok, length,
  get_elem?, ltb, ◌==◌, arith,
}
use mathlib.Core.Option.{some-injective}
use firmingo.Common.Bytes.{Bytes, bytes_eq, bytes_eq_iff}
use firmingo.Uf2.{word}
use firmingo.Uf2.Memory.{Place}
use firmingo.Elf.{Section}
use firmingo.Stateful.{overlap, Symbol, ElfFile}
use firmingo.Stateful.Reader.{is_index}
use firmingo.Stateful.Contract.{
  Bounds, good_bss, good_heap, good_stacks, good_bounds, state_name, is_allocated, intrudes,
  check_symbols, Contract, bad_arena, resident_contract,
}
use firmingo.Stateful.Contract.Arena.{resident_contract-Accepted}

-- The arena in the SRAM, inside the BSS; then the heap; then, above the SRAM, the stacks of the two cores.
pub record IsLaidOut (state capacity : ℕ) (b : Bounds) : Type 0 where
  pub arena : (0x20000000 ≤ state) × ((b.bss_start ≤ state) × (state + capacity ≤ b.bss_end))
  pub heap : (state + capacity ≤ b.end) × ((b.end < b.heap_limit) × (b.heap_limit ≡ 0x20040000))
  pub stack_one : (b.heap_limit ≤ b.stack_one_bottom) × (b.stack_one_bottom < b.stack_one_top)
  pub stack :
      (b.stack_one_top ≤ b.stack_bottom)
      × ((b.stack_bottom < b.stack_top) × (b.stack_top ≤ 0x20042000))

&&-split : (a b : Bool) → a && b ≡ true → (a ≡ true) × (b ≡ true)
&&-split true b h = (refl, h)
&&-split false b h = cc

good_bounds-IsLaidOut :
    (state capacity : ℕ) (b : Bounds)
    → 0x20000000 ≤ state
    → good_bounds state capacity b ≡ true
    → IsLaidOut state capacity b
good_bounds-IsLaidOut state capacity b low h =
    let (left, right) = &&-split (good_bss state capacity b) (good_heap b && good_stacks b) h in
    let (first, second) = &&-split (good_heap b) (good_stacks b) right in
    let below : (b.bss_start ≤ state) × ((state + capacity ≤ b.bss_end) × (b.bss_end ≤ b.end)) =
      (ground (arith, left), (ground (arith, left), ground (arith, left))) in
    let heap_limit : b.heap_limit ≡ 0x20040000 = ground (arith, first) in
    record {
      arena = (low, (below.0, below.1.0));
      heap = (omega (arith, below), (ground (arith, first), heap_limit));
      stack_one = (ground (arith, first), ground (arith, second));
      stack = (ground (arith, second), (ground (arith, second), ground (arith, second)));
    }

bad_arena-numbers :
    (table : Bytes) (allocation : ℕ)
    → bad_arena table allocation ≡ false
    → (0x20000000 ≤ word 40 table) × ((word 44 table ≡ 4096) × (word 48 table ≡ 4096))
bad_arena-numbers table allocation h = (ground arith, (ground arith, ground arith))

-- The arena of an accepted resident has 4096 bytes, the largest module has at most 4096 bytes, and the arena, the heap
-- and the two stacks follow each other in the SRAM without a common byte.
pub resident_contract-IsLaidOut :
    (file : Bytes) {c : Contract} {flash : List Place}
    → resident_contract file ≡ ok (c, flash)
    → (c.capacity ≡ 4096) × ((c.maximum ≡ 4096) × IsLaidOut c.state c.capacity c.bounds)
resident_contract-IsLaidOut file {c} h =
    let it = resident_contract-Accepted file h in
    let f = it.finished in
    let (low, (capacity, maximum)) =
      bad_arena-numbers it.api.table it.arena.allocation it.arena.good_arena in
    let laid : IsLaidOut (word 40 it.api.table) (word 44 it.api.table) it.bounds =
      good_bounds-IsLaidOut _ _ it.bounds low it.arena.bounded in
    let moved = subst (λ s. IsLaidOut s (word 44 it.api.table) it.bounds) (sym f.state_is) laid in
    let sized = subst (λ n. IsLaidOut c.state n it.bounds) (sym f.capacity_is) moved in
    (
      f.capacity_is ∙ capacity,
      (f.maximum_is ∙ maximum, subst (λ b. IsLaidOut c.state c.capacity b) (sym f.bounds_is) sized),
    )

-- One entry of the symbol table that no check refuses.
check_symbols-apart :
    (elf : ElfFile) (state capacity : ℕ) (symbols : List (Bytes × Symbol)) (k : ℕ) {name : Bytes}
    {s : Symbol}
    → check_symbols elf state capacity symbols ≡ ok tt
    → get_elem? symbols k ≡ some (name, s)
    → intrudes elf state capacity name s ≡ false
unfolding check_symbols
check_symbols-apart elf state capacity [] k h at_k = cc
check_symbols-apart elf state capacity ((name, s) ∷ symbols) zero h at_k =
    let (apart, _) =
      raise_if-eq-ok (intrudes elf state capacity name s) overlap
        (check_symbols elf state capacity symbols) h in
    let is : ◌≡◌ {A = Bytes × Symbol} (name, s) _ = some-injective (name, s) _ at_k in
    subst (λ (e : Bytes × Symbol). intrudes elf state capacity e.0 e.1 ≡ false) is apart
check_symbols-apart elf state capacity ((name, s) ∷ symbols) (suc k) h at_k =
    let (_, later) =
      raise_if-eq-ok (intrudes elf state capacity name s) overlap
        (check_symbols elf state capacity symbols) h in
    check_symbols-apart elf state capacity symbols k later at_k

not-intrudes :
    (other empty object index allocated : Bool) (address size state capacity : ℕ)
    → not other
        && (not empty
            && (object
                && ((index && allocated)
                    && (ltb address (state + capacity) && ltb state (address + size)))))
      ≡ false
    → other ≡ false
    → empty ≡ false
    → object ≡ true
    → index ≡ true
    → allocated ≡ true
    → (address + size ≤ state) ⊎ (state + capacity ≤ address)
not-intrudes true empty object index allocated address size state capacity h o e b i a = cc
not-intrudes false true object index allocated address size state capacity h o e b i a = cc
not-intrudes false false false index allocated address size state capacity h o e b i a = cc
not-intrudes false false true false allocated address size state capacity h o e b i a = cc
not-intrudes false false true true false address size state capacity h o e b i a = cc
not-intrudes false false true true true address size state capacity h o e b i a = ground (arith, h)

bytes_eq-other : (xs ys : Bytes) → xs ≢ ys → bytes_eq xs ys ≡ false
bytes_eq-other xs ys h = elim (Bool-cases (bytes_eq xs ys)) [
  | inl e ↦ absurd (h ((bytes_eq_iff xs ys).0 e))
  | inr e ↦ e
]

get_elem?-lt : {A : Type 0} (xs : List A) (i : ℕ) {a : A} → get_elem? xs i ≡ some a → i < length xs
get_elem?-lt [] i h = cc
get_elem?-lt (x ∷ xs) zero h = omega arith
get_elem?-lt (x ∷ xs) (suc i) h = let below = get_elem?-lt xs i h in omega (arith, below)

is_allocated-at :
    (sections : List Section) (index : ℕ) {section : Section}
    → get_elem? sections index ≡ some section
    → (section.flags / 2) % 2 ≡ 1
    → is_allocated sections index ≡ true
is_allocated-at sections index {section} h odd =
    ap
      (λ (found : Option Section). elim found [
        | none ↦ false
        | some section ↦ (section.flags / 2) % 2 == 1
      ])
      h
    ∙ ap (λ n. n == 1) odd

is_index-in :
    (elf : ElfFile) (index : ℕ) {section : Section}
    → 0 < index
    → get_elem? elf.sections index ≡ some section
    → is_index elf index ≡ true
is_index-in elf index positive h =
    let below : index < length elf.sections = get_elem?-lt elf.sections index h in
    ground (arith, positive, below)

-- In an accepted resident every object of another name, of at least one byte and in a section that the loader
-- allocates, ends before the arena or starts behind it.
pub resident_contract-apart :
    (file : Bytes) {c : Contract} {flash : List Place} (k : ℕ) {name : Bytes} {s : Symbol}
    {section : Section}
    → resident_contract file ≡ ok (c, flash)
    → get_elem? c.elf.symbols k ≡ some (name, s)
    → name ≢ state_name
    → 0 < s.size
    → s.info % 16 ≡ 1
    → 0 < s.index
    → get_elem? c.elf.sections s.index ≡ some section
    → (section.flags / 2) % 2 ≡ 1
    → (s.address + s.size ≤ c.state) ⊎ (c.state + c.capacity ≤ s.address)
resident_contract-apart file {c} k {name} {s} {section} h at_k other full object index in_table
      allocated =
    let it = resident_contract-Accepted file h in
    let f = it.finished in
    let a = it.api in
    let found : get_elem? a.elf.symbols k ≡ some (name, s) =
      subst (λ e. get_elem? e.symbols k ≡ some (name, s)) f.elf_is at_k in
    let held : get_elem? a.elf.sections s.index ≡ some section =
      subst (λ e. get_elem? e.sections s.index ≡ some section) f.elf_is in_table in
    let apart =
      check_symbols-apart a.elf (word 40 a.table) (word 44 a.table) a.elf.symbols k it.arena.alone
        found in
    let out =
      not-intrudes (bytes_eq name state_name) (s.size == 0) (s.info % 16 == 1)
        (is_index a.elf s.index) (is_allocated a.elf.sections s.index) s.address s.size
        (word 40 a.table) (word 44 a.table) apart (bytes_eq-other name state_name other)
        (ground (arith, full)) (ground (arith, object)) (is_index-in a.elf s.index index held)
        (is_allocated-at a.elf.sections s.index held allocated) in
    subst (λ n. (s.address + s.size ≤ c.state) ⊎ (c.state + n ≤ s.address)) (sym f.capacity_is)
      (subst (λ n. (s.address + s.size ≤ n) ⊎ (n + word 44 a.table ≤ s.address)) (sym f.state_is)
        out)
