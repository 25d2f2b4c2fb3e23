-- ===== src/Stateful/Compose/Checked.antt =====
-- What `compose` returns for a stateful sketch: the bytes of the image, and the interface that it still serves.
use firmingo.Common.{
  ℕ, zero, suc, ◌+◌, ◌-◌, ◌≤◌, ◌<◌, ◌≡◌, refl, sym, ap, ◌∙◌, Bool, false, not, ◌&&◌, ◌||◌, inl, inr,
  Bool-cases, Option, none, some, List, [], ◌∷◌, ok, err, >>=-eq-ok, ok-inj, raise_if-eq-ok,
  map_err, map_err-eq-ok, length, get_elem?, leb, ltb, ◌==◌, if◌then◌else◌, arith, join,
}
use firmingo.Common.Bytes.{Bytes, pieces}
use firmingo.Uf2.{word, slot, checked_resident_bytes}
use firmingo.Uf2.Resident.{IsBlock, InOrder}
use firmingo.Uf2.Memory.{places, read_byte, read_byte-Elsewhere}
use firmingo.Uf2.Compare.Sound.{Writes}
use firmingo.Uf2.Compose.{sector_bytes, padded_sector, composite}
use firmingo.Uf2.Compose.Layout.{resident-Elsewhere}
use firmingo.Uf2.Compose.Checked.{
  Composed, Composed-IsResident, Composed-InOrder, read_byte-Composed,
}
use firmingo.Stateful.Compose.{
  in_resident, facts_differ, capsule_size, no_check, rejected, Check, read_memory, bad_facts,
  compose,
}
use firmingo.Stateful.Compose.Memory.{memory_get-read_byte, read_memory-Writes}

-- The stages of a successful call.
pub record Stages (validate : Bytes → ℕ → ℕ → ℕ → Option Check) (resident capsule : Bytes)
    (api state capacity : ℕ) (image : Bytes) : Type 0 where
  pub composed : Composed resident capsule image
  pub table : Bytes
  pub read : read_memory composed.blocks api 52 ≡ ok table
  pub good_facts : bad_facts table state capacity ≡ false
  pub large : 260 ≤ length capsule
  pub check : Check
  pub called : validate capsule api state capacity ≡ some check
  pub succeeded : check.returncode ≡ 0

some-found :
    (found : Option Check) {c : Check}
    → (elim found [ none ↦ err no_check | some c ↦ ok c ]) ≡ ok c
    → found ≡ some c
some-found none h = cc
some-found (some c) h = ap some (ok-inj h)

compose-Stages :
    (validate : Bytes → ℕ → ℕ → ℕ → Option Check) (resident capsule : Bytes)
    (api state capacity : ℕ) {image : Bytes} {text : List ℕ}
    → compose validate resident capsule api state capacity ≡ ok (image, text)
    → Stages validate resident capsule api state capacity image
unfolding compose
compose-Stages validate resident capsule api state capacity {image} {text} h =
    let (blocks, accepted, h1) =
      >>=-eq-ok (map_err in_resident (checked_resident_bytes resident)) _ h in
    let (table, read, h2) = >>=-eq-ok (read_memory blocks api 52) _ h1 in
    let (facts, h3) = raise_if-eq-ok (bad_facts table state capacity) facts_differ _ h2 in
    let (size, h4) =
      raise_if-eq-ok (not (leb 260 (length capsule) && leb (length capsule) 4096)) capsule_size _
        h3 in
    let (check, called, h5) =
      >>=-eq-ok
        (elim (validate capsule api state capacity) [ none ↦ err no_check | some check ↦ ok check ])
        _ h4 in
    let (good, done) =
      raise_if-eq-ok
        (not (check.returncode == 0)
          || (ltb 8192 (length check.stdout) || ltb 8192 (length check.stderr)))
        rejected _ h5 in
    let is : join (composite blocks (padded_sector capsule)) ≡ image =
      ap (λ (r : Bytes × List ℕ). r.0) (ok-inj done) in
    record {
      composed = record {
        blocks = blocks;
        accepted = map_err-eq-ok in_resident (checked_resident_bytes resident) accepted;
        small = ground (arith, size);
        joined = sym is;
      };
      table = table;
      read = read;
      good_facts = facts;
      large = ground (arith, size);
      check = check;
      called = some-found (validate capsule api state capacity) called;
      succeeded = ground (arith, good);
    }

some_at : (xs : Bytes) (k : ℕ) → k < length xs → (x : ℕ) × (get_elem? xs k ≡ some x)
some_at [] k h = absurd (omega arith)
some_at (x ∷ xs) zero h = (x, refl)
some_at (x ∷ xs) (suc k) h = some_at xs k (omega arith)

not-some : {x : ℕ} → ◌≡◌ {A = Option ℕ} none (some x) → {A : Type 0} → A
not-some h = cc

if-right : (here : Bool) (x y : Option ℕ) → here ≡ false → (if here then x else y) ≡ y
if-right here x y h = rw h refl

-- What a resident image writes, it writes below the slot; the composite image writes it too.
Writes-Composed :
    {resident capsule image : Bytes} (c : Composed resident capsule image) (address : ℕ)
    (table : Bytes)
    → Writes c.blocks address table
    → Writes (pieces 512 image) address table
Writes-Composed {resident} {capsule} {image} c address table w k h =
    let r = Composed-IsResident c in
    let a = address + k in
    let (x, at_k) = some_at table k h in
    let here : Bool = leb slot a && ltb a (slot + sector_bytes) in
    let written : read_byte (places c.blocks) a ≡ get_elem? table k = w k h in
    let outside : here ≡ false = elim (Bool-cases here) [
      | inr e ↦ e
      | inl e ↦
          let above : slot ≤ a = ground (arith, e) in
          not-some (
            sym (
              read_byte-Elsewhere a (places c.blocks)
                (resident-Elsewhere (length c.blocks) 0 a c.blocks r.order above))
            ∙ written
            ∙ at_k)
    ] in
    read_byte-Composed c a
    ∙ if-right here (get_elem? (padded_sector capsule) (a - slot))
        (read_byte (places (pieces 512 resident)) a) outside
    ∙ ap (λ bs. read_byte (places bs) a) (sym r.cut)
    ∙ written

bad_facts-good :
    (table : Bytes) (state capacity : ℕ)
    → bad_facts table state capacity ≡ false
    → (word 0 table ≡ 0x49504146)
      × ((word 40 table ≡ state) × ((word 44 table ≡ capacity) × (word 48 table ≡ 4096)))
bad_facts-good table state capacity h = (ground arith, (ground arith, (ground arith, ground arith)))

-- A table of the interface that an image holds at an address.
pub record IsServed (image : Bytes) (api state capacity : ℕ) : Type 0 where
  pub table : Bytes
  pub full : length table ≡ 52
  pub written : Writes (pieces 512 image) api table
  pub facts :
      (word 0 table ≡ 0x49504146)
      × ((word 40 table ≡ state) × ((word 44 table ≡ capacity) × (word 48 table ≡ 4096)))

-- When `compose` returns an image, that image still writes 52 bytes at the selected address, which begin with the magic of the
-- interface and name the selected arena and its size, and 4096; and the native checker ran on the capsule and returned 0.
pub compose-IsServed :
    (validate : Bytes → ℕ → ℕ → ℕ → Option Check) (resident capsule : Bytes)
    (api state capacity : ℕ) {image : Bytes} {text : List ℕ}
    → compose validate resident capsule api state capacity ≡ ok (image, text)
    → IsServed image api state capacity
      × ((check : Check) × ((validate capsule api state capacity ≡ some check)
            × (check.returncode ≡ 0)))
compose-IsServed validate resident capsule api state capacity h =
    let s = compose-Stages validate resident capsule api state capacity h in
    let blocks = s.composed.blocks in
    let r = Composed-IsResident s.composed in
    let (full, writes) =
      read_memory-Writes blocks
        (λ a. memory_get-read_byte (length blocks) a 0 blocks r.order r.distinct) api 52 s.read in
    (
      record {
        table = s.table;
        full = full;
        written = Writes-Composed s.composed api s.table writes;
        facts = bad_facts-good s.table state capacity s.good_facts;
      },
      (s.check, (s.called, s.succeeded)),
    )

-- When `compose` returns an image, its blocks have the UF2 frame and are numbered in order, sixteen more than the resident's; it
-- writes the capsule, filled up with 0xff, in the first sector of the slot, and everywhere else what the resident image writes.
pub compose-writes :
    (validate : Bytes → ℕ → ℕ → ℕ → Option Check) (resident capsule : Bytes)
    (api state capacity : ℕ) {image : Bytes} {text : List ℕ}
    → compose validate resident capsule api state capacity ≡ ok (image, text)
    → (InOrder (IsBlock (length (pieces 512 image))) 0 (pieces 512 image)
        × (length (pieces 512 image) ≡ length (pieces 512 resident) + 16))
      × ((a : ℕ)
          → read_byte (places (pieces 512 image)) a ≡ (
              if leb slot a && ltb a (slot + sector_bytes)
              then get_elem? (padded_sector capsule) (a - slot)
              else read_byte (places (pieces 512 resident)) a))
compose-writes validate resident capsule api state capacity h =
    let s = compose-Stages validate resident capsule api state capacity h in
    (Composed-InOrder s.composed, read_byte-Composed s.composed)
