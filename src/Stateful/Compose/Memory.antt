-- ===== src/Stateful/Compose/Memory.antt =====
-- The dictionary of bytes that `compose` builds is the memory that the image writes.
use firmingo.Common.{
  ℕ, zero, suc, ◌+◌, ◌-◌, ◌%◌, ◌≡◌, refl, sym, ap, subst, ◌∙◌, Bool, false, Bool-cases, inl, inr,
  Option, none, some, List, [], ◌∷◌, Result, ok, err, >>=-eq-ok, ok-inj, length, get_elem?,
  if◌then◌else◌, arith,
}
use firmingo.Common.Bytes.{Bytes, Absent, Distinct}
use firmingo.Uf2.{address_of, payload_of}
use firmingo.Uf2.Resident.{IsResidentBlock, InOrder, addresses}
use firmingo.Uf2.Memory.{places, covers, place_of, read_byte}
use firmingo.Uf2.Compare.Sound.{Writes, Writes-cons}
use firmingo.Stateful.Compose.{InitialError, no_api, memory_get, read_memory}

pick_later :
    (found : Option ℕ) (here : Bool) (x y : Option ℕ)
    → here ≡ false
    → (elim found [ some z ↦ some z | none ↦ if here then x else y ])
      ≡ (elim found [ some z ↦ some z | none ↦ y ])
pick_later none here x y h = rw h refl
pick_later (some z) here x y h = refl

pick_found : (found : Option ℕ) → (elim found [ some z ↦ some z | none ↦ none ]) ≡ found
pick_found none = refl
pick_found (some z) = refl

pick_else : (here : Bool) (x y : Option ℕ) → here ≡ false → y ≡ (if here then x else y)
pick_else here x y h = rw h refl

module _ (old : ℕ) (a : ℕ) where
  memory_get-Absent :
      (index : ℕ) (blocks : List Bytes)
      → InOrder (IsResidentBlock old) index blocks
      → Absent (a - a % 256) (addresses blocks)
      → memory_get blocks a ≡ none
  unfolding memory_get
  memory_get-Absent index [] o h = refl
  memory_get-Absent index (b ∷ blocks) o h =
      let aligned : address_of b % 256 ≡ 0 = o.0.1.aligned in
      let there : covers (place_of b) a ≡ false = ground (arith, h.0) in
      rw (memory_get-Absent (index + 1) blocks o.1 h.1, there) refl

  pub memory_get-read_byte :
      (index : ℕ) (blocks : List Bytes)
      → InOrder (IsResidentBlock old) index blocks
      → Distinct (addresses blocks)
      → memory_get blocks a ≡ read_byte (places blocks) a
  unfolding memory_get read_byte
  memory_get-read_byte index [] o d = refl
  memory_get-read_byte index (b ∷ blocks) o d = elim (Bool-cases (covers (place_of b) a)) [
    | inl here ↦
        let aligned : address_of b % 256 ≡ 0 = o.0.1.aligned in
        let key : address_of b ≡ a - a % 256 = ground arith in
        let alone =
          memory_get-Absent (index + 1) blocks o.1
            (subst (λ k. Absent k (addresses blocks)) key d.0) in
        rw (alone, here) refl
    | inr there ↦
        let x = get_elem? (payload_of b) (a - address_of b) in
        pick_later (memory_get blocks a) (covers (place_of b) a) x none there
        ∙ pick_found (memory_get blocks a)
        ∙ memory_get-read_byte (index + 1) blocks o.1 d.1
        ∙ pick_else (covers (place_of b) a) x (read_byte (places blocks) a) there
  ]

module _ (blocks : List Bytes)
    (memory : (a : ℕ) → memory_get blocks a ≡ read_byte (places blocks) a) where
  get-some :
      (found : Option ℕ) {x : ℕ}
      → ◌≡◌ {A = Result InitialError ℕ} (elim found [ none ↦ err no_api | some x ↦ ok x ]) (ok x)
      → found ≡ some x
  get-some none h = cc
  get-some (some x) h = ap some (ok-inj h)

  -- The bytes that are read are those that the image writes.
  pub read_memory-Writes :
      (address count : ℕ) {table : Bytes}
      → read_memory blocks address count ≡ ok table
      → (length table ≡ count) × Writes blocks address table
  unfolding read_memory
  read_memory-Writes address zero {table} h =
      let is : [] ≡ table = ok-inj h in
      (
        ap length (sym is),
        λ k below. let none_left : length table ≡ 0 = ap length (sym is) in absurd (omega arith),
      )
  read_memory-Writes address (suc count) {table} h =
      let (x, first, h1) =
        >>=-eq-ok (elim (memory_get blocks address) [ none ↦ err no_api | some x ↦ ok x ]) _ h in
      let (later, rest, done) = >>=-eq-ok (read_memory blocks (address + 1) count) _ h1 in
      let (full, writes) = read_memory-Writes (address + 1) count rest in
      let is : x ∷ later ≡ table = ok-inj done in
      let here = sym (memory address) ∙ get-some (memory_get blocks address) first in
      subst (λ t. (length t ≡ suc count) × Writes blocks address t) is
        (ap suc full, (Writes-cons blocks address x later).1 (here, writes))
