-- ===== src/Elf/Served.antt =====
-- The flash bytes that `resident_elf` of experiments/managed_sketch/export_resident.py accepts.
use firmingo.Common.{
  ℕ, zero, suc, ◌+◌, ◌-◌, ◌≤◌, ◌<◌, ◌≡◌, ◌≢◌, refl, sym, ap, subst, ◌∙◌, Bool, true, false, inl,
  inr, List, [], ◌∷◌, ◌++◌, Result, ok, >>=-eq-ok, raise_if-eq-ok, raise_if, ◌>>◌, length, take,
  drop, get_elem?, All, All-append, All-split, ap₂, ◌⊎◌, arith, leb, ◌==◌, not, ◌&&◌, if◌then◌else◌,
}
use firmingo.Common.Bytes.{Bytes, slice, bytes_eq, bytes_eq_iff, length-slice}
use firmingo.Uf2.{flash_start}
use firmingo.Uf2.Memory.{Place, read_byte, places}
use firmingo.Uf2.Compare.Sound.{Writes}
use firmingo.Elf.{
  ElfError, truncated, Segment, flash_end, extent, exceeds_flash, inconsistent_mapping,
}
use firmingo.Elf.Load.{
  Loaded, outside_flash, has_table, bad_mapping, mapping_of, load_segment, load_segments,
}

get_elem?-drop :
    {A : Type 0} (o : ℕ) (xs : List A) (k : ℕ) → get_elem? (drop o xs) k ≡ get_elem? xs (o + k)
get_elem?-drop zero xs k = ap (get_elem? xs) (omega arith)
get_elem?-drop (suc o) [] k = refl
get_elem?-drop (suc o) (x ∷ xs) k =
    let e : suc (o + k) ≡ suc o + k = omega arith in
    get_elem?-drop o xs k ∙ ap (get_elem? (x ∷ xs)) e

get_elem?-take :
    {A : Type 0} (n : ℕ) (xs : List A) (k : ℕ) → k < n → get_elem? (take n xs) k ≡ get_elem? xs k
get_elem?-take zero xs k h = absurd (omega arith)
get_elem?-take (suc n) [] k h = refl
get_elem?-take (suc n) (x ∷ xs) zero h = refl
get_elem?-take (suc n) (x ∷ xs) (suc k) h = get_elem?-take n xs k (omega arith)

-- Bytes that lie in the reservation of the resident.
abbrev pub InFlash : Place → Type 0
InFlash p = (flash_start ≤ p.0) × (p.0 + length p.1 ≤ flash_end)

pub extent_lem :
    (data' : Bytes) (offset count : ℕ) {bytes : Bytes}
    → extent data' offset count ≡ ok bytes
    → (bytes ≡ slice offset count data') × (length bytes ≡ count)
unfolding extent
extent_lem data' offset count h =
    let (inside, same) =
      raise_if-eq-ok (not (leb offset (length data') && leb count (length data' - offset)))
        truncated (ok (slice offset count data')) h in
    let full : offset + count ≤ length data' = ground (arith, inside) in
    let is : slice offset count data' ≡ _ = cc same in
    (sym is, ap length (sym is) ∙ length-slice offset count data' full)

empty_or : {A : Type 0} (xs : List A) → (xs ≡ []) ⊎ (xs ≢ [])
empty_or [] = inl refl
empty_or (x ∷ xs) = inr (λ e. cc)

mapped :
    (has bad : Bool) (p : ℕ) {maps : List ℕ}
    → (if has then raise_if bad inconsistent_mapping >> ok (p ∷ []) else ok []) ≡ ok maps
    → maps ≢ []
    → (has ≡ true) × (bad ≡ false)
mapped true true p h k = cc
mapped true false p h k = (refl, refl)
mapped false bad p h k = absurd (k (cc h))

-- A part of what is written is written at its place.
pub Writes-part :
    (blocks : List Bytes) (address n : ℕ) (part : Bytes) (v : ℕ) (payload : Bytes)
    → v ≤ address
    → length part ≡ n
    → (address - v) + n ≤ length payload
    → slice (address - v) n payload ≡ part
    → Writes blocks v payload
    → Writes blocks address part
Writes-part blocks address n part v payload above full inside same w k h =
    ap (read_byte (places blocks)) (omega arith)
    ∙ w ((address - v) + k) (omega arith)
    ∙ sym (get_elem?-drop (address - v) payload k)
    ∙ sym (get_elem?-take n (drop (address - v) payload) k (omega arith))
    ∙ ap (λ xs. get_elem? xs k) same

module _ (blocks : List Bytes) (data' : Bytes) (address : ℕ) (api : Bytes) where
  module _ (s : Segment) where
    mapping_of_lem :
        (payload : Bytes) {maps : List ℕ}
        → length api ≡ 40
        → length payload ≡ s.file_bytes
        → mapping_of data' address api s payload ≡ ok maps
        → maps ≢ []
        → Writes blocks s.physical payload
        → Writes blocks address api
    unfolding mapping_of
    mapping_of_lem payload full whole h some_map w =
        let (has, good) =
          mapped (has_table data' address api s) (bad_mapping data' address api s payload)
            s.permissions h some_map in
        let place : s.physical ≡ s.virtual = ground (arith, has, good) in
        let inside : (address - s.physical) + 40 ≤ length payload =
          ground (arith, has, place, whole) in
        let same : bytes_eq (slice (address - s.virtual) 40 payload) api ≡ true =
          ground (arith, good) in
        Writes-part blocks address 40 api s.physical payload (ground (arith, has, place)) full
          inside
          (ap (λ v. slice (address - v) 40 payload) place
            ∙ (bytes_eq_iff (slice (address - s.virtual) 40 payload) api).0 same)
          w

  -- The loaded bytes lie in the reservation, and if they hold the table, what writes them writes the table.
  abbrev Good : Loaded → Type 0
  Good loaded =
      All InFlash loaded.flash
      × (loaded.mappings ≢ []
          → All (λ (p : Place). Writes blocks p.0 p.1) loaded.flash
          → Writes blocks address api)

  load_segment-Good :
      (s : Segment) {loaded : Loaded}
      → load_segment data' address api s ≡ ok loaded
      → length api ≡ 40
      → Good loaded
  unfolding load_segment
  load_segment-Good s {loaded} h full =
      let (payload, read, h1) = >>=-eq-ok (extent data' s.offset s.file_bytes) _ h in
      let (inside, h2) = raise_if-eq-ok (outside_flash s) exceeds_flash _ h1 in
      let (maps, mapping, done) = >>=-eq-ok (mapping_of data' address api s payload) _ h2 in
      let (_, whole) = extent_lem data' s.offset s.file_bytes read in
      let is : record { flash = (s.physical, payload) ∷ []; mappings = maps } ≡ loaded = cc done in
      subst Good is (
        (ground (arith, inside, whole), tt),
        λ some_map w. mapping_of_lem s payload full whole mapping some_map w.0,
      )

  Good-nothing : Good (record { flash = []; mappings = [] })
  Good-nothing = (tt, λ some_map w. absurd (some_map refl))

  Good-append :
      (first later : Loaded)
      → Good first
      → Good later
      → Good (record {
        flash = first.flash ++ later.flash;
        mappings = first.mappings ++ later.mappings;
      })
  Good-append first later g h = (
    All-append InFlash first.flash later.flash g.0 h.0,
    λ some_map w.
        let (left, right) =
          All-split (λ (p : Place). Writes blocks p.0 p.1) first.flash later.flash w in
        elim (empty_or first.mappings) [
          | inl none_here ↦ h.1 (λ e. some_map (ap₂ (λ x y. x ++ y) none_here e)) right
          | inr here ↦ g.1 here left
        ],
  )

  step-Good :
      (s : Segment) (loads : Bool) {loaded : Loaded}
      → (if loads
          then load_segment data' address api s
          else ok (record { flash = []; mappings = [] }))
        ≡ ok loaded
      → length api ≡ 40
      → Good loaded
  step-Good s true h full = load_segment-Good s h full
  step-Good s false {loaded} h full =
      let is : record { flash = []; mappings = [] } ≡ loaded = cc h in subst Good is Good-nothing

  pub load_segments-Good :
      (segments : List Segment) {loaded : Loaded}
      → load_segments data' address api segments ≡ ok loaded
      → length api ≡ 40
      → Good loaded
  unfolding load_segments
  load_segments-Good [] {loaded} h full =
      let is : record { flash = []; mappings = [] } ≡ loaded = cc h in subst Good is Good-nothing
  load_segments-Good (s ∷ segments) {loaded} h full =
      let nothing : Result ElfError Loaded = ok (record { flash = []; mappings = [] }) in
      let (first, one, h1) =
        >>=-eq-ok
          (if s.kind == 1 && not (s.file_bytes == 0)
            then load_segment data' address api s
            else nothing)
          _ h in
      let (later, rest, done) = >>=-eq-ok (load_segments data' address api segments) _ h1 in
      let good : Good first = step-Good s (s.kind == 1 && not (s.file_bytes == 0)) one full in
      let is : record {
        flash = first.flash ++ later.flash;
        mappings = first.mappings ++ later.mappings;
      }
          ≡ loaded =
        cc done in
      subst Good is (Good-append first later good (load_segments-Good segments rest full))
