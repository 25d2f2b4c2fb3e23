-- ===== src/Stateful/Module/Loads.antt =====
-- What the sections and the LOAD segments of a sketch's ELF file are (experiments/managed_sketch/build_stateful_proof.py).
use firmingo.Common.{
  ℕ, ◌+◌, ◌≡◌, ◌≢◌, ◌⊎◌, inl, inr, refl, sym, ap, subst, ◌∙◌, Bool-cases, Bool, true, false, not,
  ◌&&◌, Option, none, some, List, [], ◌∷◌, ◌++◌, Result, ok, err, ok-inj, ◌>>=◌, suc, >>=-eq-ok,
  raise_if-eq-ok, map_err-eq-ok, length, ◌==◌, if◌then◌else◌, arith,
}
use firmingo.Common.Bytes.{Bytes, slice, ascii}
use firmingo.Elf.{Section, Segment, extent}
use firmingo.Elf.Served.{extent_lem}
use firmingo.Stateful.{StatefulError, in_resident, nobits, key_error, ElfFile}
use firmingo.Stateful.Reader.{file_extent, find_section, section_bytes}
use firmingo.Stateful.Module.{
  Parts, named_section, read_parts, Load, load_of, is_load, expected_loads, read_loads,
}

file_extent_lem :
    (file : Bytes) (offset size : ℕ) {bytes : Bytes}
    → file_extent file offset size ≡ ok bytes
    → (bytes ≡ slice offset size file) × (length bytes ≡ size)
file_extent_lem file offset size h =
    extent_lem file offset size (map_err-eq-ok in_resident (extent file offset size) h)

-- The bytes of a section that has bytes in the file.
pub record IsContent (file : Bytes) (section : Section) (bytes : Bytes) : Type 0 where
  pub has_bytes : section.kind ≢ 8
  pub bytes_are : bytes ≡ slice section.offset section.size file
  pub whole : length bytes ≡ section.size

section_bytes-IsContent :
    (file : Bytes) (section : Section) {bytes : Bytes}
    → section_bytes file section ≡ ok bytes
    → IsContent file section bytes
unfolding section_bytes
section_bytes-IsContent file section h =
    let (bits, read) = raise_if-eq-ok (section.kind == 8) nobits _ h in
    let (is, whole) = file_extent_lem file section.offset section.size read in
    record { has_bytes = λ e. ground (arith, bits, e); bytes_are = is; whole = whole }

-- The three sections that a capsule is made of, found by their names, and the bytes of two of them.
pub record IsParts (elf : ElfFile) (p : Parts) : Type 0 where
  pub text_is : find_section (ascii ".text") elf.named ≡ some p.text
  pub data_is : find_section (ascii ".data") elf.named ≡ some p.data_section
  pub bss_is : find_section (ascii ".bss") elf.named ≡ some p.bss
  pub code_is : IsContent elf.file p.text p.code
  pub initialized_is : IsContent elf.file p.data_section p.initialized

named_section-some :
    (elf : ElfFile) (name : Bytes) {section : Section}
    → named_section elf name ≡ ok section
    → find_section name elf.named ≡ some section
named_section-some elf name {section} h = at (find_section name elf.named) h
  where
    at :
        (found : Option Section)
        → ◌≡◌ {A = Result StatefulError Section}
            (elim found [ none ↦ err key_error | some s ↦ ok s ])
            (ok section)
        → found ≡ some section
    at none k = cc
    at (some s) k = ap some (ok-inj k)

pub read_parts-IsParts : (elf : ElfFile) {p : Parts} → read_parts elf ≡ ok p → IsParts elf p
unfolding read_parts
read_parts-IsParts elf h =
    let (text, one, h1) = >>=-eq-ok (named_section elf (ascii ".text")) _ h in
    let (data_section, two, h2) = >>=-eq-ok (named_section elf (ascii ".data")) _ h1 in
    let (bss, three, h3) = >>=-eq-ok (named_section elf (ascii ".bss")) _ h2 in
    let (code, four, h4) = >>=-eq-ok (section_bytes elf.file text) _ h3 in
    let (initialized, five, done) = >>=-eq-ok (section_bytes elf.file data_section) _ h4 in
    subst (IsParts elf) (ok-inj done) (record {
      text_is = named_section-some elf (ascii ".text") one;
      data_is = named_section-some elf (ascii ".data") two;
      bss_is = named_section-some elf (ascii ".bss") three;
      code_is = section_bytes-IsContent elf.file text four;
      initialized_is = section_bytes-IsContent elf.file data_section five;
    })

-- The loads of a file are those of its segments of kind PT_LOAD that have bytes, in their order, and no others.
abbrev pub IsLoaded : Bytes → List Segment → List Load → Type 0
IsLoaded file [] loads = loads ≡ []
IsLoaded file (s ∷ segments) loads =
    (((s.kind ≢ 1) ⊎ (s.file_bytes ≡ 0)) × IsLoaded file segments loads)
    ⊎ (((s.kind ≡ 1) × (s.file_bytes ≢ 0))
        × ((later : List Load) × (loads
              ≡ record {
                virtual = s.virtual;
                physical = s.physical;
                bytes = slice s.offset s.file_bytes file;
              }
                ∷ later)
            × IsLoaded file segments later))

abbrev reading : Bytes → Segment → Bool → Result StatefulError (List Load)
reading file s loaded =
    if loaded
    then (do bytes ← file_extent file s.offset s.file_bytes; ok (load_of s bytes))
    else ok []

IsLoaded-step :
    (file : Bytes) (s : Segment) (segments : List Segment) (loaded : Bool) (later : List Load)
    {here loads : List Load}
    → is_load s ≡ loaded
    → reading file s loaded ≡ ok here
    → here ++ later ≡ loads
    → IsLoaded file segments later
    → IsLoaded file (s ∷ segments) loads
IsLoaded-step file s segments true later {here} {loads} kind h same rest =
    let (bytes, read, made) = >>=-eq-ok (file_extent file s.offset s.file_bytes) _ h in
    let (is, _) = file_extent_lem file s.offset s.file_bytes read in
    inr (
      (ground (arith, kind), λ e. ground (arith, kind, e)),
      (
        later,
        sym same
            ∙ ap (λ ls. ls ++ later) (sym (ok-inj made))
            ∙ ap
                (λ (bs : Bytes).
                  record { virtual = s.virtual; physical = s.physical; bytes = bs } ∷ later)
                is,
        rest,
      ),
    )
IsLoaded-step file s segments false later {here} {loads} kind h same rest = inl (
  other s.kind s.file_bytes kind,
  subst (IsLoaded file segments) (ap (λ ls. ls ++ later) (ok-inj h) ∙ same) rest,
)
  where
    other : (k n : ℕ) → (k == 1 && not (n == 0)) ≡ false → (k ≢ 1) ⊎ (n ≡ 0)
    other k n e = elim (Bool-cases (k == 1)) [
      | inl one ↦ inr (ground (arith, e, one))
      | inr differs ↦ inl (λ q. ground (arith, differs, q))
    ]

pub read_loads-IsLoaded :
    (file : Bytes) (segments : List Segment) {loads : List Load}
    → read_loads file segments ≡ ok loads
    → IsLoaded file segments loads
unfolding read_loads
read_loads-IsLoaded file [] h = sym (ok-inj h)
read_loads-IsLoaded file (s ∷ segments) {loads} h =
    let (here, read, h1) = >>=-eq-ok (reading file s (is_load s)) _ h in
    let (later, read_later, done) = >>=-eq-ok (read_loads file segments) _ h1 in
    IsLoaded-step file s segments (is_load s) later refl read (ok-inj done)
      (read_loads-IsLoaded file segments read_later)

-- The code at its address in the slot, and behind it the initialized data, which are copied to the arena, if there are any.
abbrev pub IsLayout : ℕ → Parts → List Load → Type 0
IsLayout arena p loads =
    ((p.initialized ≡ [])
      × (loads ≡ record { virtual = 0x10200100; physical = 0x10200100; bytes = p.code } ∷ []))
    ⊎ ((p.initialized ≢ [])
        × (loads
            ≡ record { virtual = 0x10200100; physical = 0x10200100; bytes = p.code }
              ∷ record {
                virtual = arena;
                physical = 0x10200100 + length p.code;
                bytes = p.initialized;
              }
              ∷ []))

pub expected_loads-IsLayout :
    (arena : ℕ) (p : Parts) → IsLayout arena p (expected_loads arena p.code p.initialized)
expected_loads-IsLayout arena p = at p.initialized refl
  where
    first : Load
    first = record { virtual = 0x10200100; physical = 0x10200100; bytes = p.code }

    not_zero : (n : ℕ) → (suc n == 0) ≡ false
    not_zero n = ground arith

    at :
        (bytes : Bytes)
        → p.initialized ≡ bytes
        → IsLayout arena p (expected_loads arena p.code p.initialized)
    at [] e = inl (e, ap (expected_loads arena p.code) e)
    at (b ∷ bs) e = inr (
      λ q. (let none_left = sym e ∙ q in cc),
      ap (expected_loads arena p.code) e
          ∙ ap
              (λ (empty : Bool).
                first
                ∷ (if empty
                    then []
                    else record {
                      virtual = arena;
                      physical = 0x10200100 + length p.code;
                      bytes = b ∷ bs;
                    }
                      ∷ []))
              (not_zero (length bs))
          ∙ ap
              (λ (d : Bytes).
                first
                ∷ record { virtual = arena; physical = 0x10200100 + length p.code; bytes = d }
                ∷ [])
              (sym e),
    )
