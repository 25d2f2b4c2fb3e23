-- ===== src/Stateful/Module/Sound.antt =====
-- What an accepted sketch has: the capsule's layout, and the loads and entries of the ELF file in it.
use firmingo.Common.{
  ℕ, ◌+◌, ◌-◌, ◌%◌, ◌≤◌, ◌<◌, ◌≡◌, refl, sym, ap, ap₂, subst, Bool, true, false, not, ◌&&◌, ◌||◌,
  Option, none, some, List, [], ◌∷◌, ◌++◌, ok, >>=-eq-ok, ok-inj, raise_if-eq-ok, length, get_elem?,
  ◌==◌, arith,
}
use firmingo.Common.Bytes.{Bytes, bytes_eq, bytes_eq_iff, ascii}
use firmingo.Elf.{Section}
use firmingo.Stateful.{cannot_pack, extent_mismatch, load_mismatch, bad_entry, Symbol, ElfFile}
use firmingo.Stateful.Reader.{symbol, is_index, read_elf}
use firmingo.Stateful.Contract.{Contract}
use firmingo.Stateful.Module.{
  code_address, Parts, check_sections, check_defined, read_parts, bad_code, bad_data, bad_sizes,
  Load, expected_loads, read_loads, loads_eq, section_eq, is_section, thumb, is_in_code, entry_of,
  capsule_words, exceeds_word, fms2_header, Extents, check_parts, pack_parts, module_capsule,
}
use firmingo.Stateful.Module.Loads.{
  IsParts, read_parts-IsParts, IsLoaded, read_loads-IsLoaded, IsLayout, expected_loads-IsLayout,
}
use firmingo.Stateful.Contract.Arena.{not-false}

-- The extents that are checked.
pub record IsPlaced (c : Contract) (p : Parts) : Type 0 where
  pub code : (p.text.addr ≡ 0x10200100) × ((0 < length p.code) × (length p.code % 4 ≡ 0))
  pub data' :
      (p.data_section.addr ≡ c.state)
      × ((p.bss.addr ≡ c.state + length p.initialized) × (p.bss.size % 4 ≡ 0))
  pub fits :
      (length p.initialized + p.bss.size ≤ c.capacity)
      × (256 + length p.code + length p.initialized ≤ c.maximum)

or-false : (a b : Bool) → a || b ≡ false → (a ≡ false) × (b ≡ false)
or-false true b h = cc
or-false false b h = (refl, h)

check_parts-IsPlaced :
    (c : Contract) (p : Parts)
    → bad_code p || (bad_data c p || bad_sizes c p) ≡ false
    → IsPlaced c p
check_parts-IsPlaced c p h =
    let (code, rest) = or-false (bad_code p) (bad_data c p || bad_sizes c p) h in
    let (data', sizes) = or-false (bad_data c p) (bad_sizes c p) rest in
    record {
      code = (ground (arith, code), (ground (arith, code), ground (arith, code)));
      data' = (ground (arith, data'), (ground (arith, data'), ground (arith, data')));
      fits = (ground (arith, sizes), ground (arith, sizes));
    }

-- The tests of equality, as equations.
both : (a b : Bool) → a && b ≡ true → (a ≡ true) × (b ≡ true)
both true b h = (refl, h)
both false b h = cc

loads_eq-≡ : (xs ys : List Load) → loads_eq xs ys ≡ true → xs ≡ ys
unfolding loads_eq
loads_eq-≡ [] [] h = refl
loads_eq-≡ [] (y ∷ ys) h = cc
loads_eq-≡ (x ∷ xs) [] h = cc
loads_eq-≡ (x ∷ xs) (y ∷ ys) h =
    let (here, later) =
      both (x.virtual == y.virtual && (x.physical == y.physical && bytes_eq x.bytes y.bytes)) _ h in
    let (one, more) =
      both (x.virtual == y.virtual) (x.physical == y.physical && bytes_eq x.bytes y.bytes) here in
    let (two, three) = both (x.physical == y.physical) (bytes_eq x.bytes y.bytes) more in
    let virtual : x.virtual ≡ y.virtual = ground (arith, one) in
    let physical : x.physical ≡ y.physical = ground (arith, two) in
    let bytes = (bytes_eq_iff x.bytes y.bytes).0 three in
    ap₂ (λ l ls. l ∷ ls)
      (λ i. record { virtual = virtual i; physical = physical i; bytes = bytes i })
      (loads_eq-≡ xs ys later)

section_eq-≡ : (s t : Section) → section_eq s t ≡ true → s ≡ t
section_eq-≡ s t h =
    let name : s.name ≡ t.name = ground (arith, h) in
    let kind : s.kind ≡ t.kind = ground (arith, h) in
    let flags : s.flags ≡ t.flags = ground (arith, h) in
    let addr : s.addr ≡ t.addr = ground (arith, h) in
    let offset : s.offset ≡ t.offset = ground (arith, h) in
    let size : s.size ≡ t.size = ground (arith, h) in
    let link : s.link ≡ t.link = ground (arith, h) in
    let info : s.info ≡ t.info = ground (arith, h) in
    let align : s.align ≡ t.align = ground (arith, h) in
    let entry_size : s.entry_size ≡ t.entry_size = ground (arith, h) in
    λ i. record {
      name = name i;
      kind = kind i;
      flags = flags i;
      addr = addr i;
      offset = offset i;
      size = size i;
      link = link i;
      info = info i;
      align = align i;
      entry_size = entry_size i;
    }

is_section-some :
    (found : Option Section) (text : Section) → is_section found text ≡ true → found ≡ some text
is_section-some none text h = cc
is_section-some (some section) text h = ap some (section_eq-≡ section text h)

-- An entry: a Thumb address in the code, of the one global function of that name, in the code section.
pub record IsEntry (elf : ElfFile) (p : Parts) (name : Bytes) (entry : ℕ) : Type 0 where
  pub function : Symbol
  pub found : symbol elf name ≡ ok function
  pub global : function.info ≡ 0x12
  pub in_text : get_elem? elf.sections function.index ≡ some p.text
  pub odd : entry % 2 ≡ 1
  pub is : (function.address ≤ entry) × (entry ≤ function.address + 1)
  pub inside : (code_address ≤ entry - 1) × (entry - 1 ≤ code_address + length p.code - 2)

entry_of-IsEntry :
    (elf : ElfFile) (p : Parts) (name : Bytes) {entry : ℕ}
    → entry_of elf p name ≡ ok entry
    → IsEntry elf p name entry
unfolding entry_of
entry_of-IsEntry elf p name {entry} h =
    let (s, found, h1) = >>=-eq-ok (symbol elf name) _ h in
    let out =
      not (is_section (get_elem? elf.sections s.index) p.text)
      || not (is_in_code (thumb s.address) p.code) in
    let (good, done) =
      raise_if-eq-ok (not (s.info == 0x12) || (not (is_index elf s.index) || out)) bad_entry _ h1 in
    let (global, rest) = or-false (not (s.info == 0x12)) (not (is_index elf s.index) || out) good in
    let (_, rest2) = or-false (not (is_index elf s.index)) out rest in
    let (text, code) =
      or-false (not (is_section (get_elem? elf.sections s.index) p.text))
        (not (is_in_code (thumb s.address) p.code)) rest2 in
    let is : thumb s.address ≡ entry = ok-inj done in
    subst (IsEntry elf p name) is (record {
      function = s;
      found = found;
      global = ground (arith, global);
      in_text = is_section-some _ p.text (not-false _ text);
      odd = omega arith;
      is = (omega arith, omega arith);
      inside = (ground (arith, code), ground (arith, code));
    })

-- What `check_parts` establishes: the sections, the extents, and that the loads of the file are the two parts.
pub record IsChecked (elf : ElfFile) (c : Contract) (p : Parts) : Type 0 where
  pub placed : IsPlaced c p
  pub parts_are : IsParts elf p
  pub loads : List Load
  pub loaded : IsLoaded elf.file elf.segments loads
  pub layout : IsLayout c.state p loads

check_parts-IsChecked :
    (elf : ElfFile) (c : Contract) {p : Parts} → check_parts elf c ≡ ok p → IsChecked elf c p
unfolding check_parts
check_parts-IsChecked elf c {p} h =
    let (_, _, h1) = >>=-eq-ok (check_sections elf.named) _ h in
    let (_, _, h2) = >>=-eq-ok (check_defined elf.symbols) _ h1 in
    let (q, parts_read, h3) = >>=-eq-ok (read_parts elf) _ h2 in
    let (placed, h4) =
      raise_if-eq-ok (bad_code q || (bad_data c q || bad_sizes c q)) extent_mismatch _ h3 in
    let (loads, read, h5) = >>=-eq-ok (read_loads elf.file elf.segments) _ h4 in
    let (same, done) =
      raise_if-eq-ok (not (loads_eq loads (expected_loads c.state q.code q.initialized)))
        load_mismatch _ h5 in
    let is : q ≡ p = ok-inj done in
    let equal = loads_eq-≡ loads (expected_loads c.state q.code q.initialized) (not-false _ same) in
    subst (IsChecked elf c) is (record {
      placed = check_parts-IsPlaced c q placed;
      parts_are = read_parts-IsParts elf parts_read;
      loads = loads;
      loaded = read_loads-IsLoaded elf.file elf.segments read;
      layout = subst (IsLayout c.state q) (sym equal) (expected_loads-IsLayout c.state q);
    })

-- What `pack_parts` establishes.
pub record IsPacked (sha256 : Bytes → Bytes) (elf : ElfFile) (c : Contract) (p : Parts)
    (capsule : Bytes) (e : Extents) : Type 0 where
  pub setup : IsEntry elf p (ascii "firmingo_sketch_setup") e.setup_address
  pub loop' : IsEntry elf p (ascii "firmingo_sketch_loop") e.loop_address
  pub sizes :
      (e.code_bytes ≡ length p.code)
      × ((e.data_bytes ≡ length p.initialized) × (e.bss_bytes ≡ p.bss.size))
  pub words_fit : exceeds_word (capsule_words c p e.setup_address e.loop_address) ≡ false
  pub capsule_is :
      capsule
      ≡ fms2_header sha256
          (capsule_words c p e.setup_address e.loop_address)
          (p.code ++ p.initialized)
        ++ (p.code ++ p.initialized)

pack_parts-IsPacked :
    (sha256 : Bytes → Bytes) (elf : ElfFile) (c : Contract) (p : Parts) {capsule : Bytes}
    {e : Extents}
    → pack_parts sha256 elf c p ≡ ok (capsule, e)
    → IsPacked sha256 elf c p capsule e
unfolding pack_parts
pack_parts-IsPacked sha256 elf c p {capsule} {e} h =
    let (setup, one, h1) = >>=-eq-ok (entry_of elf p (ascii "firmingo_sketch_setup")) _ h in
    let (loop', two, h2) = >>=-eq-ok (entry_of elf p (ascii "firmingo_sketch_loop")) _ h1 in
    let (fit, done) =
      raise_if-eq-ok (exceeds_word (capsule_words c p setup loop')) cannot_pack _ h2 in
    let is = ok-inj done in
    subst (λ (r : Bytes × Extents). IsPacked sha256 elf c p r.0 r.1) is
      (record {
        setup = entry_of-IsEntry elf p _ one;
        loop' = entry_of-IsEntry elf p _ two;
        sizes = (refl, (refl, refl));
        words_fit = fit;
        capsule_is = refl;
      })

-- What an accepted capsule is made of.
pub record IsMade (sha256 : Bytes → Bytes) (file : Bytes) (c : Contract) (capsule : Bytes)
    (e : Extents) : Type 0 where
  pub elf : ElfFile
  pub parts : Parts
  pub reads : read_elf file ≡ ok elf
  pub checked : IsChecked elf c parts
  pub packed : IsPacked sha256 elf c parts capsule e

pub module_capsule-IsMade :
    (sha256 : Bytes → Bytes) (file : Bytes) (c : Contract) {capsule : Bytes} {e : Extents}
    → module_capsule sha256 file c ≡ ok (capsule, e)
    → IsMade sha256 file c capsule e
unfolding module_capsule
module_capsule-IsMade sha256 file c h =
    let (elf, reads, h1) = >>=-eq-ok (read_elf file) _ h in
    let (p, checked, done) = >>=-eq-ok (check_parts elf c) _ h1 in
    record {
      elf = elf;
      parts = p;
      reads = reads;
      checked = check_parts-IsChecked elf c checked;
      packed = pack_parts-IsPacked sha256 elf c p done;
    }

-- The parts of the ELF file behind the reported extents.
pub record IsLinked (file : Bytes) (c : Contract) (e : Extents) : Type 0 where
  pub elf : ElfFile
  pub parts : Parts
  pub reads : read_elf file ≡ ok elf
  pub checked : IsChecked elf c parts
  pub setup : IsEntry elf parts (ascii "firmingo_sketch_setup") e.setup_address
  pub loop' : IsEntry elf parts (ascii "firmingo_sketch_loop") e.loop_address
  pub sizes :
      (e.code_bytes ≡ length parts.code)
      × ((e.data_bytes ≡ length parts.initialized) × (e.bss_bytes ≡ parts.bss.size))

-- When `module_capsule` returns, the code, the initialized data and the BSS are the sections of these names in the ELF file, with
-- the bytes that the file has for the first two, and their sizes are the reported ones. The file's segments to be loaded
-- that have bytes are the code at the start of the slot's code and, if there are any, the initialized data behind it for the
-- start of the arena, and no others; the BSS follows the data and fits into the arena with them. Each of the two entries is an
-- odd address inside the code, that of the one global function of its name in the section of the code.
pub module_capsule-IsLinked :
    (sha256 : Bytes → Bytes) (file : Bytes) (c : Contract) {capsule : Bytes} {e : Extents}
    → module_capsule sha256 file c ≡ ok (capsule, e)
    → IsLinked file c e
module_capsule-IsLinked sha256 file c h =
    let made = module_capsule-IsMade sha256 file c h in
    record {
      elf = made.elf;
      parts = made.parts;
      reads = made.reads;
      checked = made.checked;
      setup = made.packed.setup;
      loop' = made.packed.loop';
      sizes = made.packed.sizes;
    }
