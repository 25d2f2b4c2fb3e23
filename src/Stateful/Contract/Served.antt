-- ===== src/Stateful/Contract/Served.antt =====
-- The UF2 image of an accepted resident holds the table of the candidate interface.
use firmingo.Common.{
  ℕ, ◌+◌, ◌-◌, ◌≤◌, ◌≡◌, sym, ap, subst, ◌∙◌, Bool, Bool-cases, inl, inr, true, false, ◌&&◌, List,
  [], ◌∷◌, ok, All, length, leb, if◌then◌else◌, arith,
}
use firmingo.Common.Bytes.{Bytes, slice, pieces, bytes_eq_iff}
use firmingo.Uf2.{flash_start}
use firmingo.Uf2.Memory.{Place}
use firmingo.Uf2.Compare.{check_uf2}
use firmingo.Uf2.Compare.Sound.{Writes, check_uf2_iff}
use firmingo.Elf.{flash_end}
use firmingo.Elf.Served.{Writes-part}
use firmingo.Stateful.Contract.{mappings, is_only, Contract, resident_contract}
use firmingo.Stateful.Contract.Arena.{resident_contract-Accepted}

if-nonempty :
    (b : Bool) (x : Bytes) (rest : List Bytes) (m : Bytes)
    → (if b then x ∷ rest else rest) ≡ m ∷ []
    → b ≡ false
    → rest ≡ m ∷ []
if-nonempty true x rest m h f = cc
if-nonempty false x rest m h f = h

if-first :
    (b : Bool) (x : Bytes) (rest : List Bytes) (m : Bytes)
    → (if b then x ∷ rest else rest) ≡ m ∷ []
    → b ≡ true
    → x ≡ m
if-first true x rest m h f = cc
if-first false x rest m h f = cc

module _ (blocks : List Bytes) (address size : ℕ) (table : Bytes) (full : length table ≡ size) where
  -- The one part of the flash bytes that lies at the address is written there.
  mappings-Writes :
      (flash : List Place)
      → mappings address size flash ≡ table ∷ []
      → All (λ (p : Place). Writes blocks p.0 p.1) flash
      → Writes blocks address table
  unfolding mappings
  mappings-Writes [] h w = cc
  mappings-Writes ((base, payload) ∷ flash) h w =
      let inside : Bool = leb base address && leb (address + size) (base + length payload) in
      let part : Bytes = slice (address - base) size payload in
      elim (Bool-cases inside) [
        | inr e ↦
            mappings-Writes flash (if-nonempty inside part (mappings address size flash) table h e)
              w.1
        | inl e ↦
            let above : base ≤ address = ground (arith, e) in
            let below : address + size ≤ base + length payload = ground (arith, e) in
            let fits : (address - base) + size ≤ length payload = omega (arith, above, below) in
            Writes-part blocks address size table base payload above full fits
              (if-first inside part (mappings address size flash) table h e) w.0
      ]

is_only-singleton :
    (found : List Bytes) (table : Bytes) → is_only found table ≡ true → found ≡ table ∷ []
is_only-singleton [] table h = cc
is_only-singleton (x ∷ []) table h = ap (λ y. y ∷ []) ((bytes_eq_iff x table).0 h)
is_only-singleton (x ∷ y ∷ rest) table h = cc

-- What the candidate interface has, in the file and in the flash image.
pub record IsPublished (blocks : List Bytes) (c : Contract) : Type 0 where
  pub full : length c.table ≡ 52
  pub above : flash_start ≤ c.api_address
  pub below : c.api_address + 52 ≤ flash_end
  pub written : Writes blocks c.api_address c.table

-- When the contract of an ELF file is accepted and the UF2 image is the one that the file's flash bytes make, the image
-- writes the 52 bytes of the candidate interface's table at its address, inside the flash reservation.
pub resident_contract-IsPublished :
    (file image : Bytes) {c : Contract} {flash : List Place} {n : ℕ}
    → resident_contract file ≡ ok (c, flash)
    → check_uf2 image flash ≡ ok n
    → IsPublished (pieces 512 image) c
resident_contract-IsPublished file image {c} {flash} {n} h checked =
    let it = resident_contract-Accepted file h in
    let a = it.api in
    let f = it.finished in
    let blocks = pieces 512 image in
    let (_, writes, _) = (check_uf2_iff image flash n).0 checked in
    let only = is_only-singleton (mappings a.address 52 a.flash) a.table it.arena.mapped in
    let written : Writes blocks a.address a.table =
      mappings-Writes blocks a.address 52 a.table it.read.full a.flash only
        (subst (λ f. All (λ (p : Place). Writes blocks p.0 p.1) f) it.flash_is writes) in
    record {
      full = ap length f.table_is ∙ it.read.full;
      above = subst (λ x. flash_start ≤ x) (sym f.address_is) it.read.low;
      below = subst (λ x. x + 52 ≤ flash_end) (sym f.address_is) it.read.high;
      written =
          subst (λ x. Writes blocks x c.table) (sym f.address_is)
            (subst (Writes blocks a.address) (sym f.table_is) written);
    }
