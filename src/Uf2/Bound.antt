-- ===== src/Uf2/Bound.antt =====
-- A resident image has at most 8192 blocks: that many aligned places has the reservation.
use firmingo.Common.{
  ℕ, ◌+◌, ◌-◌, ◌/◌, ◌≤◌, ◌<◌, ◌≢◌, List, [], ◌∷◌, map, length, All, arith, length-map,
}
use firmingo.Common.Bytes.{Bytes, Absent, Distinct}
use firmingo.Common.Counting.{length-le_of_Distinct}
use firmingo.Uf2.{flash_start, address_of}
use firmingo.Uf2.Resident.{IsResidentBlock, IsResident, InReservation, InOrder, addresses}

abbrev page : Bytes → ℕ
page block = (address_of block - flash_start) / 256

page-ne :
    (b c : Bytes)
    → InReservation b
    → InReservation c
    → address_of b ≢ address_of c
    → page b ≢ page c
page-ne b c rb rc h e = h (omega (arith, rb.above, rb.aligned, rc.above, rc.aligned))

Absent-pages :
    (old index : ℕ) (b : Bytes) (blocks : List Bytes)
    → InReservation b
    → InOrder (IsResidentBlock old) index blocks
    → Absent (address_of b) (addresses blocks)
    → Absent (page b) (map page blocks)
Absent-pages old index b [] rb o h = tt
Absent-pages old index b (c ∷ blocks) rb o h =
    (page-ne b c rb o.0.1 h.0, Absent-pages old (index + 1) b blocks rb o.1 h.1)

Distinct-pages :
    (old index : ℕ) (blocks : List Bytes)
    → InOrder (IsResidentBlock old) index blocks
    → Distinct (addresses blocks)
    → Distinct (map page blocks)
Distinct-pages old index [] o d = tt
Distinct-pages old index (b ∷ blocks) o d = (
  Absent-pages old (index + 1) b blocks o.0.1 o.1 d.0,
  Distinct-pages old (index + 1) blocks o.1 d.1,
)

pages_below :
    (old index : ℕ) (blocks : List Bytes)
    → InOrder (IsResidentBlock old) index blocks
    → All (λ x. x < 8192) (map page blocks)
pages_below old index [] o = tt
pages_below old index (b ∷ blocks) o =
    (omega (arith, o.0.1.above, o.0.1.below), pages_below old (index + 1) blocks o.1)

-- A resident image has at most 8192 blocks, as many as there are 256-byte pages in its reservation.
pub resident_bound :
    (image : Bytes) (blocks : List Bytes) → IsResident image blocks → length blocks ≤ 8192
resident_bound image blocks r = omega (
  arith,
  length-map blocks page,
  length-le_of_Distinct 8192 (map page blocks) (pages_below (length blocks) 0 blocks r.order)
      (Distinct-pages (length blocks) 0 blocks r.order r.distinct),
)
