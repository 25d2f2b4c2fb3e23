-- ===== src/Stateful/Module/Packed.antt =====
-- The bytes of an FMS2 header, and that they hold the packed words.
use firmingo.Common.{
  ℕ, zero, suc, ◌*◌, ◌^◌, ◌<◌, ◌≡◌, refl, sym, ap, ap₂, ◌∙◌, Bool, true, false, not, ◌||◌, List, [],
  ◌∷◌, ◌++◌, length, take, map, join, replicate, All, append_assoc, length-append, take-append_eq,
  ltb, arith,
}
use firmingo.Common.Bytes.{
  Bytes, slice, overwrite, splice, pack_le, unpack_le, pieces, pieces-join, HasLength,
  length-pack_le, unpack_le-pack_le,
}
use firmingo.Stateful.Module.{exceeds_word, packed, fms2_header}

overwrite-append :
    {A : Type 0} (ys xs zs : List A) → length ys ≡ length xs → overwrite ys (xs ++ zs) ≡ ys ++ zs
overwrite-append [] [] [] h = refl
overwrite-append [] [] (z ∷ zs) h = refl
overwrite-append [] (x ∷ xs) zs h = absurd (omega arith)
overwrite-append (y ∷ ys) [] zs h = absurd (omega arith)
overwrite-append (y ∷ ys) (x ∷ xs) zs h = ap (λ t. y ∷ t) (overwrite-append ys xs zs (omega arith))

-- A write over the middle of three parts.
splice-append :
    {A : Type 0} (o : ℕ) (before ys xs zs : List A)
    → length before ≡ o
    → length ys ≡ length xs
    → splice o ys (before ++ (xs ++ zs)) ≡ before ++ (ys ++ zs)
splice-append zero [] ys xs zs h k = overwrite-append ys xs zs k
splice-append zero (b ∷ before) ys xs zs h k = absurd (omega arith)
splice-append (suc o) [] ys xs zs h k = absurd (omega arith)
splice-append (suc o) (b ∷ before) ys xs zs h k =
    ap (λ t. b ∷ t) (splice-append o before ys xs zs (omega arith) k)

length-join_words : (words : List ℕ) → length (join (map (pack_le 4) words)) ≡ 4 * length words
length-join_words [] = refl
length-join_words (w ∷ words) =
    let e = length-append (pack_le 4 w) (join (map (pack_le 4) words)) in
    omega (arith, e, length-pack_le 4 w, length-join_words words)

pub length-packed : (words : List ℕ) → length words ≡ 14 → length (packed words) ≡ 64
length-packed words h = omega (arith, length-join_words words)

module _ (sha256 : Bytes → Bytes) (fixed : (bytes : Bytes) → length (sha256 bytes) ≡ 32) where
  -- The four parts of a header: the packed fields, the digest of the payload, the digest of both, and zeros.
  pub fms2_header_lem :
      (words : List ℕ) (payload : Bytes)
      → length words ≡ 14
      → fms2_header sha256 words payload
        ≡ (packed words ++ sha256 payload)
          ++ (sha256 (packed words ++ sha256 payload) ++ replicate 128 0)
  unfolding fms2_header
  fms2_header_lem words payload h =
      let p = packed words in
      let s = sha256 payload in
      let z : Bytes = replicate 32 0 in
      let z' : Bytes = replicate 64 0 in
      let full : length p ≡ length z' = length-packed words h in
      let first : splice 0 p (replicate 256 0) ≡ p ++ (z ++ (z ++ replicate 128 0)) =
        overwrite-append p z' (z ++ (z ++ replicate 128 0)) full in
      let second : splice 64 s (splice 0 p (replicate 256 0)) ≡ (p ++ s) ++ (z ++ replicate 128 0) =
        ap (splice 64 s) first
        ∙ splice-append 64 p s z (z ++ replicate 128 0) full (fixed payload)
        ∙ sym (append_assoc p s (z ++ replicate 128 0)) in
      let whole : length (p ++ s) ≡ 96 = omega (arith, length-append p s, full, fixed payload) in
      let checked : take 96 (splice 64 s (splice 0 p (replicate 256 0))) ≡ p ++ s =
        ap (take 96) second ∙ take-append_eq 96 (p ++ s) (z ++ replicate 128 0) whole in
      ap₂ (λ t header. splice 96 (sha256 t) header) checked second
      ∙ splice-append 96 (p ++ s) (sha256 (p ++ s)) z (replicate 128 0) whole (fixed (p ++ s))

words-HasLength : (words : List ℕ) → All (HasLength 4) (map (pack_le 4) words)
words-HasLength [] = tt
words-HasLength (w ∷ words) = (length-pack_le 4 w, words-HasLength words)

exceeds-cons :
    (v : ℕ) (rest : Bool) → not (ltb v (2 ^ 32)) || rest ≡ false → (v < 256 ^ 4) × (rest ≡ false)
exceeds-cons v true h = ground (arith, h)
exceeds-cons v false h = (ground (arith, h), refl)

unpack-words :
    (words : List ℕ) → exceeds_word words ≡ false → map unpack_le (map (pack_le 4) words) ≡ words
unfolding exceeds_word
unpack-words [] h = refl
unpack-words (w ∷ words) h =
    let (below, rest) = exceeds-cons w (exceeds_word words) h in
    ap₂ (λ x xs. x ∷ xs) (unpack_le-pack_le 4 w below) (unpack-words words rest)

-- The fourteen words can be read back from what starts with the packed fields.
pub read-packed :
    (words : List ℕ) (rest : Bytes)
    → length words ≡ 14
    → exceeds_word words ≡ false
    → map unpack_le (pieces 4 (slice 8 56 (packed words ++ rest))) ≡ words
read-packed words rest h good =
    let body : Bytes = join (map (pack_le 4) words) in
    let full : length body ≡ 56 = omega (arith, length-join_words words, h) in
    let cut : slice 8 56 (packed words ++ rest) ≡ body = take-append_eq 56 body rest full in
    ap (λ b. map unpack_le (pieces 4 b)) cut
    ∙ ap (map unpack_le)
        (pieces-join 4 (map (pack_le 4) words) (omega arith) (words-HasLength words))
    ∙ unpack-words words good
