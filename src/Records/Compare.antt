-- ===== src/Records/Compare.antt =====
-- What `compare_bytes` reports.
use firmingo.Common.{
  ℕ, suc, ◌+◌, ◌≡◌, ◌≢◌, ◌↔◌, refl, sym, subst, ap, ap₂, ◌∙◌, Bool-cases, inl, inr, some, [], ◌∷◌,
  Result, ok, err, ◌>>◌, >>=-eq-ok, check, length, take, get_elem?, min, ◌==◌, arith,
}
use firmingo.Common.Bytes.{Bytes}
use firmingo.Records.{BytesError, first_mismatch, length_mismatch, compare_pairs, compare_bytes}

compare_pairs-same : (position : ℕ) (actual : Bytes) → compare_pairs position actual actual ≡ ok tt
unfolding compare_pairs
compare_pairs-same position [] = refl
compare_pairs-same position (x ∷ xs) = ground (arith, compare_pairs-same (position + 1) xs)

same_of_pairs :
    (position : ℕ) (actual expected : Bytes)
    → compare_pairs position actual expected ≡ ok tt
    → length actual ≡ length expected
    → actual ≡ expected
unfolding compare_pairs
same_of_pairs position [] [] h l = refl
same_of_pairs position [] (y ∷ ys) h l = absurd (omega arith)
same_of_pairs position (x ∷ xs) [] h l = absurd (omega arith)
same_of_pairs position (x ∷ xs) (y ∷ ys) h l =
    let (_, first, rest) = >>=-eq-ok (check (x == y) (first_mismatch position y x)) _ h in
    let same : x ≡ y = ground (arith, first) in
    ap₂ (λ z zs. z ∷ zs) same (same_of_pairs (position + 1) xs ys rest (omega arith))

compare_bytes-same : (bytes : Bytes) (offset : ℕ) → compare_bytes bytes bytes offset ≡ ok tt
unfolding compare_bytes
compare_bytes-same bytes offset =
    let same : check (length bytes == length bytes)
          (length_mismatch (offset + min (length bytes) (length bytes)))
        ≡ ok tt =
      ground arith in
    rw (compare_pairs-same offset bytes, same) refl

-- `compare_bytes` returns exactly when the two byte strings are equal.
pub compare_bytes_iff :
    (actual expected : Bytes) (offset : ℕ)
    → (compare_bytes actual expected offset ≡ ok tt) ↔ (actual ≡ expected)
unfolding compare_bytes
compare_bytes_iff actual expected offset = (
  λ h.
      let (_, pairs, rest) = >>=-eq-ok (compare_pairs offset actual expected) _ h in
      same_of_pairs offset actual expected pairs (ground (arith, rest)),
  λ e.
      subst (λ a. compare_bytes a expected offset ≡ ok tt) (sym e)
        (compare_bytes-same expected offset),
)

-- A mismatch at `position` is the first: the strings agree before it and differ there.
pub record FirstMismatch (offset : ℕ) (actual expected : Bytes) (position wanted observed : ℕ)
    : Type 0 where
  pub index : ℕ
  pub position_is : position ≡ offset + index
  pub agree : take index actual ≡ take index expected
  pub observed_is : get_elem? actual index ≡ some observed
  pub wanted_is : get_elem? expected index ≡ some wanted
  pub differ : observed ≢ wanted

module _ (position wanted observed : ℕ) where
  pairs-FirstMismatch :
      (offset : ℕ) (actual expected : Bytes)
      → compare_pairs offset actual expected ≡ err (first_mismatch position wanted observed)
      → FirstMismatch offset actual expected position wanted observed
  unfolding compare_pairs
  pairs-FirstMismatch offset [] expected h = cc
  pairs-FirstMismatch offset (x ∷ xs) [] h = cc
  pairs-FirstMismatch offset (x ∷ xs) (y ∷ ys) h = elim (Bool-cases (x == y)) [
    | inl same ↦
        let rest : compare_pairs (offset + 1) xs ys
            ≡ err (first_mismatch position wanted observed) =
          ap (λ b. check b (first_mismatch offset y x) >> compare_pairs (offset + 1) xs ys)
            (sym same)
          ∙ h in
        let later = pairs-FirstMismatch (offset + 1) xs ys rest in
        let equal : x ≡ y = ground (arith, same) in
        record {
          index = suc later.index;
          position_is = omega (arith, later.position_is);
          agree = ap₂ (λ z zs. z ∷ zs) equal later.agree;
          observed_is = later.observed_is;
          wanted_is = later.wanted_is;
          differ = later.differ;
        }
    | inr other ↦
        let here : err (first_mismatch offset y x) ≡ err (first_mismatch position wanted observed) =
          ap (λ b. check b (first_mismatch offset y x) >> compare_pairs (offset + 1) xs ys)
            (sym other)
          ∙ h in
        let p : offset ≡ position = cc here in
        let w : y ≡ wanted = cc here in
        let o : x ≡ observed = cc here in
        record {
          index = 0;
          position_is = omega (arith, p);
          agree = refl;
          observed_is = ap some o;
          wanted_is = ap some w;
          differ = ground (arith, other, w, o);
        }
  ]

  no_such_length :
      (n m : ℕ) (p : ℕ)
      → check (n == m) (length_mismatch p) ≢ err (first_mismatch position wanted observed)
  no_such_length n m p h = ground arith

-- When `compare_bytes` reports a mismatch, it is the first one, and the reported bytes are those there.
pub compare_bytes-FirstMismatch :
    (actual expected : Bytes) (offset position wanted observed : ℕ)
    → compare_bytes actual expected offset ≡ err (first_mismatch position wanted observed)
    → FirstMismatch offset actual expected position wanted observed
unfolding compare_bytes
compare_bytes-FirstMismatch actual expected offset position wanted observed h =
    pairs-FirstMismatch position wanted observed offset actual expected
      (from_pairs (compare_pairs offset actual expected) h)
  where
    from_pairs :
        (r : Result BytesError (Unit {0}))
        → (r
            >> check
                (length actual == length expected)
                (length_mismatch (offset + min (length actual) (length expected))))
          ≡ err (first_mismatch position wanted observed)
        → r ≡ err (first_mismatch position wanted observed)
    from_pairs (ok u) e =
        absurd (no_such_length position wanted observed (length actual) (length expected) _ e)
    from_pairs (err x) e = e
