-- ===== src/Uart/Pattern.antt =====
-- The bytes of a pattern.
use firmingo.Common.{
  ℕ, zero, suc, ◌/◌, false, subst, ◌%◌, ◌^◌, ◌≤◌, ◌<◌, ◌≡◌, refl, sym, ap, ◌∙◌, ◌∷◌, ok, length,
  take, All, arith, raise_if-eq-ok,
}
use firmingo.Common.Bytes.{Bytes}
use firmingo.Uart.{invalid_request, bad_request, next_state, pattern_loop, pattern}

length-pattern_loop : (bits state count : ℕ) → length (pattern_loop bits state count) ≡ count
unfolding pattern_loop
length-pattern_loop bits state zero = refl
length-pattern_loop bits state (suc count) =
    omega (arith, length-pattern_loop bits (next_state state) count)

abbrev pub Fits : ℕ → ℕ → Type 0
Fits bits b = b < 2 ^ bits

pow_positive : (bits : ℕ) → 0 < 2 ^ bits
pow_positive zero = omega arith
pow_positive (suc bits) = omega (arith, pow_positive bits)

pattern_loop-Fits : (bits state count : ℕ) → All (Fits bits) (pattern_loop bits state count)
unfolding pattern_loop
pattern_loop-Fits bits state zero = tt
pattern_loop-Fits bits state (suc count) =
    let positive = pow_positive bits in
    (omega (arith, positive), pattern_loop-Fits bits (next_state state) count)

take-pattern_loop :
    (bits state n count : ℕ)
    → n ≤ count
    → take n (pattern_loop bits state count) ≡ pattern_loop bits state n
unfolding pattern_loop
take-pattern_loop bits state zero count h = refl
take-pattern_loop bits state (suc n) zero h = absurd (omega arith)
take-pattern_loop bits state (suc n) (suc count) h =
    ap (λ bs. (next_state state / 2 ^ 24) % 2 ^ bits ∷ bs)
      (take-pattern_loop bits (next_state state) n count (omega arith))

shorter :
    (n count seed bits : ℕ)
    → 0 < n
    → n ≤ count
    → bad_request count seed bits ≡ false
    → bad_request n seed bits ≡ false
shorter n count seed bits positive small h = ground arith

-- A pattern has the requested number of bytes, each fits into the data bits, and a shorter pattern from
-- the same seed is an initial part of it.
pub pattern_lem :
    (count seed bits : ℕ) {bytes : Bytes}
    → pattern count seed bits ≡ ok bytes
    → (length bytes ≡ count)
      × All (Fits bits) bytes
      × ((n : ℕ) → 0 < n → n ≤ count → pattern n seed bits ≡ ok (take n bytes))
unfolding pattern
pattern_lem count seed bits {bytes} h =
    let (good, done) =
      raise_if-eq-ok (bad_request count seed bits) invalid_request
        (ok (pattern_loop bits seed count)) h in
    let is : pattern_loop bits seed count ≡ bytes = cc done in
    (
      ap length (sym is) ∙ length-pattern_loop bits seed count,
      subst (All (Fits bits)) is (pattern_loop-Fits bits seed count),
      λ n positive small.
          let fine : bad_request n seed bits ≡ false =
            shorter n count seed bits positive small good in
          rw fine (ap ok (sym (take-pattern_loop bits seed n count small) ∙ ap (take n) is)),
    )
