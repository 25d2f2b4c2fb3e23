-- ===== src/Common/Run.antt =====
-- Actions on a state that may raise; what was done before a raise stays done.
pub mod Logged
pub mod Triple
pub mod Returned
use mathlib.Core.Path.{◌≡◌, refl}
use firmingo.Common.Errors.{Result, ok, err}

abbrev pub Run : Type 0 → Type 0 → Type 0 → Type 0
Run W E A = W → Result E A × W

module _ {W E : Type 0} where
  abbrev pub pure : {A : Type 0} → A → Run W E A
  pure a w = (ok a, w)

  abbrev pub lift : {A : Type 0} → Result E A → Run W E A
  lift r w = (r, w)

  abbrev pub continue : {A B : Type 0} → Result E A → (A → Run W E B) → Run W E B
  continue (ok a) f w = f a w
  continue (err e) f w = (err e, w)

  infixl 5 ◌>>=◌ ◌>>◌
  unfoldable pub ◌>>=◌ : {A B : Type 0} → Run W E A → (A → Run W E B) → Run W E B
  ◌>>=◌ m f w = let (r, w') = m w in continue r f w'

  abbrev pub ◌>>◌ : {B : Type 0} → Run W E (Unit {0}) → Run W E B → Run W E B
  m >> k = m >>= λ _. k

  -- Inversion of a successful bind.
  pub run-bind-eq-ok :
      {A B : Type 0} (m : Run W E A) (f : A → Run W E B) (w : W) {b : B}
      → ((m >>= f) w).0 ≡ ok b
      → (a : A) × ((m w).0 ≡ ok a) × ((f a (m w).1).0 ≡ ok b) × ((m >>= f) w ≡ f a (m w).1)
  unfolding ◌>>=◌
  run-bind-eq-ok {A} {B} m f w h = at (m w).0 (m w).1 h
    where
      at :
          (r : Result E A) (w' : W) {b : B}
          → (continue r f w').0 ≡ ok b
          → (a : A) × (r ≡ ok a) × ((f a w').0 ≡ ok b) × (continue r f w' ≡ f a w')
      at (ok a) w' h = (a, refl, h, refl)
      at (err e) w' h = cc
