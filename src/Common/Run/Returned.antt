-- ===== src/Common/Run/Returned.antt =====
-- What holds of the value of an action that returns, and of the state in which it does.
use mathlib.Core.Path.{◌≡◌, sym, subst}
use firmingo.Common.Errors.{Result, ok, ok-inj}
use firmingo.Common.Run.{Run, pure, lift, ◌>>=◌, run-bind-eq-ok}

pub record Returns {W E A : Type 0} (Q : A → Type 0) (m : Run W E A) : Type 0 where
  pub at : (w : W) (a : A) → (m w).0 ≡ ok a → Q a

module _ {W E : Type 0} where
  pub Returns-pure :
      {A : Type 0} (Q : A → Type 0) (a : A) → Q a → Returns Q (pure {W = W} {E = E} a)
  Returns-pure Q a q = record { at = λ w b h. subst Q (ok-inj h) q }

  -- The test of an action is known to its rest.
  pub Returns-lift : {A : Type 0} (r : Result E A) → Returns (λ (a : A). r ≡ ok a) (lift {W = W} r)
  Returns-lift r = record { at = λ w a h. h }

  module _ {A B : Type 0} (Q : B → Type 0) (m : Run W E A) (f : A → Run W E B) where
    pub Returns-bind :
        (P : A → Type 0) → Returns P m → ((a : A) → P a → Returns Q (f a)) → Returns Q (m >>= f)
    Returns-bind P s k = record {
      at = λ w b h.
          let (a, first, later, same) = run-bind-eq-ok m f w h in
          (k a (s.at w a first)).at (m w).1 b later;
    }

    pub Returns-skip : ((a : A) → Returns Q (f a)) → Returns Q (m >>= f)
    Returns-skip k = Returns-bind (λ a. Unit {0}) (record { at = λ w a h. tt }) (λ a u. k a)

  pub Returns-known :
      {A B : Type 0} (Q : B → Type 0) (r : Result E A) (f : A → Run W E B)
      → ((a : A) → r ≡ ok a → Returns Q (f a))
      → Returns Q (lift r >>= f)
  Returns-known Q r f k = Returns-bind Q (lift r) f (λ a. r ≡ ok a) (Returns-lift r) k

-- The action is run in `w`.
pub record Ends {W E A : Type 0} (Q : A → W → Type 0) (m : Run W E A) (w : W) : Type 0 where
  pub at : (a : A) → (m w).0 ≡ ok a → Q a (m w).1

module _ {W E A : Type 0} (Q : A → W → Type 0) where
  pub Ends-pure : (a : A) (w : W) → Q a w → Ends Q (pure {W = W} {E = E} a) w
  Ends-pure a w q = record { at = λ b h. subst (λ c. Q c w) (ok-inj h) q }

  pub Ends-lift : (r : Result E A) (w : W) → ((a : A) → r ≡ ok a → Q a w) → Ends Q (lift r) w
  Ends-lift r w k = record { at = λ a h. k a h }

  module _ {B : Type 0} where
    pub Ends-bind :
        (m : Run W E B) (f : B → Run W E A) (w : W)
        → ((b : B) → (m w).0 ≡ ok b → Ends Q (f b) (m w).1)
        → Ends Q (m >>= f) w
    Ends-bind m f w k = record {
      at = λ a h.
          let (b, first, later, same) = run-bind-eq-ok m f w h in
          subst (λ (out : Result E A × W). Q a out.1) (sym same) ((k b first).at a later);
    }

    pub Ends-known :
        (r : Result E B) (f : B → Run W E A) (w : W)
        → ((b : B) → r ≡ ok b → Ends Q (f b) w)
        → Ends Q (lift r >>= f) w
    Ends-known r f w k = Ends-bind (lift r) f w k
