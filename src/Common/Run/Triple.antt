-- ===== src/Common/Run/Triple.antt =====
-- What an action leads to: `Q` of its value and the state if it returns, and `R` of the state if it raises.
use mathlib.Core.Path.{◌≡◌, refl}
use mathlib.Core.Bool.{Bool, true, false}
use firmingo.Common.Errors.{Result, ok, err}
use firmingo.Common.Tests.{if◌then◌else◌}
use firmingo.Common.Run.{Run, continue, pure, lift, ◌>>=◌}

module _ {W E : Type 0} where
  abbrev pub Post : {A : Type 0} → (A → W → Type 0) → (W → Type 0) → Result E A → W → Type 0
  Post Q R (ok a) w = Q a w
  Post Q R (err e) w = R w

  pub record Triple {A : Type 0} (P : W → Type 0) (m : Run W E A) (Q : A → W → Type 0)
      (R : W → Type 0) : Type 0 where
    pub at : (w : W) → P w → Post Q R (m w).0 (m w).1

  -- What holds of the state whatever the outcome is.
  pub Post-either :
      {A : Type 0} (P : W → Type 0) (r : Result E A) (w : W) → P w → Post (λ (a : A) v. P v) P r w
  Post-either P (ok a) w h = h
  Post-either P (err e) w h = h

  module _ (R : W → Type 0) where
    pub Triple-pure : {A : Type 0} (a : A) (Q : A → W → Type 0) → Triple (Q a) (pure a) Q R
    Triple-pure a Q = record { at = λ w h. h }

    lift_at :
        {A : Type 0} (r : Result E A) (P : W → Type 0) (w : W)
        → ((w : W) → P w → R w)
        → P w
        → Post (λ (a : A) v. P v) R r w
    lift_at (ok a) P w k h = h
    lift_at (err e) P w k h = k w h

    -- A test that raises, or an answer of the environment.
    pub Triple-lift :
        {A : Type 0} (r : Result E A) (P : W → Type 0)
        → ((w : W) → P w → R w)
        → Triple P (lift r) (λ (a : A) w. P w) R
    Triple-lift r P k = record { at = λ w h. lift_at r P w k h }

    module _ {A B : Type 0} (P : W → Type 0) (Q : A → W → Type 0) (S : B → W → Type 0) where
      bind_at :
          (r : Result E A) (w : W) (f : A → Run W E B)
          → Post Q R r w
          → ((a : A) → Triple (Q a) (f a) S R)
          → Post S R (continue r f w).0 (continue r f w).1
      bind_at (ok a) w f h k = (k a).at w h
      bind_at (err e) w f h k = h

      pub Triple-bind :
          (m : Run W E A) (f : A → Run W E B)
          → Triple P m Q R
          → ((a : A) → Triple (Q a) (f a) S R)
          → Triple P (m >>= f) S R
      unfolding ◌>>=◌
      Triple-bind m f s k = record { at = λ w h. bind_at (m w).0 (m w).1 f (s.at w h) k }

    pub Triple-if :
        {A : Type 0} (b : Bool) (m n : Run W E A) (P : W → Type 0) (Q : A → W → Type 0)
        → (b ≡ true → Triple P m Q R)
        → (b ≡ false → Triple P n Q R)
        → Triple P (if b then m else n) Q R
    Triple-if true m n P Q h k = h refl
    Triple-if false m n P Q h k = k refl

  -- The outcome of a test is known afterwards.
  known_at :
      {A : Type 0} (P R : W → Type 0) (r : Result E A) (w : W)
      → ((w : W) → P w → R w)
      → P w
      → Post (λ (a : A) v. P v × (r ≡ ok a)) R r w
  known_at P R (ok a) w k h = (h, refl)
  known_at P R (err e) w k h = k w h

  pub Triple-known :
      {A : Type 0} (P R : W → Type 0) (r : Result E A)
      → ((w : W) → P w → R w)
      → Triple P (lift r) (λ (a : A) w. P w × (r ≡ ok a)) R
  Triple-known P R r k = record { at = λ w h. known_at P R r w k h }

  weaken_at :
      {A : Type 0} (Q : A → W → Type 0) (R S : W → Type 0) (r : Result E A) (w : W)
      → ((w : W) → R w → S w)
      → Post Q R r w
      → Post Q S r w
  weaken_at Q R S (ok a) w k h = h
  weaken_at Q R S (err e) w k h = k w h

  pub Triple-weaken :
      {A : Type 0} (P : W → Type 0) (Q : A → W → Type 0) (R S : W → Type 0) (m : Run W E A)
      → ((w : W) → R w → S w)
      → Triple P m Q R
      → Triple P m Q S
  Triple-weaken P Q R S m k t = record { at = λ w h. weaken_at Q R S (m w).0 (m w).1 k (t.at w h) }
