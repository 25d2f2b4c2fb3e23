-- ===== src/Common/Run/Logged.antt =====
-- The events that an action logs, whatever it is answered.
use mathlib.Core.Path.{◌≡◌, refl, sym, ap, subst, ◌∙◌}
use mathlib.Core.List.{List, [], ◌∷◌, ◌++◌, append_assoc, append-nil}
use firmingo.Common.Errors.{Result, ok, err}
use firmingo.Common.Run.{Run, continue, lift, ◌>>=◌}

-- What was logged is an initial part of `plan`, and all of it if the action returned.
pub record LoggedPart {W E C A : Type 0} (log : W → List C) (plan : List C) (w : W)
    (after : Result E A × W) : Type 0 where
  pub done : List C
  pub rest : List C
  pub split : plan ≡ done ++ rest
  pub log_is : log after.1 ≡ log w ++ done
  pub all : (a : A) → after.0 ≡ ok a → rest ≡ []

-- The action logs `plan`, and stops early only with an error.
pub record Logs {W E C A : Type 0} (log : W → List C) (plan : List C) (m : Run W E A) : Type 0 where
  pub at : (w : W) → LoggedPart log plan w (m w)

-- All of the plan, when the action returned.
pub LoggedPart-all :
    {W E C A : Type 0} (log : W → List C) (plan : List C) (w : W) (after : Result E A × W) {a : A}
    → LoggedPart log plan w after
    → after.0 ≡ ok a
    → log after.1 ≡ log w ++ plan
LoggedPart-all log plan w after {a} s e =
    s.log_is
    ∙ ap (λ p. log w ++ p)
        (sym (append-nil s.done) ∙ ap (λ p. s.done ++ p) (sym (s.all a e)) ∙ sym s.split)

module _ {W E C : Type 0} (log : W → List C) where
  pub Logs-lift : {A : Type 0} (r : Result E A) → Logs log [] (lift {W = W} {A = A} r)
  Logs-lift r = record {
    at = λ w. record {
      done = [];
      rest = [];
      split = refl;
      log_is = sym (append-nil (log w));
      all = λ a e. refl;
    };
  }

  module _ {A B : Type 0} (plan more : List C) (f : A → Run W E B) where
    pub LoggedPart-continue :
        (w : W) (r : Result E A) (w' : W)
        → LoggedPart log plan w (r, w')
        → ((a : A) → r ≡ ok a → LoggedPart log more w' (f a w'))
        → LoggedPart log (plan ++ more) w (continue r f w')
    LoggedPart-continue w (ok a) w' s k =
        let t = k a refl in
        let whole : s.rest ≡ [] = s.all a refl in
        record {
          done = s.done ++ t.done;
          rest = t.rest;
          split =
              ap (λ p. p ++ more) s.split
              ∙ ap (λ p. (s.done ++ p) ++ more) whole
              ∙ ap (λ p. p ++ more) (append-nil s.done)
              ∙ ap (λ p. s.done ++ p) t.split
              ∙ sym (append_assoc s.done t.done t.rest);
          log_is = t.log_is ∙ ap (λ p. p ++ t.done) s.log_is ∙ append_assoc (log w) s.done t.done;
          all = t.all;
        }
    LoggedPart-continue w (err e) w' s k = record {
      done = s.done;
      rest = s.rest ++ more;
      split = ap (λ p. p ++ more) s.split ∙ append_assoc s.done s.rest more;
      log_is = s.log_is;
      all = λ b h. cc;
    }

    pub Logs-bind_at :
        (m : Run W E A)
        → Logs log plan m
        → ((w : W) (a : A) → (m w).0 ≡ ok a → Logs log more (f a))
        → Logs log (plan ++ more) (m >>= f)
    unfolding ◌>>=◌
    Logs-bind_at m s k = record {
      at = λ w. LoggedPart-continue w (m w).0 (m w).1 (s.at w) (λ a e. (k w a e).at (m w).1);
    }

    pub Logs-bind :
        (m : Run W E A)
        → Logs log plan m
        → ((a : A) → Logs log more (f a))
        → Logs log (plan ++ more) (m >>= f)
    Logs-bind m s k = Logs-bind_at m s (λ w a h. k a)

  -- An action that logs nothing first.
  pub Logs-quiet :
      {A B : Type 0} (plan : List C) (f : A → Run W E B) (m : Run W E A)
      → Logs log [] m
      → ((a : A) → Logs log plan (f a))
      → Logs log plan (m >>= f)
  Logs-quiet plan f m s k = Logs-bind [] plan f m s k

  -- An action that logs all of its plan in any case.
  pub Logs-always :
      {A : Type 0} (plan : List C) (m : Run W E A)
      → ((w : W) → log (m w).1 ≡ log w ++ plan)
      → Logs log plan m
  Logs-always plan m h = record {
    at = λ w. record {
      done = plan;
      rest = [];
      split = sym (append-nil plan);
      log_is = h w;
      all = λ a e. refl;
    };
  }

  -- The rules for a plan that is a list: the first action logs its first element, or nothing, or a part of its own.
  pub Logs-first :
      {A B : Type 0} (e : C) (more : List C) (m : Run W E A) (f : A → Run W E B)
      → Logs log (e ∷ []) m
      → ((a : A) → Logs log more (f a))
      → Logs log (e ∷ more) (m >>= f)
  Logs-first e more m f s k = Logs-bind (e ∷ []) more f m s k

  pub Logs-skip :
      {A B : Type 0} (plan : List C) (m : Run W E A) (f : A → Run W E B)
      → Logs log [] m
      → ((a : A) → Logs log plan (f a))
      → Logs log plan (m >>= f)
  Logs-skip plan m f s k = Logs-quiet plan f m s k

  pub Logs-part :
      {A B : Type 0} (plan more : List C) (m : Run W E A) (f : A → Run W E B)
      → Logs log plan m
      → ((a : A) → Logs log more (f a))
      → Logs log (plan ++ more) (m >>= f)
  Logs-part plan more m f s k = Logs-bind plan more f m s k

  -- The rest logs nothing.
  pub Logs-whole :
      {A B : Type 0} (plan : List C) (m : Run W E A) (f : A → Run W E B)
      → Logs log plan m
      → ((a : A) → Logs log [] (f a))
      → Logs log plan (m >>= f)
  Logs-whole plan m f s k =
      subst (λ p. Logs log p (m >>= f)) (append-nil plan) (Logs-bind plan [] f m s k)

  -- The rest may use that `r` did not raise.
  pub Logs-known :
      {A B : Type 0} (plan : List C) (r : Result E A) (f : A → Run W E B)
      → ((a : A) → r ≡ ok a → Logs log plan (f a))
      → Logs log plan (lift r >>= f)
  unfolding ◌>>=◌
  Logs-known plan (ok a) f k = k a refl
  Logs-known plan (err e) f k = record {
    at = λ w. record {
      done = [];
      rest = plan;
      split = refl;
      log_is = sym (append-nil (log w));
      all = λ a h. cc;
    };
  }
