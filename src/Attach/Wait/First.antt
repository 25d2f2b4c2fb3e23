-- ===== src/Attach/Wait/First.antt =====
-- What `wait_for` returns (tools/attach.py).
use firmingo.Common.{
  ℕ, ◌<◌, ◌≡◌, ◌↔◌, refl, sym, ap, ◌∙◌, Option, none, some, List, [], ◌∷◌, ◌++◌, ok, ok-inj,
  >>=-eq-ok, check-eq-ok, ltb, ltb→lt, lt→ltb,
}
use firmingo.Attach.{timed_out}
use firmingo.Attach.Wait.{Sample, Window, found_or, wait_for}

-- The start of the last sample, or what was known before.
abbrev pub last_start : {A : Type 0} → Option ℕ → List (Sample A) → Option ℕ
last_start last [] = last
last_start last (s ∷ samples) = last_start (some s.began) samples

abbrev pub InTime : {A : Type 0} → ℕ → Sample A → Type 0
InTime limit s = (s.now < limit) × (s.ended < limit)

-- Each sample answered, in time, that there is nothing yet.
abbrev pub AllNegative : {A : Type 0} → ℕ → List (Sample A) → Type 0
AllNegative limit [] = Unit
AllNegative limit (s ∷ samples) = ((s.value ≡ ok none) × InTime limit s) × AllNegative limit samples

abbrev pub window_of : {A : Type 0} → Option ℕ → Sample A → Window
window_of last s = record { sample_start = s.began; sample_end = s.ended; last_negative = last }

-- The value is the answer of the first sample that is not negative.
pub record IsFirst {A : Type 0} (limit : ℕ) (last : Option ℕ) (samples : List (Sample A)) (a : A)
    (w : Window) : Type 0 where
  pub before : List (Sample A)
  pub sample : Sample A
  pub after : List (Sample A)
  pub split : samples ≡ before ++ (sample ∷ after)
  pub negative : AllNegative limit before
  pub answered : sample.value ≡ ok (some a)
  pub in_time : InTime limit sample
  pub window : w ≡ window_of (last_start last before) sample

module _ {A : Type 0} (limit : ℕ) where
  add_negative :
      (last : Option ℕ) (s : Sample A) (samples : List (Sample A)) {a : A} {w : Window}
      → (s.value ≡ ok none) × InTime limit s
      → IsFirst limit (some s.began) samples a w
      → IsFirst limit last (s ∷ samples) a w
  add_negative last s samples is_negative h = record {
    before = s ∷ h.before;
    sample = h.sample;
    after = h.after;
    split = ap (λ t. s ∷ t) h.split;
    negative = (is_negative, h.negative);
    answered = h.answered;
    in_time = h.in_time;
    window = h.window;
  }

  by_answer :
      (last : Option ℕ) (s : Sample A) (samples : List (Sample A)) {a : A} {w : Window}
      → (wait_for limit (some s.began) samples ≡ ok (a, w)
          → IsFirst limit (some s.began) samples a w)
      → (value : Option A) → s.value ≡ ok value
      → InTime limit s
      → found_or (wait_for limit (some s.began) samples) (window_of last s) value ≡ ok (a, w)
      → IsFirst limit last (s ∷ samples) a w
  by_answer last s samples later none answer in_time h =
      add_negative last s samples (answer, in_time) (later h)
  by_answer last s samples {a} {w} later (some b) answer in_time h =
      let same : (b, window_of last s) ≡ (a, w) = ok-inj h in
      record {
        before = [];
        sample = s;
        after = samples;
        split = refl;
        negative = tt;
        answered = answer ∙ ap (λ p. ok (some p.0)) same;
        in_time = in_time;
        window = sym (ap (λ p. p.1) same);
      }

  wait_for-IsFirst :
      (last : Option ℕ) (samples : List (Sample A)) {a : A} {w : Window}
      → wait_for limit last samples ≡ ok (a, w)
      → IsFirst limit last samples a w
  unfolding wait_for
  wait_for-IsFirst last [] h = cc
  wait_for-IsFirst last (s ∷ samples) {a} {w} h =
      let (began, h1) = check-eq-ok (ltb s.now limit) timed_out h in
      let (value, answer, h2) = >>=-eq-ok s.value _ h1 in
      let (ended, h3) = check-eq-ok (ltb s.ended limit) timed_out h2 in
      let in_time : InTime limit s = (ltb→lt s.now limit began, ltb→lt s.ended limit ended) in
      by_answer last s samples (wait_for-IsFirst (some s.began) samples) value answer in_time h3

  answer_lem :
      (last : Option ℕ) (before : List (Sample A)) (s : Sample A) (after : List (Sample A)) {a : A}
      → AllNegative limit before
      → s.value ≡ ok (some a)
      → InTime limit s
      → wait_for limit last (before ++ (s ∷ after)) ≡ ok (a, window_of (last_start last before) s)
  unfolding wait_for
  answer_lem last [] s after n answer t =
      rw (lt→ltb s.now limit t.0, answer, lt→ltb s.ended limit t.1) refl
  answer_lem last (b ∷ before) s after n answer t =
      rw (lt→ltb b.now limit n.0.1.0, n.0.0, lt→ltb b.ended limit n.0.1.1)
        (answer_lem (some b.began) before s after n.1 answer t)

-- `wait_for` returns exactly when some sample answers with a value, all samples before it answered that there is nothing
-- yet, and all of them were taken before the deadline. It returns that value, with the bounds of its sample and the start of
-- the last sample before it.
pub wait_for_iff :
    {A : Type 0} (limit : ℕ) (last : Option ℕ) (samples : List (Sample A)) (a : A) (w : Window)
    → (wait_for limit last samples ≡ ok (a, w)) ↔ IsFirst limit last samples a w
wait_for_iff limit last samples a w = (
  wait_for-IsFirst limit last samples,
  λ h.
      ap (wait_for limit last) h.split
      ∙ answer_lem limit last h.before h.sample h.after h.negative h.answered h.in_time
      ∙ ap (λ v. ok (a, v)) (sym h.window),
)
