-- ===== src/Attach/Wait/Tests.antt =====
-- Two observations that find nothing, and one that finds a board (tools/attach.py).
use firmingo.Common.{ℕ, ◌≡◌, ◌↔◌, refl, Option, none, some, List, [], ◌∷◌, ok}
use firmingo.Attach.Wait.{Sample, Window, wait_for}
use firmingo.Attach.Wait.First.{IsFirst, wait_for_iff}

abbrev sample : ℕ → ℕ → Option ℕ → Sample ℕ
sample began ended value = record { now = began; began = began; value = ok value; ended = ended }

abbrev samples : List (Sample ℕ)
samples = sample 10 11 none ∷ sample 12 13 none ∷ sample 14 19 (some 7) ∷ []

abbrev window : Window
window = record { sample_start = 14; sample_end = 19; last_negative = some 12 }

returned : wait_for 20 none samples ≡ ok (7, window)
unfolding wait_for
returned = refl

wait_for_iff_example :
    (wait_for 20 none samples ≡ ok (7, window)) ↔ IsFirst 20 none samples 7 window
wait_for_iff_example = wait_for_iff 20 none samples 7 window
