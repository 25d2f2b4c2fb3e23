-- ===== src/Soak/Tests.antt =====
-- Readings of a device without a backend's counters (tools/soak.py).
use firmingo.Common.{ℕ, ◌≡◌, refl, some, ok}
use firmingo.Python.{Fields, end, field, null, int, lookup}
use firmingo.Soak.{present_in, all_in, num, bad_types, bad_levels, went_back, project, diagnostics}
use firmingo.Soak.Readings.{IsReading}
use firmingo.Soak.Series.{LaterThan, diagnostics-IsReading}

abbrev document : ℕ → ℕ → Fields
document samples low = field "samples" (int samples) (
    field "heap_free" (int 900) (
      field "heap_min" (int low) (
        field "stack_free" (int 70) (
          field "stack_min" (int 60) (
            field "peak_to_backend" (int 5)
              (field "peak_to_peer" (int 6) (field "lwip_free" null end)))))))

read_after : diagnostics (some (document 1 800)) (document 2 700) ≡ ok (document 2 700)
unfolding diagnostics present_in all_in bad_types bad_levels went_back project num lookup
read_after = refl

diagnostics-IsReading_example :
    IsReading (document 2 700) × LaterThan (some (document 1 800)) (document 2 700)
diagnostics-IsReading_example =
    diagnostics-IsReading (some (document 1 800)) (document 2 700) read_after
