-- ===== src/Soak/Run/Accounts.antt =====
-- The report of a run accounts for its batches, however the run ends.
use firmingo.Common.{
  ℕ, ◌+◌, ◌*◌, ◌≤◌, ◌<◌, ◌≡◌, ◌⊎◌, inl, inr, refl, Bool, true, false, some, List, [], ◌∷◌, ◌++◌,
  Result, ok, check, map_err, length, ltb, if◌then◌else◌, length-append, arith,
}
use firmingo.Common.Run.{pure, lift, ◌>>=◌}
use firmingo.Common.Run.Triple.{Post, Post-either, Triple, Triple-lift, Triple-bind, Triple-if}
use firmingo.Python.{Fields}
use firmingo.Soak.{diagnostics}
use firmingo.Uart.Channel.{validate_channel}
use Prim.Native.String.{String}
use text.Mathlib.Text.{◌==◌ as str_eq}
use firmingo.Soak.Run.{
  known_boot, boot_changed, RunError, bad_reading, bad_channel, Reply, reply, Selection, Batch,
  Sample, Report, Soaking, max_samples, update, check_boot, or_else, measure, read_counters,
  first_reading, connect, ensure_session, add_sample, empty_report,
}

-- The samples of batches `n`, `n + 1` and so on, each with the selected number of bytes.
abbrev pub Numbered : Selection → ℕ → List Sample → Type 0
Numbered a n [] = Unit
Numbered a n (s ∷ samples) = ((s.batch ≡ n) × (s.bytes ≡ a.byte_count)) × Numbered a (n + 1) samples

Numbered-append :
    (a : Selection) (n : ℕ) (samples : List Sample) (s : Sample)
    → Numbered a n samples
    → s.batch ≡ n + length samples
    → s.bytes ≡ a.byte_count
    → Numbered a n (samples ++ (s ∷ []))
Numbered-append a n [] s h e f = ((omega arith, f), tt)
Numbered-append a n (t ∷ samples) s h e f =
    (h.0, Numbered-append a (n + 1) samples s h.1 (omega arith) f)

-- The samples that are kept and the count of the others, after so many batches.
pub record IsListed (a : Selection) (completed : ℕ) (samples : List Sample) (omitted : ℕ)
    : Type 0 where
  pub counted : length samples + omitted ≡ completed
  pub bounded : length samples ≤ max_samples
  pub full : (omitted ≡ 0) ⊎ (length samples ≡ max_samples)
  pub numbered : Numbered a 1 samples

pub record IsAccounted (a : Selection) (w : Report) : Type 0 where
  pub exact : w.exact_bytes ≡ w.completed_batches * a.byte_count
  pub listed : IsListed a w.completed_batches w.samples w.omitted_samples

none_omitted : (omitted n : ℕ) → (omitted ≡ 0) ⊎ (n ≡ max_samples) → n < max_samples → omitted ≡ 0
none_omitted omitted n (inl e) h = e
none_omitted omitted n (inr e) h = absurd (omega arith)

add-IsListed :
    (a : Selection) (s : Sample) (completed : ℕ) (samples : List Sample) (omitted : ℕ) (room : Bool)
    → ltb (length samples) max_samples ≡ room
    → IsListed a completed samples omitted
    → s.batch ≡ completed + 1
    → s.bytes ≡ a.byte_count
    → IsListed a
        (completed + 1)
        (if room then samples ++ (s ∷ []) else samples)
        (if room then omitted else omitted + 1)
add-IsListed a s completed samples omitted true r h e f =
    let below : length samples < max_samples = ground (arith, r) in
    let none_yet = none_omitted omitted (length samples) h.full below in
    let longer = length-append samples (s ∷ []) in
    record {
      counted = omega (arith, h.counted, longer);
      bounded = omega (arith, below, longer);
      full = inl none_yet;
      numbered = Numbered-append a 1 samples s h.numbered (omega (arith, e, h.counted, none_yet)) f;
    }
add-IsListed a s completed samples omitted false r h e f =
    let above : max_samples ≤ length samples = ground (arith, r) in
    record {
      counted = omega (arith, h.counted);
      bounded = h.bounded;
      full = inr (omega (arith, above, h.bounded));
      numbered = h.numbered;
    }

pub IsAccounted-add :
    (a : Selection) (s : Sample) (w : Report)
    → IsAccounted a w
    → s.batch ≡ w.completed_batches + 1
    → s.bytes ≡ a.byte_count
    → IsAccounted a (add_sample a s w)
IsAccounted-add a s w h e f = record {
  exact = omega (arith, h.exact);
  listed =
      add-IsListed a s w.completed_batches w.samples w.omitted_samples
        (ltb (length w.samples) max_samples) refl h.listed e f;
}

pub IsAccounted-empty : (a : Selection) → IsAccounted a empty_report
IsAccounted-empty a = record {
  exact = omega arith;
  listed = record { counted = omega arith; bounded = omega arith; full = inl refl; numbered = tt };
}

-- An action that keeps a property of the report, whether it returns or raises.
abbrev pub Keeps : {A : Type 0} → (Report → Type 0) → Soaking A → Type 0
Keeps {A} P m = Triple P m (λ (x : A) w. P w) P

module _ (P : Report → Type 0) where
  pub Keeps-lift : {A : Type 0} (r : Result RunError A) → Keeps P (lift r)
  Keeps-lift r = Triple-lift P r P (λ w h. h)

  pub Keeps-bind :
      {A B : Type 0} (m : Soaking A) (f : A → Soaking B)
      → Keeps P m
      → ((x : A) → Keeps P (f x))
      → Keeps P (m >>= f)
  Keeps-bind {A} {B} m f h k = Triple-bind P P (λ (x : A) w. P w) (λ (y : B) w. P w) m f h k

  pub Keeps-update : (f : Report → Report) → ((w : Report) → P w → P (f w)) → Keeps P (update f)
  Keeps-update f h = record { at = h }

  pub Keeps-if :
      {A : Type 0} (b : Bool) (m n : Soaking A)
      → Keeps P m
      → Keeps P n
      → Keeps P (if b then m else n)
  Keeps-if {A} b m n h k = Triple-if P b m n P (λ (x : A) w. P w) (λ e. h) (λ e. k)

  -- A reading changes the last reading only.
  pub Keeps-measure :
      (document : Reply Fields)
      → ((w : Report) (reading : Fields) → P w → P (record w { last_reading = some reading }))
      → Keeps P (measure document)
  unfolding measure read_counters
  Keeps-measure document stable = Keeps-bind (lift (reply document)) _ (Keeps-lift _) (λ d.
      Keeps-bind (read_counters d) _
        (record {
          at = λ w h. Post-either P (map_err bad_reading (diagnostics w.last_reading d)) w h;
        })
        (λ reading.
          Keeps-bind (update (λ w. record w { last_reading = some reading })) _
            (Keeps-update _ (λ w h. stable w reading h)) (λ _. Keeps-lift (ok reading))))

module _ (a : Selection) where
  abbrev pub Acc : Report → Type 0
  Acc = IsAccounted a

  Keeps-first_reading : (b : Batch) → Keeps Acc (first_reading a b)
  unfolding first_reading
  Keeps-first_reading b =
      Keeps-bind Acc (measure b.first_document) _
        (Keeps-measure Acc b.first_document
          (λ w r h. record { exact = h.exact; listed = h.listed }))
        (λ reading.
          Keeps-bind Acc
            (update (λ w. record w { initial_reading = some (or_else w.initial_reading reading) }))
            _ (Keeps-update Acc _ (λ w h. record { exact = h.exact; listed = h.listed }))
            (λ _. Keeps-lift Acc _))

  Keeps-check_boot : (observed : String) → Keeps Acc (check_boot observed)
  unfolding check_boot
  Keeps-check_boot observed = record {
    at = λ w h.
        let boot = known_boot w.boot observed in
        Post-either (Acc) (check (str_eq observed boot) boot_changed)
          (record w { boot = some boot }) (record { exact = h.exact; listed = h.listed });
  }

  Keeps-connect : (b : Batch) → Keeps Acc (connect a b)
  unfolding connect
  Keeps-connect b = Keeps-bind Acc (lift (reply b.connection)) _ (Keeps-lift Acc _) (λ hello.
      Keeps-bind Acc (update (λ w. record w { connected = true })) _
        (Keeps-update Acc _ (λ w h. record { exact = h.exact; listed = h.listed }))
        (λ _. Keeps-bind Acc (check_boot hello.boot_id) _ (Keeps-check_boot hello.boot_id) (λ _.
          Keeps-bind Acc (if a.measured then first_reading a b else pure tt) _
            (Keeps-if Acc a.measured (first_reading a b) (pure tt) (Keeps-first_reading b)
              (Keeps-lift Acc (ok tt)))
            (λ _.
              Keeps-bind Acc
                (lift
                  (if a.uart then map_err bad_channel (validate_channel hello.channel) else ok tt))
                _ (Keeps-lift Acc _)
                (λ _. Keeps-bind Acc (lift (reply b.opened)) _ (Keeps-lift Acc _) (λ _.
                  Keeps-update Acc _ (λ w h. record { exact = h.exact; listed = h.listed })))))))

  pub Keeps-ensure_session : (b : Batch) → Keeps Acc (ensure_session a b)
  unfolding ensure_session
  Keeps-ensure_session b = record { at = λ w h. at_session w w.connected h }
    where
      at_session :
          (w : Report) (connected : Bool)
          → Acc w
          → Post
              (λ (x : Unit {0}) v. Acc v)
              (Acc)
              (if connected then (ok tt, w) else connect a b w).0
              (if connected then (ok tt, w) else connect a b w).1
      at_session w true h = h
      at_session w false h = (Keeps-connect b).at w h
