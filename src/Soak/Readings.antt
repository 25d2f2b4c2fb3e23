-- ===== src/Soak/Readings.antt =====
-- What a reading owes by itself and to an earlier one, and the fields of the reading that `diagnostics` of
-- tools/soak.py returns.
use firmingo.Common.{
  ℕ, ◌≤◌, ◌<◌, ◌≡◌, refl, sym, ap, ◌∙◌, Bool, true, false, ◌||◌, Option, none, some, List, [], ◌∷◌,
  ◌++◌, if◌then◌else◌,
}
use firmingo.Python.{Value, Fields, lookup, as_int}
use firmingo.Soak.{base_fields, num, with_key, project}
use text.Mathlib.TextEquality.{eq_iff as str_eq_iff}
use Prim.Native.String.{String}
use text.Mathlib.Text.{◌==◌ as str_eq}

-- The counters of every device.
pub record IsReading (d : Fields) : Type 0 where
  pub sampled : 0 < num d "samples"
  pub heap : num d "heap_min" ≤ num d "heap_free"
  pub stack : num d "stack_min" ≤ num d "stack_free"
  pub to_backend : num d "peak_to_backend" ≤ 256
  pub to_peer : num d "peak_to_peer" ≤ 256

-- The minima of a device's lifetime only fall and the peaks only rise.
pub record IsLater (p d : Fields) : Type 0 where
  pub samples : num p "samples" ≤ num d "samples"
  pub heap_min : num d "heap_min" ≤ num p "heap_min"
  pub stack_min : num d "stack_min" ≤ num p "stack_min"
  pub to_backend : num p "peak_to_backend" ≤ num d "peak_to_backend"
  pub to_peer : num p "peak_to_peer" ≤ num d "peak_to_peer"

has_key : String → List String → Bool
has_key k [] = false
has_key k (j ∷ ks) = str_eq j k || has_key k ks

-- A projection has the keys it is made for, and no other.
module _ (d : Fields) (k : String) where
  kept : List String → Option Value
  kept ks = if has_key k ks then lookup k d else none

  kept_nothing : (b : Bool) → lookup k d ≡ none → (if b then lookup k d else none) ≡ none
  kept_nothing true h = h
  kept_nothing false h = refl

  lookup-with_key :
      (j : String) (ks : List String) (o : Option Value)
      → lookup j d ≡ o
      → (b : Bool) → str_eq j k ≡ b
      → lookup k (project d ks) ≡ kept ks
      → lookup k (with_key o j (project d ks)) ≡ (if b || has_key k ks then lookup k d else none)
  unfolding lookup kept
  lookup-with_key j ks none e true h ih =
      let here : lookup k d ≡ none = ap (λ i. lookup i d) (sym ((str_eq_iff j k).0 h)) ∙ e in
      ih ∙ kept_nothing (has_key k ks) here ∙ sym here
  lookup-with_key j ks none e false h ih = ih
  lookup-with_key j ks (some v) e true h ih =
      let here : lookup k d ≡ some v = ap (λ i. lookup i d) (sym ((str_eq_iff j k).0 h)) ∙ e in
      ap (λ b. if b then some v else lookup k (project d ks)) h ∙ sym here
  lookup-with_key j ks (some v) e false h ih =
      ap (λ b. if b then some v else lookup k (project d ks)) h ∙ ih

  lookup-project : (ks : List String) → lookup k (project d ks) ≡ kept ks
  unfolding project lookup kept has_key
  lookup-project [] = refl
  lookup-project (j ∷ ks) =
      lookup-with_key j ks (lookup j d) refl (str_eq j k) refl (lookup-project ks)

module _ (d : Fields) (more : List String) where
  num-project :
      (k : String)
      → has_key k (base_fields ++ more) ≡ true
      → num (project d (base_fields ++ more)) k ≡ num d k
  unfolding num kept
  num-project k h =
      let e : lookup k (project d (base_fields ++ more)) ≡ lookup k d =
        lookup-project d k (base_fields ++ more) ∙ ap (λ b. if b then lookup k d else none) h in
      ap (λ o. elim (as_int o) as (λ _. ℕ) [ none ↦ 0 | some n ↦ n ]) e

  -- The base fields of a projection are those of the document.
  pub base_kept :
      (num (project d (base_fields ++ more)) "samples" ≡ num d "samples")
      × (num (project d (base_fields ++ more)) "heap_free" ≡ num d "heap_free")
      × (num (project d (base_fields ++ more)) "heap_min" ≡ num d "heap_min")
      × (num (project d (base_fields ++ more)) "stack_free" ≡ num d "stack_free")
      × (num (project d (base_fields ++ more)) "stack_min" ≡ num d "stack_min")
      × (num (project d (base_fields ++ more)) "peak_to_backend" ≡ num d "peak_to_backend")
      × (num (project d (base_fields ++ more)) "peak_to_peer" ≡ num d "peak_to_peer")
  unfolding has_key
  base_kept = (
    num-project "samples" refl,
    num-project "heap_free" refl,
    num-project "heap_min" refl,
    num-project "stack_free" refl,
    num-project "stack_min" refl,
    num-project "peak_to_backend" refl,
    num-project "peak_to_peer" refl,
  )
