-- ===== src/Console/Temperature/Within.antt =====
-- Where the slider of apps/console/src/components/ColorTemperatureSlider.tsx can be, and what it sends.
use sharpn.Prelude.{
  ℕ, zero, suc, ◌+◌, ◌*◌, ◌/◌, ◌≤◌, ◌<◌, min, max, ◌≡◌, refl, ap, subst, ◌∙◌, inl, inr, Bool, true,
  false, ◌&&◌, Option, arith, ◌==◌, Bool-cases, or_else,
}
use mathlib.Core.Bool.{and-eq-true_iff}
use native.Mathlib.Nat.{mul-div-le, le-div_iff_mul-le, mul-le-mul_left}
use sharpn.Light.{MirekRange}
use sharpn.Command.{Zod, mirek_ok, read_light_command, ok, shape, only, refine}
use sharpn.Command.Reading.{read-eq-ok_iff}
use sharpn.Prelude.Maps.{lookup}
use sharpn.Console.Temperature.{
  body_of, temperature_command, reciprocal_million, mirek_from_kelvin, default_mirek_range,
  kelvin_bounds_for, commit, shown_kelvin,
}

-- A range of mireks that a bulb may report: not upside down, and within Hue's own.
pub record IsRange (range : MirekRange) : Type 0 where
  pub lowest : 153 ≤ range.mirek_minimum
  pub ordered : range.mirek_minimum ≤ range.mirek_maximum
  pub highest : range.mirek_maximum ≤ 500

-- More of one is less of the other.
reciprocal-antitone : (v w : ℕ) → 0 < v → v ≤ w → reciprocal_million w ≤ reciprocal_million v
unfolding reciprocal_million
reciprocal-antitone v w pos le =
    (le-div_iff_mul-le (omega arith)).1
      (below ((2 * 1000000 + w) / (2 * w)) (mul-div-le (2 * 1000000 + w) (2 * w)))
  where
    below : (q : ℕ) → 2 * w * q ≤ 2 * 1000000 + w → q * (2 * v) ≤ 2 * 1000000 + v
    below zero h = omega arith
    below (suc q) h = grind (arith, mul-le-mul_left (2 * q) le)

eq_of_test : (a b : ℕ) → (a == b) ≡ true → a ≡ b
eq_of_test a b h = ground arith

all_from : ℕ → ℕ → (ℕ → Bool) → Bool
all_from zero low p = true
all_from (suc n) low p = p low && all_from n (suc low) p

all_from_sound :
    (n low : ℕ) (p : ℕ → Bool) (x : ℕ)
    → all_from n low p ≡ true
    → low ≤ x
    → x < low + n
    → p x ≡ true
unfolding all_from
all_from_sound zero low p x h le lt = absurd (omega arith)
all_from_sound (suc n) low p x h le lt =
    let (here, rest) = (and-eq-true_iff (p low) (all_from n (suc low) p)).0 h in
    elim (Bool-cases (low == x)) [
      | inl same ↦ subst (λ v. p v ≡ true) (eq_of_test low x same) here
      | inr other ↦ all_from_sound n (suc low) p x rest (ground arith) (omega (arith, lt))
    ]

twice_table : all_from 348 153 (λ v. reciprocal_million (reciprocal_million v) == v) ≡ true
unfolding all_from reciprocal_million
twice_table = refl

-- There and back again, on every mirek that Hue takes.
reciprocal_twice : (v : ℕ) → 153 ≤ v → v ≤ 500 → reciprocal_million (reciprocal_million v) ≡ v
reciprocal_twice v low high =
    eq_of_test _ v (all_from_sound 348 153 _ v twice_table low (omega arith))

reciprocal-500 : reciprocal_million 500 ≡ 2000
unfolding reciprocal_million
reciprocal-500 = refl

abbrev pub range_of : Option MirekRange → MirekRange
range_of schema = or_else schema default_mirek_range

-- The slider of a bulb: its range is its own or Hue's.
module _ (schema : Option MirekRange) (range : IsRange (range_of schema)) where
  commit_range : (kelvin : ℕ) → (153 ≤ commit schema kelvin) × (commit schema kelvin ≤ 500)
  unfolding commit
  commit_range kelvin = omega (arith, range.lowest, range.ordered, range.highest)

  mirek_taken :
      (m : ℕ)
      → (153 ≤ m) × (m ≤ 500)
      → mirek_ok (record { negative = false; digits = m; places = 0 }) ≡ true
  mirek_taken m (low, high) = ground arith

  -- Wherever the slider of a colour temperature is let go, at a number of Kelvins that is not
  -- zero, the service reads the body of the PATCH as the Command that the slider sends, and
  -- refuses none, where the range that the bulb reports, if any, is not upside down and is
  -- within what Hue takes.
  pub commit-read :
      (zod : Zod) (kelvin : ℕ)
      → 0 < kelvin
      → read_light_command zod (body_of (temperature_command (commit schema kelvin)))
        ≡ ok (temperature_command (commit schema kelvin))
  unfolding body_of shape only refine lookup
  commit-read zod kelvin positive =
      let taken = mirek_taken (commit schema kelvin) (commit_range kelvin) in
      (read-eq-ok_iff zod (body_of (temperature_command (commit schema kelvin)))
          (temperature_command (commit schema kelvin))).1
        (rw taken refl, refl)

  -- Within its own bounds, the slider sends the mireks of where it was let go: nothing is clamped.
  pub commit-in_bounds :
      (kelvin : ℕ)
      → (kelvin_bounds_for schema).lowest ≤ kelvin
      → kelvin ≤ (kelvin_bounds_for schema).highest
      → commit schema kelvin ≡ mirek_from_kelvin kelvin
  unfolding commit kelvin_bounds_for
  commit-in_bounds kelvin low high =
      let r = range_of schema in
      let warmest : reciprocal_million 500 ≤ reciprocal_million r.mirek_maximum =
        reciprocal-antitone r.mirek_maximum 500 (omega (arith, range.lowest, range.ordered))
          range.highest in
      let cooler =
        reciprocal-antitone (reciprocal_million r.mirek_maximum) kelvin
          (omega (arith, reciprocal-500, warmest)) low in
      let warmer =
        reciprocal-antitone kelvin (reciprocal_million r.mirek_minimum)
          (omega (arith, reciprocal-500, warmest, low)) high in
      omega (
        arith,
        cooler,
        warmer,
        reciprocal_twice r.mirek_minimum range.lowest (omega (arith, range.ordered, range.highest)),
        reciprocal_twice r.mirek_maximum (omega (arith, range.ordered, range.lowest)) range.highest,
      )

  -- Letting the slider go where it is shown sends the mireks that it shows, so that rounding to
  -- Kelvins and back changes nothing, where these are within the range of the bulb and that is
  -- within what Hue takes.
  pub commit-shown :
      (mirek : ℕ)
      → (range_of schema).mirek_minimum ≤ mirek
      → mirek ≤ (range_of schema).mirek_maximum
      → (pending read : Option ℕ)
      → or_else pending (or_else read (range_of schema).mirek_maximum) ≡ mirek
      → commit schema (shown_kelvin pending read schema) ≡ mirek
  unfolding commit shown_kelvin
  commit-shown mirek low high pending read shows =
      let twice =
        reciprocal_twice mirek (omega (arith, range.lowest)) (omega (arith, range.highest)) in
      ap (λ m. min (range_of schema).mirek_maximum (max (range_of schema).mirek_minimum m))
        (ap (λ m. reciprocal_million (reciprocal_million m)) shows ∙ twice)
      ∙ omega (arith, low, high)
