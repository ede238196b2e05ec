-- ===== src/Console/Temperature.antt =====
-- apps/console/src/domain/colorTemperature.ts, and the slider of
-- apps/console/src/components/ColorTemperatureSlider.tsx. A quotient of whole numbers below 2 ^ 53 is
-- rounded as `Math.round` rounds it: up from the half. A slider gives whole Kelvins, its step being 1.
pub mod Within
use sharpn.Prelude.{
  ℕ, zero, suc, ◌+◌, ◌-◌, ◌*◌, ◌/◌, ◌%◌, ◌≤◌, ◌<◌, min, max, String, ◌≡◌, refl, sym, ap, subst, ◌∙◌,
  ◌≢◌, ◌↔◌, ◌⊎◌, inl, inr, Bool, true, false, ◌&&◌, ◌||◌, not, Option, none, some, List, [], ◌∷◌,
  ◌++◌, map, arith, ltb, leb, ◌==◌, str_eq, if◌then◌else◌, ltb→lt, lt→ltb, leb→le, str_eq_iff,
  str_eq_refl, Bool-cases, Option-cases, or_else, is_some, length, get_elem?, head?, length-append,
  keep, all, any, All,
}
use sharpn.Prelude.Maps.{
  lookup, insert, delete, lookup-insert, lookup-insert_self, lookup-delete, Distinct,
  insert-Distinct,
}
use sharpn.Light.{MirekRange}
use sharpn.Command.{LightCommand, ColorXy, Json, bool, num, obj, Fields, end, field}

-- `Math.round(1_000_000 / value)`, for a value that is not zero.
pub reciprocal_million : ℕ → ℕ
reciprocal_million value = (2 * 1000000 + value) / (2 * value)

abbrev pub kelvin_from_mirek : ℕ → ℕ
kelvin_from_mirek mirek = reciprocal_million mirek

abbrev pub mirek_from_kelvin : ℕ → ℕ
mirek_from_kelvin kelvin = reciprocal_million kelvin

abbrev pub default_mirek_range : MirekRange
default_mirek_range = record { mirek_minimum = 153; mirek_maximum = 500 }

pub record Bounds : Type 0 where
  pub lowest : ℕ
  pub highest : ℕ

abbrev pub kelvin_bounds_of : MirekRange → Bounds
kelvin_bounds_of range = record {
  lowest = kelvin_from_mirek range.mirek_maximum;
  highest = kelvin_from_mirek range.mirek_minimum;
}

pub kelvin_bounds_for : Option MirekRange → Bounds
kelvin_bounds_for range = kelvin_bounds_of (or_else range default_mirek_range)

-- What the slider sends when it is let go at a number of Kelvins.
pub commit : Option MirekRange → ℕ → ℕ
commit mirek_schema kelvin =
    let range = or_else mirek_schema default_mirek_range in
    min range.mirek_maximum (max range.mirek_minimum (mirek_from_kelvin kelvin))

-- The Kelvins that the slider shows: of what is pending, or of what was read, or of the warmest white.
pub shown_kelvin : Option ℕ → Option ℕ → Option MirekRange → ℕ
shown_kelvin pending_mirek mirek mirek_schema =
    let range = or_else mirek_schema default_mirek_range in
    kelvin_from_mirek (or_else pending_mirek (or_else mirek range.mirek_maximum))

-- `{ colorTemperatureMirek }`, as components/LightControls.tsx sends it.
abbrev pub temperature_command : ℕ → LightCommand
temperature_command mirek = record {
  on = none;
  brightness = none;
  color_temperature_mirek = some (record { negative = false; digits = mirek; places = 0 });
  color_xy = none;
}

-- The body of a PATCH, as api/lights.ts writes it of a Command: `JSON.stringify` leaves out a key
-- whose value is undefined.
abbrev field_if : String → Option Json → Fields → Fields
field_if key none rest = rest
field_if key (some v) rest = field key v rest

abbrev xy_body : ColorXy → Json
xy_body p = obj (field "x" (num p.x) (field "y" (num p.y) end))

abbrev as_json {ℓ} : {A : Type ℓ} → (A → Json) → Option A → Option Json
as_json f none = none
as_json f (some a) = some (f a)

pub body_of : LightCommand → Json
body_of c = obj (
    field_if "on" (as_json bool c.on) (
      field_if "brightness" (as_json num c.brightness) (
        field_if "colorTemperatureMirek" (as_json num c.color_temperature_mirek)
          (field_if "colorXy" (as_json xy_body c.color_xy) end))))
