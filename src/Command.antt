-- ===== src/Command.antt =====
-- apps/console-api/src/contract/command.ts: the Command that a browser sends to change a Light.
pub mod Reading
use sharpn.Prelude.{
  ◌^◌, ℕ, zero, suc, ◌+◌, ◌-◌, ◌*◌, ◌/◌, ◌%◌, ◌≤◌, ◌<◌, min, max, String, ◌≡◌, refl, sym, ap, subst,
  ◌∙◌, ◌≢◌, ◌↔◌, ◌⊎◌, inl, inr, Bool, true, false, ◌&&◌, ◌||◌, not, Option, none, some, List, [],
  ◌∷◌, ◌++◌, map, arith, ltb, leb, ◌==◌, str_eq, if◌then◌else◌, ltb→lt, lt→ltb, leb→le, str_eq_iff,
  str_eq_refl, Bool-cases, Option-cases, or_else, is_some, length, get_elem?, head?, length-append,
  keep, all, any, All,
}
use sharpn.Prelude.Maps.{
  lookup, insert, delete, lookup-insert, lookup-insert_self, lookup-delete, Distinct,
  insert-Distinct,
}
use sharpn.Errors.{ErrorCode, invalid_request, color_and_temperature_both_set}

-- A JSON number: plus or minus `digits` over ten to the power `places`.
pub record Decimal : Type 0 where
  pub negative : Bool
  pub digits : ℕ
  pub places : ℕ

pub record ColorXy : Type 0 where
  pub x : Decimal
  pub y : Decimal

-- A parsed JSON body.
mutual
  pub data Json : Type 0 where
    null : Json
    bool : Bool → Json
    num : Decimal → Json
    str : String → Json
    arr : Items → Json
    obj : Fields → Json

  pub data Items : Type 0 where
    nil : Items
    cons : Json → Items → Items

  pub data Fields : Type 0 where
    end : Fields
    field : String → Json → Fields → Fields

abbrev pub fields : Fields → List (String × Json)
fields end = []
fields (field k v fs) = (k, v) ∷ fields fs

pub record LightCommand : Type 0 where
  pub on : Option Bool
  pub brightness : Option Decimal
  pub color_temperature_mirek : Option Decimal
  pub color_xy : Option ColorXy

-- `z.number().min(m)` and `z.number().max(m)`, at a whole bound.
abbrev pub at_least : ℕ → Decimal → Bool
at_least m d = if d.negative then m == 0 && d.digits == 0 else leb (m * 10 ^ d.places) d.digits

abbrev pub at_most : ℕ → Decimal → Bool
at_most m d = d.negative || leb d.digits (m * 10 ^ d.places)

-- `z.number().int()`.
abbrev pub is_whole : Decimal → Bool
is_whole d = d.digits % 10 ^ d.places == 0

abbrev pub within : ℕ → ℕ → Decimal → Bool
within low high d = at_least low d && at_most high d

abbrev pub brightness_ok : Decimal → Bool
brightness_ok d = within 0 100 d

abbrev pub mirek_ok : Decimal → Bool
mirek_ok d = is_whole d && within 153 500 d

abbrev pub gamut_ok : Decimal → Bool
gamut_ok d = within 0 1 d

abbrev pub when {ℓ} : {A : Type ℓ} → Bool → A → Option A
when true a = some a
when false a = none

infixl 5 ◌>>=◌
abbrev pub ◌>>=◌ {ℓ κ} : {A : Type ℓ} {B : Type κ} → Option A → (A → Option B) → Option B
none >>= f = none
some a >>= f = f a

abbrev pub boolean : Json → Option Bool
boolean (bool b) = some b
boolean _ = none

abbrev pub number_that : (Decimal → Bool) → Json → Option Decimal
number_that ok (num d) = when (ok d) d
number_that ok _ = none

-- `.optional()`: a key that is not there is absent from the result.
abbrev pub optional {ℓ} : {A : Type ℓ} → (Json → Option A) → Option Json → Option (Option A)
optional read none = some none
optional read (some v) = do some (some (← read v))

-- A strict object carries no key but these.
unfoldable pub only : List String → List (String × Json) → Bool
only known fs = all (λ e. any (str_eq e.0) known) fs

unfoldable pub color : Json → Option ColorXy
unfolding only
color (obj fs) = do
  open_fields ← when (only ("x" ∷ "y" ∷ []) (fields fs)) (fields fs)
  x ← (lookup "x" open_fields >>= number_that gamut_ok)
  y ← (lookup "y" open_fields >>= number_that gamut_ok)
  some (record { x = x; y = y })
color _ = none

abbrev pub command_keys : List String
command_keys = "on" ∷ "brightness" ∷ "colorTemperatureMirek" ∷ "colorXy" ∷ []

-- The object schema, as it is declared, before the refinement: the Command that a body spells, if
-- it spells one.
unfoldable pub shape : Json → Option LightCommand
unfolding only color
shape (obj fs) = do
  body ← when (only command_keys (fields fs)) (fields fs)
  on ← optional boolean (lookup "on" body)
  brightness ← optional (number_that brightness_ok) (lookup "brightness" body)
  mirek ← optional (number_that mirek_ok) (lookup "colorTemperatureMirek" body)
  xy ← optional color (lookup "colorXy" body)
  some (record { on = on; brightness = brightness; color_temperature_mirek = mirek; color_xy = xy })
shape _ = none

-- An issue of a failed parse, as far as `refusalFor` reads it: the marker that a custom one carries.
pub data Issue : Type 0 where
  colour_both_set : Issue
  other : Issue

abbrev pub issue_if : Bool → Issue → List Issue
issue_if true i = i ∷ []
issue_if false i = []

abbrev pub sets_both : LightCommand → Bool
sets_both c = is_some c.color_xy && is_some c.color_temperature_mirek

-- `Object.keys(command).length === 0`.
abbrev pub is_empty : LightCommand → Bool
is_empty c =
    not (is_some c.on)
    && not (is_some c.brightness)
    && not (is_some c.color_temperature_mirek)
    && not (is_some c.color_xy)

-- `superRefine`: the issues that a well-shaped Command raises.
unfoldable pub refine : LightCommand → List Issue
refine c = issue_if (sets_both c) colour_both_set ++ issue_if (is_empty c) other

pub data Parsed : Type 0 where
  success : LightCommand → Parsed
  failure : List Issue → Parsed

-- What zod does with this schema, which is third-party: `safeParse` succeeds with what a well-shaped
-- body spells where the refinement raises nothing, fails with what it raises where it raises
-- something, and fails where the shape is wrong.
pub record Zod : Type 0 where
  pub safe_parse : Json → Parsed
  pub accepts :
      (body : Json) (c : LightCommand)
      → shape body ≡ some c
      → refine c ≡ []
      → safe_parse body ≡ success c
  pub refuses :
      (body : Json) (c : LightCommand) (i : Issue) (is : List Issue)
      → shape body ≡ some c
      → refine c ≡ i ∷ is
      → safe_parse body ≡ failure (i ∷ is)
  pub rejects :
      (body : Json) → shape body ≡ none → (is : List Issue) × (safe_parse body ≡ failure is)

pub data LightCommandReading : Type 0 where
  ok : LightCommand → LightCommandReading
  refused : ErrorCode → LightCommandReading

-- Which code a failed parse is reported under.
pub refusal_for : List Issue → ErrorCode
refusal_for [] = invalid_request
refusal_for (colour_both_set ∷ is) = color_and_temperature_both_set
refusal_for (other ∷ is) = refusal_for is

pub reading_of : Parsed → LightCommandReading
reading_of (success c) = ok c
reading_of (failure is) = refused (refusal_for is)

pub read_light_command : Zod → Json → LightCommandReading
read_light_command zod body = reading_of (zod.safe_parse body)
