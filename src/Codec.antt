-- ===== src/Codec.antt =====
-- apps/console-api/src/gateway/codec.ts: protobuf in, Lights out.
pub mod Names
pub mod Presence
pub mod Outcomes
pub mod Notices
use sharpn.Prelude.{
  ℕ, zero, suc, ◌+◌, ◌-◌, ◌*◌, ◌/◌, ◌%◌, ◌≤◌, ◌<◌, min, max, String, ◌≡◌, refl, sym, ap, subst, ◌∙◌,
  ◌≢◌, ◌↔◌, ◌⊎◌, inl, inr, Bool, true, false, ◌&&◌, ◌||◌, not, Option, none, some, List, [], ◌∷◌,
  ◌++◌, map, arith, ltb, leb, ◌==◌, str_eq, if◌then◌else◌, ltb→lt, lt→ltb, leb→le, str_eq_iff,
  str_eq_refl, Bool-cases, Option-cases, or_else, is_some, length, get_elem?, head?, length-append,
  keep, all, any, All,
}
use sharpn.Prelude.Maps.{
  lookup, insert, delete, lookup-insert, lookup-insert_self, lookup-delete, Distinct,
  insert-Distinct,
}
use sharpn.Prelude.Decimal.{Text, codes}
use sharpn.Command.{Decimal, ColorXy, LightCommand}
use sharpn.Light.{Light, ColorGamut, MirekRange, LightCapabilities, light_archetypes}
use sharpn.Gen.Archetype.{LightArchetype}
use sharpn.Gen.Archetype
use sharpn.Gen.Rtype.{Rtype}
use sharpn.Gen.Rtype

-- The messages, as far as they are read or built here: a submessage or a field that is not set is
-- `none`. gen/hue/v1/lighting.ts, gen/hue/v1/lighting_service.ts and gen/hue/v1/event_service.ts.
pub record ReportedMetadata : Type 0 where
  pub name : String
  pub archetype : LightArchetype

pub record ReportedDimming : Type 0 where
  pub brightness : Option Decimal
  pub min_dim_level : Option Decimal

pub record MirekSchema : Type 0 where
  pub mirek_minimum : Option ℕ
  pub mirek_maximum : Option ℕ

pub record ReportedTemperature : Type 0 where
  pub mirek : Option ℕ
  pub mirek_schema : Option MirekSchema

pub record Gamut : Type 0 where
  pub red : Option ColorXy
  pub green : Option ColorXy
  pub blue : Option ColorXy

pub record ReportedColor : Type 0 where
  pub xy : Option ColorXy
  pub gamut : Option Gamut

pub record LightGet : Type 0 where
  pub id : String
  pub metadata : Option ReportedMetadata
  pub on : Option Bool
  pub dimming : Option ReportedDimming
  pub color_temperature : Option ReportedTemperature
  pub color : Option ReportedColor

infixl 5 ◌>>=◌
abbrev pub ◌>>=◌ {ℓ κ} : {A : Type ℓ} {B : Type κ} → Option A → (A → Option B) → Option B
none >>= f = none
some a >>= f = f a

-- `text.startsWith(prefix)` with `text.slice(prefix.length)`.
unfoldable pub strip : Text → Text → Option Text
strip [] text = some text
strip (p ∷ ps) [] = none
strip (p ∷ ps) (c ∷ cs) = if p == c then strip ps cs else none

-- `toLowerCase`, of the characters that names of enum values hold.
abbrev pub to_lower : ℕ → ℕ
to_lower c = if leb b'A' c && leb c b'Z' then c + 32 else c

unfoldable pub text_eq : Text → Text → Bool
text_eq [] [] = true
text_eq [] (b ∷ bs) = false
text_eq (a ∷ as') [] = false
text_eq (a ∷ as') (b ∷ bs) = a == b && text_eq as' bs

-- `lightArchetypeSchema.catch("unspecified").parse(name)`.
unfoldable pub listed_or_unspecified : Text → Text
unfolding text_eq
listed_or_unspecified name =
    if any (text_eq name) light_archetypes then name else codes "unspecified"

abbrev lowered_or : Text → Option Text → Text
lowered_or spelled none = spelled
lowered_or spelled (some rest) = map to_lower rest

unfoldable pub archetype_from : Option LightArchetype → Text
unfolding strip listed_or_unspecified
archetype_from none = codes "unspecified"
archetype_from (some reported) =
    let spelled = Archetype.to_json reported in
    listed_or_unspecified (lowered_or spelled (strip (codes "LIGHT_ARCHETYPE_") spelled))

-- Both ends, or nothing.
pub mirek_range_from : Option MirekSchema → Option MirekRange
mirek_range_from reported = do
  schema ← reported
  low ← schema.mirek_minimum
  high ← schema.mirek_maximum
  some (record { mirek_minimum = low; mirek_maximum = high })

-- All three corners, or nothing.
pub color_gamut_from : Option Gamut → Option ColorGamut
color_gamut_from reported = do
  gamut ← reported
  red ← gamut.red
  green ← gamut.green
  blue ← gamut.blue
  some (record { red = red; green = green; blue = blue })

pub light_from : LightGet → Light
unfolding mirek_range_from color_gamut_from
light_from reported = record {
  id = reported.id;
  name = or_else (reported.metadata >>= λ m. some m.name) "";
  archetype = archetype_from (reported.metadata >>= λ m. some m.archetype);
  on = or_else reported.on false;
  brightness = reported.dimming >>= λ d. d.brightness;
  min_dim_level = reported.dimming >>= λ d. d.min_dim_level;
  color_temperature_mirek = reported.color_temperature >>= λ t. t.mirek;
  mirek_schema = mirek_range_from (reported.color_temperature >>= λ t. t.mirek_schema);
  color_xy = reported.color >>= λ c. c.xy;
  color_gamut = color_gamut_from (reported.color >>= λ c. c.gamut);
  capabilities = record {
    dimming = is_some reported.dimming;
    color_temperature = is_some reported.color_temperature;
    color = is_some reported.color;
  };
}

-- The `oneof` of a `LightPut`.
pub data Colour : Type 0 where
  color : ColorXy → Colour
  color_temperature : Decimal → Colour

pub record LightPut : Type 0 where
  pub on : Option Bool
  pub dimming : Option Decimal
  pub colour : Option Colour

pub colour_of : Option ColorXy → Option Decimal → Option Colour
colour_of (some xy) mirek = some (color xy)
colour_of none (some mirek) = some (color_temperature mirek)
colour_of none none = none

pub colour_for : LightCommand → Option Colour
unfolding colour_of
colour_for asked = colour_of asked.color_xy asked.color_temperature_mirek

pub command_for : LightCommand → LightPut
unfolding colour_for
command_for asked = record { on = asked.on; dimming = asked.brightness; colour = colour_for asked }

pub data Outcome : Type 0 where
  success partial rejected unknown : Outcome

pub record ReportedIdentifier : Type 0 where
  pub rid : String
  pub rtype : Rtype

pub record ResourceIdentifier : Type 0 where
  pub rid : String
  pub rtype : Text

-- `MutationResponse`: an error is its description.
pub record MutationResponse : Type 0 where
  pub updated : List ReportedIdentifier
  pub errors : List String

pub record Acknowledgement : Type 0 where
  pub outcome : Outcome
  pub updated : List ResourceIdentifier
  pub errors : List String
  pub correlation_id : String

-- Anything without the prefix is unspecified.
abbrev pub lowered_or_unspecified : Option Text → Text
lowered_or_unspecified none = codes "unspecified"
lowered_or_unspecified (some rest) = map to_lower rest

unfoldable pub identifier_from : ReportedIdentifier → ResourceIdentifier
unfolding strip
identifier_from reported = record {
  rid = reported.rid;
  rtype = lowered_or_unspecified (strip (codes "RTYPE_") (Rtype.to_json reported.rtype));
}

-- Without the line that is logged where nothing was reported at all.
pub outcome_from : ℕ → ℕ → Outcome
outcome_from updated errors =
    if ltb 0 updated
    then (if ltb 0 errors then partial else success)
    else if ltb 0 errors
    then rejected
    else unknown

pub acknowledgement_from : MutationResponse → String → Acknowledgement
unfolding outcome_from
acknowledgement_from response correlation_id =
    let updated = map identifier_from response.updated in
    record {
      outcome = outcome_from (length updated) (length response.errors);
      updated = updated;
      errors = response.errors;
      correlation_id = correlation_id;
    }

pub data Change : Type 0 where
  added changed removed : Change

pub data Cause : Type 0 where
  reconnected subscriber_behind unspecified : Cause

pub data Notice : Type 0 where
  invalidation : Change → ResourceIdentifier → Notice
  gap : Cause → ℕ → Notice

pub data EventType : Type 0 where
  type_unspecified type_add type_delete type_error type_update type_unrecognized : EventType

pub data GapCause : Type 0 where
  cause_unspecified cause_reconnected cause_subscriber_behind cause_unrecognized : GapCause

-- `HueEvent.happened`, which may be neither.
pub data Happened : Type 0 where
  a_change : EventType → Option ReportedIdentifier → Happened
  a_gap : GapCause → ℕ → Happened

unfoldable pub change_from : EventType → Change
change_from type_add = added
change_from type_delete = removed
change_from _ = changed

pub cause_from : GapCause → Cause
cause_from cause_reconnected = reconnected
cause_from cause_subscriber_behind = subscriber_behind
cause_from _ = unspecified

unfoldable pub notice_from : Option Happened → Option Notice
unfolding change_from cause_from
notice_from none = none
notice_from (some (a_change type none)) = none
notice_from (some (a_change type (some resource))) =
    some (invalidation (change_from type) (identifier_from resource))
notice_from (some (a_gap cause missed)) = some (gap (cause_from cause) missed)
