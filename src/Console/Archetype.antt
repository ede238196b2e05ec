-- ===== src/Console/Archetype.antt =====
-- apps/console/src/domain: archetypeIcon.ts and archetypeLabel.ts, and the lists of
-- apps/console/src/api/types.ts that mirror the service's contract.
pub mod Mirrored
use sharpn.Prelude.{
  ℕ, zero, suc, ◌+◌, ◌-◌, ◌*◌, ◌/◌, ◌%◌, ◌≤◌, ◌<◌, min, max, String, ◌≡◌, refl, sym, ap, subst, ◌∙◌,
  ◌≢◌, ◌↔◌, ◌⊎◌, inl, inr, Bool, true, false, ◌&&◌, ◌||◌, not, Option, none, some, List, [], ◌∷◌,
  ◌++◌, map, arith, ltb, leb, ◌==◌, str_eq, if◌then◌else◌, ltb→lt, lt→ltb, leb→le, str_eq_iff,
  str_eq_refl, Bool-cases, Option-cases, or_else, is_some, length, get_elem?, head?, length-append,
  keep, all, any, All,
}
use sharpn.Prelude.Maps.{
  lookup, insert, delete, lookup-insert, lookup-insert_self, lookup-delete, Distinct,
  insert-Distinct,
}
use sharpn.Prelude.Decimal.{Text, codes}
use sharpn.Codec.{text_eq, strip as after_prefix}
use sharpn.Cookie.{split}

abbrev pub light_archetypes : List Text
light_archetypes =
    codes "unspecified"
    ∷ codes "unknown_archetype"
    ∷ codes "classic_bulb"
    ∷ codes "sultan_bulb"
    ∷ codes "flood_bulb"
    ∷ codes "spot_bulb"
    ∷ codes "candle_bulb"
    ∷ codes "luster_bulb"
    ∷ codes "pendant_round"
    ∷ codes "pendant_long"
    ∷ codes "ceiling_round"
    ∷ codes "ceiling_square"
    ∷ codes "floor_shade"
    ∷ codes "floor_lantern"
    ∷ codes "table_shade"
    ∷ codes "recessed_ceiling"
    ∷ codes "recessed_floor"
    ∷ codes "single_spot"
    ∷ codes "double_spot"
    ∷ codes "table_wash"
    ∷ codes "wall_lantern"
    ∷ codes "wall_shade"
    ∷ codes "flexible_lamp"
    ∷ codes "ground_spot"
    ∷ codes "wall_spot"
    ∷ codes "plug"
    ∷ codes "hue_go"
    ∷ codes "hue_lightstrip"
    ∷ codes "hue_iris"
    ∷ codes "hue_bloom"
    ∷ codes "bollard"
    ∷ codes "wall_washer"
    ∷ codes "hue_play"
    ∷ codes "vintage_bulb"
    ∷ codes "vintage_candle_bulb"
    ∷ codes "ellipse_bulb"
    ∷ codes "triangle_bulb"
    ∷ codes "small_globe_bulb"
    ∷ codes "large_globe_bulb"
    ∷ codes "edison_bulb"
    ∷ codes "christmas_tree"
    ∷ codes "string_light"
    ∷ codes "hue_centris"
    ∷ codes "hue_lightstrip_tv"
    ∷ codes "hue_lightstrip_pc"
    ∷ codes "hue_tube"
    ∷ codes "hue_signe"
    ∷ codes "pendant_spot"
    ∷ codes "ceiling_horizontal"
    ∷ codes "ceiling_tube"
    ∷ []

abbrev pub outcomes : List String
outcomes = "success" ∷ "partial" ∷ "rejected" ∷ "unknown" ∷ []

abbrev pub error_codes : List String
error_codes =
    "BRIDGE_REJECTED_COMMAND" ∷ "LIGHT_NOT_FOUND" ∷ "GATEWAY_NOT_PAIRED" ∷ "BRIDGE_UNREACHABLE"
    ∷ "BRIDGE_TIMEOUT" ∷ "MUTATION_OUTCOME_UNKNOWN" ∷ "BRIDGE_BUSY" ∷ "BRIDGE_UNSUPPORTED"
    ∷ "GATEWAY_MISCONFIGURED" ∷ "GATEWAY_ERROR" ∷ "GATEWAY_UNREACHABLE" ∷ "NOT_AUTHENTICATED"
    ∷ "CSRF_REJECTED" ∷ "TOO_MANY_REQUESTS" ∷ "INVALID_REQUEST" ∷ "COLOR_AND_TEMPERATURE_BOTH_SET"
    ∷ []

pub data IconBucket : Type 0 where
  bulb spot strip lamp ceiling plug plain : IconBucket

abbrev pub by_archetype : List (Text × IconBucket)
by_archetype =
    (codes "unspecified", IconBucket.plain)
    ∷ (codes "unknown_archetype", IconBucket.plain)
    ∷ (codes "classic_bulb", IconBucket.bulb)
    ∷ (codes "sultan_bulb", IconBucket.bulb)
    ∷ (codes "flood_bulb", IconBucket.bulb)
    ∷ (codes "candle_bulb", IconBucket.bulb)
    ∷ (codes "luster_bulb", IconBucket.bulb)
    ∷ (codes "vintage_bulb", IconBucket.bulb)
    ∷ (codes "vintage_candle_bulb", IconBucket.bulb)
    ∷ (codes "ellipse_bulb", IconBucket.bulb)
    ∷ (codes "triangle_bulb", IconBucket.bulb)
    ∷ (codes "small_globe_bulb", IconBucket.bulb)
    ∷ (codes "large_globe_bulb", IconBucket.bulb)
    ∷ (codes "edison_bulb", IconBucket.bulb)
    ∷ (codes "spot_bulb", IconBucket.spot)
    ∷ (codes "single_spot", IconBucket.spot)
    ∷ (codes "double_spot", IconBucket.spot)
    ∷ (codes "ground_spot", IconBucket.spot)
    ∷ (codes "wall_spot", IconBucket.spot)
    ∷ (codes "bollard", IconBucket.spot)
    ∷ (codes "wall_washer", IconBucket.spot)
    ∷ (codes "hue_centris", IconBucket.spot)
    ∷ (codes "pendant_spot", IconBucket.spot)
    ∷ (codes "hue_lightstrip", IconBucket.strip)
    ∷ (codes "hue_lightstrip_tv", IconBucket.strip)
    ∷ (codes "hue_lightstrip_pc", IconBucket.strip)
    ∷ (codes "hue_tube", IconBucket.strip)
    ∷ (codes "hue_play", IconBucket.strip)
    ∷ (codes "christmas_tree", IconBucket.strip)
    ∷ (codes "string_light", IconBucket.strip)
    ∷ (codes "pendant_round", IconBucket.lamp)
    ∷ (codes "pendant_long", IconBucket.lamp)
    ∷ (codes "floor_shade", IconBucket.lamp)
    ∷ (codes "floor_lantern", IconBucket.lamp)
    ∷ (codes "table_shade", IconBucket.lamp)
    ∷ (codes "table_wash", IconBucket.lamp)
    ∷ (codes "wall_lantern", IconBucket.lamp)
    ∷ (codes "wall_shade", IconBucket.lamp)
    ∷ (codes "flexible_lamp", IconBucket.lamp)
    ∷ (codes "hue_go", IconBucket.lamp)
    ∷ (codes "hue_iris", IconBucket.lamp)
    ∷ (codes "hue_bloom", IconBucket.lamp)
    ∷ (codes "hue_signe", IconBucket.lamp)
    ∷ (codes "ceiling_round", IconBucket.ceiling)
    ∷ (codes "ceiling_square", IconBucket.ceiling)
    ∷ (codes "recessed_ceiling", IconBucket.ceiling)
    ∷ (codes "recessed_floor", IconBucket.ceiling)
    ∷ (codes "ceiling_horizontal", IconBucket.ceiling)
    ∷ (codes "ceiling_tube", IconBucket.ceiling)
    ∷ (codes "plug", IconBucket.plug)
    ∷ []

abbrev pub bucket_in : Text → List (Text × IconBucket) → Option IconBucket
bucket_in archetype [] = none
bucket_in archetype ((a, b) ∷ rows) =
    if text_eq a archetype then some b else bucket_in archetype rows

pub icon_bucket_for : Text → Option IconBucket
unfolding text_eq
icon_bucket_for archetype = bucket_in archetype by_archetype

-- `charAt(0).toUpperCase()` and `toUpperCase`, of the letters of an archetype.
abbrev pub to_upper : ℕ → ℕ
to_upper c = if leb b'a' c && leb c b'z' then c - 32 else c

abbrev pub capitalised : Text → Text
capitalised [] = []
capitalised (c ∷ cs) = to_upper c ∷ cs

-- `archetype.startsWith("hue_")`.
abbrev pub is_hue : Text → Bool
is_hue archetype = is_some (after_prefix (codes "hue_") archetype)

-- A word, where it is the first of the archetype or not.
abbrev pub word_label : Text → Bool → Text → Text
word_label archetype first word =
    if text_eq word (codes "tv") || text_eq word (codes "pc")
    then map to_upper word
    else if first || text_eq word (codes "hue") || is_hue archetype
    then capitalised word
    else word

abbrev pub word_labels : Text → Bool → List Text → List Text
word_labels archetype first [] = []
word_labels archetype first (w ∷ ws) = word_label archetype first w ∷ word_labels archetype false ws

-- `join(" ")`.
abbrev pub joined : List Text → Text
joined [] = []
joined (w ∷ []) = w
joined (w ∷ v ∷ vs) = w ++ b' ' ∷ joined (v ∷ vs)

pub archetype_label : Text → Text
unfolding text_eq after_prefix
archetype_label archetype =
    if text_eq archetype (codes "unspecified") || text_eq archetype (codes "unknown_archetype")
    then codes "Light"
    else joined (word_labels archetype true (split b'_' archetype))
