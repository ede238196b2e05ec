-- ===== src/Light.antt =====
-- apps/console-api/src/contract/light.ts: the Light that a browser sees.
-- A number is a whole one with a decimal scale, as JSON writes it.
use sharpn.Prelude.{ℕ, String, Bool, Option, List, [], ◌∷◌}
use sharpn.Prelude.Decimal.{Text, codes}
use sharpn.Command.{Decimal, ColorXy}

abbrev pub light_archetypes : List Text
light_archetypes =
    codes "unspecified"
    ∷ codes "unknown_archetype"
    ∷ codes "classic_bulb"
    ∷ codes "sultan_bulb"
    ∷ codes "flood_bulb"
    ∷ codes "spot_bulb"
    ∷ codes "candle_bulb"
    ∷ codes "luster_bulb"
    ∷ codes "pendant_round"
    ∷ codes "pendant_long"
    ∷ codes "ceiling_round"
    ∷ codes "ceiling_square"
    ∷ codes "floor_shade"
    ∷ codes "floor_lantern"
    ∷ codes "table_shade"
    ∷ codes "recessed_ceiling"
    ∷ codes "recessed_floor"
    ∷ codes "single_spot"
    ∷ codes "double_spot"
    ∷ codes "table_wash"
    ∷ codes "wall_lantern"
    ∷ codes "wall_shade"
    ∷ codes "flexible_lamp"
    ∷ codes "ground_spot"
    ∷ codes "wall_spot"
    ∷ codes "plug"
    ∷ codes "hue_go"
    ∷ codes "hue_lightstrip"
    ∷ codes "hue_iris"
    ∷ codes "hue_bloom"
    ∷ codes "bollard"
    ∷ codes "wall_washer"
    ∷ codes "hue_play"
    ∷ codes "vintage_bulb"
    ∷ codes "vintage_candle_bulb"
    ∷ codes "ellipse_bulb"
    ∷ codes "triangle_bulb"
    ∷ codes "small_globe_bulb"
    ∷ codes "large_globe_bulb"
    ∷ codes "edison_bulb"
    ∷ codes "christmas_tree"
    ∷ codes "string_light"
    ∷ codes "hue_centris"
    ∷ codes "hue_lightstrip_tv"
    ∷ codes "hue_lightstrip_pc"
    ∷ codes "hue_tube"
    ∷ codes "hue_signe"
    ∷ codes "pendant_spot"
    ∷ codes "ceiling_horizontal"
    ∷ codes "ceiling_tube"
    ∷ []

pub record ColorGamut : Type 0 where
  pub red : ColorXy
  pub green : ColorXy
  pub blue : ColorXy

pub record MirekRange : Type 0 where
  pub mirek_minimum : ℕ
  pub mirek_maximum : ℕ

pub record LightCapabilities : Type 0 where
  pub dimming : Bool
  pub color_temperature : Bool
  pub color : Bool

pub record Light : Type 0 where
  pub id : String
  pub name : String
  pub archetype : Text
  pub on : Bool
  pub brightness : Option Decimal
  pub min_dim_level : Option Decimal
  pub color_temperature_mirek : Option ℕ
  pub mirek_schema : Option MirekRange
  pub color_xy : Option ColorXy
  pub color_gamut : Option ColorGamut
  pub capabilities : LightCapabilities
