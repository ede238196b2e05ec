-- ===== src/Gen/Archetype.antt =====
-- apps/console-api/src/gen/hue/v1/common.ts: the archetypes that the Gateway reports.
use sharpn.Prelude.{ℕ, Option, none, some}
use sharpn.Prelude.Decimal.{Text, codes}

pub data LightArchetype : Type 0 where
  unspecified unknown_archetype classic_bulb sultan_bulb flood_bulb : LightArchetype
  spot_bulb candle_bulb luster_bulb pendant_round pendant_long : LightArchetype
  ceiling_round ceiling_square floor_shade floor_lantern table_shade : LightArchetype
  recessed_ceiling recessed_floor single_spot double_spot table_wash : LightArchetype
  wall_lantern wall_shade flexible_lamp ground_spot wall_spot : LightArchetype
  plug hue_go hue_lightstrip hue_iris hue_bloom : LightArchetype
  bollard wall_washer hue_play vintage_bulb vintage_candle_bulb : LightArchetype
  ellipse_bulb triangle_bulb small_globe_bulb large_globe_bulb edison_bulb : LightArchetype
  christmas_tree string_light hue_centris hue_lightstrip_tv hue_lightstrip_pc : LightArchetype
  hue_tube hue_signe pendant_spot ceiling_horizontal ceiling_tube : LightArchetype
  unrecognized : LightArchetype

-- The number of each value; `UNRECOGNIZED` is -1, and has none here.
abbrev pub number_of : LightArchetype → Option ℕ
number_of unspecified = some 0
number_of unknown_archetype = some 1
number_of classic_bulb = some 2
number_of sultan_bulb = some 3
number_of flood_bulb = some 4
number_of spot_bulb = some 5
number_of candle_bulb = some 6
number_of luster_bulb = some 7
number_of pendant_round = some 8
number_of pendant_long = some 9
number_of ceiling_round = some 10
number_of ceiling_square = some 11
number_of floor_shade = some 12
number_of floor_lantern = some 13
number_of table_shade = some 14
number_of recessed_ceiling = some 15
number_of recessed_floor = some 16
number_of single_spot = some 17
number_of double_spot = some 18
number_of table_wash = some 19
number_of wall_lantern = some 20
number_of wall_shade = some 21
number_of flexible_lamp = some 22
number_of ground_spot = some 23
number_of wall_spot = some 24
number_of plug = some 25
number_of hue_go = some 26
number_of hue_lightstrip = some 27
number_of hue_iris = some 28
number_of hue_bloom = some 29
number_of bollard = some 30
number_of wall_washer = some 31
number_of hue_play = some 32
number_of vintage_bulb = some 33
number_of vintage_candle_bulb = some 34
number_of ellipse_bulb = some 35
number_of triangle_bulb = some 36
number_of small_globe_bulb = some 37
number_of large_globe_bulb = some 38
number_of edison_bulb = some 39
number_of christmas_tree = some 40
number_of string_light = some 41
number_of hue_centris = some 42
number_of hue_lightstrip_tv = some 43
number_of hue_lightstrip_pc = some 44
number_of hue_tube = some 45
number_of hue_signe = some 46
number_of pendant_spot = some 47
number_of ceiling_horizontal = some 48
number_of ceiling_tube = some 49
number_of unrecognized = none

abbrev pub to_json : LightArchetype → Text
to_json unspecified = codes "LIGHT_ARCHETYPE_UNSPECIFIED"
to_json unknown_archetype = codes "LIGHT_ARCHETYPE_UNKNOWN_ARCHETYPE"
to_json classic_bulb = codes "LIGHT_ARCHETYPE_CLASSIC_BULB"
to_json sultan_bulb = codes "LIGHT_ARCHETYPE_SULTAN_BULB"
to_json flood_bulb = codes "LIGHT_ARCHETYPE_FLOOD_BULB"
to_json spot_bulb = codes "LIGHT_ARCHETYPE_SPOT_BULB"
to_json candle_bulb = codes "LIGHT_ARCHETYPE_CANDLE_BULB"
to_json luster_bulb = codes "LIGHT_ARCHETYPE_LUSTER_BULB"
to_json pendant_round = codes "LIGHT_ARCHETYPE_PENDANT_ROUND"
to_json pendant_long = codes "LIGHT_ARCHETYPE_PENDANT_LONG"
to_json ceiling_round = codes "LIGHT_ARCHETYPE_CEILING_ROUND"
to_json ceiling_square = codes "LIGHT_ARCHETYPE_CEILING_SQUARE"
to_json floor_shade = codes "LIGHT_ARCHETYPE_FLOOR_SHADE"
to_json floor_lantern = codes "LIGHT_ARCHETYPE_FLOOR_LANTERN"
to_json table_shade = codes "LIGHT_ARCHETYPE_TABLE_SHADE"
to_json recessed_ceiling = codes "LIGHT_ARCHETYPE_RECESSED_CEILING"
to_json recessed_floor = codes "LIGHT_ARCHETYPE_RECESSED_FLOOR"
to_json single_spot = codes "LIGHT_ARCHETYPE_SINGLE_SPOT"
to_json double_spot = codes "LIGHT_ARCHETYPE_DOUBLE_SPOT"
to_json table_wash = codes "LIGHT_ARCHETYPE_TABLE_WASH"
to_json wall_lantern = codes "LIGHT_ARCHETYPE_WALL_LANTERN"
to_json wall_shade = codes "LIGHT_ARCHETYPE_WALL_SHADE"
to_json flexible_lamp = codes "LIGHT_ARCHETYPE_FLEXIBLE_LAMP"
to_json ground_spot = codes "LIGHT_ARCHETYPE_GROUND_SPOT"
to_json wall_spot = codes "LIGHT_ARCHETYPE_WALL_SPOT"
to_json plug = codes "LIGHT_ARCHETYPE_PLUG"
to_json hue_go = codes "LIGHT_ARCHETYPE_HUE_GO"
to_json hue_lightstrip = codes "LIGHT_ARCHETYPE_HUE_LIGHTSTRIP"
to_json hue_iris = codes "LIGHT_ARCHETYPE_HUE_IRIS"
to_json hue_bloom = codes "LIGHT_ARCHETYPE_HUE_BLOOM"
to_json bollard = codes "LIGHT_ARCHETYPE_BOLLARD"
to_json wall_washer = codes "LIGHT_ARCHETYPE_WALL_WASHER"
to_json hue_play = codes "LIGHT_ARCHETYPE_HUE_PLAY"
to_json vintage_bulb = codes "LIGHT_ARCHETYPE_VINTAGE_BULB"
to_json vintage_candle_bulb = codes "LIGHT_ARCHETYPE_VINTAGE_CANDLE_BULB"
to_json ellipse_bulb = codes "LIGHT_ARCHETYPE_ELLIPSE_BULB"
to_json triangle_bulb = codes "LIGHT_ARCHETYPE_TRIANGLE_BULB"
to_json small_globe_bulb = codes "LIGHT_ARCHETYPE_SMALL_GLOBE_BULB"
to_json large_globe_bulb = codes "LIGHT_ARCHETYPE_LARGE_GLOBE_BULB"
to_json edison_bulb = codes "LIGHT_ARCHETYPE_EDISON_BULB"
to_json christmas_tree = codes "LIGHT_ARCHETYPE_CHRISTMAS_TREE"
to_json string_light = codes "LIGHT_ARCHETYPE_STRING_LIGHT"
to_json hue_centris = codes "LIGHT_ARCHETYPE_HUE_CENTRIS"
to_json hue_lightstrip_tv = codes "LIGHT_ARCHETYPE_HUE_LIGHTSTRIP_TV"
to_json hue_lightstrip_pc = codes "LIGHT_ARCHETYPE_HUE_LIGHTSTRIP_PC"
to_json hue_tube = codes "LIGHT_ARCHETYPE_HUE_TUBE"
to_json hue_signe = codes "LIGHT_ARCHETYPE_HUE_SIGNE"
to_json pendant_spot = codes "LIGHT_ARCHETYPE_PENDANT_SPOT"
to_json ceiling_horizontal = codes "LIGHT_ARCHETYPE_CEILING_HORIZONTAL"
to_json ceiling_tube = codes "LIGHT_ARCHETYPE_CEILING_TUBE"
to_json unrecognized = codes "UNRECOGNIZED"
