-- ===== src/Gen/Rtype.antt =====
-- apps/console-api/src/gen/hue/v1/common.ts: the types of a Resource.
use sharpn.Prelude.{ℕ, Option, none, some}
use sharpn.Prelude.Decimal.{Text, codes}

pub data Rtype : Type 0 where
  unspecified device bridge_home room zone : Rtype
  light button relative_rotary temperature light_level : Rtype
  motion camera_motion entertainment contact tamper : Rtype
  grouped_light device_power zigbee_bridge_connectivity zigbee_connectivity zgp_connectivity : Rtype
  bridge zigbee_device_discovery homekit matter matter_fabric : Rtype
  scene entertainment_configuration public_image auth_v1 behavior_script : Rtype
  behavior_instance geofence geofence_client geolocation smart_scene : Rtype
  grouped_motion grouped_light_level unrecognized : Rtype

-- The number of each value; `UNRECOGNIZED` is -1, and has none here.
abbrev pub number_of : Rtype → Option ℕ
number_of unspecified = some 0
number_of device = some 1
number_of bridge_home = some 2
number_of room = some 3
number_of zone = some 4
number_of light = some 5
number_of button = some 6
number_of relative_rotary = some 7
number_of temperature = some 8
number_of light_level = some 9
number_of motion = some 10
number_of camera_motion = some 11
number_of entertainment = some 12
number_of contact = some 13
number_of tamper = some 14
number_of grouped_light = some 15
number_of device_power = some 16
number_of zigbee_bridge_connectivity = some 17
number_of zigbee_connectivity = some 18
number_of zgp_connectivity = some 19
number_of bridge = some 20
number_of zigbee_device_discovery = some 21
number_of homekit = some 22
number_of matter = some 23
number_of matter_fabric = some 24
number_of scene = some 25
number_of entertainment_configuration = some 26
number_of public_image = some 27
number_of auth_v1 = some 28
number_of behavior_script = some 29
number_of behavior_instance = some 30
number_of geofence = some 31
number_of geofence_client = some 32
number_of geolocation = some 33
number_of smart_scene = some 34
number_of grouped_motion = some 35
number_of grouped_light_level = some 36
number_of unrecognized = none

abbrev pub to_json : Rtype → Text
to_json unspecified = codes "RTYPE_UNSPECIFIED"
to_json device = codes "RTYPE_DEVICE"
to_json bridge_home = codes "RTYPE_BRIDGE_HOME"
to_json room = codes "RTYPE_ROOM"
to_json zone = codes "RTYPE_ZONE"
to_json light = codes "RTYPE_LIGHT"
to_json button = codes "RTYPE_BUTTON"
to_json relative_rotary = codes "RTYPE_RELATIVE_ROTARY"
to_json temperature = codes "RTYPE_TEMPERATURE"
to_json light_level = codes "RTYPE_LIGHT_LEVEL"
to_json motion = codes "RTYPE_MOTION"
to_json camera_motion = codes "RTYPE_CAMERA_MOTION"
to_json entertainment = codes "RTYPE_ENTERTAINMENT"
to_json contact = codes "RTYPE_CONTACT"
to_json tamper = codes "RTYPE_TAMPER"
to_json grouped_light = codes "RTYPE_GROUPED_LIGHT"
to_json device_power = codes "RTYPE_DEVICE_POWER"
to_json zigbee_bridge_connectivity = codes "RTYPE_ZIGBEE_BRIDGE_CONNECTIVITY"
to_json zigbee_connectivity = codes "RTYPE_ZIGBEE_CONNECTIVITY"
to_json zgp_connectivity = codes "RTYPE_ZGP_CONNECTIVITY"
to_json bridge = codes "RTYPE_BRIDGE"
to_json zigbee_device_discovery = codes "RTYPE_ZIGBEE_DEVICE_DISCOVERY"
to_json homekit = codes "RTYPE_HOMEKIT"
to_json matter = codes "RTYPE_MATTER"
to_json matter_fabric = codes "RTYPE_MATTER_FABRIC"
to_json scene = codes "RTYPE_SCENE"
to_json entertainment_configuration = codes "RTYPE_ENTERTAINMENT_CONFIGURATION"
to_json public_image = codes "RTYPE_PUBLIC_IMAGE"
to_json auth_v1 = codes "RTYPE_AUTH_V1"
to_json behavior_script = codes "RTYPE_BEHAVIOR_SCRIPT"
to_json behavior_instance = codes "RTYPE_BEHAVIOR_INSTANCE"
to_json geofence = codes "RTYPE_GEOFENCE"
to_json geofence_client = codes "RTYPE_GEOFENCE_CLIENT"
to_json geolocation = codes "RTYPE_GEOLOCATION"
to_json smart_scene = codes "RTYPE_SMART_SCENE"
to_json grouped_motion = codes "RTYPE_GROUPED_MOTION"
to_json grouped_light_level = codes "RTYPE_GROUPED_LIGHT_LEVEL"
to_json unrecognized = codes "UNRECOGNIZED"
