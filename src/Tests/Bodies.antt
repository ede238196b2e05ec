-- ===== src/Tests/Bodies.antt =====
-- contract/command.ts and gateway/codec.ts on small bodies.
use sharpn.Prelude.{◌≡◌, refl, false, Option, none, some, List, [], ◌∷◌}
use sharpn.Prelude.Maps.{lookup}
use sharpn.Command.{
  color, only, Decimal, Json, bool, num, obj, end, field, LightCommand, Issue, other, Parsed,
  success, failure, Zod, shape, refine, ok, read_light_command,
}
use sharpn.Command.Reading.{IsSendable, read-eq-ok_iff, read-IsSendable}
use sharpn.Codec.{command_for}
use sharpn.Codec.Presence.{asked_of, read-command_for}

verdict : LightCommand → List Issue → Parsed
verdict c [] = success c
verdict c (i ∷ is) = failure (i ∷ is)

parse : Option LightCommand → Parsed
parse none = failure (other ∷ [])
parse (some c) = verdict c (refine c)

-- A parser that does as zod is documented to.
pub zod : Zod
unfolding verdict parse
zod = record {
  safe_parse = λ body. parse (shape body);
  accepts = λ body c e q. rw (e, q) refl;
  refuses = λ body c i is e q. rw (e, q) refl;
  rejects = λ body e. (other ∷ [], rw e refl);
}

abbrev dim : Decimal
dim = record { negative = false; digits = 125; places = 1 }

abbrev mirek : Decimal
mirek = record { negative = false; digits = 153; places = 0 }

abbrev half : Decimal
half = record { negative = false; digits = 5; places = 1 }

abbrev dimming : LightCommand
dimming = record {
  on = some false;
  brightness = some dim;
  color_temperature_mirek = some mirek;
  color_xy = none;
}

abbrev dimming_body : Json
dimming_body = obj (
    field "on" (bool false)
      (field "brightness" (num dim) (field "colorTemperatureMirek" (num mirek) end)))

abbrev both : LightCommand
both = record {
  on = none;
  brightness = none;
  color_temperature_mirek = some mirek;
  color_xy = some (record { x = half; y = half });
}

abbrev both_body : Json
both_body = obj (
    field "colorXy" (obj (field "x" (num half) (field "y" (num half) end)))
      (field "colorTemperatureMirek" (num mirek) end))

dimming_spelled : shape dimming_body ≡ some dimming
unfolding shape only color lookup
dimming_spelled = refl

both_spelled : shape both_body ≡ some both
unfolding shape only color lookup
both_spelled = refl

dimming_quiet : refine dimming ≡ []
unfolding refine
dimming_quiet = refl

dimming_read : read_light_command zod dimming_body ≡ ok dimming
dimming_read = (read-eq-ok_iff zod dimming_body dimming).1 (dimming_spelled, dimming_quiet)

read-IsSendable_example : IsSendable dimming
read-IsSendable_example = read-IsSendable zod dimming_body dimming dimming_read

read-command_for_example : asked_of (command_for dimming) ≡ dimming
read-command_for_example = read-command_for zod dimming_body dimming dimming_read
