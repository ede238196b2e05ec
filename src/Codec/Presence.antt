-- ===== src/Codec/Presence.antt =====
-- Presence, in gateway/codec.ts: what a Light can do, and what a Command leaves alone.
use sharpn.Prelude.{◌≡◌, ap, ◌↔◌, ◌⊎◌, Option, none, some, arith}
use sharpn.Command.{Decimal, ColorXy, LightCommand, Zod, Json, read_light_command, ok}
use sharpn.Command.Reading.{read-IsSendable}
use sharpn.Codec.{LightPut, Colour, color, color_temperature, colour_of, command_for}

-- What a Bridge that keeps a message's fields reads out of one.
abbrev pub xy_of : Option Colour → Option ColorXy
xy_of (some (color xy)) = some xy
xy_of _ = none

abbrev pub mirek_of : Option Colour → Option Decimal
mirek_of (some (color_temperature mirek)) = some mirek
mirek_of _ = none

abbrev pub asked_of : LightPut → LightCommand
asked_of put = record {
  on = put.on;
  brightness = put.dimming;
  color_temperature_mirek = mirek_of put.colour;
  color_xy = xy_of put.colour;
}

colour_of-kept :
    (xy : Option ColorXy) (mirek : Option Decimal)
    → ((xy_of (colour_of xy mirek) ≡ xy) × (mirek_of (colour_of xy mirek) ≡ mirek))
      ↔ ((xy ≡ none) ⊎ (mirek ≡ none))
unfolding colour_of
colour_of-kept none none = ground arith
colour_of-kept none (some m) = ground arith
colour_of-kept (some p) none = ground arith
colour_of-kept (some p) (some m) = ground arith

-- The message for a Command says all that the Command does, and no more, exactly when the Command
-- asks for one colour at most.
pub command_for_kept_iff :
    (c : LightCommand)
    → (asked_of (command_for c) ≡ c) ↔ ((c.color_xy ≡ none) ⊎ (c.color_temperature_mirek ≡ none))
unfolding command_for
command_for_kept_iff c =
    let (to, from) = colour_of-kept c.color_xy c.color_temperature_mirek in
    (
      λ e. to (ap (λ d. d.color_xy) e, ap (λ d. d.color_temperature_mirek) e),
      λ one. kept (from one),
    )
  where
    kept :
        (xy_of (colour_of c.color_xy c.color_temperature_mirek) ≡ c.color_xy)
          × (mirek_of (colour_of c.color_xy c.color_temperature_mirek) ≡ c.color_temperature_mirek)
        → asked_of (command_for c) ≡ c
    kept (same_xy, same_mirek) =
        λ i. record c { color_temperature_mirek = same_mirek i; color_xy = same_xy i }

-- Of a body that is read as a Command, nothing that it asks for is lost or made up in the message
-- that is built for the Gateway.
pub read-command_for :
    (zod : Zod) (body : Json) (c : LightCommand)
    → read_light_command zod body ≡ ok c
    → asked_of (command_for c) ≡ c
read-command_for zod body c h = (command_for_kept_iff c).1 (read-IsSendable zod body c h).one_colour
