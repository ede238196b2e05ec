-- ===== src/Console/Shown.antt =====
-- What the Console tells a person: apps/console/src/domain/acknowledgementMessage.ts, the message and
-- the controls of apps/console/src/components/LightControls.tsx, the caption of LightCard.tsx, the
-- banner of ConnectionBanner.tsx and the refusals of apps/console/src/routes/LoginPage.tsx.
pub mod Honest
use sharpn.Prelude.{
  ℕ, zero, suc, ◌+◌, ◌-◌, ◌*◌, ◌/◌, ◌%◌, ◌≤◌, ◌<◌, min, max, String, ◌≡◌, refl, sym, ap, subst, ◌∙◌,
  ◌≢◌, ◌↔◌, ◌⊎◌, inl, inr, Bool, true, false, ◌&&◌, ◌||◌, not, Option, none, some, List, [], ◌∷◌,
  ◌++◌, map, arith, ltb, leb, ◌==◌, str_eq, if◌then◌else◌, ltb→lt, lt→ltb, leb→le, str_eq_iff,
  str_eq_refl, Bool-cases, Option-cases, or_else, is_some, length, get_elem?, head?, length-append,
  keep, all, any, All,
}
use sharpn.Prelude.Maps.{
  lookup, insert, delete, lookup-insert, lookup-insert_self, lookup-delete, Distinct,
  insert-Distinct,
}
use sharpn.Prelude.Decimal.{Text, codes}
use sharpn.Errors.{ErrorCode, mutation_outcome_unknown, not_authenticated, too_many_requests}
use sharpn.Codec.{Acknowledgement, Outcome, success, partial, rejected, unknown}
use sharpn.Command.{LightCommand, Decimal, ColorXy}
use sharpn.Light.{Light, LightCapabilities}
use sharpn.Console.EventStream.{Heard, light_notice, connection_status, stream_open, stream_down}
use sharpn.Console.Api.{ApiError, Caught, api_error, type_error, something}

abbrev pub could_not_confirm_message : Text
could_not_confirm_message = codes "couldn't confirm — refreshed"

-- `join(separator)`.
abbrev pub joined : Text → List String → Text
joined separator [] = []
joined separator (s ∷ []) = codes s
joined separator (s ∷ t ∷ ts) = codes s ++ (separator ++ joined separator (t ∷ ts))

abbrev pub message_of : Outcome → List String → Option Text
message_of success errors = none
message_of partial errors = some (joined (codes " ") errors)
message_of rejected errors = some (codes "The Bridge would not make that change.")
message_of unknown errors = some could_not_confirm_message

pub message_for_outcome : Acknowledgement → Option Text
message_for_outcome a = message_of a.outcome a.errors

abbrev pub message_of_code : Option ErrorCode → Text → Text
message_of_code (some mutation_outcome_unknown) message = could_not_confirm_message
message_of_code _ message = message

pub message_for_error : ApiError → Text
message_for_error e = message_of_code e.code (codes e.message)

-- What LightControls says of the last error, or else of the last Acknowledgement.
pub control_message : Option Caught → Option Acknowledgement → Option Text
control_message (some (api_error e)) last = some (message_for_error e)
control_message _ none = none
control_message _ (some a) = message_for_outcome a

-- The controls of a Light, as they are let go.
pub data Control : Type 0 where
  switch : Bool → Control
  brightness : Decimal → Control
  whites : Decimal → Control
  colour : ColorXy → Control

pub is_offered : LightCapabilities → Control → Bool
is_offered c (switch on) = true
is_offered c (brightness level) = c.dimming
is_offered c (whites mirek) = c.color_temperature
is_offered c (colour xy) = c.color

abbrev pub nothing_asked : LightCommand
nothing_asked = record {
  on = none;
  brightness = none;
  color_temperature_mirek = none;
  color_xy = none;
}

-- The Command that a control sends.
pub command_of : Control → LightCommand
command_of (switch on) = record nothing_asked { on = some on }
command_of (brightness level) = record nothing_asked { brightness = some level }
command_of (whites mirek) = record nothing_asked { color_temperature_mirek = some mirek }
command_of (colour xy) = record nothing_asked { color_xy = some xy }

-- Whether a Light is shown as on, and the level that its slider stands at.
pub shown_on : Option LightCommand → Light → Bool
shown_on none light = light.on
shown_on (some pending) light = or_else pending.on light.on

pub shown_brightness : Option Decimal → Option Decimal → Option Decimal → Decimal
shown_brightness pending read min_dim_level =
    or_else pending
      (or_else read (or_else min_dim_level (record { negative = false; digits = 0; places = 0 })))

abbrev pub named_if : Bool → String → List String → List String
named_if true name names = name ∷ names
named_if false name names = names

abbrev pub caption_of : List String → Text
caption_of [] = codes "On / off"
caption_of (p ∷ ps) = joined (codes " · ") (p ∷ ps)

pub capabilities_caption : LightCapabilities → Text
capabilities_caption c = caption_of (
    named_if c.dimming "Dim" (named_if c.color_temperature "Whites" (named_if c.color "Colour" [])))

-- The status that the provider shows, and what the banner says of it.
pub data LiveStatus : Type 0 where
  connecting : LiveStatus
  connected : Bool → Bool → LiveStatus
  disconnected : LiveStatus

-- `setStatus`, of what is heard of the stream.
abbrev pub status_heard : Heard → LiveStatus → LiveStatus
status_heard (light_notice id c) s = s
status_heard (connection_status gateway resyncing) s = connected gateway resyncing
status_heard (stream_open again) s = s
status_heard stream_down s = disconnected

pub status_of : List Heard → LiveStatus → LiveStatus
status_of [] s = s
status_of (h ∷ hs) s = status_of hs (status_heard h s)

pub banner_message : LiveStatus → Option String
banner_message connecting = none
banner_message disconnected =
    some "Lost the live connection — trying to reconnect. What's on screen may be stale."
banner_message (connected false resyncing) =
    some "The Gateway connection is reconnecting. What's on screen may be stale."
banner_message (connected true true) = some "Catching up on changes…"
banner_message (connected true false) = none

abbrev pub login_code : Option ErrorCode → String → String
login_code (some not_authenticated) message = "That password does not match."
login_code (some too_many_requests) message = "Too many attempts. Wait a moment and try again."
login_code _ message = message

pub login_message_for : Caught → String
login_message_for (api_error e) = login_code e.code e.message
login_message_for type_error = "Can't reach the Console API. Check the connection to this device."
login_message_for something = "Something went wrong that this Console did not expect."
