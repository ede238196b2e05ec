-- ===== src/Console/Shown/Honest.antt =====
-- What the controls of apps/console/src/components ask of a Light, and what is said of the answer.
use sharpn.Prelude.{◌≡◌, refl, ◌≢◌, true, Option, none, some, []}
use sharpn.Errors.{mutation_outcome_unknown}
use sharpn.Codec.{Acknowledgement, unknown}
use sharpn.Command.{LightCommand, refine}
use sharpn.Light.{LightCapabilities}
use sharpn.Console.Api.{ApiError, api_error}
use sharpn.Console.Shown.{
  stream_open, light_notice, ap, ◌∷◌, stream_down, disconnected, banner_message, LiveStatus, All,
  connection_status, List, status_of, Heard, control_message, message_for_error,
  message_for_outcome, Control, switch, brightness, whites, colour, is_offered, command_of,
}

-- A deadline that passed and an outcome that the Bridge did not confirm are told in the same words.
pub unknown-unconfirmed :
    (last : Option Acknowledgement) (e : ApiError) (a : Acknowledgement)
    → e.code ≡ some mutation_outcome_unknown
    → a.outcome ≡ unknown
    → control_message (some (api_error e)) last ≡ control_message none (some a)
unfolding control_message message_for_error message_for_outcome
unknown-unconfirmed last e a lost unsure = rw (lost, unsure) refl

-- What a Command asks for, a Light can do.
abbrev pub CanDo : LightCapabilities → LightCommand → Type 0
CanDo c asked =
    (asked.brightness ≢ none → c.dimming ≡ true)
    × (asked.color_temperature_mirek ≢ none → c.color_temperature ≡ true)
    × (asked.color_xy ≢ none → c.color ≡ true)

-- What a control that is shown asks for, the Light can do, and the service finds no fault in its shape.
pub offered-CanDo :
    (c : LightCapabilities) (control : Control)
    → is_offered c control ≡ true
    → CanDo c (command_of control) × (refine (command_of control) ≡ [])
unfolding is_offered command_of refine
offered-CanDo c (switch on) h =
    ((λ n. absurd (n refl), λ n. absurd (n refl), λ n. absurd (n refl)), refl)
offered-CanDo c (brightness level) h = ((λ n. h, λ n. absurd (n refl), λ n. absurd (n refl)), refl)
offered-CanDo c (whites mirek) h = ((λ n. absurd (n refl), λ n. h, λ n. absurd (n refl)), refl)
offered-CanDo c (colour xy) h = ((λ n. absurd (n refl), λ n. absurd (n refl), λ n. h), refl)

-- What is heard says nothing of the connection of the Gateway.
abbrev pub SaysNothing : Heard → Type 0
SaysNothing (connection_status gateway resyncing) = ⊥
SaysNothing h = Unit {0}

disconnected_stays :
    (hs : List Heard) → All SaysNothing hs → status_of hs disconnected ≡ disconnected
unfolding status_of
disconnected_stays [] quiet = refl
disconnected_stays (light_notice id c ∷ hs) (q, quiet) = disconnected_stays hs quiet
disconnected_stays (connection_status g r ∷ hs) (q, quiet) = absurd q
disconnected_stays (stream_open again ∷ hs) (q, quiet) = disconnected_stays hs quiet
disconnected_stays (stream_down ∷ hs) (q, quiet) = disconnected_stays hs quiet

-- A stream that went down is told of until the service says how it stands, though it opens again.
pub banner_message-down :
    (hs : List Heard) (s : LiveStatus)
    → All SaysNothing hs
    → banner_message (status_of (stream_down ∷ hs) s) ≡ banner_message disconnected
unfolding status_of
banner_message-down hs s quiet = ap banner_message (disconnected_stays hs quiet)
