-- ===== src/Console/Sending.antt =====
-- apps/console/src/queries/useUpdateLight.ts: sending a Command, one PATCH at a time for each Light.
-- The network is a list of the PATCHes that have not settled. The clock and the order in which they
-- settle are arguments and steps. `useMutation` is third-party: of the callbacks that are given to
-- `mutate`, it runs those of the hook's latest call, while the hook is mounted, and no others.
pub mod InFlight
pub mod LastAsked
use sharpn.Prelude.{
  ◌^◌, ℕ, zero, suc, ◌+◌, ◌-◌, ◌*◌, ◌/◌, ◌%◌, ◌≤◌, ◌<◌, min, max, String, ◌≡◌, refl, sym, ap, subst,
  ◌∙◌, ◌≢◌, ◌↔◌, ◌⊎◌, inl, inr, Bool, true, false, ◌&&◌, ◌||◌, not, Option, none, some, List, [],
  ◌∷◌, ◌++◌, map, arith, ltb, leb, ◌==◌, str_eq, if◌then◌else◌, ltb→lt, lt→ltb, leb→le, str_eq_iff,
  str_eq_refl, Bool-cases, Option-cases, or_else, is_some, length, get_elem?, head?, length-append,
  keep, all, any, All,
}
use sharpn.Prelude.Maps.{
  lookup, insert, delete, lookup-insert, lookup-insert_self, lookup-delete, Distinct,
  insert-Distinct,
}
use sharpn.Errors.{ErrorCode, mutation_outcome_unknown}
use sharpn.Command.{Decimal, ColorXy, LightCommand}
use sharpn.Codec.{Outcome, success, partial, rejected, unknown}
use sharpn.Console.Pending.{PendingCommand, Pending, set_pending, clear_pending}

-- `===` of two numbers, by what they are worth.
abbrev pub same_number : Decimal → Decimal → Bool
same_number a b =
    a.digits * 10 ^ b.places == b.digits * 10 ^ a.places
    && (same_sign a.negative b.negative || a.digits == 0)
  where
    same_sign : Bool → Bool → Bool
    same_sign true b = b
    same_sign false b = not b

abbrev pub same_switch : Option Bool → Option Bool → Bool
same_switch none none = true
same_switch (some true) (some b) = b
same_switch (some false) (some b) = not b
same_switch _ _ = false

abbrev pub same_optional : Option Decimal → Option Decimal → Bool
same_optional none none = true
same_optional (some a) (some b) = same_number a b
same_optional _ _ = false

abbrev pub xy_equal : Option ColorXy → Option ColorXy → Bool
xy_equal none none = true
xy_equal (some a) (some b) = same_number a.x b.x && same_number a.y b.y
xy_equal _ _ = false

unfoldable pub commands_equal : LightCommand → LightCommand → Bool
commands_equal a b =
    same_switch a.on b.on
    && same_optional a.brightness b.brightness
    && same_optional a.color_temperature_mirek b.color_temperature_mirek
    && xy_equal a.color_xy b.color_xy

-- A PATCH that was sent, with which call of `mutate` it was.
pub record Patch : Type 0 where
  pub number : ℕ
  pub light_id : String
  pub command : LightCommand
  pub sent_at : ℕ

-- What the hook and the provider hold, with how often the hook called `mutate`, the PATCHes that have not settled, the Lights that were
-- read again, and for each Light the Command that was asked of it last and the one sent last.
pub record Sender : Type 0 where
  pub mounted : Bool
  pub calls : ℕ
  pub in_flight : List (String × Option LightCommand)
  pub pending : Pending
  pub outstanding : List Patch
  pub refetched : List String
  pub asked : List (String × LightCommand)
  pub fired : List (String × LightCommand)

abbrev pub quiet : Sender
quiet = record {
  mounted = true;
  calls = 0;
  in_flight = [];
  pending = [];
  outstanding = [];
  refetched = [];
  asked = [];
  fired = [];
}

unfoldable pub fire : ℕ → String → LightCommand → Sender → Sender
fire now light_id command s = record s {
  in_flight = insert light_id none s.in_flight;
  pending =
      set_pending (record { light_id = light_id; command = command; sent_at = now }) s.pending;
  calls = suc s.calls;
  outstanding =
      record { number = suc s.calls; light_id = light_id; command = command; sent_at = now }
      ∷ s.outstanding;
  fired = insert light_id command s.fired;
}

-- The rest of `settle`, for what the Map held under the Light.
abbrev pub send_held : ℕ → String → LightCommand → Option (Option LightCommand) → Sender → Sender
send_held now light_id just_sent (some (some next)) s =
    if not (commands_equal next just_sent) then fire now light_id next s else s
send_held now light_id just_sent _ s = s

unfoldable pub settle : ℕ → String → LightCommand → Sender → Sender
settle now light_id just_sent s =
    send_held now light_id just_sent (lookup light_id s.in_flight)
      (record s { in_flight = delete light_id s.in_flight })

-- How a PATCH settles: with an Acknowledgement, or with an error, which has a code if the Console API
-- answered it.
pub data Settlement : Type 0 where
  acknowledged : Outcome → Settlement
  failed : Option ErrorCode → Settlement

abbrev pub clear : Patch → Sender → Sender
clear p s = record s { pending = clear_pending p.light_id (some p.sent_at) s.pending }

-- `invalidateLight`.
abbrev pub refetch : Patch → Sender → Sender
refetch p s = record s { refetched = p.light_id ∷ s.refetched }

-- What `onSuccess` and `onError` do before they settle.
abbrev pub conclude : Settlement → Patch → Sender → Sender
conclude (acknowledged rejected) p s = clear p s
conclude (acknowledged partial) p s = refetch p (clear p s)
conclude (acknowledged unknown) p s = refetch p (clear p s)
conclude (acknowledged success) p s = s
conclude (failed (some mutation_outcome_unknown)) p s = refetch p (clear p s)
conclude (failed _) p s = clear p s

-- Whether the callbacks of a PATCH run when it settles.
abbrev pub is_heard : Patch → Sender → Bool
is_heard p s = s.mounted && p.number == s.calls

unfoldable pub on_settled : Settlement → ℕ → Patch → Sender → Sender
on_settled settlement now p s =
    if is_heard p s then settle now p.light_id p.command (conclude settlement p s) else s

-- `send`, for what the Map holds under the Light.
abbrev pub hold_or_fire : Option (Option LightCommand) → ℕ → String → LightCommand → Sender → Sender
hold_or_fire (some held) now light_id command s = record s {
  in_flight = insert light_id (some command) s.in_flight;
}
hold_or_fire none now light_id command s = fire now light_id command s

unfoldable pub send : ℕ → String → LightCommand → Sender → Sender
send now light_id command s =
    hold_or_fire (lookup light_id s.in_flight) now light_id command
      (record s { asked = insert light_id command s.asked })
