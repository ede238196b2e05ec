-- ===== src/Console/EventStream/Delivered.antt =====
-- What of the events of apps/console-api/src/http/events.ts reaches the queries of the Console.
use sharpn.Prelude.{String, ◌≡◌, refl, ap, Bool, true, false, List, [], ◌∷◌, str_eq}
use sharpn.Prelude.Maps.{lookup}
use sharpn.Codec.{Change, added, changed, removed, text_eq}
use sharpn.Events.{Written, light, connection, heartbeat}
use sharpn.Console.Live.{Scope, Live, the_list, detail}
use sharpn.Console.EventStream.{
  gateway_name, sent, Heard, light_notice, connection_status, hear_message, heard,
}

-- What a written event means to the Console.
abbrev pub meant : Written → List Heard
meant (light c id) = light_notice id c ∷ []
meant (connection s) = connection_status s.connected s.resyncing ∷ []
meant heartbeat = []

gateway_said : (b : Bool) → str_eq (gateway_name b) "connected" ≡ b
gateway_said true = refl
gateway_said false = refl

-- Every event that the service writes is heard by the handlers as what it says, once, and a
-- heartbeat is not heard.
pub heard-sent : (w : Written) → heard (sent w) ≡ meant w
unfolding sent hear_message text_eq lookup
heard-sent (light added id) = refl
heard-sent (light changed id) = refl
heard-sent (light removed id) = refl
heard-sent (connection s) =
    ap (λ b. connection_status b s.resyncing ∷ []) (gateway_said s.connected)
heard-sent heartbeat = refl

-- The events whose arrival invalidates a scope.
pub data Concerns : Scope → Written → Type 0 where
  in_list : (c : Change) (id : String) → Concerns the_list (light c id)
  in_detail : (id : String) → Concerns (detail id) (light changed id)
