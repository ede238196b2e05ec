-- ===== src/Console/EventStream.antt =====
-- apps/console/src/events/eventStream.ts: what the Console hears of what
-- apps/console-api/src/http/events.ts writes, and what it does about it. EventSource, which takes the
-- lines of an event apart, and JSON are third-party: an event is its name and the value of its data.
pub mod Delivered
use sharpn.Prelude.{
  ℕ, zero, suc, ◌+◌, ◌-◌, ◌*◌, ◌/◌, ◌%◌, ◌≤◌, ◌<◌, min, max, String, ◌≡◌, refl, sym, ap, subst, ◌∙◌,
  ◌≢◌, ◌↔◌, ◌⊎◌, inl, inr, Bool, true, false, ◌&&◌, ◌||◌, not, Option, none, some, List, [], ◌∷◌,
  ◌++◌, map, arith, ltb, leb, ◌==◌, str_eq, if◌then◌else◌, ltb→lt, lt→ltb, leb→le, str_eq_iff,
  str_eq_refl, Bool-cases, Option-cases, or_else, is_some, length, get_elem?, head?, length-append,
  keep, all, any, All,
}
use sharpn.Prelude.Maps.{
  lookup, insert, delete, lookup-insert, lookup-insert_self, lookup-delete, Distinct,
  insert-Distinct,
}
use sharpn.Prelude.Decimal.{Text, codes}
use sharpn.Command.{Json, obj, str, bool, Fields, field, end, fields}
use sharpn.Codec.{Change, added, changed, removed, text_eq}
use sharpn.Events.{ConnectionStatus, Written, light, connection, heartbeat}
use sharpn.Console.Live.{Live, on_light_notice, on_connection_status}

pub record Message : Type 0 where
  pub event : Text
  pub json : Json

abbrev pub change_name : Change → Text
change_name added = codes "added"
change_name changed = codes "changed"
change_name removed = codes "removed"

abbrev pub gateway_name : Bool → String
gateway_name true = "connected"
gateway_name false = "reconnecting"

-- `send` of the service; a heartbeat is a comment, which is no event.
pub sent : Written → Option Message
sent (light c id) =
    some (record { event = codes "light." ++ change_name c; json = obj (field "id" (str id) end) })
sent (connection s) = some (record {
  event = codes "connection";
  json =
      obj (
        field "gateway" (str (gateway_name s.connected))
          (field "resyncing" (bool s.resyncing) end));
})
sent heartbeat = none

-- What the handlers of a stream are told.
pub data Heard : Type 0 where
  light_notice : String → Change → Heard
  connection_status : Bool → Bool → Heard
  stream_open : Bool → Heard
  stream_down : Heard

abbrev pub members : Json → List (String × Json)
members (obj fs) = fields fs
members _ = []

abbrev pub text_of : Option Json → Option String
text_of (some (str s)) = some s
text_of _ = none

abbrev pub flag_of : Option Json → Option Bool
flag_of (some (bool b)) = some b
flag_of _ = none

abbrev pub light_changes : List Change
light_changes = added ∷ changed ∷ removed ∷ []

abbrev pub notice_of : Option String → Change → List Heard
notice_of (some id) c = light_notice id c ∷ []
notice_of none c = []

-- The listener of one kind of change. What the service never sends, data of another shape, is heard as
-- nothing here.
abbrev pub hear_light : Message → Change → List Heard
hear_light m c =
    if text_eq m.event (codes "light." ++ change_name c)
    then notice_of (text_of (lookup "id" (members m.json))) c
    else []

abbrev pub hear_lights : Message → List Change → List Heard
hear_lights m [] = []
hear_lights m (c ∷ cs) = hear_light m c ++ hear_lights m cs

abbrev pub status_of : Option String → Option Bool → List Heard
status_of (some gateway) (some resyncing) =
    connection_status (str_eq gateway "connected") resyncing ∷ []
status_of _ _ = []

pub hear_message : Message → List Heard
hear_message m =
    hear_lights m light_changes
    ++ (if text_eq m.event (codes "connection")
        then status_of (text_of (lookup "gateway" (members m.json)))
            (flag_of (lookup "resyncing" (members m.json)))
        else [])

-- The source opens; `everOpened` is what the handler is told, and true from then on.
pub hear_open : Bool → List Heard × Bool
hear_open ever_opened = (stream_open ever_opened ∷ [], true)

-- The handlers of LiveLightsProvider; the opening of the stream does nothing.
abbrev pub on_heard : Heard → Live → Live
on_heard (light_notice id c) l = on_light_notice id c l
on_heard (connection_status connected resyncing) l = on_connection_status connected l
on_heard (stream_open again) l = l
on_heard stream_down l = l

abbrev pub on_all : List Heard → Live → Live
on_all [] l = l
on_all (h ∷ hs) l = on_all hs (on_heard h l)

abbrev pub heard : Option Message → List Heard
heard none = []
heard (some m) = hear_message m

pub receive : Written → Live → Live
receive w l = on_all (heard (sent w)) l

pub receive_all : List Written → Live → Live
receive_all [] l = l
receive_all (w ∷ ws) l = receive_all ws (receive w l)
