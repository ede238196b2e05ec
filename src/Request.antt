-- ===== src/Request.antt =====
-- What apps/console-api/src/http is asked and answers with: requests, the bodies of a sign-in
-- (contract/login.ts), and the routes that http/app.ts mounts.
pub mod Routing
use Prim.Native.String.{◌++◌ as concat}
use sharpn.Prelude.{
  String, Bool, false, ◌&&◌, ◌||◌, not, Option, none, some, List, [], ◌∷◌, str_eq, if◌then◌else◌,
}
use sharpn.Prelude.Maps.{lookup}
use sharpn.Prelude.Decimal.{Text}
use sharpn.Light.{Light}
use sharpn.Codec.{Acknowledgement}
use sharpn.Command.{Json, obj, str, fields, only}
use sharpn.Answer.{Response}

-- What the body reader makes of a body: its JSON, or an error, with a message or none, for a body
-- that is too large or that is not JSON.
pub data BodyRead : Type 0 where
  parsed : Json → BodyRead
  too_large : BodyRead
  unreadable : Option String → BodyRead

-- The path is its segments as Express matches them: it does not tell the cases of the fixed ones
-- apart, which stand here in lower case, nor whether a slash ends the path.
pub record Request : Type 0 where
  pub method : String
  pub path : List String
  pub cookie_header : Option Text
  pub origin : Option String
  pub host : Option String
  pub ip : Option String
  pub body : BodyRead

-- What a response carries where it is no refusal.
pub data Value : Type 0 where
  lights : List Light → Value
  a_light : Light → Value
  acknowledgement : Acknowledgement → Value
  alive : Value
  readiness : Bool → Bool → Value
  version : Value
  event_stream : Value
  methods : Value

abbrev pub Answered : Type 0
Answered = Response Value

-- `loginCommandSchema`: a strict object with a password that is not empty.
abbrev pub password_of : Option Json → Option String
password_of (some (str s)) = if str_eq s "" then none else some s
password_of _ = none

pub login_command : Json → Option String
login_command (obj fs) =
    if only ("password" ∷ []) (fields fs) then password_of (lookup "password" (fields fs)) else none
login_command _ = none

abbrev pub changes_nothing : String → Bool
changes_nothing method = str_eq method "GET" || str_eq method "HEAD" || str_eq method "OPTIONS"

-- A path that starts with `/api/v1/` and this.
abbrev pub under : String → List String → Bool
under name (a ∷ b ∷ c ∷ rest) = str_eq a "api" && str_eq b "v1" && str_eq c name
under name _ = false

pub data Route : Type 0 where
  healthz readyz version_of sign_in sign_out list_lights events options_of unserved : Route
  get_light update_light : String → Route

-- Express answers a HEAD with the route of the GET.
abbrev pub is_get : String → Bool
is_get method = str_eq method "GET" || str_eq method "HEAD"

abbrev pub operator_route : String → String → Route
operator_route method a =
    if not (is_get method)
    then unserved
    else if str_eq a "healthz"
    then healthz
    else if str_eq a "readyz"
    then readyz
    else if str_eq a "version"
    then version_of
    else unserved

abbrev pub collection_route : String → String → Route
collection_route method c =
    if str_eq c "session" && str_eq method "POST"
    then sign_in
    else if str_eq c "session" && str_eq method "DELETE"
    then sign_out
    else if str_eq c "lights" && is_get method
    then list_lights
    else if str_eq c "events" && is_get method
    then events
    else unserved

abbrev pub light_route : String → String → Route
light_route method id =
    if is_get method
    then get_light id
    else if str_eq method "PATCH"
    then update_light id
    else unserved

-- Which route a method and a path reach, of those that are mounted.
pub mounted : String → List String → Route
mounted method (a ∷ []) = operator_route method a
mounted method (a ∷ b ∷ c ∷ []) =
    if str_eq a "api" && str_eq b "v1" then collection_route method c else unserved
mounted method (a ∷ b ∷ c ∷ id ∷ []) =
    if under "lights" (a ∷ b ∷ c ∷ []) then light_route method id else unserved
mounted method _ = unserved

-- A path that some route is mounted under.
abbrev pub is_mounted : List String → Bool
is_mounted (a ∷ []) = str_eq a "healthz" || str_eq a "readyz" || str_eq a "version"
is_mounted (a ∷ b ∷ c ∷ []) =
    str_eq a "api"
    && str_eq b "v1"
    && (str_eq c "session" || str_eq c "lights" || str_eq c "events")
is_mounted (a ∷ b ∷ c ∷ id ∷ []) = under "lights" (a ∷ b ∷ c ∷ [])
is_mounted _ = false

-- Express answers an OPTIONS itself, with the methods of the path.
pub route_of : String → List String → Route
route_of method path =
    if str_eq method "OPTIONS" && is_mounted path then options_of else mounted method path

abbrev pub path_text : List String → String
path_text [] = ""
path_text (a ∷ path) = concat "/" (concat a (path_text path))
