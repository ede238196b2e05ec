-- ===== src/Edge.antt =====
-- apps/console-api/src/http: app.ts, session.ts, lights.ts and health.ts, from a request to its
-- response. Express and the body reader are third-party: a request comes with its path cut into
-- segments and with what the reader would make of its body.
pub mod Gates
pub mod Commands
pub mod Renewal
use Prim.Native.String.{◌++◌ as concat}
use sharpn.Prelude.{
  ℕ, zero, suc, ◌+◌, ◌-◌, ◌*◌, ◌/◌, ◌%◌, ◌≤◌, ◌<◌, min, max, String, ◌≡◌, refl, sym, ap, subst, ◌∙◌,
  ◌≢◌, ◌↔◌, ◌⊎◌, inl, inr, Bool, true, false, ◌&&◌, ◌||◌, not, Option, none, some, List, [], ◌∷◌,
  ◌++◌, map, arith, ltb, leb, ◌==◌, str_eq, if◌then◌else◌, ltb→lt, lt→ltb, leb→le, str_eq_iff,
  str_eq_refl, Bool-cases, Option-cases, or_else, is_some, length, get_elem?, head?, length-append,
  keep, all, any, All,
}
use sharpn.Prelude.Maps.{
  lookup, insert, delete, lookup-insert, lookup-insert_self, lookup-delete, Distinct,
  insert-Distinct,
}
use sharpn.Prelude.Decimal.{Text, codes}
use sharpn.Errors.{ErrorCode, csrf_rejected, not_authenticated, too_many_requests, invalid_request}
use sharpn.Status.{GatewayResult}
use sharpn.Light.{Light}
use sharpn.Codec.{Acknowledgement}
use sharpn.Session.{Keys, Session, SignedSession, verify, renew, mint}
use sharpn.Command.{
  Json, Fields, obj, str, fields, only, LightCommand, Zod, LightCommandReading, ok, refused,
  read_light_command,
}
use sharpn.Meter.{
  Sent, Spend, allowed, refused as too_fast, spend, mutations_per_minute, login_attempts_per_minute,
}
use sharpn.Answer.{
  Response, Body, HeaderValue, set_header, relay, refuse_without_asking, correlation_id_header,
  text, cookie,
}
use sharpn.Answer
use sharpn.Cookie.{session_cookie_of, set_session_cookie, clear_session_cookie}
use sharpn.Request.{
  BodyRead, parsed, too_large, unreadable, Request, Value, lights, a_light, acknowledgement, alive,
  readiness, version, event_stream, Answered, login_command, changes_nothing, under, Route, healthz,
  readyz, version_of, sign_in, sign_out, list_lights, events, options_of, methods, unserved,
  get_light, update_light, route_of, path_text,
}

-- What the process is made of. `host_of` is the host of a URL, `key_of` a session's id as the meter's
-- key, and `prose` whatever a refusal of a body is explained with.
pub record Process : Type 0 where
  pub keys : Keys
  pub zod : Zod
  pub host_of : String → Option String
  pub key_of : Text → String
  pub prose : Json → String
  pub matches : String → Bool
  pub list_lights : GatewayResult Value
  pub get_light : String → GatewayResult Value
  pub update_light : String → LightCommand → GatewayResult Value
  pub channel_connected : Bool
  pub subscribed : Bool

-- What a request may change: the two meters, and the Commands that were passed to the Gateway.
pub record World : Type 0 where
  pub login_meter : Sent
  pub meter : Sent
  pub commands : List (String × LightCommand)

-- What else one request is answered with: the clock, a fresh Correlation ID and a fresh session id.
pub record Draws : Type 0 where
  pub now : ℕ
  pub correlation_id : String
  pub session_id : Text

abbrev pub blank : Answered
blank = record { status = 200; headers = []; body = Body.empty }

-- What a middleware comes to: `next`, with what it set on the response, or an answer.
pub data Passage (A : Type 0) : Type 0 where
  go_on : A → Passage A
  answer : Answered → Passage A

abbrev pub same_host : Option String → Option String → Bool
same_host (some a) (some b) = str_eq a b
same_host _ _ = false

module _ (p : Process) (draws : Draws) where
  abbrev refuse_now : ErrorCode → Option String → Option ℕ → Answered → Answered
  refuse_now code detail seconds response =
      refuse_without_asking code detail seconds draws.correlation_id response

  abbrev origin_host : Option String → Option String
  origin_host none = none
  origin_host (some origin) = p.host_of origin

  abbrev pub csrf_detail : Option String → String
  csrf_detail none = "that change carried no Origin header"
  csrf_detail (some origin) =
      concat "that change came from " (concat origin ", not this service's own host")

  -- `csrfGuard`.
  unfoldable pub passes_csrf : Request → Bool
  passes_csrf request =
      changes_nothing request.method || same_host (origin_host request.origin) request.host

  abbrev pub session_of : Option Text → Option Session
  session_of none = none
  session_of (some value) = verify p.keys draws.now value

  abbrev renewed : Option Session → Passage (Session × Answered)
  renewed none =
      answer (refuse_now not_authenticated (some "no session, or one that has expired") none blank)
  renewed (some session) = go_on (
    session,
    set_header "Set-Cookie"
        (cookie (set_session_cookie (renew p.keys draws.now session).value p.keys.duration_ms))
        blank,
  )

  -- `requireSession`.
  pub require_session : Request → Passage (Session × Answered)
  require_session request = renewed (session_of (session_cookie_of request.cookie_header))

  abbrev no_content : Answered → Answered
  no_content response =
      record (set_header correlation_id_header (text draws.correlation_id) response) {
        status = 204;
      }

  -- `routes.post("/session")`, for what the body was read as.
  abbrev pub sign_in_with : Json → Option String → Answered → Answered
  sign_in_with body none response = refuse_now invalid_request (some (p.prose body)) none response
  sign_in_with body (some password) response =
      if not (p.matches password)
      then refuse_now not_authenticated (some "that password does not match") none response
      else no_content (
          set_header "Set-Cookie"
            (cookie (
              set_session_cookie (mint p.keys draws.session_id draws.now).value p.keys.duration_ms))
            response)

  -- `routes.patch("/lights/:id")`, for what the body was read as.
  abbrev pub update_with : Json → String → LightCommandReading → World → Answered → World × Answered
  update_with body id (refused code) w response =
      (w, refuse_now code (some (p.prose body)) none response)
  update_with body id (ok command) w response = (
    record w { commands = (id, command) ∷ w.commands },
    relay (p.update_light id command) response,
  )

  abbrev pub ready : Bool
  ready = p.channel_connected && p.subscribed

  pub serve : Request → Json → Route → World → Answered → World × Answered
  serve request body healthz w response = (w, record response { body = Body.value alive })
  serve request body readyz w response = (
    w,
    record response {
      status = if ready then 200 else 503;
      body = Body.value (readiness p.channel_connected p.subscribed);
    },
  )
  serve request body version_of w response = (w, record response { body = Body.value version })
  serve request body sign_in w response = (w, sign_in_with body (login_command body) response)
  serve request body sign_out w response =
      (w, no_content (set_header "Set-Cookie" (cookie clear_session_cookie) response))
  serve request body list_lights w response = (w, relay p.list_lights response)
  serve request body (get_light id) w response = (w, relay (p.get_light id) response)
  serve request body (update_light id) w response =
      update_with body id (read_light_command p.zod body) w response
  serve request body events w response = (w, record response { body = Body.value event_stream })
  serve request body options_of w response = (w, record response { body = Body.value methods })
  serve request body unserved w response = (
    w,
    refuse_now invalid_request
        (some (
          concat "nothing here serves "
            (concat request.method (concat " " (path_text request.path)))))
        none response,
  )

  -- `express.json`, then the routes, or `bodyThatCouldNotBeRead`.
  pub read_body : Request → BodyRead → World → Answered → World × Answered
  read_body request (parsed body) w response =
      serve request body (route_of request.method request.path) w response
  read_body request too_large w response = (
    w,
    refuse_now invalid_request
        (some "the body is larger than the 8kb this service reads; a Command is a handful of keys")
        none response,
  )
  read_body request (unreadable message) w response = (
    w,
    refuse_now invalid_request (some (or_else message "the body could not be read")) none response,
  )

  abbrev pub go_on_metered : Request → World → Answered → Sent × Spend → World × Answered
  go_on_metered request w response (sent, allowed) =
      read_body request request.body (record w { meter = sent }) response
  go_on_metered request w response (sent, too_fast seconds) =
      (record w { meter = sent }, refuse_now too_many_requests none (some seconds) response)

  -- `meterMutations`.
  pub meter_mutations : Request → World → Session → Answered → World × Answered
  meter_mutations request w session response =
      if changes_nothing request.method
      then read_body request request.body w response
      else go_on_metered request w response
          (spend mutations_per_minute (p.key_of session.id) draws.now w.meter)

  abbrev pub lights_gate : Request → World → Passage (Session × Answered) → World × Answered
  lights_gate request w (answer response) = (w, response)
  lights_gate request w (go_on (session, response)) = meter_mutations request w session response

  abbrev pub events_gate : Request → World → Passage (Session × Answered) → World × Answered
  events_gate request w (answer response) = (w, response)
  events_gate request w (go_on (session, response)) = read_body request request.body w response

  abbrev pub go_on_counted : Request → World → Sent × Spend → World × Answered
  go_on_counted request w (sent, allowed) =
      read_body request request.body (record w { login_meter = sent }) blank
  go_on_counted request w (sent, too_fast seconds) =
      (record w { login_meter = sent }, refuse_now too_many_requests none (some seconds) blank)

  -- `loginRateLimit`.
  pub login_rate_limit : Request → World → World × Answered
  login_rate_limit request w =
      if not (str_eq request.method "POST")
      then read_body request request.body w blank
      else go_on_counted request w
          (spend login_attempts_per_minute (or_else request.ip "unknown") draws.now w.login_meter)

  -- What is mounted before the body is read, by the path; the three prefixes exclude each other.
  pub gated : Request → World → World × Answered
  gated request w =
      if under "lights" request.path
      then lights_gate request w (require_session request)
      else if under "events" request.path
      then events_gate request w (require_session request)
      else if under "session" request.path
      then login_rate_limit request w
      else read_body request request.body w blank

  -- `consoleApi`.
  pub handle : Request → World → World × Answered
  handle request w =
      if passes_csrf request
      then gated request w
      else (w, refuse_now csrf_rejected (some (csrf_detail request.origin)) none blank)
