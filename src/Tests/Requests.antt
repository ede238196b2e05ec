-- ===== src/Tests/Requests.antt =====
-- http/app.ts on a few requests.
use sharpn.Prelude.{String, ◌≡◌, refl, ◌⊎◌, true, false, none, some, List, [], ◌∷◌, arith}
use sharpn.Prelude.Maps.{lookup}
use sharpn.Prelude.Decimal.{Text, codes, value, value_from}
use sharpn.Session.{
  Session, verify, renew, number, read_payload, check_signature, verified, session_from, unexpired,
}
use sharpn.Prelude.Cutting.{cut_first, cut_last}
use sharpn.Command.{bool, obj, field, end, LightCommand}
use sharpn.Status.{ok}
use sharpn.Meter.{refused, spend, decide, sweep, login_attempts_per_minute}
use sharpn.Cookie.{session_cookie_of, session_cookie_name, value_in, cookie_named}
use sharpn.Cookie.Jar.{IsCookie, header_of, first_named, cookie_named-header_of}
use sharpn.Answer.{cookie}
use sharpn.Request.{Request, parsed, too_large, lights, alive}
use sharpn.Edge.{Process, World, Draws, passes_csrf, session_of, handle}
use sharpn.Edge.Commands.{IsPassedOn, handle-IsPassedOn}
use sharpn.Edge.Gates.{handle_unauthenticated, handle-sign_in_counted}
use sharpn.Edge.Renewal.{set_cookie_of, handle_renews}
use sharpn.Command.Reading.{IsSendable}
use sharpn.Cookie.{set_session_cookie}
use sharpn.Tests.Cookies.{keys, id}
use sharpn.Tests.Bodies.{zod}

abbrev process : Process
process = record {
  keys = keys;
  zod = zod;
  host_of = λ origin. some origin;
  key_of = λ id. "ab";
  prose = λ body. "";
  matches = λ password. false;
  list_lights = ok "id" (lights []);
  get_light = λ id. ok "id" (lights []);
  update_light = λ id c. ok "id" alive;
  channel_connected = true;
  subscribed = true;
}

abbrev draws : Draws
draws = record { now = 70; correlation_id = "id"; session_id = id }

abbrev world : World
world = record { login_meter = []; meter = []; commands = [] }

-- A session that was minted at 7.
abbrev cookie_text : Text
cookie_text = codes "theme=dark; sharpn_session=ab.107.kab107"

abbrev held : Session
held = record { id = id; expires_at = 107 }

abbrev switch_off : Request
switch_off = record {
  method = "PATCH";
  path = "api" ∷ "v1" ∷ "lights" ∷ "lamp" ∷ [];
  cookie_header = some cookie_text;
  origin = some "here";
  host = some "here";
  ip = none;
  body = parsed (obj (field "on" (bool false) end));
}

switch_off_own : passes_csrf process draws switch_off ≡ true
unfolding passes_csrf
switch_off_own = refl

switch_off_verified :
    session_of process draws (session_cookie_of switch_off.cookie_header) ≡ some held
unfolding session_cookie_of cookie_named value_in cut_first cut_last verify verified check_signature
    read_payload number unexpired session_from value value_from
switch_off_verified = refl

handle-IsPassedOn_example :
    ((handle process draws switch_off world).0.commands ≡ [])
    ⊎ ((light : String) × (c : LightCommand) × ((handle process draws switch_off world).0.commands
          ≡ (light, c) ∷ [])
        × IsPassedOn process draws switch_off world light c
        × IsSendable c)
handle-IsPassedOn_example = handle-IsPassedOn process draws switch_off world

handle_renews_example :
    set_cookie_of process draws (handle process draws switch_off world).1
    ≡ some (cookie (set_session_cookie (renew keys 70 held).value 100))
handle_renews_example =
    handle_renews process draws switch_off world held switch_off_own refl switch_off_verified

-- The same with no session, or from another page.
abbrev stranger : Request
stranger = record switch_off { cookie_header = none }

stranger_own : passes_csrf process draws stranger ≡ true
unfolding passes_csrf
stranger_own = refl

stranger_unknown : session_of process draws (session_cookie_of none) ≡ none
unfolding session_cookie_of cookie_named
stranger_unknown = refl

handle_unauthenticated_example :
    ((handle process draws stranger world).0 ≡ world)
    × ((handle process draws stranger world).1.status ≡ 401)
handle_unauthenticated_example =
    handle_unauthenticated process draws stranger world stranger_own refl stranger_unknown

abbrev forged : Request
forged = record switch_off { origin = some "there" }

forged_foreign : passes_csrf process draws forged ≡ false
unfolding passes_csrf
forged_foreign = refl

-- A sign-in with a body that is too large.
abbrev guess : Request
guess = record switch_off {
  method = "POST";
  path = "api" ∷ "v1" ∷ "session" ∷ [];
  cookie_header = none;
  ip = some "guest";
  body = too_large;
}

guess_own : passes_csrf process draws guess ≡ true
unfolding passes_csrf
guess_own = refl

handle-sign_in_counted_example :
    (handle process draws guess world).0.login_meter
    ≡ (spend login_attempts_per_minute "guest" 70 []).0
handle-sign_in_counted_example =
    handle-sign_in_counted process draws guess world guess_own refl refl

-- The same after five.
abbrev tired : World
tired = record world { login_meter = ("guest", 1 ∷ 2 ∷ 3 ∷ 4 ∷ 5 ∷ []) ∷ [] }

tired_refusal : (spend login_attempts_per_minute "guest" 70 tired.login_meter).1 ≡ refused 60
unfolding spend decide sweep lookup
tired_refusal = refl

-- Two cookies.
abbrev jar : List (Text × Text)
jar = (session_cookie_name, codes "ab") ∷ []

abbrev theme : Text × Text
theme = (codes "theme", codes "dark")

theme-IsCookie : IsCookie theme
theme-IsCookie = record {
  name_whole = ground arith;
  value_whole = ground arith;
  name_plain = ground arith;
  name_trimmed = refl;
  value_trimmed = refl;
}

session-IsCookie : IsCookie (session_cookie_name, codes "ab")
session-IsCookie = record {
  name_whole = ground arith;
  value_whole = ground arith;
  name_plain = ground arith;
  name_trimmed = refl;
  value_trimmed = refl;
}

cookie_named-header_of_example :
    cookie_named session_cookie_name (some (header_of theme jar))
    ≡ first_named session_cookie_name (theme ∷ jar)
cookie_named-header_of_example =
    cookie_named-header_of session_cookie_name theme jar theme-IsCookie (session-IsCookie, tt)
