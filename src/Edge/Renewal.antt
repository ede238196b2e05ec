-- ===== src/Edge/Renewal.antt =====
-- The sliding session of apps/console-api/src/http: what every answer behind a session carries.
use sharpn.Prelude.{
  ℕ, String, ◌≡◌, refl, ◌∙◌, inl, inr, true, false, ◌||◌, Option, none, some, Bool-cases,
}
use sharpn.Prelude.Maps.{lookup}
use sharpn.Request.{
  BodyRead, parsed, too_large, unreadable, Request, Answered, changes_nothing, under, Route,
  healthz, readyz, version_of, sign_in, sign_out, list_lights, events, options_of, unserved,
  get_light, update_light, route_of,
}
use sharpn.Request.Routing.{sets_cookie, sets_cookie-route_of}
use sharpn.Edge.{
  Process, World, Draws, blank, passes_csrf, session_of, require_session, update_with, serve,
  read_body, go_on_metered, meter_mutations, gated, handle, refuse_now,
}
use sharpn.Session.{Session, renew}
use sharpn.Command.{Json, LightCommandReading, ok, refused, read_light_command}
use sharpn.Meter.{Sent, Spend, allowed, refused as too_fast, spend, mutations_per_minute}
use sharpn.Cookie.{session_cookie_of, set_session_cookie}
use sharpn.Answer.{HeaderValue, set_header, cookie}
use sharpn.Answer.Laws.{refuse_without_asking-header, relay-header, set_header-lookup}
use sharpn.Errors.{ErrorCode, too_many_requests, invalid_request}

module _ (p : Process) (draws : Draws) where
  -- The cookie of a response.
  abbrev pub set_cookie_of : Answered → Option HeaderValue
  set_cookie_of response = lookup "Set-Cookie" response.headers

  refused_keeps :
      (code : ErrorCode) (detail : Option String) (seconds : Option ℕ) (response : Answered)
      → set_cookie_of (refuse_now p draws code detail seconds response) ≡ set_cookie_of response
  refused_keeps code detail seconds response =
      refuse_without_asking-header "Set-Cookie" code detail seconds draws.correlation_id response
        refl refl

  update_keeps :
      (body : Json) (id : String) (r : LightCommandReading) (w : World) (response : Answered)
      → set_cookie_of (update_with p draws body id r w response).1 ≡ set_cookie_of response
  update_keeps body id (refused code) w response =
      refused_keeps code (some (p.prose body)) none response
  update_keeps body id (ok c) w response =
      relay-header "Set-Cookie" (p.update_light id c) response refl refl

  serve_keeps :
      (request : Request) (body : Json) (w : World) (response : Answered) (route : Route)
      → sets_cookie route ≡ false
      → set_cookie_of (serve p draws request body route w response).1 ≡ set_cookie_of response
  unfolding serve
  serve_keeps request body w response healthz h = refl
  serve_keeps request body w response readyz h = refl
  serve_keeps request body w response version_of h = refl
  serve_keeps request body w response sign_in h = cc
  serve_keeps request body w response sign_out h = cc
  serve_keeps request body w response list_lights h =
      relay-header "Set-Cookie" p.list_lights response refl refl
  serve_keeps request body w response (get_light id) h =
      relay-header "Set-Cookie" (p.get_light id) response refl refl
  serve_keeps request body w response (update_light id) h =
      update_keeps body id (read_light_command p.zod body) w response
  serve_keeps request body w response events h = refl
  serve_keeps request body w response options_of h = refl
  serve_keeps request body w response unserved h = refused_keeps invalid_request _ none response

  module _ (request : Request)
      (behind : (under "lights" request.path || under "events" request.path) ≡ true) where
    read_body_keeps :
        (w : World) (response : Answered) (b : BodyRead)
        → set_cookie_of (read_body p draws request b w response).1 ≡ set_cookie_of response
    unfolding read_body
    read_body_keeps w response (parsed body) =
        serve_keeps request body w response (route_of request.method request.path)
          (sets_cookie-route_of request.method request.path behind)
    read_body_keeps w response too_large = refused_keeps invalid_request _ none response
    read_body_keeps w response (unreadable message) = refused_keeps invalid_request _ none response

    metered_keeps :
        (w : World) (response : Answered) (outcome : Sent × Spend)
        → set_cookie_of (go_on_metered p draws request w response outcome).1
          ≡ set_cookie_of response
    metered_keeps w response (sent, allowed) =
        read_body_keeps (record w { meter = sent }) response request.body
    metered_keeps w response (sent, too_fast seconds) =
        refused_keeps too_many_requests none (some seconds) response

    meter_mutations_keeps :
        (w : World) (session : Session) (response : Answered)
        → set_cookie_of (meter_mutations p draws request w session response).1
          ≡ set_cookie_of response
    unfolding meter_mutations
    meter_mutations_keeps w session response = elim (Bool-cases (changes_nothing request.method)) [
      | inl reads ↦ rw (reads, meter_mutations) (read_body_keeps w response request.body)
      | inr writes ↦
          rw (writes, meter_mutations)
            (metered_keeps w response
              (spend mutations_per_minute (p.key_of session.id) draws.now w.meter))
    ]

    gated_renews :
        (w : World) (session : Session)
        → session_of p draws (session_cookie_of request.cookie_header) ≡ some session
        → set_cookie_of (gated p draws request w).1
          ≡ some (
              cookie (set_session_cookie (renew p.keys draws.now session).value p.keys.duration_ms))
    unfolding gated require_session
    gated_renews w session verified =
        let reissued : HeaderValue =
          cookie (set_session_cookie (renew p.keys draws.now session).value p.keys.duration_ms) in
        elim (Bool-cases (under "lights" request.path)) [
          | inl lit ↦
              rw (lit, verified, gated)
                (meter_mutations_keeps w session (set_header "Set-Cookie" reissued blank)
                  ∙ set_header-lookup "Set-Cookie" reissued blank)
          | inr dark ↦
              rw (dark, rw dark at behind, verified, gated)
                (read_body_keeps w (set_header "Set-Cookie" reissued blank) request.body
                  ∙ set_header-lookup "Set-Cookie" reissued blank)
        ]

  -- Whatever a request behind a session comes to, a refused one included, if it comes from an
  -- own page with a session that verifies then its answer carries a cookie for that session,
  -- renewed.
  pub handle_renews :
      (request : Request) (w : World) (session : Session)
      → passes_csrf p draws request ≡ true
      → (under "lights" request.path || under "events" request.path) ≡ true
      → session_of p draws (session_cookie_of request.cookie_header) ≡ some session
      → set_cookie_of (handle p draws request w).1
        ≡ some
            (cookie (set_session_cookie (renew p.keys draws.now session).value p.keys.duration_ms))
  unfolding handle
  handle_renews request w session own behind verified =
      rw (own, handle) (gated_renews request behind w session verified)
