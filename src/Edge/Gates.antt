-- ===== src/Edge/Gates.antt =====
-- Who is turned away by apps/console-api/src/http before a body is read, and what that leaves behind.
use sharpn.Prelude.{
  ℕ, String, ◌≡◌, refl, ap, ◌∙◌, inl, inr, true, false, ◌||◌, none, some, List, [], ◌∷◌, arith,
  str_eq, str_eq_iff, Bool-cases, or_else,
}
use sharpn.Prelude.Maps.{lookup}
use sharpn.Request.{
  BodyRead, parsed, too_large, unreadable, Request, Answered, under, Route, healthz, update_light,
  route_of,
}
use sharpn.Edge.{
  Process, World, Draws, blank, passes_csrf, session_of, require_session, update_with, serve,
  read_body, go_on_counted, login_rate_limit, gated, handle, csrf_detail,
}
use sharpn.Command.{Json, LightCommandReading, ok, refused, read_light_command}
use sharpn.Meter.{Sent, Spend, allowed, refused as too_fast, spend, login_attempts_per_minute}
use sharpn.Cookie.{session_cookie_of}
use sharpn.Answer.{number}
use sharpn.Answer.Laws.{refuse_without_asking-status, refuse_without_asking-retry_after}
use sharpn.Errors.{csrf_rejected, not_authenticated, too_many_requests}

module _ (p : Process) (draws : Draws) where
  -- A change that did not come from this service's own host is answered 403, and leaves
  -- everything as it was.
  pub handle_foreign :
      (request : Request) (w : World)
      → passes_csrf p draws request ≡ false
      → ((handle p draws request w).0 ≡ w) × ((handle p draws request w).1.status ≡ 403)
  unfolding handle
  handle_foreign request w foreign = rw foreign (
    refl,
    refuse_without_asking-status csrf_rejected (some (csrf_detail p draws request.origin)) none
        draws.correlation_id blank,
  )

  behind_session :
      (request : Request) (w : World)
      → (under "lights" request.path || under "events" request.path) ≡ true
      → session_of p draws (session_cookie_of request.cookie_header) ≡ none
      → ((gated p draws request w).0 ≡ w) × ((gated p draws request w).1.status ≡ 401)
  unfolding gated require_session
  behind_session request w behind missing = elim (Bool-cases (under "lights" request.path)) [
    | inl lit ↦
        rw (lit, missing)
          (
            refl,
            refuse_without_asking-status not_authenticated
                (some "no session, or one that has expired") none draws.correlation_id blank,
          )
    | inr dark ↦
        rw (dark, rw dark at behind, missing)
          (
            refl,
            refuse_without_asking-status not_authenticated
                (some "no session, or one that has expired") none draws.correlation_id blank,
          )
  ]

  -- Whatever is asked of a Light or of the event stream without a session that verifies is
  -- answered 401, if it comes from an own page, and leaves everything as it was.
  pub handle_unauthenticated :
      (request : Request) (w : World)
      → passes_csrf p draws request ≡ true
      → (under "lights" request.path || under "events" request.path) ≡ true
      → session_of p draws (session_cookie_of request.cookie_header) ≡ none
      → ((handle p draws request w).0 ≡ w) × ((handle p draws request w).1.status ≡ 401)
  unfolding handle
  handle_unauthenticated request w own behind missing =
      rw own (behind_session request w behind missing)

  serve-login_meter :
      (request : Request) (body : Json) (w : World) (response : Answered) (route : Route)
      → (serve p draws request body route w response).0.login_meter ≡ w.login_meter
  unfolding serve
  serve-login_meter request body w response (update_light id) =
      updated (read_light_command p.zod body)
    where
      updated :
          (r : LightCommandReading)
          → (update_with p draws body id r w response).0.login_meter ≡ w.login_meter
      updated (refused code) = refl
      updated (ok c) = refl
  serve-login_meter request body w response healthz = refl
  serve-login_meter request body w response _ = refl

  read_body-login_meter :
      (request : Request) (w : World) (response : Answered) (b : BodyRead)
      → (read_body p draws request b w response).0.login_meter ≡ w.login_meter
  unfolding read_body
  read_body-login_meter request w response (parsed body) =
      serve-login_meter request body w response (route_of request.method request.path)
  read_body-login_meter request w response too_large = refl
  read_body-login_meter request w response (unreadable message) = refl

  counted-login_meter :
      (request : Request) (w : World) (outcome : Sent × Spend)
      → (go_on_counted p draws request w outcome).0.login_meter ≡ outcome.0
  counted-login_meter request w (sent, allowed) =
      read_body-login_meter request (record w { login_meter = sent }) blank request.body
  counted-login_meter request w (sent, too_fast seconds) = refl

  -- A path is under one name only.
  under_session :
      (path : List String)
      → under "session" path ≡ true
      → (under "lights" path ≡ false) × (under "events" path ≡ false)
  under_session [] h = cc
  under_session (a ∷ []) h = cc
  under_session (a ∷ b ∷ []) h = cc
  under_session (a ∷ b ∷ c ∷ rest) h = rw ((str_eq_iff c "session").0 (ground arith)) (ground arith)

  signing_in :
      (request : Request) (w : World)
      → passes_csrf p draws request ≡ true
      → under "session" request.path ≡ true
      → request.method ≡ "POST"
      → handle p draws request w
        ≡ go_on_counted p draws request w
            (spend login_attempts_per_minute (or_else request.ip "unknown") draws.now w.login_meter)
  unfolding handle gated login_rate_limit
  signing_in request w own signs post =
      let (dark, silent) = under_session request.path signs in
      rw (own, dark, silent, signs, ap (λ m. str_eq m "POST") post) refl

  -- A sign-in from an own page is counted against the address that it came from whatever its
  -- body is, and so before that is read.
  pub handle-sign_in_counted :
      (request : Request) (w : World)
      → passes_csrf p draws request ≡ true
      → under "session" request.path ≡ true
      → request.method ≡ "POST"
      → (handle p draws request w).0.login_meter
        ≡ (spend login_attempts_per_minute (or_else request.ip "unknown") draws.now w.login_meter).0
  handle-sign_in_counted request w own signs post =
      ap (λ r. r.0.login_meter) (signing_in request w own signs post)
      ∙ counted-login_meter request w
          (spend login_attempts_per_minute (or_else request.ip "unknown") draws.now w.login_meter)

  counted_refused :
      (request : Request) (w : World) (seconds : ℕ) (outcome : Sent × Spend)
      → outcome.1 ≡ too_fast seconds
      → ((go_on_counted p draws request w outcome).1.status ≡ 429)
        × (lookup "Retry-After" (go_on_counted p draws request w outcome).1.headers
            ≡ some (number seconds))
  counted_refused request w seconds (sent, allowed) e = cc
  counted_refused request w seconds (sent, too_fast s) e = (
    refuse_without_asking-status too_many_requests none (some s) draws.correlation_id blank,
    refuse_without_asking-retry_after too_many_requests none s draws.correlation_id blank refl
        ∙ ap (λ n. some (number n)) (same e),
  )
    where
      same : {a b : ℕ} → too_fast a ≡ too_fast b → a ≡ b
      same q = cc

  -- A sign-in that the meter refuses is answered 429, with the seconds that the meter names,
  -- whatever password it carries.
  pub handle-sign_in_refused :
      (request : Request) (w : World) (seconds : ℕ)
      → passes_csrf p draws request ≡ true
      → under "session" request.path ≡ true
      → request.method ≡ "POST"
      → (spend login_attempts_per_minute (or_else request.ip "unknown") draws.now w.login_meter).1
        ≡ too_fast seconds
      → ((handle p draws request w).1.status ≡ 429)
        × (lookup "Retry-After" (handle p draws request w).1.headers ≡ some (number seconds))
  handle-sign_in_refused request w seconds own signs post full =
      rw (signing_in request w own signs post) (counted_refused request w seconds _ full)
