-- ===== src/Edge/Commands.antt =====
-- When apps/console-api/src/http passes a Command on to the Gateway.
use sharpn.Prelude.{
  String, ◌≡◌, refl, sym, ◌∙◌, ◌≢◌, ◌⊎◌, inl, inr, true, false, Option, none, some, ◌∷◌, str_eq,
  Bool-cases, or_else,
}
use sharpn.Request.{
  BodyRead, parsed, too_large, unreadable, Request, Answered, changes_nothing, under, Route,
  healthz, update_light, route_of,
}
use sharpn.Edge.{
  Process, World, Draws, blank, passes_csrf, session_of, renewed, require_session, update_with,
  serve, read_body, go_on_metered, meter_mutations, lights_gate, events_gate, go_on_counted,
  login_rate_limit, gated, handle,
}
use sharpn.Session.{Session, renew}
use sharpn.Command.{Json, LightCommand, LightCommandReading, ok, refused, read_light_command}
use sharpn.Meter.{
  Sent, Spend, allowed, refused as too_fast, spend, mutations_per_minute, login_attempts_per_minute,
}
use sharpn.Cookie.{session_cookie_of, set_session_cookie}
use sharpn.Answer.{set_header, cookie}
use sharpn.Request.Routing.{route_of-update_light}
use sharpn.Command.Reading.{IsSendable, read-IsSendable}

module _ (p : Process) (draws : Draws) where
  -- All that a request has to come with, for a Command of its to be passed on.
  pub record IsPassedOn (request : Request) (w : World) (id : String) (c : LightCommand)
      : Type 0 where
    pub own_page : passes_csrf p draws request ≡ true
    pub session : Session
    pub verified : session_of p draws (session_cookie_of request.cookie_header) ≡ some session
    pub within_limit :
        (spend mutations_per_minute (p.key_of session.id) draws.now w.meter).1 ≡ allowed
    pub body : Json
    pub said : request.body ≡ parsed body
    pub read : read_light_command p.zod body ≡ ok c
    pub route : route_of request.method request.path ≡ update_light id

  -- Either nothing is passed on, or one Command is, of a request that has it all.
  abbrev IsOwned : Request → World → World → Type 0
  IsOwned request w v =
      (v.commands ≡ w.commands)
      ⊎ ((id : String) × (c : LightCommand) × (v.commands ≡ (id, c) ∷ w.commands)
          × IsPassedOn request w id c)

  -- What the routes alone may add.
  abbrev IsServed : Request → World → World → Type 0
  IsServed request w v =
      (v.commands ≡ w.commands)
      ⊎ ((id : String) × (c : LightCommand) × (body : Json) × (v.commands ≡ (id, c) ∷ w.commands)
          × (request.body ≡ parsed body)
          × (read_light_command p.zod body ≡ ok c)
          × (route_of request.method request.path ≡ update_light id))

  update_with-IsServed :
      (request : Request) (body : Json) (id : String) (w : World) (response : Answered)
      → request.body ≡ parsed body
      → route_of request.method request.path ≡ update_light id
      → (r : LightCommandReading) → read_light_command p.zod body ≡ r
      → IsServed request w (update_with p draws body id r w response).0
  update_with-IsServed request body id w response said route (refused code) e = inl refl
  update_with-IsServed request body id w response said route (ok c) e =
      inr (id, c, body, refl, said, e, route)

  serve-IsServed :
      (request : Request) (body : Json) (w : World) (response : Answered)
      → request.body ≡ parsed body
      → (route : Route) → route_of request.method request.path ≡ route
      → IsServed request w (serve p draws request body route w response).0
  unfolding serve
  serve-IsServed request body w response said (update_light id) e =
      update_with-IsServed request body id w response said e (read_light_command p.zod body) refl
  serve-IsServed request body w response said healthz e = inl refl
  serve-IsServed request body w response said _ e = inl refl

  read_body-IsServed :
      (request : Request) (w : World) (response : Answered) (b : BodyRead)
      → request.body ≡ b
      → IsServed request w (read_body p draws request b w response).0
  unfolding read_body
  read_body-IsServed request w response (parsed body) e =
      serve-IsServed request body w response e (route_of request.method request.path) refl
  read_body-IsServed request w response too_large e = inl refl
  read_body-IsServed request w response (unreadable message) e = inl refl

  -- Off the gate of the Lights nothing is passed on.
  elsewhere :
      (request : Request) (w v : World)
      → under "lights" request.path ≡ false
      → IsServed request w v
      → v.commands ≡ w.commands
  elsewhere request w v dark (inl same) = same
  elsewhere request w v dark (inr (id, c, body, sent, said, read, route)) =
      absurd (clash (sym (route_of-update_light _ _ id route).0 ∙ dark))
    where
      clash : true ≢ false
      clash = λ q. cc

  -- Nor is it by a read.
  by_read :
      (request : Request) (w v : World)
      → changes_nothing request.method ≡ true
      → IsServed request w v
      → v.commands ≡ w.commands
  by_read request w v reads (inl same) = same
  by_read request w v reads (inr (id, c, body, sent, said, read, route)) =
      absurd (clash (sym reads ∙ (route_of-update_light _ _ id route).1))
    where
      clash : true ≢ false
      clash = λ q. cc

  abbrev renewed_response : Session → Answered
  renewed_response session =
      set_header "Set-Cookie"
        (cookie (set_session_cookie (renew p.keys draws.now session).value p.keys.duration_ms))
        blank

  module _ (request : Request) (w : World) (own : passes_csrf p draws request ≡ true) where
    owned :
        (v : World) (session : Session)
        → session_of p draws (session_cookie_of request.cookie_header) ≡ some session
        → (spend mutations_per_minute (p.key_of session.id) draws.now w.meter).1 ≡ allowed
        → IsServed request w v
        → IsOwned request w v
    owned v session verified within (inl same) = inl same
    owned v session verified within (inr (id, c, body, sent, said, read, route)) = inr (
      id,
      c,
      sent,
      record {
        own_page = own;
        session = session;
        verified = verified;
        within_limit = within;
        body = body;
        said = said;
        read = read;
        route = route;
      },
    )

    metered-IsOwned :
        (session : Session) (response : Answered)
        → session_of p draws (session_cookie_of request.cookie_header) ≡ some session
        → (outcome : Sent × Spend)
        → (spend mutations_per_minute (p.key_of session.id) draws.now w.meter).1 ≡ outcome.1
        → IsOwned request w (go_on_metered p draws request w response outcome).0
    metered-IsOwned session response verified (sent, allowed) e =
        owned (read_body p draws request request.body (record w { meter = sent }) response).0
          session verified e
          (read_body-IsServed request (record w { meter = sent }) response request.body refl)
    metered-IsOwned session response verified (sent, too_fast seconds) e = inl refl

    lights-IsOwned :
        (o : Option Session)
        → session_of p draws (session_cookie_of request.cookie_header) ≡ o
        → IsOwned request w (lights_gate p draws request w (renewed p draws o)).0
    unfolding meter_mutations
    lights-IsOwned none e = inl refl
    lights-IsOwned (some session) e = elim (Bool-cases (changes_nothing request.method)) [
      | inl reads ↦
          rw (reads, meter_mutations)
            (inl (
              by_read request w
                (read_body p draws request request.body w (renewed_response session)).0 reads
                (read_body-IsServed request w (renewed_response session) request.body refl)))
      | inr writes ↦
          rw (writes, meter_mutations)
            (metered-IsOwned session (renewed_response session) e
              (spend mutations_per_minute (p.key_of session.id) draws.now w.meter) refl)
    ]

    counted :
        under "lights" request.path ≡ false
        → (outcome : Sent × Spend)
        → (go_on_counted p draws request w outcome).0.commands ≡ w.commands
    counted dark (sent, allowed) =
        elsewhere request (record w { login_meter = sent })
          (read_body p draws request request.body (record w { login_meter = sent }) blank).0 dark
          (read_body-IsServed request (record w { login_meter = sent }) blank request.body refl)
    counted dark (sent, too_fast seconds) = refl

    events-same :
        under "lights" request.path ≡ false
        → (o : Option Session)
        → (events_gate p draws request w (renewed p draws o)).0.commands ≡ w.commands
    events-same dark none = refl
    events-same dark (some session) =
        elsewhere request w (read_body p draws request request.body w (renewed_response session)).0
          dark (read_body-IsServed request w (renewed_response session) request.body refl)

    login-same :
        under "lights" request.path ≡ false
        → (login_rate_limit p draws request w).0.commands ≡ w.commands
    unfolding login_rate_limit
    login-same dark = elim (Bool-cases (str_eq request.method "POST")) [
      | inl post ↦
          rw (post, login_rate_limit)
            (counted dark (
              spend login_attempts_per_minute (or_else request.ip "unknown") draws.now
                w.login_meter))
      | inr other ↦
          rw (other, login_rate_limit)
            (elsewhere request w (read_body p draws request request.body w blank).0 dark
              (read_body-IsServed request w blank request.body refl))
    ]

    gated-IsOwned : IsOwned request w (gated p draws request w).0
    unfolding gated require_session
    gated-IsOwned = elim (Bool-cases (under "lights" request.path)) [
      | inl lit ↦
          rw (lit, gated)
            (lights-IsOwned (session_of p draws (session_cookie_of request.cookie_header)) refl)
      | inr dark ↦ elim (Bool-cases (under "events" request.path)) [
        | inl listens ↦
            rw (dark, listens, gated)
              (inl
                (events-same dark (session_of p draws (session_cookie_of request.cookie_header))))
        | inr silent ↦ elim (Bool-cases (under "session" request.path)) [
          | inl signs ↦ rw (dark, silent, signs, gated) (inl (login-same dark))
          | inr plain ↦
              rw (dark, silent, plain, gated)
                (inl (
                  elsewhere request w (read_body p draws request request.body w blank).0 dark
                    (read_body-IsServed request w blank request.body refl)))
        ]
      ]
    ]

  -- A request passes at most one Command on to the Gateway, and only where it came from a page
  -- of this service, with a session that verifies, within what the session may send in a minute,
  -- by the route that changes a Light, and with a body that is read as that Command.
  pub handle-IsPassedOn :
      (request : Request) (w : World)
      → ((handle p draws request w).0.commands ≡ w.commands)
        ⊎ ((id : String) × (c : LightCommand) × ((handle p draws request w).0.commands
              ≡ (id, c) ∷ w.commands)
            × IsPassedOn request w id c
            × IsSendable c)
  unfolding handle
  handle-IsPassedOn request w = elim (Bool-cases (passes_csrf p draws request)) [
    | inl own ↦ rw (own, handle) (sendable (gated-IsOwned request w own))
    | inr foreign ↦ rw (foreign, handle) (inl refl)
  ]
    where
      sendable :
          IsOwned request w (gated p draws request w).0
          → ((gated p draws request w).0.commands ≡ w.commands)
            ⊎ ((id : String) × (c : LightCommand) × ((gated p draws request w).0.commands
                  ≡ (id, c) ∷ w.commands)
                × IsPassedOn request w id c
                × IsSendable c)
      sendable (inl same) = inl same
      sendable (inr (id, c, sent, passed)) =
          inr (id, c, sent, passed, read-IsSendable p.zod passed.body c passed.read)
