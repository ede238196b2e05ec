-- ===== src/Config/Starting.antt =====
-- When apps/console-api/src/config.ts lets the process start.
use sharpn.Prelude.{ℕ, ◌≤◌, String, ◌≡◌, refl, subst, ◌≢◌, ◌↔◌, Option, none, some, [], ◌∷◌, arith}
use sharpn.Prelude.Maps.{lookup}
use sharpn.Prelude.Decimal.{Text}
use sharpn.Config.{
  settings_with, Attempt, ok, throws, ◌>>=◌, Environment, Settings, required, set_or, whole_number,
  port_from, session_duration_ms_from, checked_port, checked_duration, settings_from,
}

-- A text that is given, if any is, reads as a number that fits.
abbrev pub Fits : (Text → Option ℕ) → (ℕ → Type 0) → Option Text → Type 0
Fits number P none = Unit {0}
Fits number P (some text) = (n : ℕ) × (number text ≡ some n) × P n

abbrev pub IsPort : ℕ → Type 0
IsPort n = (1 ≤ n) × (n ≤ 65535)

abbrev pub IsGiven : Option Text → Type 0
IsGiven none = ⊥
IsGiven (some text) = text ≢ []

-- What the environment has to say for the process to start.
pub record IsComplete (other_number : Text → Option ℕ) (env : Environment) : Type 0 where
  pub port : Fits (whole_number other_number) IsPort (lookup "PORT" env)
  pub target : IsGiven (lookup "GATEWAY_TARGET" env)
  pub duration : Fits (whole_number other_number) (λ n. 1 ≤ n) (lookup "SESSION_DURATION_MS" env)

-- What the process may rely on.
pub record IsRunnable (s : Settings) : Type 0 where
  pub port : IsPort s.port
  pub target : s.gateway.target ≢ []
  pub duration : 1 ≤ s.auth.session_duration_ms

module _ (other_number : Text → Option ℕ) where
  port-Fits :
      (o : Option Text)
      → Fits (whole_number other_number) IsPort o
      → (n : ℕ) × (port_from other_number o ≡ ok n)
  unfolding port_from
  port-Fits none f = (3000, refl)
  port-Fits (some text) (n, reads, (low, high)) = (n, rw reads (ground arith))

  checked_port_ok :
      (text : Text) (o : Option ℕ) (n : ℕ)
      → checked_port other_number text o ≡ ok n
      → (o ≡ some n) × IsPort n
  checked_port_ok text none n h = cc
  checked_port_ok text (some m) n h = ground arith

  port_from_ok :
      (o : Option Text) (n : ℕ)
      → port_from other_number o ≡ ok n
      → Fits (whole_number other_number) IsPort o × IsPort n
  unfolding port_from
  port_from_ok none n h = (tt, ground arith)
  port_from_ok (some text) n h =
      let (reads, fits) = checked_port_ok text (whole_number other_number text) n h in
      ((n, reads, fits), fits)

  checked_duration_ok :
      (text : Text) (o : Option ℕ) (n : ℕ)
      → checked_duration other_number text o ≡ ok n
      → (o ≡ some n) × (1 ≤ n)
  checked_duration_ok text none n h = cc
  checked_duration_ok text (some m) n h = ground arith

  duration_from_ok :
      (o : Option Text) (n : ℕ)
      → session_duration_ms_from other_number o ≡ ok n
      → Fits (whole_number other_number) (λ n. 1 ≤ n) o × (1 ≤ n)
  unfolding session_duration_ms_from
  duration_from_ok none n h = (tt, ground arith)
  duration_from_ok (some text) n h =
      let (reads, fits) = checked_duration_ok text (whole_number other_number text) n h in
      ((n, reads, fits), fits)

  duration-Fits :
      (o : Option Text)
      → Fits (whole_number other_number) (λ n. 1 ≤ n) o
      → (n : ℕ) × (session_duration_ms_from other_number o ≡ ok n)
  unfolding session_duration_ms_from
  duration-Fits none f = (_, refl)
  duration-Fits (some text) (n, reads, low) = (n, rw reads (ground arith))

target_given : (name : String) (o : Option Text) → IsGiven o → (t : Text) × (set_or name o ≡ ok t)
target_given name none g = absurd g
target_given name (some []) g = absurd (g refl)
target_given name (some (c ∷ cs)) g = (c ∷ cs, refl)

set_or_ok :
    (name : String) (o : Option Text) (t : Text) → set_or name o ≡ ok t → IsGiven o × (t ≢ [])
set_or_ok name none t h = cc
set_or_ok name (some []) t h = cc
set_or_ok name (some (c ∷ cs)) t h = ((λ e. cc), (λ e. cc))

-- An attempt that gave something had something to go on with.
then_ok {ℓ} :
    {X Y : Type ℓ} (attempt : Attempt X) (next : X → Attempt Y) {y : Y}
    → (attempt >>= next) ≡ ok y
    → (x : X) × (attempt ≡ ok x) × (next x ≡ ok y)
then_ok (throws fault) next gave = cc
then_ok (ok x) next gave = (x, refl, gave)

settings_with-IsRunnable :
    (env : Environment) (port : ℕ) (target : Text) (duration : ℕ)
    → IsPort port
    → target ≢ []
    → 1 ≤ duration
    → IsRunnable (settings_with env port target duration)
unfolding settings_with
settings_with-IsRunnable env port target duration p t d = record {
  port = p;
  target = t;
  duration = d;
}

ok_inj : {s t : Settings} → ok s ≡ ok t → s ≡ t
ok_inj h = cc

settings_from_ok :
    (other_number : Text → Option ℕ) (env : Environment) (s : Settings)
    → settings_from other_number env ≡ ok s
    → IsComplete other_number env × IsRunnable s
unfolding settings_from required
settings_from_ok other_number env s h =
    let (port, p, h1) = then_ok (port_from other_number (lookup "PORT" env)) _ h in
    let (target, t, h2) = then_ok (set_or "GATEWAY_TARGET" (lookup "GATEWAY_TARGET" env)) _ h1 in
    let (duration, d, h3) =
      then_ok (session_duration_ms_from other_number (lookup "SESSION_DURATION_MS" env)) _ h2 in
    let (port_fits, port_in) = port_from_ok other_number _ port p in
    let (given, target_in) = set_or_ok "GATEWAY_TARGET" _ target t in
    let (duration_fits, duration_in) = duration_from_ok other_number _ duration d in
    (
      record { port = port_fits; target = given; duration = duration_fits },
      subst IsRunnable (ok_inj h3)
          (settings_with-IsRunnable env port target duration port_in target_in duration_in),
    )

starts :
    (other_number : Text → Option ℕ) (env : Environment)
    → IsComplete other_number env
    → (s : Settings) × (settings_from other_number env ≡ ok s) × IsRunnable s
unfolding settings_from required
starts other_number env c =
    let (port, p) = port-Fits other_number _ c.port in
    let (target, t) = target_given "GATEWAY_TARGET" _ c.target in
    let (duration, d) = duration-Fits other_number _ c.duration in
    let runs : settings_from other_number env ≡ ok (settings_with env port target duration) =
      (rw (p, t, d) refl) in
    (
      settings_with env port target duration,
      runs,
      (settings_from_ok other_number env (settings_with env port target duration) runs).1,
    )

-- An environment lets the process start, with a port from 1 to 65535, a Gateway and a positive
-- session duration, exactly where the port that it names, if any, is a whole number in that range,
-- it names the Gateway by a text that is not empty, and the session duration that it names, if
-- any, is a positive whole number.
pub settings_from-starts_iff :
    (other_number : Text → Option ℕ) (env : Environment)
    → IsComplete other_number env
      ↔ ((s : Settings) × (settings_from other_number env ≡ ok s) × IsRunnable s)
settings_from-starts_iff other_number env =
    (starts other_number env, λ p. (settings_from_ok other_number env p.0 p.1).0)
