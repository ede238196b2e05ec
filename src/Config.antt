-- ===== src/Config.antt =====
-- apps/console-api/src/config.ts: what the process is told before it starts, and what it refuses to
-- start without. The environment is an association list; the prose of a refusal is left out.
pub mod Starting
use sharpn.Prelude.{
  ℕ, zero, suc, ◌+◌, ◌-◌, ◌*◌, ◌/◌, ◌%◌, ◌≤◌, ◌<◌, min, max, String, ◌≡◌, refl, sym, ap, subst, ◌∙◌,
  ◌≢◌, ◌↔◌, ◌⊎◌, inl, inr, Bool, true, false, ◌&&◌, ◌||◌, not, Option, none, some, List, [], ◌∷◌,
  ◌++◌, map, arith, ltb, leb, ◌==◌, str_eq, if◌then◌else◌, ltb→lt, lt→ltb, leb→le, str_eq_iff,
  str_eq_refl, Bool-cases, Option-cases, or_else, is_some, length, get_elem?, head?, length-append,
  keep, all, any, All,
}
use sharpn.Prelude.Maps.{
  lookup, insert, delete, lookup-insert, lookup-insert_self, lookup-delete, Distinct,
  insert-Distinct,
}
use sharpn.Prelude.Decimal.{Text, codes, value, is_numeral}
use sharpn.Session.{session_duration_ms}

-- What stops the process from starting.
pub data Fault : Type 0 where
  not_set : String → Fault
  not_a_port : Text → Fault
  not_a_duration : Text → Fault

-- What is read of the environment, or the fault that is thrown.
pub data Attempt {ℓ} (X : Type ℓ) : Type ℓ where
  throws : Fault → Attempt X
  ok : X → Attempt X

infixl 4 ◌>>=◌
abbrev pub ◌>>=◌ {ℓ} : {X Y : Type ℓ} → Attempt X → (X → Attempt Y) → Attempt Y
throws fault >>= next = throws fault
ok x >>= next = next x

abbrev pub Environment : Type 0
Environment = List (String × Text)

pub record GatewayConfig : Type 0 where
  pub target : Text
  pub certificate_file : Text
  pub token_file : Text

pub record AuthConfig : Type 0 where
  pub password_hash_file : Text
  pub session_secret_file : Text
  pub session_duration_ms : ℕ

pub record Version : Type 0 where
  pub sha : Text
  pub proto : Text

pub record Settings : Type 0 where
  pub port : ℕ
  pub gateway : GatewayConfig
  pub auth : AuthConfig
  pub version : Version

abbrev pub is_blank : Text → Bool
is_blank [] = true
is_blank (c ∷ cs) = false

-- A value that was found, unless it is empty.
abbrev pub set_or : String → Option Text → Attempt Text
set_or name none = throws (not_set name)
set_or name (some value) = if is_blank value then throws (not_set name) else ok value

pub required : Environment → String → Attempt Text
required env name = set_or name (lookup name env)

abbrev pub in_secrets : String → Text
in_secrets name = codes "/run/secrets" ++ b'/' ∷ codes name

-- A numeral up to here is read exactly.
abbrev pub exact_below : ℕ
exact_below = 9007199254740992

-- The settings, once the three values that may be refused are read.
pub settings_with : Environment → ℕ → Text → ℕ → Settings
settings_with env port target duration = record {
  port = port;
  gateway = record {
    target = target;
    certificate_file =
        or_else (lookup "GATEWAY_CERTIFICATE_FILE" env) (in_secrets "gateway-certificate");
    token_file = or_else (lookup "GATEWAY_TOKEN_FILE" env) (in_secrets "gateway-token");
  };
  auth = record {
    password_hash_file = or_else (lookup "PASSWORD_HASH_FILE" env) (in_secrets "password-hash");
    session_secret_file = or_else (lookup "SESSION_SECRET_FILE" env) (in_secrets "session-secret");
    session_duration_ms = duration;
  };
  version = record {
    sha = or_else (lookup "GIT_SHA" env) (codes "unknown");
    proto = or_else (lookup "PROTO_REVISION" env) (codes "unknown");
  };
}

-- `other_number` is what `Number` makes of any other text, where that is a whole number that is not
-- negative, and `none` where it is not one.
module _ (other_number : Text → Option ℕ) where
  abbrev pub whole_number : Text → Option ℕ
  whole_number text =
      if is_numeral text && ltb (value text) exact_below
      then some (value text)
      else other_number text

  abbrev pub checked_port : Text → Option ℕ → Attempt ℕ
  checked_port text none = throws (not_a_port text)
  checked_port text (some port) =
      if ltb port 1 || ltb 65535 port then throws (not_a_port text) else ok port

  pub port_from : Option Text → Attempt ℕ
  port_from none = ok 3000
  port_from (some text) = checked_port text (whole_number text)

  abbrev pub checked_duration : Text → Option ℕ → Attempt ℕ
  checked_duration text none = throws (not_a_duration text)
  checked_duration text (some duration) =
      if ltb duration 1 then throws (not_a_duration text) else ok duration

  pub session_duration_ms_from : Option Text → Attempt ℕ
  session_duration_ms_from none = ok session_duration_ms
  session_duration_ms_from (some text) = checked_duration text (whole_number text)

  pub settings_from : Environment → Attempt Settings
  settings_from env = do
    port ← port_from (lookup "PORT" env)
    target ← required env "GATEWAY_TARGET"
    duration ← session_duration_ms_from (lookup "SESSION_DURATION_MS" env)
    ok (settings_with env port target duration)
