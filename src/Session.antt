-- ===== src/Session.antt =====
-- apps/console-api/src/auth/session.ts: the signed cookie that a browser holds.
-- The HMAC, the random ids and the clock are parameters; times are whole milliseconds.
pub mod Signing
use sharpn.Prelude.{
  ℕ, zero, suc, ◌+◌, ◌-◌, ◌*◌, ◌/◌, ◌%◌, ◌≤◌, ◌<◌, min, max, String, ◌≡◌, refl, sym, ap, subst, ◌∙◌,
  ◌≢◌, ◌↔◌, ◌⊎◌, inl, inr, Bool, true, false, ◌&&◌, ◌||◌, not, Option, none, some, List, [], ◌∷◌,
  ◌++◌, map, arith, ltb, leb, ◌==◌, str_eq, if◌then◌else◌, ltb→lt, lt→ltb, leb→le, str_eq_iff,
  str_eq_refl, Bool-cases, Option-cases, or_else, is_some, length, get_elem?, head?, length-append,
  keep, all, any, All,
}
use sharpn.Prelude.Maps.{
  lookup, insert, delete, lookup-insert, lookup-insert_self, lookup-delete, Distinct,
  insert-Distinct,
}
use sharpn.Prelude.Decimal.{Text, print, value, is_numeral}
use sharpn.Prelude.Cutting.{cut_first, cut_last}

-- 30 days.
abbrev pub session_duration_ms : ℕ
session_duration_ms = 30 * 24 * 60 * 60 * 1000

pub record Session : Type 0 where
  pub id : Text
  pub expires_at : ℕ

pub record SignedSession : Type 0 where
  pub value : Text
  pub session : Session

-- `===` between texts, which `constantTimeEqual` decides in constant time.
abbrev pub constant_time_equal : Text → Text → Bool
constant_time_equal [] [] = true
constant_time_equal [] (b ∷ bs) = false
constant_time_equal (a ∷ as') [] = false
constant_time_equal (a ∷ as') (b ∷ bs) = a == b && constant_time_equal as' bs

-- `s.slice(0, -1)`.
abbrev pub drop_last : Text → Text
drop_last [] = []
drop_last (c ∷ []) = []
drop_last (c ∷ d ∷ cs) = c ∷ drop_last (d ∷ cs)

-- `payload.slice(0, separator)` and `payload.slice(separator + 1)`, where `separator` is the index
-- of the first dot, or -1.
abbrev pub id_and_expiry : Text → Text × Text
id_and_expiry payload = or_else (cut_first b'.' payload) (drop_last payload, payload)

-- What the process is given. `sign secret payload` is the HMAC in base64url. `other_number` is what
-- `Number` makes of a text that is not all digits, rounded up to a whole number that is not
-- negative, and `none` where it is not finite.
pub record Keys : Type 0 where
  pub sign : Text → Text → Text
  pub other_number : Text → Option ℕ
  pub secret : Text
  pub duration_ms : ℕ

pub payload_of : Session → Text
payload_of session = session.id ++ b'.' ∷ print session.expires_at

unfoldable pub session_from : Text → Option ℕ → Option Session
session_from [] expires_at = none
session_from (c ∷ id) none = none
session_from (c ∷ id) (some expires_at) = some (record { id = c ∷ id; expires_at = expires_at })

unfoldable pub unexpired : ℕ → Option Session → Option Session
unexpired now none = none
unexpired now (some session) = if leb session.expires_at now then none else some session

module _ (keys : Keys) where
  open keys use {sign, other_number, secret, duration_ms}

  pub signed : Session → SignedSession
  unfolding payload_of
  signed session =
      let payload = payload_of session in
      record { value = payload ++ b'.' ∷ sign secret payload; session = session }

  -- `Number(text)`, which is exact for the digits of every whole number up to 2 ^ 53, and so for every
  -- time that a clock of the language can show. Beyond it the value here is not rounded.
  unfoldable pub number : Text → Option ℕ
  number text = if is_numeral text then some (value text) else other_number text

  unfoldable pub read_payload : Text → Option Session
  read_payload payload = let (id, expiry) = id_and_expiry payload in session_from id (number expiry)

  unfoldable pub check_signature : Text × Text → Option Session
  check_signature (payload, signature) =
      if not (constant_time_equal signature (sign secret payload))
      then none
      else read_payload payload

  unfoldable pub verified : Text → Option Session
  verified value = elim (cut_last b'.' value) [ none ↦ none | some parts ↦ check_signature parts ]

  -- `randomBytes(16).toString("hex")` is the argument.
  pub mint : Text → ℕ → SignedSession
  mint id now = signed (record { id = id; expires_at = now + duration_ms })

  unfoldable pub verify : ℕ → Text → Option Session
  verify now value = unexpired now (verified value)

  pub renew : ℕ → Session → SignedSession
  renew now session = signed (record session { expires_at = now + duration_ms })
