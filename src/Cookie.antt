-- ===== src/Cookie.antt =====
-- apps/console-api/src/http/session.ts: the session cookie on a response and on a request.
pub mod Jar
use sharpn.Prelude.{
  ℕ, zero, suc, ◌+◌, ◌-◌, ◌*◌, ◌/◌, ◌%◌, ◌≤◌, ◌<◌, min, max, String, ◌≡◌, refl, sym, ap, subst, ◌∙◌,
  ◌≢◌, ◌↔◌, ◌⊎◌, inl, inr, Bool, true, false, ◌&&◌, ◌||◌, not, Option, none, some, List, [], ◌∷◌,
  ◌++◌, map, arith, ltb, leb, ◌==◌, str_eq, if◌then◌else◌, ltb→lt, lt→ltb, leb→le, str_eq_iff,
  str_eq_refl, Bool-cases, Option-cases, or_else, is_some, length, get_elem?, head?, length-append,
  keep, all, any, All,
}
use sharpn.Prelude.Maps.{
  lookup, insert, delete, lookup-insert, lookup-insert_self, lookup-delete, Distinct,
  insert-Distinct,
}
use sharpn.Prelude.Decimal.{Text, codes, print}
use sharpn.Prelude.Cutting.{cut_first}
use sharpn.Session.{constant_time_equal}

abbrev pub session_cookie_name : Text
session_cookie_name = codes "sharpn_session"

-- The white space that `trim` takes off.
abbrev pub is_space : ℕ → Bool
is_space c =
    c == 32
    || leb 9 c && leb c 13
    || c == 160
    || c == 5760
    || leb 8192 c && leb c 8202
    || c == 8232
    || c == 8233
    || c == 8239
    || c == 8287
    || c == 12288
    || c == 65279

abbrev pub trim_start : Text → Text
trim_start [] = []
trim_start (c ∷ cs) = if is_space c then trim_start cs else c ∷ cs

abbrev pub unless_blank : ℕ → Text → Text
unless_blank c [] = if is_space c then [] else c ∷ []
unless_blank c (d ∷ ds) = c ∷ d ∷ ds

abbrev pub trim_end : Text → Text
trim_end [] = []
trim_end (c ∷ cs) = unless_blank c (trim_end cs)

abbrev pub trim : Text → Text
trim t = trim_end (trim_start t)

abbrev pub onto_first : ℕ → List Text → List Text
onto_first c [] = (c ∷ []) ∷ []
onto_first c (t ∷ ts) = (c ∷ t) ∷ ts

-- `text.split(c)`, for one character.
abbrev pub split : ℕ → Text → List Text
split c [] = [] ∷ []
split c (x ∷ xs) = if x == c then [] ∷ split c xs else onto_first x (split c xs)

-- The loop over the pairs of a header, and what is done with one that has an `=`.
abbrev pub value_or : Text → Option (Text × Text) → Option Text → Option Text
value_or name none rest = rest
value_or name (some (front, back)) rest =
    if constant_time_equal (trim front) name then some (trim back) else rest

unfoldable pub value_in : Text → List Text → Option Text
value_in name [] = none
value_in name (pair ∷ pairs) = value_or name (cut_first b'=' pair) (value_in name pairs)

unfoldable pub cookie_named : Text → Option Text → Option Text
cookie_named name none = none
cookie_named name (some header) = value_in name (split b';' header)

-- `sessionCookieOf`, of the `Cookie` header.
unfoldable pub session_cookie_of : Option Text → Option Text
session_cookie_of header = cookie_named session_cookie_name header

-- The digits of a fraction of a thousand, without the zeros that end it.
abbrev pub thousandths : ℕ → Text
thousandths n =
    if n % 100 == 0
    then (b'0' + n / 100) ∷ []
    else if n % 10 == 0
    then (b'0' + n / 100) ∷ (b'0' + n / 10 % 10) ∷ []
    else (b'0' + n / 100) ∷ (b'0' + n / 10 % 10) ∷ (b'0' + n % 10) ∷ []

-- `${durationMs / 1000}`.
abbrev pub seconds_of : ℕ → Text
seconds_of ms =
    if ms % 1000 == 0
    then print (ms / 1000)
    else print (ms / 1000) ++ b'.' ∷ thousandths (ms % 1000)

abbrev pub attributes : Text
attributes = codes "; Path=/; HttpOnly; Secure; SameSite=Strict"

-- What `setSessionCookie` and `clearSessionCookie` set the header to.
pub set_session_cookie : Text → ℕ → Text
set_session_cookie value duration_ms =
    session_cookie_name
    ++ b'=' ∷ value
    ++ codes "; Max-Age="
    ++ seconds_of duration_ms
    ++ attributes

pub clear_session_cookie : Text
clear_session_cookie = session_cookie_name ++ codes "=; Max-Age=0" ++ attributes
