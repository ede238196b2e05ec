-- ===== src/Secrets.antt =====
-- The secrets that the process reads from files when it starts: apps/console-api/src/auth/password.ts,
-- auth/session.ts and gateway/credentials.ts. What a file holds is an argument, or none where it cannot
-- be read; argon2 and the channel's credentials are third-party.
pub mod Echoed
use sharpn.Prelude.{
  ℕ, zero, suc, ◌+◌, ◌-◌, ◌*◌, ◌/◌, ◌%◌, ◌≤◌, ◌<◌, min, max, String, ◌≡◌, refl, sym, ap, subst, ◌∙◌,
  ◌≢◌, ◌↔◌, ◌⊎◌, inl, inr, Bool, true, false, ◌&&◌, ◌||◌, not, Option, none, some, List, [], ◌∷◌,
  ◌++◌, map, arith, ltb, leb, ◌==◌, str_eq, if◌then◌else◌, ltb→lt, lt→ltb, leb→le, str_eq_iff,
  str_eq_refl, Bool-cases, Option-cases, or_else, is_some, length, get_elem?, head?, length-append,
  keep, all, any, All,
}
use sharpn.Prelude.Maps.{
  lookup, insert, delete, lookup-insert, lookup-insert_self, lookup-delete, Distinct,
  insert-Distinct,
}
use sharpn.Prelude.Decimal.{Text, codes}
use sharpn.Cookie.{trim}
use sharpn.Codec.{strip}

pub data Fault : Type 0 where
  unreadable : Fault
  is_empty : Fault
  not_a_hash : Fault

pub data Result : Type 0 where
  ok : Text → Result
  throws : Fault → Result

-- `readFileSync(file, "utf8").trim()`, handed to the rest of the reader.
abbrev pub trimmed : (Text → Result) → Option Text → Result
trimmed rest none = throws unreadable
trimmed rest (some contents) = rest (trim contents)

abbrev pub unless_empty : Text → Result
unless_empty [] = throws is_empty
unless_empty (c ∷ cs) = ok (c ∷ cs)

pub read_session_secret : Option Text → Result
read_session_secret file = trimmed unless_empty file

pub read_token : Option Text → Result
read_token file = trimmed unless_empty file

-- The metadata of every call.
pub bearer_token : Text → List (String × Text)
bearer_token token = ("authorization", codes "Bearer " ++ token) ∷ []

-- `/^\$argon2(id|i|d)\$/`.
pub argon2_prefix : Text → Bool
unfolding strip
argon2_prefix hash =
    is_some (strip (codes "$argon2id$") hash)
    || is_some (strip (codes "$argon2i$") hash)
    || is_some (strip (codes "$argon2d$") hash)

abbrev pub if_hash : Text → Result
if_hash [] = throws is_empty
if_hash (c ∷ cs) = if argon2_prefix (c ∷ cs) then ok (c ∷ cs) else throws not_a_hash

pub read_hash : Option Text → Result
read_hash file = trimmed if_hash file
