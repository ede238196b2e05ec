-- ===== src/Errors.antt =====
-- apps/console-api/src/contract/errors.ts: the catalogue of codes, and what a failed call becomes.
-- The prose (`meaning`) is not modelled.
pub mod Laws
use sharpn.Prelude.{
  ℕ, zero, suc, ◌+◌, ◌-◌, ◌*◌, ◌/◌, ◌%◌, ◌≤◌, ◌<◌, min, max, String, ◌≡◌, refl, sym, ap, subst, ◌∙◌,
  ◌≢◌, ◌↔◌, ◌⊎◌, inl, inr, Bool, true, false, ◌&&◌, ◌||◌, not, Option, none, some, List, [], ◌∷◌,
  ◌++◌, map, arith, ltb, leb, ◌==◌, str_eq, if◌then◌else◌, ltb→lt, lt→ltb, leb→le, str_eq_iff,
  str_eq_refl, Bool-cases, Option-cases, or_else, is_some, length, get_elem?, head?, length-append,
  keep, all, any, All,
}
use sharpn.Prelude.Maps.{
  lookup, insert, delete, lookup-insert, lookup-insert_self, lookup-delete, Distinct,
  insert-Distinct,
}

pub data ErrorCode : Type 0 where
  bridge_rejected_command light_not_found gateway_not_paired bridge_unreachable : ErrorCode
  bridge_timeout mutation_outcome_unknown bridge_busy bridge_unsupported : ErrorCode
  gateway_misconfigured gateway_error gateway_unreachable : ErrorCode
  not_authenticated csrf_rejected too_many_requests invalid_request : ErrorCode
  color_and_temperature_both_set : ErrorCode

pub record ErrorDefinition : Type 0 where
  pub http_status : ℕ
  pub retry_after : Bool

abbrev def : ℕ → Bool → ErrorDefinition
def status retry = record { http_status = status; retry_after = retry }

abbrev pub errors : ErrorCode → ErrorDefinition
errors bridge_rejected_command = def 400 false
errors light_not_found = def 404 false
errors gateway_not_paired = def 503 false
errors bridge_unreachable = def 503 false
errors bridge_timeout = def 504 false
errors mutation_outcome_unknown = def 504 false
errors bridge_busy = def 503 true
errors bridge_unsupported = def 501 false
errors gateway_misconfigured = def 500 false
errors gateway_error = def 502 false
errors gateway_unreachable = def 503 false
errors not_authenticated = def 401 false
errors csrf_rejected = def 403 false
errors too_many_requests = def 429 true
errors invalid_request = def 400 false
errors color_and_temperature_both_set = def 400 false

pub data CallKind : Type 0 where
  read update : CallKind

abbrev pub channel_down : String
channel_down = "CHANNEL_DOWN"

-- A row of the table: one code, or one for each kind of call.
pub data Row : Type 0 where
  always : ErrorCode → Row
  by_call : ErrorCode → ErrorCode → Row

abbrev pub by_failure : List (String × Row)
by_failure =
    ("INVALID_ARGUMENT", always bridge_rejected_command)
    ∷ ("NOT_FOUND", always light_not_found)
    ∷ ("FAILED_PRECONDITION", always gateway_not_paired)
    ∷ ("UNAVAILABLE", always bridge_unreachable)
    ∷ ("DEADLINE_EXCEEDED", by_call bridge_timeout mutation_outcome_unknown)
    ∷ ("RESOURCE_EXHAUSTED", always bridge_busy)
    ∷ ("UNIMPLEMENTED", always bridge_unsupported)
    ∷ ("UNAUTHENTICATED", always gateway_misconfigured)
    ∷ ("INTERNAL", always gateway_error)
    ∷ (channel_down, always gateway_unreachable)
    ∷ []

abbrev pub code_of : Option Row → CallKind → ErrorCode
code_of none call = gateway_error
code_of (some (always code)) call = code
code_of (some (by_call on_read on_update)) read = on_read
code_of (some (by_call on_read on_update)) update = on_update

pub error_code_for_gateway_failure : String → CallKind → ErrorCode
error_code_for_gateway_failure failure call = code_of (lookup failure by_failure) call
