-- ===== src/Answer.antt =====
-- apps/console-api/src/http/answer.ts: what a route writes.
-- A freshly minted Correlation ID is an argument.
pub mod Laws
use sharpn.Prelude.{
  ℕ, zero, suc, ◌+◌, ◌-◌, ◌*◌, ◌/◌, ◌%◌, ◌≤◌, ◌<◌, min, max, String, ◌≡◌, refl, sym, ap, subst, ◌∙◌,
  ◌≢◌, ◌↔◌, ◌⊎◌, inl, inr, Bool, true, false, ◌&&◌, ◌||◌, not, Option, none, some, List, [], ◌∷◌,
  ◌++◌, map, arith, ltb, leb, ◌==◌, str_eq, if◌then◌else◌, ltb→lt, lt→ltb, leb→le, str_eq_iff,
  str_eq_refl, Bool-cases, Option-cases, or_else, is_some, length, get_elem?, head?, length-append,
  keep, all, any, All,
}
use sharpn.Prelude.Maps.{
  lookup, insert, delete, lookup-insert, lookup-insert_self, lookup-delete, Distinct,
  insert-Distinct,
}
use sharpn.Prelude.Decimal.{Text}
use sharpn.Errors.{ErrorCode, errors}
use sharpn.Errors
use sharpn.Status.{GatewayResult, ok, failed}

abbrev pub messages : ErrorCode → String
messages Errors.bridge_rejected_command = "The Bridge would not make that change."
messages Errors.light_not_found = "There is no light with that id."
messages Errors.gateway_not_paired =
    "The Gateway is not paired with a Bridge. Somebody has to press the button on the Bridge itself."
messages Errors.bridge_unreachable = "The Gateway could not reach the Bridge."
messages Errors.bridge_timeout =
    "Reading from the Bridge took too long. Nothing was changed by asking."
messages Errors.mutation_outcome_unknown =
    "That change took too long to answer for, so nobody knows yet whether it was made. Read the light to see what it is now."
messages Errors.bridge_busy = "The Bridge is being asked for too much at once."
messages Errors.bridge_unsupported = "This Bridge does not do that."
messages Errors.gateway_misconfigured =
    "This service is not set up to talk to the Gateway. Nothing done in a browser will fix it."
messages Errors.gateway_error = "The Gateway failed in a way this service did not expect."
messages Errors.gateway_unreachable = "This service could not reach the Gateway at all."
messages Errors.not_authenticated = "You are not signed in."
messages Errors.csrf_rejected = "That change did not come from a page this service served."
messages Errors.too_many_requests =
    "That is more changes than this service will pass on in a minute."
messages Errors.invalid_request = "That is not a request this service can serve."
messages Errors.color_and_temperature_both_set =
    "A colour and a colour temperature cannot be set in one change. Send one or the other."

abbrev pub retry_after_seconds : ℕ
retry_after_seconds = 1

abbrev pub correlation_id_header : String
correlation_id_header = "x-correlation-id"

-- What a header is set to: a text, a number that is printed, or a cookie.
pub data HeaderValue : Type 0 where
  text : String → HeaderValue
  number : ℕ → HeaderValue
  cookie : Text → HeaderValue

pub record Envelope : Type 0 where
  pub code : ErrorCode
  pub message : String
  pub detail : Option String
  pub correlation_id : String

pub data Body (A : Type 0) : Type 0 where
  empty : Body A
  refusal : Envelope → Body A
  value : A → Body A

-- A response: its status is 200 until it is set.
pub record Response (A : Type 0) : Type 0 where
  pub status : ℕ
  pub headers : List (String × HeaderValue)
  pub body : Body A

pub record Refusal : Type 0 where
  pub code : ErrorCode
  pub correlation_id : String
  pub detail : Option String
  pub retry_after_seconds : Option ℕ

module _ {A : Type 0} where
  pub set_header : String → HeaderValue → Response A → Response A
  set_header name v response = record response { headers = insert name v response.headers }

  abbrev pub set_retry_after : Bool → ℕ → Response A → Response A
  set_retry_after true seconds response = set_header "Retry-After" (number seconds) response
  set_retry_after false seconds response = response

  pub refuse : Refusal → Response A → Response A
  refuse r response =
      let definition = errors r.code in
      let named = set_header correlation_id_header (text r.correlation_id) response in
      let timed =
        set_retry_after definition.retry_after (or_else r.retry_after_seconds retry_after_seconds)
          named in
      record timed {
        status = definition.http_status;
        body = refusal (record {
          code = r.code;
          message = messages r.code;
          detail = r.detail;
          correlation_id = r.correlation_id;
        });
      }

  pub relay : GatewayResult A → Response A → Response A
  relay (failed id code detail) response =
      refuse
        (record { code = code; correlation_id = id; detail = detail; retry_after_seconds = none })
        response
  relay (ok id v) response = record (set_header correlation_id_header (text id) response) {
    body = value v;
  }

  -- `refuseWithoutAsking`, with the id that is minted for it.
  pub refuse_without_asking :
      ErrorCode → Option String → Option ℕ → String → Response A → Response A
  unfolding refuse
  refuse_without_asking code detail seconds minted response =
      refuse
        (record {
          code = code;
          correlation_id = minted;
          detail = detail;
          retry_after_seconds = seconds;
        })
        response
