-- ===== src/Console/Api.antt =====
-- apps/console/src/api: client.ts and apiError.ts, from the response that arrives to what a person is
-- told. `fetch` is third-party, and so is JSON: a body is a value, or none where it is not JSON.
pub mod Carried
pub mod Outages
use sharpn.Prelude.{
  ℕ, zero, suc, ◌+◌, ◌-◌, ◌*◌, ◌/◌, ◌%◌, ◌≤◌, ◌<◌, min, max, String, ◌≡◌, refl, sym, ap, subst, ◌∙◌,
  ◌≢◌, ◌↔◌, ◌⊎◌, inl, inr, Bool, true, false, ◌&&◌, ◌||◌, not, Option, none, some, List, [], ◌∷◌,
  ◌++◌, map, arith, ltb, leb, ◌==◌, str_eq, if◌then◌else◌, ltb→lt, lt→ltb, leb→le, str_eq_iff,
  str_eq_refl, Bool-cases, Option-cases, or_else, is_some, length, get_elem?, head?, length-append,
  keep, all, any, All,
}
use sharpn.Prelude.Maps.{
  lookup, insert, delete, lookup-insert, lookup-insert_self, lookup-delete, Distinct,
  insert-Distinct,
}
use sharpn.Errors.{
  ErrorCode, bridge_unreachable, gateway_not_paired, gateway_unreachable, gateway_error,
  mutation_outcome_unknown,
}

-- The fields of a body's `error`, each of which may be missing.
pub record Fields : Type 0 where
  pub code : Option ErrorCode
  pub message : Option String
  pub detail : Option String
  pub correlation_id : Option String

-- A missing code is `undefined`, which no code is.
pub record ApiError : Type 0 where
  pub code : Option ErrorCode
  pub message : String
  pub detail : Option String
  pub correlation_id : Option String
  pub retry_after_seconds : Option ℕ

-- What `fetch` gives: `HTTP ${status} ${statusText}`, x-correlation-id, and `Number` of Retry-After.
pub record Arrived (J : Type 0) : Type 0 where
  pub status : ℕ
  pub status_line : String
  pub correlation_id : Option String
  pub retry_after : Option ℕ
  pub json : Option J

-- A value, `undefined`, an error of the service, or the fault of reading a body that is not JSON.
pub data Settled (J : Type 0) : Type 0 where
  resolved : J → Settled J
  nothing : Settled J
  rejected : ApiError → Settled J
  broken : Settled J

abbrev pub unexpected : Option String → String → ApiError
unexpected correlation_id line = record {
  code = some gateway_error;
  message = "The Console API answered in a shape this Console did not expect.";
  detail = some line;
  correlation_id = some (or_else correlation_id "unknown");
  retry_after_seconds = none;
}

abbrev pub spread : Option ℕ → Fields → ApiError
spread retry_after f = record {
  code = f.code;
  message = or_else f.message "";
  detail = f.detail;
  correlation_id = f.correlation_id;
  retry_after_seconds = retry_after;
}

abbrev pub is_ok : ℕ → Bool
is_ok status = leb 200 status && ltb status 300

module _ {J : Type 0} (error_of : J → Option Fields) where
  -- Reading `error` off a body, which throws where the body is null.
  abbrev pub fields_in : Option J → Option Fields
  fields_in none = none
  fields_in (some j) = error_of j

  abbrev pub described_by : Arrived J → Option Fields → ApiError
  described_by response (some f) = spread response.retry_after f
  described_by response none = unexpected response.correlation_id response.status_line

  abbrev pub api_error_from : Arrived J → ApiError
  api_error_from response = described_by response (fields_in response.json)

  abbrev pub value_in : Option J → Settled J
  value_in none = broken
  value_in (some j) = resolved j

  -- Whether the listeners for a lost session are told, and how the request settles.
  pub request : Arrived J → Bool × Settled J
  request response =
      if not (is_ok response.status)
      then (response.status == 401, rejected (api_error_from response))
      else if response.status == 204
      then (false, nothing)
      else (false, value_in response.json)

pub data Caught : Type 0 where
  api_error : ApiError → Caught
  type_error : Caught
  something : Caught

pub data Outage : Type 0 where
  console_api_unreachable : Outage
  the_gateway_unreachable : ApiError → Outage
  the_bridge_unreachable : ApiError → Outage
  other : Option ApiError → Outage

abbrev pub classify_code : ApiError → Option ErrorCode → Outage
classify_code e (some gateway_unreachable) = the_gateway_unreachable e
classify_code e (some bridge_unreachable) = the_bridge_unreachable e
classify_code e (some gateway_not_paired) = the_bridge_unreachable e
classify_code e _ = other (some e)

pub classify_outage : Caught → Outage
classify_outage (api_error e) = classify_code e e.code
classify_outage type_error = console_api_unreachable
classify_outage something = other none

abbrev pub message_for_outage : Outage → String
message_for_outage console_api_unreachable =
    "Can't reach the Console API. Check the connection to this device."
message_for_outage (the_gateway_unreachable e) = "The Console API can't reach the Gateway at all."
message_for_outage (the_bridge_unreachable e) = or_else e.detail e.message
message_for_outage (other (some e)) = e.message
message_for_outage (other none) = "Something went wrong that this Console did not expect."
