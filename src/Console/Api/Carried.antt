-- ===== src/Console/Api/Carried.antt =====
-- What the Console (apps/console/src/api) makes of the refusals that apps/console-api/src/http/answer.ts
-- writes.
use sharpn.Prelude.{
  ℕ, ◌≡◌, refl, ap, subst, ◌∙◌, ◌↔◌, inl, inr, Bool, true, false, Option, none, some, arith, ◌==◌,
  Bool-cases, or_else,
}
use sharpn.Prelude.Maps.{lookup}
use sharpn.Errors.{ErrorCode, errors, not_authenticated}
use sharpn.Answer.{
  HeaderValue, number, Envelope, Body, refusal, Response, Refusal, messages, retry_after_seconds,
  refuse,
}
use sharpn.Answer.Laws.{envelope_of, refuse-status, refuse-body, refuse-retry_after}
use sharpn.Console.Api.{
  Fields, ApiError, Arrived, rejected, request, fields_in, is_ok, api_error_from,
}

abbrev pub fields_of : Envelope → Fields
fields_of e = record {
  code = some e.code;
  message = some e.message;
  detail = e.detail;
  correlation_id = some e.correlation_id;
}

abbrev pub number_in : Option HeaderValue → Option ℕ
number_in (some (number n)) = some n
number_in _ = none

-- JSON keeps the fields of an envelope, and leaves out those that are undefined.
abbrev pub Spells : {A J : Type 0} → (J → Option Fields) → Body A → Option J → Type 0
Spells error_of (refusal e) (some j) = error_of j ≡ some (fields_of e)
Spells error_of (refusal e) none = ⊥
Spells error_of _ j = Unit {0}

module _ {A J : Type 0} (error_of : J → Option Fields) where
  -- HTTP carries a response: its status, its wait and its body.
  pub record Carries (sent : Response A) (arrived : Arrived J) : Type 0 where
    pub status : arrived.status ≡ sent.status
    pub retry_after : arrived.retry_after ≡ number_in (lookup "Retry-After" sent.headers)
    pub body : Spells error_of sent.body arrived.json

-- The refusal, with the wait that is named where its code has one.
abbrev pub wait_named : Bool → Option ℕ → Option ℕ
wait_named true seconds = some (or_else seconds retry_after_seconds)
wait_named false seconds = none

abbrev pub described : Refusal → ApiError
described r = record {
  code = some r.code;
  message = messages r.code;
  detail = r.detail;
  correlation_id = some r.correlation_id;
  retry_after_seconds = wait_named (errors r.code).retry_after r.retry_after_seconds;
}

is_ok-errors : (code : ErrorCode) → is_ok (errors code).http_status ≡ false
is_ok-errors code = ground arith

unauthenticated_status_iff :
    (code : ErrorCode) → ((errors code).http_status == 401) ≡ true ↔ (code ≡ not_authenticated)
unauthenticated_status_iff code = ground arith

module _ {J : Type 0} (error_of : J → Option Fields) where
  failed_request :
      (response : Arrived J)
      → is_ok response.status ≡ false
      → request error_of response
        ≡ (response.status == 401, rejected (api_error_from error_of response))
  unfolding request
  failed_request response failed = rw failed refl

  spelled :
      {A : Type 0} (e : Envelope) (body : Body A) (j : Option J)
      → body ≡ refusal e
      → Spells error_of body j
      → fields_in error_of j ≡ some (fields_of e)
  spelled e body none eq b = absurd (subst (λ b. Spells error_of b none) eq b)
  spelled e body (some j) eq b = subst (λ b. Spells error_of b (some j)) eq b

  refuse-wait :
      {A : Type 0} (r : Refusal) (response : Response A)
      → lookup "Retry-After" response.headers ≡ none
      → number_in (lookup "Retry-After" (refuse r response).headers)
        ≡ wait_named (errors r.code).retry_after r.retry_after_seconds
  refuse-wait r response unset = elim (Bool-cases (errors r.code).retry_after) [
    | inl named ↦ rw (refuse-retry_after r response, named) refl
    | inr unnamed ↦ rw (refuse-retry_after r response, unnamed, unset) refl
  ]

  refuse-api_error :
      {A : Type 0} (r : Refusal) (response : Response A) (arrived : Arrived J)
      → lookup "Retry-After" response.headers ≡ none
      → Carries error_of (refuse r response) arrived
      → api_error_from error_of arrived ≡ described r
  refuse-api_error r response arrived unset c =
      rw
        (
          spelled (envelope_of r) _ arrived.json (refuse-body r response) c.body,
          c.retry_after ∙ refuse-wait r response unset,
        )
        refl

  refuse-request :
      {A : Type 0} (r : Refusal) (response : Response A) (arrived : Arrived J)
      → lookup "Retry-After" response.headers ≡ none
      → Carries error_of (refuse r response) arrived
      → request error_of arrived ≡ ((errors r.code).http_status == 401, rejected (described r))
  refuse-request r response arrived unset c =
      let status = c.status ∙ refuse-status r response in
      failed_request arrived (ap is_ok status ∙ is_ok-errors r.code)
      ∙ (λ i. (status i == 401, rejected (refuse-api_error r response arrived unset c i)))

  -- Where a refusal that the service writes on a response without a wait arrives, with its
  -- status, its wait and its envelope as they were sent: the Console rejects with an error of
  -- the same code, message, detail, Correlation ID and wait, and tells that the session is gone
  -- exactly where the code is that of a request without one.
  pub request-refuse :
      {A : Type 0} (r : Refusal) (response : Response A) (arrived : Arrived J)
      → lookup "Retry-After" response.headers ≡ none
      → Carries error_of (refuse r response) arrived
      → ((request error_of arrived).1 ≡ rejected (described r))
        × (((request error_of arrived).0 ≡ true) ↔ (r.code ≡ not_authenticated))
  request-refuse r response arrived unset c =
      rw (refuse-request r response arrived unset c) (refl, unauthenticated_status_iff r.code)
