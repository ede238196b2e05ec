-- ===== src/Answer/Laws.antt =====
-- What every response of http/answer.ts has in common.
use sharpn.Prelude.{
  refl, ◌∙◌, String, ◌≡◌, inl, inr, some, [], arith, if◌then◌else◌, Bool-cases, or_else,
}
use sharpn.Prelude.Maps.{lookup, insert, lookup-insert, lookup-insert_self}
use sharpn.Errors.{errors}
use sharpn.Status.{GatewayResult, ok, failed}
use sharpn.Answer.{Envelope, refusal, messages}
use sharpn.Answer.{
  HeaderValue, true, ℕ, false, Option, str_eq, ErrorCode, refuse_without_asking, text, number, Body,
  Response, Refusal, set_header, refuse, relay, correlation_id_header, retry_after_seconds,
}

abbrev pub correlation_of : {A : Type 0} → GatewayResult A → String
correlation_of (ok id v) = id
correlation_of (failed id code detail) = id

abbrev pub fresh : {A : Type 0} → Response A
fresh = record { status = 200; headers = []; body = Body.empty }

abbrev pub envelope_of : Refusal → Envelope
envelope_of r = record {
  code = r.code;
  message = messages r.code;
  detail = r.detail;
  correlation_id = r.correlation_id;
}

module _ {A : Type 0} where
  refuse-correlation :
      (r : Refusal) (response : Response A)
      → lookup correlation_id_header (refuse r response).headers ≡ some (text r.correlation_id)
  unfolding refuse set_header
  refuse-correlation r response = elim (Bool-cases (errors r.code).retry_after) [
    | inl timed ↦ rw timed (
        ground (
          arith,
          lookup-insert "Retry-After" correlation_id_header
              (number (or_else r.retry_after_seconds retry_after_seconds))
              (insert correlation_id_header (text r.correlation_id) response.headers),
          lookup-insert_self correlation_id_header (text r.correlation_id) response.headers,
        ))
    | inr plain ↦
        rw plain (lookup-insert_self correlation_id_header (text r.correlation_id) response.headers)
  ]

  -- Whatever the Gateway answered, the response carries the Correlation ID of the RPC that was
  -- made.
  pub relay-correlation :
      (result : GatewayResult A) (response : Response A)
      → lookup correlation_id_header (relay result response).headers
        ≡ some (text (correlation_of result))
  unfolding relay set_header
  relay-correlation (ok id v) response =
      lookup-insert_self correlation_id_header (text id) response.headers
  relay-correlation (failed id code detail) response = refuse-correlation _ response

  -- A refusal says when to come back exactly where the catalogue says that its code does: in the
  -- seconds that the refusal names, or in one.
  pub refuse-retry_after :
      (r : Refusal) (response : Response A)
      → lookup "Retry-After" (refuse r response).headers ≡ (
          if (errors r.code).retry_after
          then some (number (or_else r.retry_after_seconds retry_after_seconds))
          else lookup "Retry-After" response.headers)
  unfolding refuse set_header
  refuse-retry_after r response = elim (Bool-cases (errors r.code).retry_after) [
    | inl timed ↦ rw timed (
        lookup-insert_self "Retry-After"
          (number (or_else r.retry_after_seconds retry_after_seconds))
          (insert correlation_id_header (text r.correlation_id) response.headers))
    | inr plain ↦ rw (
      plain,
      lookup-insert correlation_id_header "Retry-After" (text r.correlation_id) response.headers,
    )
  ]

  -- A refusal has the status of its code, whatever was set before.
  pub refuse-status :
      (r : Refusal) (response : Response A)
      → (refuse r response).status ≡ (errors r.code).http_status
  unfolding refuse
  refuse-status r response = refl

  pub refuse-body :
      (r : Refusal) (response : Response A) → (refuse r response).body ≡ refusal (envelope_of r)
  unfolding refuse
  refuse-body r response = refl

  -- A header that is neither of the two stays as it was.
  refuse-header :
      (name : String) (r : Refusal) (response : Response A)
      → str_eq correlation_id_header name ≡ false
      → str_eq "Retry-After" name ≡ false
      → lookup name (refuse r response).headers ≡ lookup name response.headers
  unfolding refuse set_header
  refuse-header name r response ne other = elim (Bool-cases (errors r.code).retry_after) [
    | inl timed ↦
        rw
          (
            timed,
            lookup-insert "Retry-After" name
                (number (or_else r.retry_after_seconds retry_after_seconds))
                (insert correlation_id_header (text r.correlation_id) response.headers),
            other,
            lookup-insert correlation_id_header name (text r.correlation_id) response.headers,
            ne,
          )
          refl
    | inr plain ↦
        rw
          (
            plain,
            lookup-insert correlation_id_header name (text r.correlation_id) response.headers,
            ne,
          )
          refl
  ]

  pub relay-header :
      (name : String) (result : GatewayResult A) (response : Response A)
      → str_eq correlation_id_header name ≡ false
      → str_eq "Retry-After" name ≡ false
      → lookup name (relay result response).headers ≡ lookup name response.headers
  unfolding relay set_header
  relay-header name (ok id v) response ne other =
      rw (lookup-insert correlation_id_header name (text id) response.headers, ne) refl
  relay-header name (failed id code detail) response ne other =
      refuse-header name _ response ne other

  -- What a refusal of this service's own is, by its code.
  pub refuse_without_asking-status :
      (code : ErrorCode) (detail : Option String) (seconds : Option ℕ) (minted : String)
      (response : Response A)
      → (refuse_without_asking code detail seconds minted response).status
        ≡ (errors code).http_status
  unfolding refuse_without_asking refuse
  refuse_without_asking-status code detail seconds minted response = refl

  pub refuse_without_asking-header :
      (name : String) (code : ErrorCode) (detail : Option String) (seconds : Option ℕ)
      (minted : String) (response : Response A)
      → str_eq correlation_id_header name ≡ false
      → str_eq "Retry-After" name ≡ false
      → lookup name (refuse_without_asking code detail seconds minted response).headers
        ≡ lookup name response.headers
  unfolding refuse_without_asking
  refuse_without_asking-header name code detail seconds minted response ne other =
      refuse-header name
        (record {
          code = code;
          correlation_id = minted;
          detail = detail;
          retry_after_seconds = seconds;
        })
        response ne other

  pub refuse_without_asking-retry_after :
      (code : ErrorCode) (detail : Option String) (seconds : ℕ) (minted : String)
      (response : Response A)
      → (errors code).retry_after ≡ true
      → lookup "Retry-After"
          (refuse_without_asking code detail (some seconds) minted response).headers
        ≡ some (number seconds)
  unfolding refuse_without_asking
  refuse_without_asking-retry_after code detail seconds minted response timed =
      refuse-retry_after
        (record {
          code = code;
          correlation_id = minted;
          detail = detail;
          retry_after_seconds = some seconds;
        })
        response
      ∙ rw timed refl

  pub set_header-lookup :
      (name : String) (v : HeaderValue) (response : Response A)
      → lookup name (set_header name v response).headers ≡ some v
  unfolding set_header
  set_header-lookup name v response = lookup-insert_self name v response.headers
