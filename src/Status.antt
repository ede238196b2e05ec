-- ===== src/Status.antt =====
-- apps/console-api/src/gateway/status.ts: the code and the prose that a failed RPC is reported under.
use sharpn.Prelude.{
  ℕ, String, ◌≡◌, refl, ap, ◌≢◌, ◌↔◌, inl, inr, Bool, true, false, not, Option, none, some, List,
  [], ◌∷◌, arith, ◌==◌, str_eq, if◌then◌else◌, Bool-cases, or_else,
}
use sharpn.Prelude.{ne_of_str_eq}
use sharpn.Errors.{
  mutation_outcome_unknown, update, ErrorCode, CallKind, channel_down, gateway_unreachable,
  error_code_for_gateway_failure,
}
use sharpn.Errors.Laws.{outcome_unknown_iff, gateway_unreachable_iff}

-- What @grpc/grpc-js exports as `status`: the name of each code. The names are gRPC's, none of which
-- is the name that this service gives a dead channel.
pub record GrpcStatus : Type 0 where
  pub name_of : ℕ → Option String
  pub unavailable : ℕ
  pub unavailable_name : name_of unavailable ≡ some "UNAVAILABLE"
  pub not_channel_down : (code : ℕ) → name_of code ≢ some channel_down

-- A `ServiceError`, as far as it is read here.
pub record ServiceError : Type 0 where
  pub code : ℕ
  pub details : String
  pub metadata : Option (List (String × String))

-- What every call to the Gateway answers with.
pub data GatewayResult {ℓ} (A : Type ℓ) : Type ℓ where
  ok : String → A → GatewayResult A
  failed : String → ErrorCode → Option String → GatewayResult A

abbrev pub carries_trailers : Option (List (String × String)) → Bool
carries_trailers none = false
carries_trailers (some []) = false
carries_trailers (some (e ∷ es)) = true

-- A code and, where there is anybody to quote, the prose of whoever refused.
pub record Failure : Type 0 where
  pub code : ErrorCode
  pub detail : Option String

named : (name : Option String) → name ≢ some channel_down → or_else name "" ≢ channel_down
named none h e = ne_of_str_eq "" channel_down refl e
named (some s) h e = h (ap some e)

module _ (grpc : GrpcStatus) where
  pub was_sent_by_the_gateway : ServiceError → Bool
  was_sent_by_the_gateway error =
      if not (error.code == grpc.unavailable) then true else carries_trailers error.metadata

  pub failure_name : ServiceError → String
  failure_name error =
      if was_sent_by_the_gateway error then or_else (grpc.name_of error.code) "" else channel_down

  pub failure_from : ServiceError → CallKind → Failure
  failure_from error call = record {
    code = error_code_for_gateway_failure (failure_name error) call;
    detail = if str_eq error.details "" then none else some error.details;
  }

  failure_name-channel_down_iff :
      (error : ServiceError)
      → (failure_name error ≡ channel_down) ↔ (was_sent_by_the_gateway error ≡ false)
  unfolding failure_name
  failure_name-channel_down_iff error = elim (Bool-cases (was_sent_by_the_gateway error)) [
    | inl sent ↦ rw sent (
      λ e. absurd (named (grpc.name_of error.code) (grpc.not_channel_down error.code) e),
      λ e. cc,
    )
    | inr invented ↦ rw invented (λ e. refl, λ e. refl)
  ]

  was_sent-eq-false_iff :
      (error : ServiceError)
      → (was_sent_by_the_gateway error ≡ false)
        ↔ ((error.code ≡ grpc.unavailable) × (carries_trailers error.metadata ≡ false))
  unfolding was_sent_by_the_gateway
  was_sent-eq-false_iff error = ground arith

  -- The Gateway is called unreachable exactly when the status is `UNAVAILABLE` and carries no
  -- trailers, which is the channel's own answer, whatever the call.
  pub failure_from-unreachable_iff :
      (error : ServiceError) (call : CallKind)
      → ((failure_from error call).code ≡ gateway_unreachable)
        ↔ ((error.code ≡ grpc.unavailable) × (carries_trailers error.metadata ≡ false))
  unfolding failure_from
  failure_from-unreachable_iff error call =
      let (to, from) = gateway_unreachable_iff (failure_name error) call in
      let (name_to, name_from) = failure_name-channel_down_iff error in
      let (sent_to, sent_from) = was_sent-eq-false_iff error in
      (λ e. sent_to (name_to (to e)), λ p. from (name_from (sent_from p)))

  -- A failure says that a change may have been made exactly where an update's deadline passed, as the
  -- name of its status says.
  pub failure_from-unknown_iff :
      (error : ServiceError) (call : CallKind)
      → ((failure_from error call).code ≡ mutation_outcome_unknown)
        ↔ ((failure_name error ≡ "DEADLINE_EXCEEDED") × (call ≡ update))
  unfolding failure_from
  failure_from-unknown_iff error call = outcome_unknown_iff (failure_name error) call
