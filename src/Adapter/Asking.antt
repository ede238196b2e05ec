-- ===== src/Adapter/Asking.antt =====
-- When a call of gateway/adapter.ts fails with the code MUTATION_OUTCOME_UNKNOWN.
use sharpn.Prelude.{String, ◌≡◌, ◌↔◌, Option, none, some}
use sharpn.Errors.{CallKind, update, mutation_outcome_unknown}
use sharpn.Status.{
  GrpcStatus, ServiceError, GatewayResult, ok, failed, failure_name, failure_from-unknown_iff,
}
use sharpn.Adapter.{ask}

-- The call fails, and with this code. An Acknowledgement, whatever it says, is not a failure.
abbrev pub FailsUnknown {ℓ} : {A : Type ℓ} → GatewayResult A → Type 0
FailsUnknown (ok id a) = ⊥
FailsUnknown (failed id code detail) = code ≡ mutation_outcome_unknown

-- The call's deadline passed, as its status says.
abbrev pub TimedOut : GrpcStatus → Option ServiceError → Type 0
TimedOut grpc none = ⊥
TimedOut grpc (some error) = failure_name grpc error ≡ "DEADLINE_EXCEEDED"

-- A call fails with the code MUTATION_OUTCOME_UNKNOWN exactly where it is an update and its status
-- says that its deadline passed: no read, no other failure and no answer that arrives does so.
pub ask-FailsUnknown_iff {ℓ κ} :
    {R : Type ℓ} {A : Type κ} (grpc : GrpcStatus) (call : CallKind) (reading : R → String → A)
    (correlation_id : String) (error : Option ServiceError) (response : Option R)
    → FailsUnknown (ask grpc call reading correlation_id error response)
      ↔ (TimedOut grpc error × (call ≡ update))
unfolding ask
ask-FailsUnknown_iff grpc call reading id none none = (λ e. cc, λ t. absurd t.0)
ask-FailsUnknown_iff grpc call reading id none (some r) = (λ e. absurd e, λ t. absurd t.0)
ask-FailsUnknown_iff grpc call reading id (some error) r = failure_from-unknown_iff grpc error call
