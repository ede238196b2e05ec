-- ===== src/Console/Api/Outages.antt =====
-- Which refusals of the service apps/console/src/api/apiError.ts calls outages.
use sharpn.Prelude.{◌≡◌, refl, ◌↔◌, false, some, arith}
use sharpn.Errors.{ErrorCode, errors, bridge_unreachable, gateway_not_paired, gateway_unreachable}
use sharpn.Answer.{Refusal}
use sharpn.Console.Api.{ApiError, api_error, Outage, other, classify_outage, classify_code}
use sharpn.Console.Api.Carried.{described}

abbrev pub IsOther : Outage → Type 0
IsOther (other e) = Unit {0}
IsOther _ = ⊥

-- Something behind the service is down, and no time to come back is named.
abbrev pub IsDown : ErrorCode → Type 0
IsDown code = ((errors code).http_status ≡ 503) × ((errors code).retry_after ≡ false)

classify_code-IsOther_iff :
    (e : ApiError) (code : ErrorCode) → ¬ IsOther (classify_code e (some code)) ↔ IsDown code
classify_code-IsOther_iff e gateway_unreachable = (λ h. (refl, refl), λ d h. h)
classify_code-IsOther_iff e bridge_unreachable = (λ h. (refl, refl), λ d h. h)
classify_code-IsOther_iff e gateway_not_paired = (λ h. (refl, refl), λ d h. h)
classify_code-IsOther_iff e _ = (λ h. absurd (h tt), ground arith)

-- The Console calls a refusal of the service an outage exactly where the status of its code is 503
-- and the code names no time to come back.
pub classify-IsOther_iff :
    (r : Refusal) → ¬ IsOther (classify_outage (api_error (described r))) ↔ IsDown r.code
unfolding classify_outage
classify-IsOther_iff r = classify_code-IsOther_iff (described r) r.code
