-- ===== src/Adapter.antt =====
-- apps/console-api/src/gateway/adapter.ts: what is asked of the Gateway, and what it answers with.
-- grpc-js is third-party: a unary call is what its callback is given, and a stream is its events.
pub mod Asking
pub mod Ending
use sharpn.Prelude.{
  ℕ, zero, suc, ◌+◌, ◌-◌, ◌*◌, ◌/◌, ◌%◌, ◌≤◌, ◌<◌, min, max, String, ◌≡◌, refl, sym, ap, subst, ◌∙◌,
  ◌≢◌, ◌↔◌, ◌⊎◌, inl, inr, Bool, true, false, ◌&&◌, ◌||◌, not, Option, none, some, List, [], ◌∷◌,
  ◌++◌, map, arith, ltb, leb, ◌==◌, str_eq, if◌then◌else◌, ltb→lt, lt→ltb, leb→le, str_eq_iff,
  str_eq_refl, Bool-cases, Option-cases, or_else, is_some, length, get_elem?, head?, length-append,
  keep, all, any, All,
}
use sharpn.Prelude.Maps.{
  lookup, insert, delete, lookup-insert, lookup-insert_self, lookup-delete, Distinct,
  insert-Distinct,
}
use sharpn.Errors.{ErrorCode, CallKind, read, update, gateway_error}
use sharpn.Status.{GrpcStatus, ServiceError, GatewayResult, ok, failed, Failure, failure_from}
use sharpn.Light.{Light}
use sharpn.Codec.{
  LightGet, light_from, MutationResponse, Acknowledgement, acknowledgement_from, Happened, Notice,
  notice_from,
}

abbrev pub unary_deadline_ms : ℕ
unary_deadline_ms = 5000

-- `{ ok: false, correlationId, ...failure }`.
abbrev pub failing {ℓ} : {A : Type ℓ} → String → Failure → GatewayResult A
failing correlation_id f = failed correlation_id f.code f.detail

module _ (grpc : GrpcStatus) where
  -- `ask`, for what the callback of the call is given: an error or none, and a response or none.
  pub ask {ℓ κ} :
      {R : Type ℓ} {A : Type κ}
      → CallKind
      → (R → String → A)
      → String
      → Option ServiceError
      → Option R
      → GatewayResult A
  ask call reading correlation_id (some error) response =
      failing correlation_id (failure_from grpc error call)
  ask call reading correlation_id none none =
      failed correlation_id gateway_error
        (some "the Gateway answered with neither a response nor a status")
  ask call reading correlation_id none (some response) =
      ok correlation_id (reading response correlation_id)

  pub list_lights :
      String → Option ServiceError → Option (List LightGet) → GatewayResult (List Light)
  list_lights = ask read (λ reported id. map light_from reported)

  pub get_light : String → Option ServiceError → Option LightGet → GatewayResult Light
  get_light = ask read (λ reported id. light_from reported)

  pub update_light :
      String → Option ServiceError → Option MutationResponse → GatewayResult Acknowledgement
  update_light = ask update acknowledgement_from

-- What a Subscriber is told.
pub data Told : Type 0 where
  notice : Notice → Told
  opened : Told
  over : GatewayResult (Unit {0}) → Told

-- The variables of one `subscribe`, with whether the set of the channel has it, whether its stream was
-- told to cancel, and what the Subscriber was told, latest first.
pub record Listening : Type 0 where
  pub cancelled : Bool
  pub ended : Bool
  pub listed : Bool
  pub told : List Told

abbrev pub subscribe : Listening
subscribe = record { cancelled = false; ended = false; listed = true; told = [] }

-- `stop`, which `cancel` is and which `close` calls of every one that is listed.
unfoldable pub stop : Listening → Listening
stop l = record l { cancelled = true }

unfoldable pub end : GatewayResult (Unit {0}) → Listening → Listening
end ending l =
    if l.ended then l else record l { ended = true; listed = false; told = over ending ∷ l.told }

unfoldable pub on_metadata : Listening → Listening
on_metadata l = record l { told = opened ∷ l.told }

abbrev pub tell_notice : Option Notice → Listening → Listening
tell_notice none l = l
tell_notice (some n) l = record l { told = notice n ∷ l.told }

pub on_data : Option Happened → Listening → Listening
on_data event l = tell_notice (notice_from event) l

unfoldable pub on_error : GrpcStatus → String → ServiceError → Listening → Listening
on_error grpc correlation_id error l =
    end
      (if l.cancelled
        then ok correlation_id tt
        else failing correlation_id (failure_from grpc error read))
      l

pub on_end : String → Listening → Listening
on_end correlation_id l = end (ok correlation_id tt) l

-- `close`: every subscription that is listed is stopped.
pub close : List Listening → List Listening
close [] = []
close (l ∷ ls) = (if l.listed then stop l else l) ∷ close ls
