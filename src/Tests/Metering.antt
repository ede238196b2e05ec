-- ===== src/Tests/Metering.antt =====
-- http/meter.ts and events/backoff.ts on small inputs.
use sharpn.Prelude.{◌≤◌, ◌≡◌, refl, ◌≢◌, [], ◌∷◌, arith}
use sharpn.Prelude.Maps.{lookup, insert, Distinct}
use sharpn.Meter.{Sent, allowed, refused, sweep, times, decide, spend}
use sharpn.Meter.Window.{Calls, InOrder, granted, count_in, granted-le-limit}
use sharpn.Meter.Waiting.{Tidy, refused_then_allowed, refused_too_early}

abbrev calls : Calls
calls = ("a", 0) ∷ ("b", 10) ∷ ("a", 20) ∷ ("a", 61000) ∷ []

calls-InOrder : InOrder 0 calls
calls-InOrder = (omega arith, (omega arith, (omega arith, (omega arith, tt))))

calls-granted : granted 1 "a" [] calls ≡ 0 ∷ 61000 ∷ []
unfolding granted spend decide sweep lookup insert
calls-granted = refl

granted-le-limit_example : count_in 61010 (granted 1 "a" [] calls) ≤ 1
granted-le-limit_example = granted-le-limit 1 "a" calls calls-InOrder 61010

-- Two keys at work.
abbrev busy : Sent
busy = ("a", 0 ∷ 500 ∷ []) ∷ ("b", 300 ∷ []) ∷ []

busy-Distinct : Distinct busy
unfolding lookup
busy-Distinct = (refl, (refl, tt))

busy-Tidy : Tidy 2 900 (times "a" busy)
unfolding lookup
busy-Tidy = record {
  oldest_first = ((omega arith, tt), (tt, tt));
  past = (omega arith, (omega arith, tt));
  few = omega arith;
}

busy_refusal : (spend 2 "a" 1000 busy).1 ≡ refused 59
unfolding spend decide sweep lookup insert
busy_refusal = refl

refused_then_allowed_example : (spend 2 "a" 60000 (spend 2 "a" 1000 busy).0).1 ≡ allowed
refused_then_allowed_example =
    refused_then_allowed 2 "a" 900 1000 60000 busy 59 busy-Distinct (omega arith) busy-Tidy
      busy_refusal (omega arith) (omega arith)

refused_too_early_example : (spend 2 "a" 59000 (spend 2 "a" 1000 busy).0).1 ≢ allowed
refused_too_early_example =
    refused_too_early 2 "a" 900 1000 59000 busy 59 busy-Distinct (omega arith) busy-Tidy
      busy_refusal (omega arith) (omega arith) (omega arith)
