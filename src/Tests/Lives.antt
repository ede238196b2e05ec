-- ===== src/Tests/Lives.antt =====
-- gateway/adapter.ts, queries/raceAwareInvalidate.ts and api/client.ts on short runs.
use sharpn.Prelude.{◌≡◌, refl, sym, ap, subst, ◌↔◌, true, false, Option, none, some, [], ◌∷◌}
use sharpn.Prelude.Maps.{lookup}
use sharpn.Errors.{update, too_many_requests, not_authenticated}
use sharpn.Light.{Light}
use sharpn.Answer.{Refusal, Response, refuse}
use sharpn.Answer.Laws.{fresh, envelope_of, refuse-status, refuse-body, refuse-retry_after}
use sharpn.Adapter.{ask}
use sharpn.Status.{ServiceError}
use sharpn.Codec.{acknowledgement_from}
use sharpn.Adapter.Asking.{FailsUnknown, TimedOut, ask-FailsUnknown_iff}
use sharpn.Console.Api.{Fields, Arrived, request, rejected}
use sharpn.Console.Api.Carried.{Carries, Spells, fields_of, number_in, described, request-refuse}
use sharpn.Adapter.{end, Listening, subscribe, stop, on_metadata, on_error}
use sharpn.Adapter.Ending.{here, later, opens, cancels, fails, IsTold, Steps-IsTold}
use sharpn.Console.Live.{Live, the_list, list_query, race_aware_invalidate}
use sharpn.Console.Live.Fresh
use sharpn.Tests.Gateways.{grpc, no_channel}

-- The stream is confirmed, and cancelled; the error that this makes ends it.
abbrev listening : Listening
listening = on_metadata subscribe

abbrev gone : Listening
gone = on_error grpc "id" no_channel (stop listening)

listening-ended : listening.ended ≡ false
unfolding on_metadata
listening-ended = refl

gone-ended : gone.ended ≡ true
unfolding on_metadata stop on_error end
gone-ended = refl

Steps-IsTold_example : IsTold gone
Steps-IsTold_example = Steps-IsTold (
    later (later (later here (opens subscribe)) (cancels listening))
      (fails no_channel (stop listening)))

-- The list is being read when it is invalidated, and that read ends.
abbrev reading_list : Live
reading_list = record {
  fetching = list_query ∷ [];
  scheduled = [];
  read_anew = [];
  previous_gateway = none;
}

abbrev read_list : Live
read_list = record (race_aware_invalidate the_list reading_list) { fetching = [] }

-- A change that came too fast: the response arrives, and its body is the envelope.
abbrev too_fast : Refusal
too_fast = record {
  code = too_many_requests;
  correlation_id = "id";
  detail = none;
  retry_after_seconds = some 7;
}

abbrev arrived_too_fast : Arrived (Option Fields)
arrived_too_fast = record {
  status = 429;
  status_line = "HTTP 429 Too Many Requests";
  correlation_id = some "id";
  retry_after = some 7;
  json = some (some (fields_of (envelope_of too_fast)));
}

abbrev no_answer : Response Light
no_answer = fresh

Carries-too_fast : Carries (λ j. j) (refuse too_fast no_answer) arrived_too_fast
Carries-too_fast = record {
  status = sym (refuse-status too_fast no_answer);
  retry_after = sym (ap number_in (refuse-retry_after too_fast no_answer));
  body =
      subst (λ b. Spells (λ j. j) b (some (some (fields_of (envelope_of too_fast)))))
        (sym (refuse-body too_fast no_answer)) refl;
}

no_answer-wait : lookup "Retry-After" no_answer.headers ≡ none
unfolding lookup
no_answer-wait = refl

request-refuse_example :
    ((request (λ j. j) arrived_too_fast).1 ≡ rejected (described too_fast))
    × (((request (λ j. j) arrived_too_fast).0 ≡ true) ↔ (too_many_requests ≡ not_authenticated))
request-refuse_example =
    request-refuse (λ j. j) too_fast no_answer arrived_too_fast no_answer-wait Carries-too_fast

-- The deadline of a change passed.
abbrev late : ServiceError
late = record { code = 4; details = "Deadline exceeded"; metadata = some [] }

ask-FailsUnknown_iff_example :
    FailsUnknown (ask grpc update acknowledgement_from "id" (some late) none)
    ↔ (TimedOut grpc (some late) × (update ≡ update))
ask-FailsUnknown_iff_example =
    ask-FailsUnknown_iff grpc update acknowledgement_from "id" (some late) none
