-- ===== src/Tests/Gateways.antt =====
-- What the Gateway answers, on small answers: gateway/codec.ts, gateway/status.ts,
-- contract/errors.ts and http/answer.ts.
use sharpn.Prelude.{ℕ, String, ◌≡◌, refl, ◌≢◌, Option, none, some, [], arith, ◌==◌, if◌then◌else◌}
use sharpn.Prelude.{ne_of_str_eq}
use sharpn.Gen.Rtype.{Rtype}
use sharpn.Codec.{
  change_from, ReportedIdentifier, identifier_from, Happened, a_change, type_error, invalidation,
  changed, notice_from,
}
use sharpn.Errors.{channel_down}
use sharpn.Status.{GrpcStatus, ServiceError}

abbrev a_light : ReportedIdentifier
a_light = record { rid = "1"; rtype = Rtype.light }

abbrev lost : Option Happened
lost = some (a_change type_error (some a_light))

lost-notice : notice_from lost ≡ some (invalidation changed (identifier_from a_light))
unfolding notice_from change_from
lost-notice = refl

abbrev pub name_of : ℕ → Option String
name_of code =
    if code == 14 then some "UNAVAILABLE" else if code == 4 then some "DEADLINE_EXCEEDED" else none

pub name_of-ne : (code : ℕ) → name_of code ≢ some channel_down
name_of-ne code = ground (
  arith,
  ne_of_str_eq "UNAVAILABLE" channel_down refl,
  ne_of_str_eq "DEADLINE_EXCEEDED" channel_down refl,
)

-- Two of the names that @grpc/grpc-js exports.
abbrev pub grpc : GrpcStatus
grpc = record {
  name_of = name_of;
  unavailable = 14;
  unavailable_name = refl;
  not_channel_down = name_of-ne;
}

abbrev pub no_channel : ServiceError
no_channel = record { code = 14; details = "no connection established"; metadata = some [] }
