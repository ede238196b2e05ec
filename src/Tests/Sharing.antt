-- ===== src/Tests/Sharing.antt =====
-- gateway/single-flight.ts: two callers of one question.
use sharpn.Prelude.{◌≡◌, refl, some}
use sharpn.Prelude.Maps.{lookup, insert}
use sharpn.SingleFlight.{Flights, idle, ask}
use sharpn.SingleFlight.Sharing.{Run, start, next, asks, IsShared, Run-IsShared}

abbrev two : Flights
two = ask 2 "lights" (ask 1 "lights" idle)

two-Run : Run two
two-Run = next (next start (asks 1 "lights" idle)) (asks 2 "lights" (ask 1 "lights" idle))

Run-IsShared_example : IsShared two
Run-IsShared_example = Run-IsShared two-Run

in_flight : lookup "lights" two.in_flight ≡ some 0
unfolding ask lookup insert
in_flight = refl
