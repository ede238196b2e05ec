-- ===== src/Tests/Streams.antt =====
-- events/fanout.ts and http/events.ts on short runs.
use sharpn.Prelude.{
  List, ℕ, ◌-◌, ◌≤◌, ◌≡◌, refl, true, false, none, some, [], ◌∷◌, ◌++◌, arith, any,
}
use sharpn.Prelude.Int.{pos}
use sharpn.Prelude.Decimal.{codes}
use sharpn.Backoff.{Delays, default_backoff, delays, next_delay}
use sharpn.Codec.{Notice, invalidation, gap, changed, added, reconnected}
use sharpn.Fanout.{Fanout, fanout_events, start, on_ended, reopen, listen, stop, first}
use sharpn.Fanout.Running.{reopens, listens, Steps, here, later, IsSound, Steps-IsSound}
use sharpn.Fanout.Waits.{wait-le-ceiling}
use sharpn.Events.{Stream, ConnectionStatus, Written, flush, open_stream, end}
use sharpn.Events
use sharpn.Events.Flushing.{changes_of, on_notices, listed, latest, flush-latest}
use sharpn.Events.Ending.{
  last_status, flush-status_since, is_gap, gap-pulse, ended_stays, closes, flushes,
}
use sharpn.Events.Ending

-- The end of each subscription draws another part of its ceiling.
abbrev jitter : ℕ → ℕ → ℕ
jitter s c = c - s

abbrev schedule : Delays
schedule = record { limit = 30000; ceiling = 500 }

-- The Gateway refuses the first subscription.
abbrev refused : Fanout
refused = start jitter true (first jitter schedule)

refused_made : fanout_events jitter true default_backoff ≡ some refused
unfolding fanout_events delays
refused_made = refl

refused-reopening : refused.reopening ≡ some 500
unfolding start on_ended next_delay
refused-reopening = refl

abbrev recovered : Fanout
recovered = reopen jitter false (listen 7 refused)

recovered-reopening : (listen 7 refused).reopening ≡ some 500
unfolding listen start on_ended next_delay
recovered-reopening = refl

recovering : Steps jitter schedule refused recovered
recovering =
    later (later here (listens 7 refused))
      (reopens false 500 (listen 7 refused) recovered-reopening)

Steps-IsSound_example : IsSound recovered
Steps-IsSound_example = Steps-IsSound jitter true default_backoff refused_made recovering

stopped_run : Steps jitter schedule (stop recovered) (listen 8 (stop recovered))
stopped_run = later here (listens 8 (stop recovered))

delays_given : delays default_backoff ≡ some schedule
unfolding delays
delays_given = refl

wait-le-ceiling_example : (default_backoff.ceiling_ms ≡ pos schedule.limit) × (500 ≤ schedule.limit)
wait-le-ceiling_example =
    wait-le-ceiling jitter schedule default_backoff true 500 delays_given (λ s c. omega arith)
      (later here (listens 7 refused)) recovered-reopening

refused-going : refused.stopped ≡ false
unfolding start on_ended
refused-going = refl

abbrev further : List ℕ
further = 3 ∷ 4 ∷ []

abbrev lamp : Notice
lamp = invalidation changed (record { rid = "lamp"; rtype = codes "light" })

abbrev lamp_again : Notice
lamp_again = invalidation added (record { rid = "lamp"; rtype = codes "light" })

-- A Light waits to be written when the first of the two flushes comes.
abbrev lit : Stream
lit = Events.on_notice lamp (open_stream true)

flush-latest_example :
    changes_of "lamp" (flush true (on_notices (lamp_again ∷ lamp ∷ []) (flush true lit))).written
    ≡ changes_of "lamp" (flush true lit).written ++ listed (latest "lamp" (lamp_again ∷ lamp ∷ []))
flush-latest_example = flush-latest "lamp" true true (lamp_again ∷ lamp ∷ []) lit

opened-ticking : (open_stream true).ticking ≡ true
unfolding open_stream flush
opened-ticking = refl

opened-listening : (open_stream true).listening ≡ true
unfolding open_stream flush
opened-listening = refl

flush-status_since_example :
    last_status none
      (flush false
        (on_notices (lamp ∷ gap reconnected 0 ∷ []) (flush true (open_stream true)))).written
    ≡ some (record { connected = false; resyncing = any is_gap (lamp ∷ gap reconnected 0 ∷ []) })
flush-status_since_example =
    flush-status_since true true false (lamp ∷ gap reconnected 0 ∷ []) Ending.here

gap-pulse_example :
    (last_status none (flush true (Events.on_notice (gap reconnected 0) (open_stream true))).written
      ≡ some (record { connected = true; resyncing = true }))
    × (last_status none
          (flush false
            (flush true (Events.on_notice (gap reconnected 0) (open_stream true)))).written
        ≡ some (record { connected = false; resyncing = false }))
gap-pulse_example =
    gap-pulse true true false reconnected 0 Ending.here opened-ticking opened-listening

closed : Ending.Steps (open_stream true) (end (open_stream true))
closed = Ending.later Ending.here (closes (open_stream true))

closed-ended : (end (open_stream true)).ended ≡ true
unfolding end open_stream flush
closed-ended = refl

ended_stays_example : end (end (open_stream true)) ≡ end (open_stream true)
ended_stays_example =
    ended_stays true closed closed-ended
      (Ending.later Ending.here (closes (end (open_stream true))))
