-- ===== src/Server/Stopping.antt =====
-- What is left once apps/console-api/src/server.ts has been told to stop.
use sharpn.Prelude.{ℕ, String, ◌≡◌, ◌⊎◌, true, false, List, [], ◌∷◌, ◌++◌, All}
use sharpn.Status.{GrpcStatus, ok}
use sharpn.Adapter.{Listening}
use sharpn.Adapter
use sharpn.Adapter.Ending as Subscribing
use sharpn.Adapter.Ending.{endings}
use sharpn.Backoff.{Delays}
use sharpn.Events.Ending as Streaming
use sharpn.Fanout.{Fanout}
use sharpn.Fanout
use sharpn.Fanout.Running as Fanning
use sharpn.Server.{Browser, Process, end_browsers, stop, connections}
use sharpn.Server.After.{Steps}
use sharpn.Server.Lasting.{IsServing, HasEnded, listeners_of}

-- What holds from the stop on.
pub record IsStopping (jitter : ℕ → ℕ → ℕ) (d : Delays) (grpc : GrpcStatus) (id : String)
    (p q : Process) : Type 0 where
  pub fanned : Fanning.Steps jitter d (Fanout.stop p.fanout) q.fanout
  pub streamed : Subscribing.Steps grpc id (Adapter.stop p.subscription) q.subscription
  pub serving : All IsServing q.browsers
  pub browsers : (late : List Browser) × (q.browsers ≡ late ++ end_browsers p.browsers)
  pub refusing : q.accepting ≡ false
  pub waits :
      (q.closing ≡ true) × (q.channel_closed ≡ false)
      ⊎ (q.channel_closed ≡ true) × (connections q ≡ 0)

-- Where the process stands between the stop and its end.
pub record IsShut (p q : Process) : Type 0 where
  pub ended :
      (late : List Browser) × (early : List Browser) × (q.browsers ≡ late ++ early)
      × (listeners_of early ≡ listeners_of p.browsers)
      × All HasEnded early
  pub no_subscription : (q.fanout.opened ≡ p.fanout.opened) × (q.fanout.is_open ≡ false)
  pub clean :
      q.subscription.ended ≡ true → (id : String) × (endings q.subscription.told ≡ ok id tt ∷ [])
  pub refusing : q.accepting ≡ false
  pub waits :
      ((q.closing ≡ true) × (q.channel_closed ≡ false))
      ⊎ ((q.channel_closed ≡ true) × (connections q ≡ 0))
