-- ===== src/Server/After.antt =====
-- What can happen to the process of apps/console-api/src/server.ts after it was told to stop.
use sharpn.Prelude.{ℕ, suc, String, ◌≡◌, Bool, true, ◌&&◌, not, List, ◌∷◌, ◌++◌, if◌then◌else◌}
use sharpn.Status.{GrpcStatus}
use sharpn.Adapter.{Listening}
use sharpn.Adapter.Ending as Subscribing
use sharpn.Backoff.{Delays}
use sharpn.Events.{Stream}
use sharpn.Events.Ending as Streaming
use sharpn.Fanout.{Fanout}
use sharpn.Fanout.Running as Fanning
use sharpn.Server.{Browser, Process, open_browser, unlisten_if, connections, closed}

module _ (jitter : ℕ → ℕ → ℕ) (d : Delays) (grpc : GrpcStatus) (id : String) where
  -- What happens to the process after it was told to stop: the fan-out's own steps, the events of the
  -- cancelled stream, requests that come on a connection that is kept alive, that are answered or
  -- that open an event stream, connections that end, what happens to an event stream, and the server
  -- that closes once nothing is open.
  pub data Step : Process → Process → Type 0 where
    fans :
        {g : Fanout} (p : Process)
        → Fanning.Step jitter d p.fanout g
        → Step p (record p { fanout = g })
    streams :
        {m : Listening} (p : Process)
        → Subscribing.Step grpc id p.subscription m
        → Step p (record p { subscription = m })
    asks :
        (n : ℕ) (p : Process)
        → p.idle ≡ suc n
        → Step p (record p { idle = n; answering = suc p.answering })
    answers :
        (kept : Bool) (n : ℕ) (p : Process)
        → p.answering ≡ suc n
        → Step p (record p { answering = n; idle = if kept then suc p.idle else p.idle })
    leaves : (n : ℕ) (p : Process) → p.idle ≡ suc n → Step p (record p { idle = n })
    subscribes :
        (l n : ℕ) (p : Process)
        → p.answering ≡ suc n
        → Step p (open_browser l (record p { answering = n }))
    browses :
        (before after : List Browser) (b : Browser) {s : Stream} (p : Process)
        → p.browsers ≡ before ++ b ∷ after
        → Streaming.Step b.stream s
        → Step p (record p {
          browsers = before ++ record b { stream = s } ∷ after;
          fanout = unlisten_if (s.ended && not b.stream.ended) b.listener p.fanout;
        })
    closes : (p : Process) → p.closing ≡ true → connections p ≡ 0 → Step p (closed p)

  pub data Steps (p : Process) : Process → Type 0 where
    here : Steps p p
    later : {q r : Process} → Steps p q → Step q r → Steps p r
