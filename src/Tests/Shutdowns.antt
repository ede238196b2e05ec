-- ===== src/Tests/Shutdowns.antt =====
-- server.ts on a process with one browser, one other request and an idle connection.
use sharpn.Prelude.{suc, true, false, some, [], ◌∷◌}
use sharpn.Backoff.{Delays}
use sharpn.Adapter.{subscribe}
use sharpn.Adapter.Ending as Subscribing
use sharpn.Events.{open_stream}
use sharpn.Events.Ending as Streaming
use sharpn.Fanout.{first}
use sharpn.Server.{Process, stop}

abbrev delays : Delays
delays = record { limit = 30000; ceiling = 500 }

abbrev running : Process
running = record {
  fanout = record (first (λ s c. c) delays) {
    is_open = true;
    listeners = 1 ∷ [];
    listening = some 0;
    opened = 1;
    live = 0 ∷ [];
  };
  subscription = subscribe;
  browsers = record { listener = 1; stream = open_stream true } ∷ [];
  answering = 1;
  idle = 1;
  accepting = true;
  closing = false;
  channel_closed = false;
}

-- The request is answered, and its connection is kept alive for the next.
abbrev answered : Process
answered = record (stop running) { answering = 0; idle = suc (stop running).idle }
