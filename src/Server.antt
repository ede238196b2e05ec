-- ===== src/Server.antt =====
-- apps/console-api/src/server.ts: the process, put together and shut down. What node's HTTP server
-- promises of `close` is a step: its callback runs once no connection is open.
pub mod After
pub mod Stopping
pub mod Lasting
use sharpn.Prelude.{
  ℕ, zero, suc, ◌+◌, ◌-◌, ◌*◌, ◌/◌, ◌%◌, ◌≤◌, ◌<◌, min, max, String, ◌≡◌, refl, sym, ap, subst, ◌∙◌,
  ◌≢◌, ◌↔◌, ◌⊎◌, inl, inr, Bool, true, false, ◌&&◌, ◌||◌, not, Option, none, some, List, [], ◌∷◌,
  ◌++◌, map, arith, ltb, leb, ◌==◌, str_eq, if◌then◌else◌, ltb→lt, lt→ltb, leb→le, str_eq_iff,
  str_eq_refl, Bool-cases, Option-cases, or_else, is_some, length, get_elem?, head?, length-append,
  keep, all, any, All,
}
use sharpn.Prelude.Maps.{
  lookup, insert, delete, lookup-insert, lookup-insert_self, lookup-delete, Distinct,
  insert-Distinct,
}
use sharpn.Adapter.{Listening}
use sharpn.Adapter
use sharpn.Events.{Stream, end_if, open_stream}
use sharpn.Fanout.{Fanout, listen, unlisten}
use sharpn.Fanout

-- A browser's stream, with the number that it listens under.
pub record Browser : Type 0 where
  pub listener : ℕ
  pub stream : Stream

-- The fan-out with the stream that it reads, the event streams, the other requests that are being
-- answered, the connections that are kept alive with no request on them, and whether the server takes
-- new connections, waits for the last ones, and has closed the channel.
pub record Process : Type 0 where
  pub fanout : Fanout
  pub subscription : Listening
  pub browsers : List Browser
  pub answering : ℕ
  pub idle : ℕ
  pub accepting : Bool
  pub closing : Bool
  pub channel_closed : Bool

-- `end` of a stream, which takes its listener out of the fan-out.
abbrev pub unlisten_if : Bool → ℕ → Fanout → Fanout
unlisten_if true l f = unlisten l f
unlisten_if false l f = f

abbrev pub end_browser : Browser → Browser
end_browser b = record b { stream = end_if b.stream.tracked b.stream }

abbrev pub end_browsers : List Browser → List Browser
end_browsers bs = map end_browser bs

abbrev pub unlisten_all : List Browser → Fanout → Fanout
unlisten_all [] f = f
unlisten_all (b ∷ bs) f =
    unlisten_all bs (unlisten_if (b.stream.tracked && not b.stream.ended) b.listener f)

-- A request for the events, which a connection that is kept alive may still bring after `stop`.
abbrev pub open_browser : ℕ → Process → Process
open_browser l p = record p {
  fanout = listen l p.fanout;
  browsers =
      record { listener = l; stream = open_stream (Fanout.subscribed p.fanout) } ∷ p.browsers;
}

-- `stop`: the fan-out, which cancels its stream; the open event streams; the server.
unfoldable pub stop : Process → Process
stop p = record p {
  fanout = unlisten_all p.browsers (Fanout.stop p.fanout);
  subscription = Adapter.stop p.subscription;
  browsers = end_browsers p.browsers;
  accepting = false;
  closing = true;
}

-- How many connections the server waits for.
abbrev pub open_streams : List Browser → ℕ
open_streams bs = length (keep (λ b. not b.stream.ended) bs)

abbrev pub connections : Process → ℕ
connections p = open_streams p.browsers + p.answering + p.idle

-- The callback of `server.close`.
abbrev pub closed : Process → Process
closed p = record p { closing = false; channel_closed = true }
