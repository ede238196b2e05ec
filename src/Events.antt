-- ===== src/Events.antt =====
-- apps/console-api/src/http/events.ts: one browser's stream of Server-Sent Events.
-- The timers, the Notices of the fan-out and the close of the request are steps; what the fan-out and
-- the session check answer at that moment is an argument.
pub mod Flushing
pub mod Ending
pub mod Closing
use sharpn.Prelude.{
  ℕ, zero, suc, ◌+◌, ◌-◌, ◌*◌, ◌/◌, ◌%◌, ◌≤◌, ◌<◌, min, max, String, ◌≡◌, refl, sym, ap, subst, ◌∙◌,
  ◌≢◌, ◌↔◌, ◌⊎◌, inl, inr, Bool, true, false, ◌&&◌, ◌||◌, not, Option, none, some, List, [], ◌∷◌,
  ◌++◌, map, arith, ltb, leb, ◌==◌, str_eq, if◌then◌else◌, ltb→lt, lt→ltb, leb→le, str_eq_iff,
  str_eq_refl, Bool-cases, Option-cases, or_else, is_some, length, get_elem?, head?, length-append,
  keep, all, any, All,
}
use sharpn.Prelude.Maps.{
  lookup, insert, delete, lookup-insert, lookup-insert_self, lookup-delete, Distinct,
  insert-Distinct,
}
use sharpn.Prelude.Decimal.{Text, codes}
use sharpn.Codec.{Notice, invalidation, gap, Change, ResourceIdentifier, text_eq}

abbrev pub flush_interval_ms : ℕ
flush_interval_ms = 50

abbrev pub heartbeat_interval_ms : ℕ
heartbeat_interval_ms = 15000

-- What a `connection` event says.
pub record ConnectionStatus : Type 0 where
  pub connected : Bool
  pub resyncing : Bool

-- What is written: an event, or the comment of the heartbeat.
pub data Written : Type 0 where
  light : Change → String → Written
  connection : ConnectionStatus → Written
  heartbeat : Written

-- The variables of `openStream`, with what was written, latest last, and whether its two timers run,
-- the fan-out tells it, the registry tracks it and the response has ended.
pub record Stream : Type 0 where
  pub dirty : List (String × Change)
  pub resyncing : Bool
  pub last_sent : Option ConnectionStatus
  pub written : List Written
  pub ticking : Bool
  pub listening : Bool
  pub tracked : Bool
  pub ended : Bool

abbrev pub same_status : ConnectionStatus → ConnectionStatus → Bool
same_status a b = same a.connected b.connected && same a.resyncing b.resyncing
  where
    same : Bool → Bool → Bool
    same true b = b
    same false b = not b

-- `lastSent === undefined` or one of the two fields differs.
abbrev pub is_news : Option ConnectionStatus → ConnectionStatus → Bool
is_news none status = true
is_news (some last) status = not (same_status last status)

abbrev pub lights_of : List (String × Change) → List Written
lights_of dirty = map (λ e. light e.1 e.0) dirty

abbrev pub status_of : Bool → Stream → ConnectionStatus
status_of subscribed s = record { connected = subscribed; resyncing = s.resyncing }

-- `flush`, when the fan-out answers `subscribed`.
unfoldable pub flush : Bool → Stream → Stream
flush subscribed s =
    let status = status_of subscribed s in
    let cleared = record s {
      written = s.written ++ lights_of s.dirty;
      dirty = [];
      resyncing = false;
    } in
    if is_news s.last_sent status
    then record cleared {
      written = (s.written ++ lights_of s.dirty) ++ connection status ∷ [];
      last_sent = some status;
    }
    else cleared

-- `openStream`: the first flush, and then the timers, the listener and the registry.
unfoldable pub open_stream : Bool → Stream
open_stream subscribed =
    record (flush subscribed (record {
      dirty = [];
      resyncing = false;
      last_sent = none;
      written = [];
      ticking = false;
      listening = false;
      tracked = false;
      ended = false;
    })) { ticking = true; listening = true; tracked = true }

-- `onNotice`.
pub on_notice : Notice → Stream → Stream
on_notice (invalidation kind resource) s =
    if text_eq resource.rtype (codes "light")
    then record s { dirty = insert resource.rid kind s.dirty }
    else s
on_notice (gap cause missed) s = record s { resyncing = true }

-- `end`.
unfoldable pub end : Stream → Stream
end s =
    if s.ended
    then s
    else record s { ended = true; ticking = false; listening = false; tracked = false }

-- The timer of the heartbeat, when the cookie of the request verifies or not.
pub beat : Bool → Stream → Stream
beat verifies s = if verifies then record s { written = s.written ++ heartbeat ∷ [] } else end s

-- `closeAll` of the registry, which has the `end` of every stream that is tracked.
abbrev pub end_if : Bool → Stream → Stream
end_if true s = end s
end_if false s = s

pub close_all : List Stream → List Stream
close_all [] = []
close_all (s ∷ ss) = end_if s.tracked s ∷ close_all ss
