-- ===== src/Fanout.antt =====
-- apps/console-api/src/events/fanout.ts: the one subscription, shared.
-- The Gateway's streams, the timers and the browsers are steps. A listener is its number; a
-- subscription is the number of the call that opened it.
pub mod Running
pub mod Waits
pub mod Telling
use sharpn.Prelude.{
  ℕ, zero, suc, ◌+◌, ◌-◌, ◌*◌, ◌/◌, ◌%◌, ◌≤◌, ◌<◌, min, max, String, ◌≡◌, refl, sym, ap, subst, ◌∙◌,
  ◌≢◌, ◌↔◌, ◌⊎◌, inl, inr, Bool, true, false, ◌&&◌, ◌||◌, not, Option, none, some, List, [], ◌∷◌,
  ◌++◌, map, arith, ltb, leb, ◌==◌, str_eq, if◌then◌else◌, ltb→lt, lt→ltb, leb→le, str_eq_iff,
  str_eq_refl, Bool-cases, Option-cases, or_else, is_some, length, get_elem?, head?, length-append,
  keep, all, any, All,
}
use sharpn.Prelude.Maps.{
  lookup, insert, delete, lookup-insert, lookup-insert_self, lookup-delete, Distinct,
  insert-Distinct,
}
use sharpn.Backoff.{Backoff, Delays, delays, next_delay}
use sharpn.Codec.{Notice}

-- How long a stream stays open before it resets the schedule.
abbrev pub confirmed_open_after_ms : ℕ
confirmed_open_after_ms = 1000

-- What the closure keeps, with what the process around it keeps: how many subscriptions were opened,
-- which have not ended, and what each listener was told, latest first.
pub record Fanout : Type 0 where
  pub listeners : List ℕ
  pub is_open : Bool
  pub stopped : Bool
  pub listening : Option ℕ
  pub reopening : Option ℕ
  pub confirming : Bool
  pub next : Delays
  pub opened : ℕ
  pub live : List ℕ
  pub told : List (ℕ × Notice)

abbrev drop : ℕ → List ℕ → List ℕ
drop s live = keep (λ t. not (t == s)) live

-- What is drawn of a ceiling is random: the draw that the end of each subscription makes is its own.
module _ (jitter : ℕ → ℕ → ℕ) where
  -- `onEnded` of a subscription.
  unfoldable pub on_ended : ℕ → Fanout → Fanout
  on_ended s f =
      let over = record f { is_open = false; confirming = false; live = drop s f.live } in
      if f.stopped then over else record over {
        reopening = some (next_delay (jitter s) f.next).0;
        next = (next_delay (jitter s) f.next).1;
      }

  -- `gateway.subscribe`, which may end before it returns.
  abbrev pub subscribe : Bool → Fanout → Fanout
  subscribe true f =
      on_ended f.opened (record f { opened = suc f.opened; live = f.opened ∷ f.live })
  subscribe false f = record f { opened = suc f.opened; live = f.opened ∷ f.live }

  -- `start`; the number of the subscription is read off the state before it.
  unfoldable pub start : Bool → Fanout → Fanout
  start refused f = record (subscribe refused (record f { is_open = true })) {
    listening = some f.opened;
  }

  -- The timer that `onEnded` set fires.
  pub reopen : Bool → Fanout → Fanout
  reopen refused f = start refused (record f { reopening = none })

  -- What `fanoutEvents` returns, once `delays` has given it a schedule.
  abbrev pub first : Delays → Fanout
  first d = record {
    listeners = [];
    is_open = false;
    stopped = false;
    listening = none;
    reopening = none;
    confirming = false;
    next = d;
    opened = 0;
    live = [];
    told = [];
  }

  unfoldable pub fanout_events : Bool → Backoff → Option Fanout
  fanout_events refused b = elim (delays b) [
    | none ↦ none
    | some d ↦ some (start refused (first d))
  ]

-- `onNotice`: every listener in turn.
abbrev pub tell : Notice → List ℕ → List (ℕ × Notice) → List (ℕ × Notice)
tell n [] told = told
tell n (l ∷ ls) told = tell n ls ((l, n) ∷ told)

pub on_notice : Notice → Fanout → Fanout
on_notice n f = record f { told = tell n f.listeners f.told }

pub on_opened : Fanout → Fanout
on_opened f = record f { confirming = true }

-- The timer that `onOpened` set fires: the schedule starts again.
pub confirm : Delays → Fanout → Fanout
confirm d f = record f { confirming = false; next = d }

-- `listeners.add` and `listeners.delete` of a Set.
unfoldable pub listen : ℕ → Fanout → Fanout
listen l f = record f {
  listeners = if any (λ k. k == l) f.listeners then f.listeners else f.listeners ++ l ∷ [];
}

pub unlisten : ℕ → Fanout → Fanout
unlisten l f = record f { listeners = drop l f.listeners }

abbrev pub subscribed : Fanout → Bool
subscribed f = f.is_open

-- `stop`: the stream is cancelled, and ends on a later turn.
pub stop : Fanout → Fanout
stop f = record f { stopped = true; reopening = none; confirming = false; is_open = false }
