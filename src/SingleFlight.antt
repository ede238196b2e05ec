-- ===== src/SingleFlight.antt =====
-- apps/console-api/src/gateway/single-flight.ts: concurrent identical reads share one RPC.
-- The event loop is a sequence of steps: a caller asks, or an RPC that was started settles.
pub mod Sharing
use sharpn.Prelude.{
  ℕ, zero, suc, ◌+◌, ◌-◌, ◌*◌, ◌/◌, ◌%◌, ◌≤◌, ◌<◌, min, max, String, ◌≡◌, refl, sym, ap, subst, ◌∙◌,
  ◌≢◌, ◌↔◌, ◌⊎◌, inl, inr, Bool, true, false, ◌&&◌, ◌||◌, not, Option, none, some, List, [], ◌∷◌,
  ◌++◌, map, arith, ltb, leb, ◌==◌, str_eq, if◌then◌else◌, ltb→lt, lt→ltb, leb→le, str_eq_iff,
  str_eq_refl, Bool-cases, Option-cases, or_else, is_some, length, get_elem?, head?, length-append,
  keep, all, any, All,
}
use sharpn.Prelude.Maps.{
  lookup, insert, delete, lookup-insert, lookup-insert_self, lookup-delete, Distinct,
  insert-Distinct,
}

-- A caller, the key it asked under, and the RPC whose answer it is given.
pub record Sharer : Type 0 where
  pub caller : ℕ
  pub key : String
  pub flight : ℕ

-- An RPC that was started under a key.
pub record Rpc : Type 0 where
  pub key : String
  pub flight : ℕ

-- The Map of the closure, with what the language keeps beside it: how many RPCs were started, which
-- of them have not settled, which callers wait, and which were answered.
pub record Flights : Type 0 where
  pub in_flight : List (String × ℕ)
  pub started : ℕ
  pub running : List Rpc
  pub waiting : List Sharer
  pub answered : List Sharer

abbrev pub idle : Flights
idle = record { in_flight = []; started = 0; running = []; waiting = []; answered = [] }

abbrev pub sharer : ℕ → String → ℕ → Sharer
sharer caller key flight = record { caller = caller; key = key; flight = flight }

-- What a call of `share` comes to: the promise that runs already, or a new one under the key.
abbrev pub join_or_start : ℕ → String → Option ℕ → Flights → Flights
join_or_start caller key (some flight) f = record f {
  waiting = sharer caller key flight ∷ f.waiting;
}
join_or_start caller key none f = record f {
  in_flight = insert key f.started f.in_flight;
  started = suc f.started;
  running = record { key = key; flight = f.started } ∷ f.running;
  waiting = sharer caller key f.started ∷ f.waiting;
}

unfoldable pub ask : ℕ → String → Flights → Flights
ask caller key f = join_or_start caller key (lookup key f.in_flight) f

abbrev pub waits_on : ℕ → Sharer → Bool
waits_on flight w = w.flight == flight

abbrev pub is_rpc : String → ℕ → Rpc → Bool
is_rpc key flight r = str_eq r.key key && r.flight == flight

-- The RPC has been started under the key and has not settled.
abbrev pub runs : String → ℕ → List Rpc → Bool
runs key flight rs = any (is_rpc key flight) rs

-- The RPC under a key settles, well or badly: `finally` deletes the key, and then every sharer is
-- resumed.
pub settle : String → ℕ → Flights → Flights
settle key flight f = record f {
  in_flight = delete key f.in_flight;
  running = keep (λ r. not (is_rpc key flight r)) f.running;
  waiting = keep (λ w. not (waits_on flight w)) f.waiting;
  answered = keep (waits_on flight) f.waiting ++ f.answered;
}
