-- ===== src/Meter.antt =====
-- apps/console-api/src/http/meter.ts: how many Mutations one key may spend in a minute.
-- The clock is an argument of each call: times are whole milliseconds since the epoch.
pub mod Sweep
pub mod Window
pub mod Waiting
pub mod Forgetting
use sharpn.Prelude.{
  ℕ, ◌+◌, ◌-◌, ◌*◌, ◌/◌, max, String, Bool, Option, none, some, List, [], ◌∷◌, ◌++◌, map, ltb,
  if◌then◌else◌, length, keep, head?, or_else,
}
use sharpn.Prelude.Maps.{lookup, insert}

abbrev pub mutations_per_minute : ℕ
mutations_per_minute = 60

abbrev pub login_attempts_per_minute : ℕ
login_attempts_per_minute = 5

abbrev pub window_ms : ℕ
window_ms = 60000

pub data Spend : Type 0 where
  allowed : Spend
  refused : ℕ → Spend

-- When each key's recent Mutations were sent, oldest first: the `Map` that the closure holds.
abbrev pub Sent : Type 0
Sent = List (String × List ℕ)

-- `time > at - WINDOW_MS`, with the window on the other side, since `-` stops at 0.
abbrev pub inside : ℕ → ℕ → Bool
inside at time = ltb at (time + window_ms)

-- An entry with nothing left inside the window is deleted, and any other keeps what is.
abbrev pub put_recent : String → List ℕ → Sent → Sent
put_recent other [] rest = rest
put_recent other (t ∷ ts) rest = (other, t ∷ ts) ∷ rest

-- The loop over every session.
unfoldable pub sweep : ℕ → Sent → Sent
sweep at [] = []
sweep at ((other, times) ∷ sent) = put_recent other (keep (inside at) times) (sweep at sent)

-- `sent.get(key) ?? []`.
abbrev pub times : String → Sent → List ℕ
times key sent = or_else (lookup key sent) []

-- `Math.ceil(ms / 1000)`, and never zero.
abbrev pub seconds_to_wait : ℕ → ℕ
seconds_to_wait ms = max 1 ((ms + 999) / 1000)

-- `oldest + WINDOW_MS - at`; on a refusal the oldest is inside the window, so this is not negative.
abbrev pub wait_for : ℕ → List ℕ → ℕ
wait_for at recent = or_else (head? recent) at + window_ms - at

-- What `spend` does after the sweep.
unfoldable pub decide : ℕ → String → ℕ → Sent → Sent × Spend
decide limit key at sent =
    if ltb (length (times key sent)) limit
    then (insert key (times key sent ++ at ∷ []) sent, allowed)
    else (sent, refused (seconds_to_wait (wait_for at (times key sent))))

-- `spend(key)` of a meter that allows `limit`, when the clock says `at`.
unfoldable pub spend : ℕ → String → ℕ → Sent → Sent × Spend
spend limit key at sent = decide limit key at (sweep at sent)

pub remembering : Sent → List String
remembering sent = map (λ entry. entry.0) sent
