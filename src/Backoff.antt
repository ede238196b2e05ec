-- ===== src/Backoff.antt =====
-- apps/console-api/src/events/backoff.ts: how long to wait before subscribing again.
-- Milliseconds are whole numbers; the jitter is a parameter, which may draw anew for each call.
pub mod Schedule
use sharpn.Prelude.{
  ℕ, zero, suc, ◌+◌, ◌-◌, ◌*◌, ◌/◌, ◌%◌, ◌≤◌, ◌<◌, min, max, String, ◌≡◌, refl, sym, ap, subst, ◌∙◌,
  ◌≢◌, ◌↔◌, ◌⊎◌, inl, inr, Bool, true, false, ◌&&◌, ◌||◌, not, Option, none, some, List, [], ◌∷◌,
  ◌++◌, map, arith, ltb, leb, ◌==◌, str_eq, if◌then◌else◌, ltb→lt, lt→ltb, leb→le, str_eq_iff,
  str_eq_refl, Bool-cases, Option-cases, or_else, is_some, length, get_elem?, head?, length-append,
  keep, all, any, All,
}
use sharpn.Prelude.Maps.{
  lookup, insert, delete, lookup-insert, lookup-insert_self, lookup-delete, Distinct,
  insert-Distinct,
}
use sharpn.Prelude.Int.{ℤ, pos, negsuc}

pub record Backoff : Type 0 where
  pub base_ms : ℤ
  pub ceiling_ms : ℤ

abbrev pub default_backoff : Backoff
default_backoff = record { base_ms = pos 500; ceiling_ms = pos 30000 }

-- What the closure keeps: where the doubling stops, and the ceiling of the next draw.
pub record Delays : Type 0 where
  pub limit : ℕ
  pub ceiling : ℕ

abbrev start_from : ℕ → ℤ → Option Delays
start_from base (negsuc n) = none
start_from base (pos ceiling) =
    if ltb ceiling base then none else some (record { limit = ceiling; ceiling = base })

-- `delays(backoff)`; `none` is the error that it throws.
unfoldable pub delays : Backoff → Option Delays
delays b = elim b.base_ms [ negsuc n ↦ none | pos base ↦ start_from base b.ceiling_ms ]

-- A call of the closure: the delay, and what it keeps for the next call.
unfoldable pub next_delay : (ℕ → ℕ) → Delays → ℕ × Delays
next_delay jitter d = (jitter d.ceiling, record d { ceiling = min d.limit (d.ceiling * 2) })
