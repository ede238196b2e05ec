-- ===== src/Console/Live/Fresh.antt =====
-- What becomes of the calls of apps/console/src/queries/raceAwareInvalidate.ts.
use sharpn.Prelude.{ℕ, suc, ◌≤◌, ◌<◌, ◌≡◌, ◌⊎◌, true, List, [], ◌∷◌, arith, if◌then◌else◌}
use sharpn.Console.Live.{
  Bool, Scope, scope_eq, Query, Live, is_scheduled, race_aware_invalidate, on_cache_event,
  on_connection_status,
}

-- Calls, the reads that start and end, and what the waiting subscriptions are told of them.
pub data Step : Live → Live → Type 0 where
  invalidates : (scope : Scope) (l : Live) → Step l (race_aware_invalidate scope l)
  fetches : (fetching : List Query) (l : Live) → Step l (record l { fetching = fetching })
  observes : (scope : Scope) (l : Live) → Step l (on_cache_event scope l)
  connects : (connected : Bool) (l : Live) → Step l (on_connection_status connected l)

pub data Steps (l : Live) : Live → Type 0 where
  here : Steps l l
  later : {k m : Live} → Steps l k → Step k m → Steps l m

-- How many times a scope was read anew.
abbrev pub count : Scope → List Scope → ℕ
count scope [] = 0
count scope (s ∷ ss) = if scope_eq scope s then suc (count scope ss) else count scope ss

-- Still to be made, or made since there were `n`.
abbrev IsKept : ℕ → Scope → Live → Type 0
IsKept n scope l = (is_scheduled scope l.scheduled ≡ true) ⊎ (n < count scope l.read_anew)

-- Reads are only ever added.
pub invalidate-count :
    (scope other : Scope) (l : Live)
    → count scope l.read_anew ≤ count scope (race_aware_invalidate other l).read_anew
unfolding race_aware_invalidate
invalidate-count scope other l = ground arith
