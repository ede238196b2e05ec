-- ===== src/Console/Live.antt =====
-- apps/console/src/events/LiveLightsProvider.tsx and queries/{raceAwareInvalidate,invalidateLight}.ts:
-- what the Console reads again when it is told that a Light may have changed. The query cache is
-- third-party: for each key it runs at most one read, and an invalidation while it does joins it.
pub mod Fresh
use sharpn.Prelude.{
  ℕ, zero, suc, ◌+◌, ◌-◌, ◌*◌, ◌/◌, ◌%◌, ◌≤◌, ◌<◌, min, max, String, ◌≡◌, refl, sym, ap, subst, ◌∙◌,
  ◌≢◌, ◌↔◌, ◌⊎◌, inl, inr, Bool, true, false, ◌&&◌, ◌||◌, not, Option, none, some, List, [], ◌∷◌,
  ◌++◌, map, arith, ltb, leb, ◌==◌, str_eq, if◌then◌else◌, ltb→lt, lt→ltb, leb→le, str_eq_iff,
  str_eq_refl, Bool-cases, Option-cases, or_else, is_some, length, get_elem?, head?, length-append,
  keep, all, any, All,
}
use sharpn.Prelude.Maps.{
  lookup, insert, delete, lookup-insert, lookup-insert_self, lookup-delete, Distinct,
  insert-Distinct,
}
use sharpn.Codec.{Change, added, changed, removed}

-- What is invalidated: the list, one Light's detail, or the whole collection under their prefix.
pub data Scope : Type 0 where
  the_list : Scope
  detail : String → Scope
  everything : Scope

abbrev pub scope_eq : Scope → Scope → Bool
scope_eq the_list the_list = true
scope_eq (detail a) (detail b) = str_eq a b
scope_eq everything everything = true
scope_eq _ _ = false

-- A query is the list or one Light's detail.
pub data Query : Type 0 where
  list_query : Query
  detail_query : String → Query

-- `findAll({ queryKey, exact })`.
abbrev pub matches : Scope → Query → Bool
matches the_list list_query = true
matches (detail id) (detail_query other) = str_eq id other
matches everything q = true
matches _ _ = false

-- The reads that run, the scopes that wait for them, the scopes that were read anew, latest first,
-- and what the provider shows: whether the Gateway was connected when it last said.
pub record Live : Type 0 where
  pub fetching : List Query
  pub scheduled : List Scope
  pub read_anew : List Scope
  pub previous_gateway : Option Bool

abbrev pub still_fetching : Scope → List Query → Bool
still_fetching scope qs = any (matches scope) qs

abbrev pub is_scheduled : Scope → List Scope → Bool
is_scheduled scope ss = any (scope_eq scope) ss

-- `queryClient.invalidateQueries`, which is third-party: it reads the scope anew, except that where a
-- match is being read it joins the read that runs and starts none.
abbrev pub invalidate_queries : Scope → Live → Live
invalidate_queries scope l = record l {
  read_anew = if still_fetching scope l.fetching then l.read_anew else scope ∷ l.read_anew;
}

pub race_aware_invalidate : Scope → Live → Live
race_aware_invalidate scope l =
    if not (still_fetching scope l.fetching)
    then invalidate_queries scope l
    else if is_scheduled scope l.scheduled
    then l
    else record l { scheduled = scope ∷ l.scheduled }

abbrev pub unscheduled : Scope → List Scope → List Scope
unscheduled scope ss = keep (λ s. not (scope_eq scope s)) ss

-- What the subscription that waits for a scope does when the cache tells it of a change.
pub on_cache_event : Scope → Live → Live
on_cache_event scope l =
    if not (is_scheduled scope l.scheduled) || still_fetching scope l.fetching
    then l
    else invalidate_queries scope (record l { scheduled = unscheduled scope l.scheduled })

unfoldable pub invalidate_light : String → Live → Live
invalidate_light id l = race_aware_invalidate the_list (race_aware_invalidate (detail id) l)

unfoldable pub on_light_notice : String → Change → Live → Live
on_light_notice id changed l = invalidate_light id l
on_light_notice id _ l = race_aware_invalidate the_list l

-- `previousGateway.current === "reconnecting" && connection.gateway === "connected"`.
abbrev pub recovered : Option Bool → Bool → Bool
recovered (some false) connected = connected
recovered _ connected = false

pub on_connection_status : Bool → Live → Live
on_connection_status connected l =
    record (if recovered l.previous_gateway connected
      then race_aware_invalidate everything l
      else l) { previous_gateway = some connected }
