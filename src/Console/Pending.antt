-- ===== src/Console/Pending.antt =====
-- apps/console/src/pending: what a person asked of a Light, until a read says what is true.
-- A time is a whole number of milliseconds.
pub mod Clearing
use sharpn.Prelude.{
  ℕ, zero, suc, ◌+◌, ◌-◌, ◌*◌, ◌/◌, ◌%◌, ◌≤◌, ◌<◌, min, max, String, ◌≡◌, refl, sym, ap, subst, ◌∙◌,
  ◌≢◌, ◌↔◌, ◌⊎◌, inl, inr, Bool, true, false, ◌&&◌, ◌||◌, not, Option, none, some, List, [], ◌∷◌,
  ◌++◌, map, arith, ltb, leb, ◌==◌, str_eq, if◌then◌else◌, ltb→lt, lt→ltb, leb→le, str_eq_iff,
  str_eq_refl, Bool-cases, Option-cases, or_else, is_some, length, get_elem?, head?, length-append,
  keep, all, any, All,
}
use sharpn.Prelude.Maps.{
  lookup, insert, delete, lookup-insert, lookup-insert_self, lookup-delete, Distinct,
  insert-Distinct,
}
use sharpn.Command.{LightCommand}

pub record PendingCommand : Type 0 where
  pub light_id : String
  pub command : LightCommand
  pub sent_at : ℕ

-- The state of `PendingCommandsProvider`.
abbrev pub Pending : Type 0
Pending = List (String × PendingCommand)

-- Strictly after.
abbrev pub is_superseded_by_a_read_after : PendingCommand → ℕ → Bool
is_superseded_by_a_read_after pending data_updated_at = ltb pending.sent_at data_updated_at

pub set_pending : PendingCommand → Pending → Pending
set_pending command current = insert command.light_id command current

-- `ifSentAt !== undefined && existing.sentAt !== ifSentAt`.
abbrev pub is_newer : PendingCommand → Option ℕ → Bool
is_newer existing none = false
is_newer existing (some at) = not (existing.sent_at == at)

abbrev pub clear_found : String → Option PendingCommand → Option ℕ → Pending → Pending
clear_found light_id none if_sent_at current = current
clear_found light_id (some existing) if_sent_at current =
    if is_newer existing if_sent_at then current else delete light_id current

pub clear_pending : String → Option ℕ → Pending → Pending
clear_pending light_id if_sent_at current =
    clear_found light_id (lookup light_id current) if_sent_at current

-- The effect of `usePendingCommand`, which runs when the Light's entry or its read changes.
abbrev pub read_found : String → Option PendingCommand → Option ℕ → Pending → Pending
read_found light_id (some entry) (some data_updated_at) current =
    if is_superseded_by_a_read_after entry data_updated_at
    then clear_pending light_id none current
    else current
read_found light_id _ _ current = current

pub use_pending_command : String → Option ℕ → Pending → Pending
use_pending_command light_id data_updated_at current =
    read_found light_id (lookup light_id current) data_updated_at current
