-- ===== src/Console/Pending/Clearing.antt =====
-- What is left of the Pending Commands of apps/console/src/pending when one is cleared.
use sharpn.Prelude.{
  ℕ, String, ◌≡◌, inl, inr, Option, none, some, arith, ltb, str_eq, if◌then◌else◌, str_eq_iff,
  Bool-cases, Option-cases,
}
use sharpn.Prelude.Maps.{lookup, lookup-delete}
use sharpn.Console.Pending.{PendingCommand, Pending, is_newer, clear_pending, use_pending_command}

-- What settling leaves of a Light's entry: nothing, where the entry is the one that settles.
abbrev pub unless_sent_at : Option ℕ → Option PendingCommand → Option PendingCommand
unless_sent_at at none = none
unless_sent_at at (some entry) = if is_newer entry at then some entry else none

-- What a read leaves of it: nothing, where the read is newer.
abbrev pub unless_read_after : Option ℕ → Option PendingCommand → Option PendingCommand
unless_read_after (some updated) (some entry) =
    if ltb entry.sent_at updated then none else some entry
unless_read_after _ entry = entry

-- Clearing what was sent at a time leaves a Command that was sent at another, and every other
-- Light's entry.
pub lookup-clear_pending :
    (light_id other : String) (at : Option ℕ) (p : Pending)
    → lookup other (clear_pending light_id at p)
      ≡ (if str_eq light_id other then unless_sent_at at (lookup other p) else lookup other p)
unfolding clear_pending
lookup-clear_pending light_id other at p = elim (Option-cases (lookup light_id p)) [
  | inl missed ↦ rw missed (ground (arith, str_eq_iff light_id other))
  | inr (entry, found) ↦ rw found (elim (Bool-cases (is_newer entry at)) [
    | inl newer ↦ rw newer (ground (arith, str_eq_iff light_id other))
    | inr settled ↦
        rw settled (ground (arith, str_eq_iff light_id other, lookup-delete light_id other p))
  ])
]

-- A Light's entry goes away with a read that is strictly newer than it, and with no other, and no
-- other Light's does.
pub lookup-use_pending_command :
    (light_id other : String) (updated : Option ℕ) (p : Pending)
    → lookup other (use_pending_command light_id updated p) ≡ (
        if str_eq light_id other
        then unless_read_after updated (lookup other p)
        else lookup other p)
unfolding use_pending_command
lookup-use_pending_command light_id other none p = elim (Option-cases (lookup light_id p)) [
  | inl missed ↦ rw missed (ground arith)
  | inr (entry, found) ↦ rw found (ground arith)
]
lookup-use_pending_command light_id other (some at) p = elim (Option-cases (lookup light_id p)) [
  | inl missed ↦ rw missed (ground (arith, str_eq_iff light_id other))
  | inr (entry, found) ↦
      rw found
        (ground (arith, str_eq_iff light_id other, lookup-clear_pending light_id other none p))
]
