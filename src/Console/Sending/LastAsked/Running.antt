-- ===== src/Console/Sending/LastAsked/Running.antt =====
-- Runs of apps/console/src/queries/useUpdateLight.ts, with regard to what was asked last.
use sharpn.Prelude.{
  String, ◌≡◌, refl, sym, subst, ◌∙◌, ◌≢◌, inl, inr, Option, none, some, List, ◌∷◌, ◌++◌, arith,
  str_eq_refl, All,
}
use sharpn.Prelude.Maps.{lookup}
use sharpn.Command.{LightCommand}
use sharpn.Console.Sending.{Patch, Sender, conclude}
use sharpn.Console.Sending.InFlight.{
  one_if, arrived, Step, sends, settles, Run, start, later, flying, conclude-same, IsSingle,
  Run-IsSingle, arrived-IsFreed, All-middle, IsHooked, Run-kept, on_settled-runs,
}
use sharpn.Console.Sending.LastAsked.{IsHeard, IsSettling, WasSent, send-IsHeard, settle-IsHeard}

module _ (before after : List Patch) (p : Patch) (s : Sender)
    (there : s.outstanding ≡ before ++ p ∷ after) (single : IsSingle s) (h : IsHeard s) where
  arrived-IsSettling : IsSettling p.light_id p.command (arrived before after s)
  arrived-IsSettling =
      let latest = subst (All (λ q. lookup q.light_id s.fired ≡ some q.command)) there h.latest in
      let (own, rest) =
        All-middle (λ q. lookup q.light_id s.fired ≡ some q.command) before after p latest in
      record {
        free =
            arrived-IsFreed before after p s there single p.light_id
            ∙ rw (str_eq_refl p.light_id) refl;
        latest = rest;
        sent = own;
        owed = h.owed;
        waiting = h.waiting;
      }

-- The fields that a settling PATCH does not touch decide.
same-IsSettling :
    (id : String) (c : LightCommand) (s t : Sender)
    → t.in_flight ≡ s.in_flight
    → t.outstanding ≡ s.outstanding
    → t.asked ≡ s.asked
    → t.fired ≡ s.fired
    → IsSettling id c s
    → IsSettling id c t
same-IsSettling id c s t a b e f h = record {
  free = rw b h.free;
  latest = rw (b, f) h.latest;
  sent = rw f h.sent;
  owed = λ l d. rw (a, e, f) (h.owed l d);
  waiting = λ l d. rw (a, e) (h.waiting l d);
}

Step-IsHeard :
    {id : String} {s t : Sender} → Step id s t → IsSingle s → IsHooked id s → IsHeard s → IsHeard t
Step-IsHeard {id} (sends now c s) single hooked h = send-IsHeard now id c s single h
Step-IsHeard {id} (settles before after p how now s there) single hooked h =
    let (a, b, e, f, calls, mounted) = conclude-same how p (arrived before after s) in
    subst IsHeard (sym (on_settled-runs id before after p how now s there hooked)) (
      settle-IsHeard now p.light_id p.command (conclude how p (arrived before after s)) (
        same-IsSettling p.light_id p.command (arrived before after s) _ a b e f
          (arrived-IsSettling before after p s there single h)))

Run-IsHeard : {id : String} {s : Sender} → Run id s → IsHeard s
unfolding lookup
Run-IsHeard start = record { latest = tt; owed = λ l c e. cc; waiting = λ l c e. cc }
Run-IsHeard (later run step) =
    let (single, hooked) = Run-kept run in Step-IsHeard step single hooked (Run-IsHeard run)

-- However sending and settling interleave in a hook that stays mounted and is asked for one Light,
-- and whatever the PATCHes come to: once none is outstanding any more, the Command that was asked
-- last was sent last, or equals the one that was.
pub Run-WasSent :
    {s : Sender} (l : String) (c : LightCommand)
    → Run l s
    → lookup l s.asked ≡ some c
    → flying l s.outstanding ≡ 0
    → WasSent l c s
Run-WasSent {s} l c run asked done = elim ((Run-IsHeard run).owed l c asked) [
  | inl waits ↦ absurd (nothing_held (lookup l s.in_flight) (sym (Run-IsSingle run l) ∙ done) waits)
  | inr (was, rest) ↦ was
]
  where
    nothing_held : (o : Option (Option LightCommand)) → one_if o ≡ 0 → o ≢ some (some c)
    nothing_held none e p = cc
    nothing_held (some a) e p = omega (arith, e)
