-- ===== src/Events/Flushing.antt =====
-- What a flush of http/events.ts writes to a browser.
use mathlib.Core.List.{append-nil}
use sharpn.Prelude.{
  String, ◌≡◌, refl, ap, ◌∙◌, inl, inr, Bool, ◌&&◌, Option, none, some, List, [], ◌∷◌, ◌++◌, arith,
  str_eq, if◌then◌else◌, str_eq_iff, Bool-cases,
}
use sharpn.Prelude.Maps.{lookup, lookup-insert, Distinct, insert-Distinct}
use sharpn.Prelude.Decimal.{codes}
use sharpn.Codec.{Notice, invalidation, gap, Change, text_eq}
use sharpn.Events.{
  Written, light, connection, heartbeat, Stream, is_news, lights_of, status_of, flush, on_notice,
}

-- The changes of one Light that were written, in order.
abbrev pub changes_of : String → List Written → List Change
changes_of id [] = []
changes_of id (light kind i ∷ ws) =
    if str_eq i id then kind ∷ changes_of id ws else changes_of id ws
changes_of id (connection status ∷ ws) = changes_of id ws
changes_of id (heartbeat ∷ ws) = changes_of id ws

changes_of-append :
    (id : String) (ws vs : List Written)
    → changes_of id (ws ++ vs) ≡ changes_of id ws ++ changes_of id vs
changes_of-append id [] vs = refl
changes_of-append id (light kind i ∷ ws) vs = ground (arith, changes_of-append id ws vs)
changes_of-append id (connection status ∷ ws) vs = changes_of-append id ws vs
changes_of-append id (heartbeat ∷ ws) vs = changes_of-append id ws vs

abbrev pub listed {ℓ} : {A : Type ℓ} → Option A → List A
listed none = []
listed (some a) = a ∷ []

changes_of-lights_of :
    (id : String) (dirty : List (String × Change))
    → Distinct dirty
    → changes_of id (lights_of dirty) ≡ listed (lookup id dirty)
unfolding lookup
changes_of-lights_of id [] d = refl
changes_of-lights_of id ((j, c) ∷ dirty) (fresh, d) =
    ground (arith, str_eq_iff j id, changes_of-lights_of id dirty d)

flush-lights :
    (id : String) (subscribed : Bool) (s : Stream)
    → changes_of id (flush subscribed s).written
      ≡ changes_of id s.written ++ changes_of id (lights_of s.dirty)
unfolding flush
flush-lights id subscribed s = elim (Bool-cases (is_news s.last_sent (status_of subscribed s))) [
  | inl news ↦ rw news (
      changes_of-append id (s.written ++ lights_of s.dirty) _
      ∙ append-nil _
      ∙ changes_of-append id s.written (lights_of s.dirty))
  | inr old ↦ rw old (changes_of-append id s.written (lights_of s.dirty))
]

-- `onNotice` of each Notice in turn.
abbrev pub on_notices : List Notice → Stream → Stream
on_notices [] s = s
on_notices (n ∷ ns) s = on_notices ns (on_notice n s)

abbrev pub or_some {ℓ} : {A : Type ℓ} → Option A → Option A → Option A
or_some (some a) o = some a
or_some none o = o

-- What a Notice says of one Light.
abbrev pub about : String → Notice → Option Change
about id (invalidation kind resource) =
    if text_eq resource.rtype (codes "light") && str_eq resource.rid id then some kind else none
about id (gap cause missed) = none

-- What the last Notice about a Light says of it.
abbrev pub latest : String → List Notice → Option Change
latest id [] = none
latest id (n ∷ ns) = or_some (latest id ns) (about id n)

or_some_assoc {ℓ} :
    {A : Type ℓ} (a b c : Option A) → or_some a (or_some b c) ≡ or_some (or_some a b) c
or_some_assoc none b c = refl
or_some_assoc (some a) b c = refl

on_notice-dirty :
    (id : String) (n : Notice) (s : Stream)
    → lookup id (on_notice n s).dirty ≡ or_some (about id n) (lookup id s.dirty)
unfolding on_notice
on_notice-dirty id (gap cause missed) s = refl
on_notice-dirty id (invalidation kind r) s = ground (arith, lookup-insert r.rid id kind s.dirty)

on_notices-dirty :
    (id : String) (ns : List Notice) (s : Stream)
    → lookup id (on_notices ns s).dirty ≡ or_some (latest id ns) (lookup id s.dirty)
on_notices-dirty id [] s = refl
on_notices-dirty id (n ∷ ns) s =
    on_notices-dirty id ns (on_notice n s)
    ∙ ap (or_some (latest id ns)) (on_notice-dirty id n s)
    ∙ or_some_assoc (latest id ns) (about id n) (lookup id s.dirty)

pub on_notice-Distinct :
    (n : Notice) (s : Stream) → Distinct s.dirty → Distinct (on_notice n s).dirty
unfolding on_notice
on_notice-Distinct (gap cause missed) s d = d
on_notice-Distinct (invalidation kind r) s d = ground (arith, insert-Distinct r.rid kind s.dirty d)

on_notices-Distinct :
    (ns : List Notice) (s : Stream) → Distinct s.dirty → Distinct (on_notices ns s).dirty
on_notices-Distinct [] s d = d
on_notices-Distinct (n ∷ ns) s d = on_notices-Distinct ns (on_notice n s) (on_notice-Distinct n s d)

on_notice-written : (n : Notice) (s : Stream) → (on_notice n s).written ≡ s.written
unfolding on_notice
on_notice-written (gap cause missed) s = refl
on_notice-written (invalidation kind r) s = ground arith

on_notices-written : (ns : List Notice) (s : Stream) → (on_notices ns s).written ≡ s.written
on_notices-written [] s = refl
on_notices-written (n ∷ ns) s = on_notices-written ns (on_notice n s) ∙ on_notice-written n s

-- A flush leaves no Light to be written.
pub dirty-flush : (subscribed : Bool) (s : Stream) → (flush subscribed s).dirty ≡ []
unfolding flush
dirty-flush subscribed s = ground arith

or_some-none {ℓ} : {A : Type ℓ} (o : Option A) → or_some o none ≡ o
or_some-none none = refl
or_some-none (some c) = refl

-- However many Notices arrive between two flushes, the second writes each Light that any of them
-- is about once, with what the last of them says of it, and no other Light.
pub flush-latest :
    (id : String) (before subscribed : Bool) (ns : List Notice) (s : Stream)
    → changes_of id (flush subscribed (on_notices ns (flush before s))).written
      ≡ changes_of id (flush before s).written ++ listed (latest id ns)
unfolding lookup
flush-latest id before subscribed ns s =
    let clean = dirty-flush before s in
    let first = flush before s in
    flush-lights id subscribed (on_notices ns first)
    ∙ ap (λ ws. changes_of id ws ++ changes_of id (lights_of (on_notices ns first).dirty))
        (on_notices-written ns first)
    ∙ ap (λ cs. changes_of id first.written ++ cs)
        (changes_of-lights_of id (on_notices ns first).dirty
            (on_notices-Distinct ns first (rw clean tt))
          ∙ ap listed (on_notices-dirty id ns first ∙ rw clean (or_some-none (latest id ns))))
