-- ===== src/Console/Sending/LastAsked.antt =====
-- What apps/console/src/queries/useUpdateLight.ts holds of what a person asked last.
pub mod Running
use sharpn.Prelude.{
  ℕ, zero, suc, ◌+◌, ◌-◌, ◌*◌, ◌/◌, ◌%◌, ◌≤◌, ◌<◌, min, max, String, ◌≡◌, refl, sym, ap, subst, ◌∙◌,
  ◌≢◌, ◌↔◌, ◌⊎◌, inl, inr, Bool, true, false, ◌&&◌, ◌||◌, not, Option, none, some, List, [], ◌∷◌,
  ◌++◌, map, arith, ltb, leb, ◌==◌, str_eq, if◌then◌else◌, ltb→lt, lt→ltb, leb→le, str_eq_iff,
  str_eq_refl, Bool-cases, Option-cases, or_else, is_some, length, get_elem?, head?, length-append,
  keep, all, any, All,
}
use sharpn.Prelude.Maps.{
  lookup, insert, delete, lookup-insert, lookup-insert_self, lookup-delete, Distinct,
  insert-Distinct,
}
use sharpn.Command.{Decimal, ColorXy, LightCommand}
use sharpn.Console.Sending.{
  Patch, Sender, quiet, same_number, same_switch, same_optional, xy_equal, commands_equal, fire,
  send_held, settle, Settlement, conclude, on_settled, send,
}
use sharpn.Console.Sending.InFlight.{
  arrived, Step, sends, settles, Run, start, later, flying, conclude-same, IsSingle, Run-IsSingle,
  one_if,
}

same_number_refl : (a : Decimal) → same_number a a ≡ true
same_number_refl a = ground arith

same_switch_refl : (o : Option Bool) → same_switch o o ≡ true
same_switch_refl none = refl
same_switch_refl (some true) = refl
same_switch_refl (some false) = refl

same_optional_refl : (o : Option Decimal) → same_optional o o ≡ true
same_optional_refl none = refl
same_optional_refl (some a) = same_number_refl a

xy_equal_refl : (o : Option ColorXy) → xy_equal o o ≡ true
xy_equal_refl none = refl
xy_equal_refl (some a) = rw (same_number_refl a.x, same_number_refl a.y) refl

commands_equal_refl : (c : LightCommand) → commands_equal c c ≡ true
unfolding commands_equal
commands_equal_refl c =
    rw
      (
        same_switch_refl c.on,
        same_optional_refl c.brightness,
        same_optional_refl c.color_temperature_mirek,
        xy_equal_refl c.color_xy,
      )
      refl

-- The Command sent last is the one asked for, as far as `===` tells.
abbrev pub WasSent : String → LightCommand → Sender → Type 0
WasSent l c s = (d : LightCommand) × (lookup l s.fired ≡ some d) × (commands_equal c d ≡ true)

-- What was asked of a Light last is held for it, or was sent last with nothing held since.
abbrev pub IsOwed : String → LightCommand → Sender → Type 0
IsOwed l c s =
    (lookup l s.in_flight ≡ some (some c))
    ⊎ (WasSent l c s × ((lookup l s.in_flight ≡ none) ⊎ (lookup l s.in_flight ≡ some none)))

-- What is held for a Light is what was asked of it last.
abbrev pub WasAsked : Sender → String → LightCommand → Type 0
WasAsked s l c = lookup l s.in_flight ≡ some (some c) → lookup l s.asked ≡ some c

pub record IsHeard (s : Sender) : Type 0 where
  pub latest : All (λ p. lookup p.light_id s.fired ≡ some p.command) s.outstanding
  pub owed : (l : String) (c : LightCommand) → lookup l s.asked ≡ some c → IsOwed l c s
  pub waiting : (l : String) (c : LightCommand) → WasAsked s l c

latest-fire :
    (id : String) (c : LightCommand) (fired : List (String × LightCommand)) (ps : List Patch)
    → flying id ps ≡ 0
    → All (λ p. lookup p.light_id fired ≡ some p.command) ps
    → All (λ p. lookup p.light_id (insert id c fired) ≡ some p.command) ps
latest-fire id c fired [] none_flies h = tt
latest-fire id c fired (p ∷ ps) none_flies (a, h) = ground (
  arith,
  lookup-insert id p.light_id c fired,
  str_eq_iff id p.light_id,
  str_eq_iff p.light_id id,
  latest-fire id c fired ps,
)

-- What is owed depends on the Light's own entries.
same-IsOwed :
    (l : String) (c : LightCommand) (s t : Sender)
    → lookup l t.in_flight ≡ lookup l s.in_flight
    → lookup l t.fired ≡ lookup l s.fired
    → IsOwed l c s
    → IsOwed l c t
same-IsOwed l c s t held sent (inl waits) = inl (held ∙ waits)
same-IsOwed l c s t held sent (inr ((d, was, equal), inl none_held)) =
    inr ((d, sent ∙ was, equal), inl (held ∙ none_held))
same-IsOwed l c s t held sent (inr ((d, was, equal), inr one_held)) =
    inr ((d, sent ∙ was, equal), inr (held ∙ one_held))

some_inj : {c d : LightCommand} → some c ≡ some d → c ≡ d
some_inj e = cc

lookup-insert_other {ℓ} :
    {V : Type ℓ} (id l : String) (v : V) (m : List (String × V))
    → str_eq id l ≡ false
    → lookup l (insert id v m) ≡ lookup l m
lookup-insert_other id l v m other = rw (lookup-insert id l v m, other) refl

-- What holds of the entry that changed, and of every other, holds of all.
at_every :
    (P : String → LightCommand → Type 0) (id : String)
    → ((c : LightCommand) → P id c)
    → ((l : String) (c : LightCommand) → str_eq id l ≡ false → P l c)
    → (l : String) (c : LightCommand) → P l c
at_every P id self others l c = elim (Bool-cases (str_eq id l)) [
  | inl same ↦ subst (λ k. P k c) ((str_eq_iff id l).0 same) (self c)
  | inr other ↦ others l c other
]

abbrev pub OwedIfAsked : Sender → String → LightCommand → Type 0
OwedIfAsked s l c = lookup l s.asked ≡ some c → IsOwed l c s

-- Sending a Command that is what was asked last, where nothing of the Light is in flight.
fire-IsHeard :
    (now : ℕ) (id : String) (c : LightCommand) (s : Sender)
    → flying id s.outstanding ≡ 0
    → All (λ p. lookup p.light_id s.fired ≡ some p.command) s.outstanding
    → lookup id s.asked ≡ some c
    → ((l : String) (d : LightCommand) → str_eq id l ≡ false → OwedIfAsked s l d)
    → ((l : String) (d : LightCommand) → str_eq id l ≡ false → WasAsked s l d)
    → IsHeard (fire now id c s)
unfolding fire
fire-IsHeard now id c s free h asked others held = record {
  latest = (lookup-insert_self id c s.fired, latest-fire id c s.fired s.outstanding free h);
  owed = at_every (OwedIfAsked (fire now id c s)) id self other;
  waiting =
      at_every (WasAsked (fire now id c s)) id
        (λ d e. absurd (clash (sym (lookup-insert_self id none s.in_flight) ∙ e)))
        (λ l d ne e. held l d ne (sym (lookup-insert_other id l none s.in_flight ne) ∙ e));
}
  where
    clash : {a : LightCommand} → some none ≢ some (some a)
    clash = λ p. cc

    self : (d : LightCommand) → OwedIfAsked (fire now id c s) id d
    self d e = inr (
      (
        c,
        lookup-insert_self id c s.fired,
        subst (λ x. commands_equal x c ≡ true) (some_inj (sym asked ∙ e)) (commands_equal_refl c),
      ),
      inr (lookup-insert_self id none s.in_flight),
    )

    other :
        (l : String) (d : LightCommand) → str_eq id l ≡ false → OwedIfAsked (fire now id c s) l d
    other l d ne e =
        same-IsOwed l d s (fire now id c s) (lookup-insert_other id l none s.in_flight ne)
          (lookup-insert_other id l c s.fired ne) (others l d ne e)

-- A state after a Light's in-flight entry, or what was asked of it, was set.
pub send-IsHeard :
    (now : ℕ) (id : String) (c : LightCommand) (s : Sender)
    → IsSingle s
    → IsHeard s
    → IsHeard (send now id c s)
unfolding send
send-IsHeard now id c s single h = elim (Option-cases (lookup id s.in_flight)) [
  | inl free ↦
      rw (free, send)
        (fire-IsHeard now id c (record s { asked = insert id c s.asked })
          (single id ∙ ap one_if free) h.latest (lookup-insert_self id c s.asked)
          (λ l d ne e.
            same-IsOwed l d s (record s { asked = insert id c s.asked }) refl refl
              (h.owed l d (sym (lookup-insert_other id l c s.asked ne) ∙ e)))
          (λ l d ne e. lookup-insert_other id l c s.asked ne ∙ h.waiting l d e))
  | inr (held, found) ↦
      rw (found, send)
        (record {
          waiting =
              at_every (WasAsked (holding s)) id
                (λ d e.
                  lookup-insert_self id c s.asked
                  ∙ ap some (inj (sym (lookup-insert_self id (some c) s.in_flight) ∙ e)))
                (λ l d ne e.
                  lookup-insert_other id l c s.asked ne
                  ∙ h.waiting l d (sym (lookup-insert_other id l (some c) s.in_flight ne) ∙ e));
          latest = h.latest;
          owed =
              at_every (OwedIfAsked (holding s)) id
                (λ d e. inl (
                  lookup-insert_self id (some c) s.in_flight
                  ∙ ap (λ x. some (some x)) (some_inj (sym (lookup-insert_self id c s.asked) ∙ e))))
                (λ l d ne e.
                  same-IsOwed l d s (holding s) (lookup-insert_other id l (some c) s.in_flight ne)
                    refl (h.owed l d (sym (lookup-insert_other id l c s.asked ne) ∙ e)));
        })
]
  where
    inj : {a b : LightCommand} → some (some a) ≡ some (some b) → a ≡ b
    inj p = cc

    holding : Sender → Sender
    holding t = record t { asked = insert id c t.asked; in_flight = insert id (some c) t.in_flight }

-- What is known of a Light whose PATCH is settling, and of every other.
pub record IsSettling (id : String) (c : LightCommand) (s : Sender) : Type 0 where
  pub free : flying id s.outstanding ≡ 0
  pub latest : All (λ p. lookup p.light_id s.fired ≡ some p.command) s.outstanding
  pub sent : lookup id s.fired ≡ some c
  pub owed : (l : String) (d : LightCommand) → OwedIfAsked s l d
  pub waiting : (l : String) (d : LightCommand) → WasAsked s l d

module _ (now : ℕ) (id : String) (c : LightCommand) (s : Sender) (h : IsSettling id c s) where
  -- The Map without the Light.
  abbrev settled : Sender
  settled = record s { in_flight = delete id s.in_flight }

  others : (l : String) (d : LightCommand) → str_eq id l ≡ false → OwedIfAsked settled l d
  others l d ne e =
      same-IsOwed l d s settled (rw (lookup-delete id l s.in_flight, ne) refl) refl (h.owed l d e)

  deleted : lookup id settled.in_flight ≡ none
  deleted = rw (lookup-delete id id s.in_flight, str_eq_refl id) refl

  still : (l : String) (d : LightCommand) → WasAsked settled l d
  still =
      at_every (WasAsked settled) id (λ d e. absurd (clash (sym deleted ∙ e)))
        (λ l d ne e. h.waiting l d (rw (lookup-delete id l s.in_flight, ne) at e))
    where
      clash : {a : LightCommand} → none ≢ some (some a)
      clash = λ p. cc

  -- Nothing more is sent where what was asked last was sent last.
  settled-IsHeard :
      ((d : LightCommand) → lookup id s.asked ≡ some d → WasSent id d s) → IsHeard settled
  settled-IsHeard sent_last = record {
    latest = h.latest;
    owed = at_every (OwedIfAsked settled) id (λ d e. inr (sent_last d e, inl deleted)) others;
    waiting = still;
  }

  -- Where nothing was held, what was asked last is what was sent.
  unheld :
      ((x : LightCommand) → lookup id s.in_flight ≢ some (some x))
      → (d : LightCommand) → lookup id s.asked ≡ some d
      → WasSent id d s
  unheld free d e = elim (h.owed id d e) [
    | inl waits ↦ absurd (free d waits)
    | inr (was, rest) ↦ was
  ]

  held_sent :
      (next : LightCommand)
      → lookup id s.in_flight ≡ some (some next)
      → commands_equal next c ≡ true
      → (d : LightCommand) → lookup id s.asked ≡ some d
      → WasSent id d s
  held_sent next held same d e = (
    c,
    h.sent,
    subst (λ x. commands_equal x c ≡ true) (some_inj (sym (h.waiting id next held) ∙ e)) same,
  )

  pub settle-IsHeard : IsHeard (settle now id c s)
  unfolding settle
  settle-IsHeard = go (lookup id s.in_flight) refl
    where
      go :
          (o : Option (Option LightCommand))
          → lookup id s.in_flight ≡ o
          → IsHeard (send_held now id c o settled)
      go none e = settled-IsHeard (unheld (λ x p. clash (sym e ∙ p)))
        where
          clash : {a : LightCommand} → none ≢ some (some a)
          clash = λ p. cc
      go (some none) e = settled-IsHeard (unheld (λ x p. clash (sym e ∙ p)))
        where
          clash : {a : LightCommand} → some none ≢ some (some a)
          clash = λ p. cc
      go (some (some next)) e = elim (Bool-cases (commands_equal next c)) [
        | inl same ↦ rw same (settled-IsHeard (held_sent next e same))
        | inr other ↦ rw other (
            fire-IsHeard now id next settled h.free h.latest (h.waiting id next e) others
              (λ l d ne p. still l d p))
      ]
