-- ===== src/Codec/Notices.antt =====
-- What gateway/codec.ts tells a Subscriber of a message on the stream.
use sharpn.Prelude.{◌≡◌, sym, ap, ◌↔◌, Option, none, some, arith}
use sharpn.Codec.{
  Notice, invalidation, gap, Happened, a_change, a_gap, EventType, type_add, type_delete, GapCause,
  cause_reconnected, cause_subscriber_behind, added, removed, reconnected, subscriber_behind,
  identifier_from, change_from, cause_from, notice_from,
}

-- What a message on the stream must say for a Notice to be told of it.
abbrev pub Tells : Option Happened → Notice → Type 0
Tells none notice = ⊥
Tells (some (a_change type none)) notice = ⊥
Tells (some (a_change type (some r))) (gap cause missed) = ⊥
Tells (some (a_change type (some r))) (invalidation kind resource) =
    (resource.rid ≡ r.rid)
    × ((kind ≡ added) ↔ (type ≡ type_add))
    × ((kind ≡ removed) ↔ (type ≡ type_delete))
    × (resource.rtype ≡ (identifier_from r).rtype)
Tells (some (a_gap cause missed)) (invalidation kind resource) = ⊥
Tells (some (a_gap cause missed)) (gap told count) =
    (count ≡ missed)
    × ((told ≡ reconnected) ↔ (cause ≡ cause_reconnected))
    × ((told ≡ subscriber_behind) ↔ (cause ≡ cause_subscriber_behind))

change_from-added_iff : (t : EventType) → (change_from t ≡ added) ↔ (t ≡ type_add)
unfolding change_from
change_from-added_iff type_add = ground arith
change_from-added_iff _ = ground arith

change_from-removed_iff : (t : EventType) → (change_from t ≡ removed) ↔ (t ≡ type_delete)
unfolding change_from
change_from-removed_iff type_delete = ground arith
change_from-removed_iff _ = ground arith

cause_from-reconnected_iff : (c : GapCause) → (cause_from c ≡ reconnected) ↔ (c ≡ cause_reconnected)
unfolding cause_from
cause_from-reconnected_iff cause_reconnected = ground arith
cause_from-reconnected_iff _ = ground arith

cause_from-behind_iff :
    (c : GapCause) → (cause_from c ≡ subscriber_behind) ↔ (c ≡ cause_subscriber_behind)
unfolding cause_from
cause_from-behind_iff cause_subscriber_behind = ground arith
cause_from-behind_iff _ = ground arith

-- A notice tells what the message did, with the change or the cause that it states.
pub notice_from-Tells :
    (happened : Option Happened) (notice : Notice)
    → notice_from happened ≡ some notice
    → Tells happened notice
unfolding notice_from identifier_from
notice_from-Tells none notice h = cc
notice_from-Tells (some (a_change type none)) notice h = cc
notice_from-Tells (some (a_change type (some r))) (gap cause missed) h = cc
notice_from-Tells (some (a_change type (some r))) (invalidation kind resource) h =
    let told : change_from type ≡ kind = cc in
    let named : identifier_from r ≡ resource = cc in
    (
      sym (ap (λ x. x.rid) named),
      rw (← told) (change_from-added_iff type),
      rw (← told) (change_from-removed_iff type),
      sym (ap (λ x. x.rtype) named),
    )
notice_from-Tells (some (a_gap cause missed)) (invalidation kind resource) h = cc
notice_from-Tells (some (a_gap cause missed)) (gap told count) h =
    let same : cause_from cause ≡ told = cc in
    (cc, rw (← same) (cause_from-reconnected_iff cause), rw (← same) (cause_from-behind_iff cause))
