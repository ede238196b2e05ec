-- ===== src/Events/Ending.antt =====
-- The life of a stream of http/events.ts: what its browser knows of the connection, and its end.
use sharpn.Prelude.{
  ℕ, String, ◌≡◌, refl, sym, ap, subst, ◌∙◌, inl, inr, Bool, true, false, not, Option, none, some,
  List, [], ◌∷◌, ◌++◌, arith, if◌then◌else◌, Bool-cases, ◌||◌, any,
}
use sharpn.Events.Flushing.{on_notices}
use sharpn.Prelude.Maps.{Distinct, insert-Distinct}
use sharpn.Prelude.Decimal.{codes}
use sharpn.Codec.{text_eq, Notice, invalidation, gap, Change, Cause}
use sharpn.Events.{
  ConnectionStatus, Written, light, connection, heartbeat, Stream, same_status, is_news, lights_of,
  status_of, flush, open_stream, on_notice, end, beat,
}

-- A timer fires while it runs, and the fan-out tells whoever listens. The request closes, or the
-- process ends every stream, at any time.
pub data Step : Stream → Stream → Type 0 where
  flushes : (subscribed : Bool) (s : Stream) → s.ticking ≡ true → Step s (flush subscribed s)
  beats : (verifies : Bool) (s : Stream) → s.ticking ≡ true → Step s (beat verifies s)
  hears : (n : Notice) (s : Stream) → s.listening ≡ true → Step s (on_notice n s)
  closes : (s : Stream) → Step s (end s)

pub data Steps (s : Stream) : Stream → Type 0 where
  here : Steps s s
  later : {t u : Stream} → Steps s t → Step t u → Steps s u

-- The status that was written last, after those written before.
abbrev pub last_status : Option ConnectionStatus → List Written → Option ConnectionStatus
last_status o [] = o
last_status o (connection status ∷ ws) = last_status (some status) ws
last_status o (light _ _ ∷ ws) = last_status o ws
last_status o (heartbeat ∷ ws) = last_status o ws

last_status-append :
    (o : Option ConnectionStatus) (ws vs : List Written)
    → last_status o (ws ++ vs) ≡ last_status (last_status o ws) vs
last_status-append o [] vs = refl
last_status-append o (connection status ∷ ws) vs = last_status-append (some status) ws vs
last_status-append o (light _ _ ∷ ws) vs = last_status-append o ws vs
last_status-append o (heartbeat ∷ ws) vs = last_status-append o ws vs

last_status-lights_of :
    (o : Option ConnectionStatus) (dirty : List (String × Change))
    → last_status o (lights_of dirty) ≡ o
last_status-lights_of o [] = refl
last_status-lights_of o (e ∷ dirty) = last_status-lights_of o dirty

-- What holds of a stream at any time.
pub record IsKept (s : Stream) : Type 0 where
  pub distinct : Distinct s.dirty
  pub reported : last_status none s.written ≡ s.last_sent
  pub ended_is_over :
      s.ended ≡ true → (s.ticking ≡ false) × (s.listening ≡ false) × (s.tracked ≡ false)

flush-IsKept : (subscribed : Bool) (s : Stream) → IsKept s → IsKept (flush subscribed s)
unfolding flush
flush-IsKept subscribed s k = elim (Bool-cases (is_news s.last_sent (status_of subscribed s))) [
  | inl news ↦ rw news (record {
    distinct = tt;
    reported =
        last_status-append none (s.written ++ lights_of s.dirty)
          (connection (status_of subscribed s) ∷ []);
    ended_is_over = k.ended_is_over;
  })
  | inr old ↦ rw old (record {
    distinct = tt;
    reported =
        last_status-append none s.written (lights_of s.dirty)
        ∙ last_status-lights_of _ s.dirty
        ∙ k.reported;
    ended_is_over = k.ended_is_over;
  })
]

on_notice-IsKept : (n : Notice) (s : Stream) → IsKept s → IsKept (on_notice n s)
unfolding on_notice
on_notice-IsKept (gap cause missed) s k = record {
  distinct = k.distinct;
  reported = k.reported;
  ended_is_over = k.ended_is_over;
}
on_notice-IsKept (invalidation kind r) s k = elim (Bool-cases (text_eq r.rtype (codes "light"))) [
  | inl lit ↦ rw lit (record {
    distinct = insert-Distinct r.rid kind s.dirty k.distinct;
    reported = k.reported;
    ended_is_over = k.ended_is_over;
  })
  | inr dark ↦ rw dark k
]

end-IsKept : (s : Stream) → IsKept s → IsKept (end s)
unfolding end
end-IsKept s k = elim (Bool-cases s.ended) [
  | inl done ↦ rw done (record {
    distinct = k.distinct;
    reported = k.reported;
    ended_is_over = λ e. k.ended_is_over done;
  })
  | inr going ↦ rw going (record {
    distinct = k.distinct;
    reported = k.reported;
    ended_is_over = λ e. (refl, refl, refl);
  })
]

beat-IsKept : (verifies : Bool) (s : Stream) → IsKept s → IsKept (beat verifies s)
unfolding beat
beat-IsKept true s k = record {
  distinct = k.distinct;
  reported = last_status-append none s.written (heartbeat ∷ []) ∙ k.reported;
  ended_is_over = k.ended_is_over;
}
beat-IsKept false s k = end-IsKept s k

Step-IsKept : {s t : Stream} → Step s t → IsKept s → IsKept t
Step-IsKept (flushes subscribed s running) k = flush-IsKept subscribed s k
Step-IsKept (beats verifies s running) k = beat-IsKept verifies s k
Step-IsKept (hears n s told) k = on_notice-IsKept n s k
Step-IsKept (closes s) k = end-IsKept s k

Steps-keep-IsKept : {s t : Stream} → Steps s t → IsKept s → IsKept t
Steps-keep-IsKept here k = k
Steps-keep-IsKept (later run step) k = Step-IsKept step (Steps-keep-IsKept run k)

open_stream-IsKept : (subscribed : Bool) → IsKept (open_stream subscribed)
unfolding open_stream flush
open_stream-IsKept subscribed = record { distinct = tt; reported = refl; ended_is_over = λ e. cc }

Steps-IsKept : {s : Stream} (subscribed : Bool) → Steps (open_stream subscribed) s → IsKept s
Steps-IsKept subscribed run = Steps-keep-IsKept run (open_stream-IsKept subscribed)

same_status-eq : (a b : ConnectionStatus) → same_status a b ≡ true → a ≡ b
same_status-eq a b h = ground arith

flush-last_sent :
    (subscribed : Bool) (s : Stream)
    → (flush subscribed s).last_sent ≡ some (status_of subscribed s)
unfolding flush
flush-last_sent subscribed s = elim (Bool-cases (is_news s.last_sent (status_of subscribed s))) [
  | inl news ↦ rw news refl
  | inr old ↦ rw old (known s.last_sent old)
]
  where
    known :
        (o : Option ConnectionStatus)
        → is_news o (status_of subscribed s) ≡ false
        → o ≡ some (status_of subscribed s)
    known none h = cc
    known (some last) h = ap some (same_status-eq last (status_of subscribed s) (ground arith))

-- At every flush the status that was written last is the one that holds.
flush-status :
    {s : Stream} (first subscribed : Bool)
    → Steps (open_stream first) s
    → last_status none (flush subscribed s).written ≡ some (status_of subscribed s)
flush-status {s} first subscribed run =
    (flush-IsKept subscribed s (Steps-IsKept first run)).reported ∙ flush-last_sent subscribed s

resyncing-flush : (subscribed : Bool) (s : Stream) → (flush subscribed s).resyncing ≡ false
unfolding flush
resyncing-flush subscribed s = ground arith

ticking-flush : (subscribed : Bool) (s : Stream) → (flush subscribed s).ticking ≡ s.ticking
unfolding flush
ticking-flush subscribed s = ground arith

on_notices-IsKept : (ns : List Notice) (s : Stream) → IsKept s → IsKept (on_notices ns s)
on_notices-IsKept [] s k = k
on_notices-IsKept (n ∷ ns) s k = on_notices-IsKept ns (on_notice n s) (on_notice-IsKept n s k)

-- A Gap, of any cause.
abbrev pub is_gap : Notice → Bool
is_gap (gap cause missed) = true
is_gap (invalidation kind r) = false

on_notice-resyncing :
    (n : Notice) (s : Stream) → (on_notice n s).resyncing ≡ (is_gap n || s.resyncing)
unfolding on_notice
on_notice-resyncing (gap cause missed) s = refl
on_notice-resyncing (invalidation kind r) s = ground arith

on_notices-resyncing :
    (ns : List Notice) (s : Stream) → (on_notices ns s).resyncing ≡ (any is_gap ns || s.resyncing)
on_notices-resyncing [] s = refl
on_notices-resyncing (n ∷ ns) s =
    ground (arith, on_notices-resyncing ns (on_notice n s), on_notice-resyncing n s)

-- Though a status is written only where it differs from the one before, after any two flushes of a
-- stream and the Notices between them, the status that the browser was written last is the one
-- that holds: connected as the fan-out answers at the second flush, and resyncing exactly where a
-- Gap is among the Notices.
pub flush-status_since :
    {s : Stream} (first before subscribed : Bool) (ns : List Notice)
    → Steps (open_stream first) s
    → last_status none (flush subscribed (on_notices ns (flush before s))).written
      ≡ some (record { connected = subscribed; resyncing = any is_gap ns })
flush-status_since {s} first before subscribed ns run =
    let t = on_notices ns (flush before s) in
    let kept =
      on_notices-IsKept ns (flush before s) (flush-IsKept before s (Steps-IsKept first run)) in
    (flush-IsKept subscribed t kept).reported
    ∙ flush-last_sent subscribed t
    ∙ ap (λ r. some (record { connected = subscribed; resyncing = r }))
        (on_notices-resyncing ns (flush before s) ∙ ground (arith, resyncing-flush before s))

-- For a stream that runs and listens, a Gap of any cause is a pulse: the next flush leaves the
-- browser told that the Light copies are being brought up to date, and the one after it leaves it
-- told that they no longer are.
pub gap-pulse :
    {s : Stream} (first b c : Bool) (cause : Cause) (missed : ℕ)
    → Steps (open_stream first) s
    → s.ticking ≡ true
    → s.listening ≡ true
    → (last_status none (flush b (on_notice (gap cause missed) s)).written
        ≡ some (record { connected = b; resyncing = true }))
      × (last_status none (flush c (flush b (on_notice (gap cause missed) s))).written
          ≡ some (record { connected = c; resyncing = false }))
unfolding on_notice
gap-pulse {s} first b c cause missed run ticks listens =
    let told = later run (hears (gap cause missed) s listens) in
    let flushed = later told (flushes b _ ticks) in
    (
      flush-status first b told,
      flush-status first c flushed
          ∙ ap (λ r. some (record { connected = c; resyncing = r })) (resyncing-flush b _),
    )

end_ended : (s : Stream) → s.ended ≡ true → end s ≡ s
unfolding end
end_ended s done = rw done refl

Step-silent : {s t : Stream} → Step s t → IsKept s → s.ended ≡ true → t ≡ s
unfolding beat
Step-silent (flushes subscribed s running) k done = absurd (ground (arith, k.ended_is_over done))
Step-silent (beats verifies s running) k done = absurd (ground (arith, k.ended_is_over done))
Step-silent (hears n s told) k done = absurd (ground (arith, k.ended_is_over done))
Step-silent (closes s) k done = end_ended s done

Steps-silent : {s t : Stream} → Steps s t → IsKept s → s.ended ≡ true → t ≡ s
Steps-silent here k done = refl
Steps-silent (later run step) k done =
    let same = Steps-silent run k done in
    Step-silent step (subst IsKept (sym same) k) (subst (λ u. u.ended ≡ true) (sym same) done)
    ∙ same

-- A stream that has ended stays as it is, whoever ended it and whatever happens next: nothing is
-- written after the end, and ending it again does nothing.
pub ended_stays :
    {s t : Stream} (first : Bool) → Steps (open_stream first) s → s.ended ≡ true → Steps s t → t ≡ s
ended_stays first before done after = Steps-silent after (Steps-IsKept first before) done

-- A heartbeat that finds the session expired ends the stream and writes nothing; one that finds it
-- good writes the comment and ends nothing.
pub beat-ends :
    (verifies : Bool) (s : Stream)
    → s.ended ≡ false
    → ((beat verifies s).ended ≡ not verifies)
      × ((beat verifies s).written ≡ (if verifies then s.written ++ heartbeat ∷ [] else s.written))
unfolding beat end
beat-ends true s going = (going, refl)
beat-ends false s going = rw going (refl, refl)
