-- ===== src/Events/Closing.antt =====
-- The registry of apps/console-api/src/http/events.ts, when the process stops.
use sharpn.Prelude.{
  ◌≡◌, refl, ap, ◌∙◌, inl, inr, Bool, true, false, not, List, [], ◌∷◌, arith, Bool-cases, All,
}
use sharpn.Codec.{Notice, invalidation, gap}
use sharpn.Events.{Notice, Stream, open_stream, flush, beat, on_notice, end, end_if, close_all}
use sharpn.Events.Ending.{Step, flushes, beats, hears, closes, Steps, here, later}

-- The registry has a stream exactly until it ends.
abbrev pub IsTracked : Stream → Type 0
IsTracked s = s.tracked ≡ not s.ended

end-IsTracked : (s : Stream) → IsTracked s → IsTracked (end s)
unfolding end
end-IsTracked s t = elim (Bool-cases s.ended) [
  | inl done ↦ rw done (t ∙ ap not done)
  | inr going ↦ rw going refl
]

beat-IsTracked : (verifies : Bool) (s : Stream) → IsTracked s → IsTracked (beat verifies s)
unfolding beat
beat-IsTracked true s t = t
beat-IsTracked false s t = end-IsTracked s t

flush-IsTracked : (subscribed : Bool) (s : Stream) → IsTracked s → IsTracked (flush subscribed s)
unfolding flush
flush-IsTracked subscribed s t = ground arith

on_notice-IsTracked : (n : Notice) (s : Stream) → IsTracked s → IsTracked (on_notice n s)
unfolding on_notice
on_notice-IsTracked (invalidation kind resource) s t = ground arith
on_notice-IsTracked (gap cause missed) s t = t

Step-IsTracked : {s t : Stream} → Step s t → IsTracked s → IsTracked t
Step-IsTracked (flushes subscribed s ticking) k = flush-IsTracked subscribed s k
Step-IsTracked (beats verifies s ticking) k = beat-IsTracked verifies s k
Step-IsTracked (hears n s listening) k = on_notice-IsTracked n s k
Step-IsTracked (closes s) k = end-IsTracked s k

pub Steps-IsTracked : {s t : Stream} → Steps s t → IsTracked s → IsTracked t
Steps-IsTracked here k = k
Steps-IsTracked (later run step) k = Step-IsTracked step (Steps-IsTracked run k)

pub end_if-ended : (s : Stream) → IsTracked s → (end_if s.tracked s).ended ≡ true
unfolding end
end_if-ended s t = elim (Bool-cases s.ended) [
  | inl done ↦ rw (t, done) refl
  | inr going ↦ rw (t, going) refl
]

pub opened-IsTracked : (first : Bool) → IsTracked (open_stream first)
unfolding open_stream flush
opened-IsTracked first = refl

-- Whatever happened to the streams before, the registry ends every one of them.
pub close_all-ended :
    (ss : List Stream)
    → All (λ s. (first : Bool) × Steps (open_stream first) s) ss
    → All (λ s. s.ended ≡ true) (close_all ss)
unfolding close_all
close_all-ended [] runs = tt
close_all-ended (s ∷ ss) ((first, run), runs) =
    (end_if-ended s (Steps-IsTracked run (opened-IsTracked first)), close_all-ended ss runs)
