-- ===== src/Server/Lasting.antt =====
-- What the end of each event stream of apps/console-api/src/server.ts leaves of the others.
use sharpn.Prelude.{
  ℕ, ◌≡◌, refl, sym, ap, subst, ◌∙◌, Bool, true, false, List, [], ◌∷◌, ◌++◌, map, arith, All,
}
use sharpn.Events.{Stream, open_stream, end_if}
use sharpn.Events.Closing.{Steps-IsTracked, opened-IsTracked, end_if-ended}
use sharpn.Events.Ending.{Step, Steps, here, later, closes, ended_stays}
use sharpn.Server.{Browser, end_browsers, open_streams}

-- Each browser's stream was opened, and whatever has happened to it since.
abbrev pub IsServing : Browser → Type 0
IsServing b = (first : Bool) × Steps (open_stream first) b.stream

abbrev pub HasEnded : Browser → Type 0
HasEnded b = b.stream.ended ≡ true

abbrev pub listeners_of : List Browser → List ℕ
listeners_of bs = map (λ b. b.listener) bs

pub All-middle :
    (P : Browser → Type 0) (xs ys : List Browser) (x : Browser) → All P (xs ++ x ∷ ys) → P x
All-middle P [] ys x (p, h) = p
All-middle P (y ∷ xs) ys x (p, h) = All-middle P xs ys x h

pub All-replaced :
    (P : Browser → Type 0) (xs ys : List Browser) (x y : Browser)
    → P y
    → All P (xs ++ x ∷ ys)
    → All P (xs ++ y ∷ ys)
All-replaced P [] ys x y p (q, h) = (p, h)
All-replaced P (z ∷ xs) ys x y p (q, h) = (q, All-replaced P xs ys x y p h)

-- A browser's stream that has ended stays as it is.
pub stepped_same :
    (b : Browser) {s : Stream}
    → IsServing b
    → Step b.stream s
    → HasEnded b
    → record b { stream = s } ≡ b
stepped_same b (first, run) step done =
    ap (λ s. record b { stream = s }) (ended_stays first run done (later here step))

tail_eq : {b c : Browser} {bs cs : List Browser} → b ∷ bs ≡ c ∷ cs → bs ≡ cs
tail_eq e = cc

-- Where those that have ended stay as they are, one that changes is one that came later.
pub early_kept :
    (late early before after : List Browser) (b c : Browser)
    → All HasEnded early
    → (HasEnded b → c ≡ b)
    → late ++ early ≡ before ++ b ∷ after
    → (later : List Browser) × (before ++ c ∷ after ≡ later ++ early)
early_kept [] early before after b c ended same e = (
  [],
  ap (λ x. before ++ x ∷ after)
        (same (All-middle HasEnded before after b (subst (All HasEnded) e ended)))
      ∙ sym e,
)
early_kept (x ∷ late) early [] after b c ended same e =
    (c ∷ late, ap (λ xs. c ∷ xs) (sym (tail_eq e)))
early_kept (x ∷ late) early (y ∷ before) after b c ended same e =
    let (rest, found) = early_kept late early before after b c ended same (tail_eq e) in
    (y ∷ rest, ap (λ xs. y ∷ xs) found)

pub open_streams-middle :
    (before after : List Browser) (b : Browser)
    → open_streams (before ++ b ∷ after) ≡ 0
    → HasEnded b
open_streams-middle [] after b h = ground arith
open_streams-middle (x ∷ before) after b h = open_streams-middle before after b (ground arith)

-- What `closeAll` leaves: every stream that was open has ended, under the listener that it had.
pub end_browsers-HasEnded : (bs : List Browser) → All IsServing bs → All HasEnded (end_browsers bs)
end_browsers-HasEnded [] s = tt
end_browsers-HasEnded (b ∷ bs) ((first, run), s) = (
  end_if-ended b.stream (Steps-IsTracked run (opened-IsTracked first)),
  end_browsers-HasEnded bs s,
)

pub end_browsers-IsServing :
    (bs : List Browser) → All IsServing bs → All IsServing (end_browsers bs)
end_browsers-IsServing [] s = tt
end_browsers-IsServing (b ∷ bs) ((first, run), s) =
    ((first, ended b.stream.tracked run), end_browsers-IsServing bs s)
  where
    ended :
        (t : Bool) {s : Stream}
        → Steps (open_stream first) s
        → Steps (open_stream first) (end_if t s)
    ended true run = later run (closes _)
    ended false run = run

pub listeners_of-end_browsers :
    (bs : List Browser) → listeners_of (end_browsers bs) ≡ listeners_of bs
listeners_of-end_browsers [] = refl
listeners_of-end_browsers (b ∷ bs) = ap (λ ls. b.listener ∷ ls) (listeners_of-end_browsers bs)
