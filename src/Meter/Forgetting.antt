-- ===== src/Meter/Forgetting.antt =====
-- What the map of http/meter.ts holds after a call.
use sharpn.Prelude.{ℕ, String, ◌≡◌, true, List, [], ◌∷◌, ◌++◌, arith, keep, any, All}
use sharpn.Prelude.Maps.{insert}
use sharpn.Meter.{◌∷◌, times, keep, put_recent, inside, decide, sweep, spend, insert, List, Sent}

-- The key's list has a time inside the window.
abbrev pub IsActive : ℕ → String × List ℕ → Type 0
IsActive at entry = any (inside at) entry.1 ≡ true

put_recent-IsActive :
    (at : ℕ) (other : String) (ts : List ℕ) (m : Sent)
    → All (IsActive at) m
    → All (IsActive at) (put_recent other (keep (inside at) ts) m)
put_recent-IsActive at other [] m h = h
put_recent-IsActive at other (t ∷ ts) m h = ground (arith, put_recent-IsActive at other ts m h)

sweep-IsActive : (at : ℕ) (m : Sent) → All (IsActive at) (sweep at m)
unfolding sweep
sweep-IsActive at [] = tt
sweep-IsActive at ((other, ts) ∷ m) = put_recent-IsActive at other ts _ (sweep-IsActive at m)

any-snoc : (at : ℕ) (ts : List ℕ) → any (inside at) (ts ++ at ∷ []) ≡ true
any-snoc at [] = ground arith
any-snoc at (t ∷ ts) = ground (arith, any-snoc at ts)

insert-IsActive :
    (at : ℕ) (k : String) (ts : List ℕ) (m : Sent)
    → any (inside at) ts ≡ true
    → All (IsActive at) m
    → All (IsActive at) (insert k ts m)
unfolding insert
insert-IsActive at k ts [] a h = (a, tt)
insert-IsActive at k ts ((j, us) ∷ m) a (b, h) = ground (arith, insert-IsActive at k ts m a h)

-- After a call, whatever it came to and whatever the map held before, every entry of the map has a
-- time inside the window that ends at the call.
pub spend-IsActive :
    (limit : ℕ) (key : String) (at : ℕ) (sent : Sent)
    → All (IsActive at) (spend limit key at sent).0
unfolding spend decide
spend-IsActive limit key at sent = ground (
  arith,
  sweep-IsActive at sent,
  any-snoc at (times key (sweep at sent)),
  insert-IsActive at key (times key (sweep at sent) ++ at ∷ []) (sweep at sent),
)
