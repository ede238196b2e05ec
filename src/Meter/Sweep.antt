-- ===== src/Meter/Sweep.antt =====
-- What the sweep of http/meter.ts leaves of each key's times.
use sharpn.Prelude.{
  if◌then◌else◌, ℕ, ◌≤◌, String, ◌≡◌, refl, true, false, none, List, [], ◌∷◌, ◌++◌, arith, keep,
  str_eq, str_eq_iff,
}
use sharpn.Prelude.Maps.{lookup-insert, insert, lookup, Distinct, insert-Distinct}
use sharpn.Meter.{Sent, inside, put_recent, sweep, times, decide, spend}

-- A wider window keeps all that a narrower one does.
pub keep-inside :
    (now at : ℕ) (ts : List ℕ)
    → now ≤ at
    → keep (inside at) (keep (inside now) ts) ≡ keep (inside at) ts
keep-inside now at [] h = refl
keep-inside now at (t ∷ ts) h = ground (arith, keep-inside now at ts h)

lookup-put_recent_other :
    (k j : String) (ts : List ℕ) (m : Sent)
    → str_eq j k ≡ false
    → lookup k (put_recent j ts m) ≡ lookup k m
unfolding lookup
lookup-put_recent_other k j [] m ne = refl
lookup-put_recent_other k j (t ∷ ts) m ne = ground arith

times-put_recent_self :
    (k j : String) (ts : List ℕ) (m : Sent)
    → str_eq j k ≡ true
    → times k m ≡ []
    → times k (put_recent j ts m) ≡ ts
unfolding lookup
times-put_recent_self k j [] m e h = h
times-put_recent_self k j (t ∷ ts) m e h = ground arith

lookup-sweep-none :
    (k : String) (at : ℕ) (m : Sent) → lookup k m ≡ none → lookup k (sweep at m) ≡ none
unfolding lookup sweep
lookup-sweep-none k at [] h = refl
lookup-sweep-none k at ((j, ts) ∷ m) h = ground (
  arith,
  lookup-put_recent_other k j (keep (inside at) ts) (sweep at m),
  lookup-sweep-none k at m,
)

pub times-sweep :
    (k : String) (at : ℕ) (m : Sent)
    → Distinct m
    → times k (sweep at m) ≡ keep (inside at) (times k m)
unfolding lookup sweep
times-sweep k at [] d = refl
times-sweep k at ((j, ts) ∷ m) (fresh, d) = ground (
  arith,
  lookup-put_recent_other k j (keep (inside at) ts) (sweep at m),
  times-put_recent_self k j (keep (inside at) ts) (sweep at m),
  lookup-sweep-none k at m,
  str_eq_iff j k,
  times-sweep k at m d,
)

pub put_recent-Distinct :
    (j : String) (ts : List ℕ) (m : Sent)
    → lookup j m ≡ none
    → Distinct m
    → Distinct (put_recent j ts m)
put_recent-Distinct j [] m h d = d
put_recent-Distinct j (t ∷ ts) m h d = (h, d)

pub sweep-Distinct : (at : ℕ) (m : Sent) → Distinct m → Distinct (sweep at m)
unfolding sweep
sweep-Distinct at [] d = tt
sweep-Distinct at ((j, ts) ∷ m) (fresh, d) =
    put_recent-Distinct j _ _ (lookup-sweep-none j at m fresh) (sweep-Distinct at m d)

pub spend-Distinct :
    (limit : ℕ) (k : String) (at : ℕ) (m : Sent) → Distinct m → Distinct (spend limit k at m).0
unfolding spend decide
spend-Distinct limit k at m d =
    ground (
      arith,
      sweep-Distinct at m d,
      insert-Distinct k (times k (sweep at m) ++ at ∷ []) (sweep at m),
    )

pub times-insert :
    (k j : String) (ts : List ℕ) (m : Sent)
    → times j (insert k ts m) ≡ (if str_eq k j then ts else times j m)
times-insert k j ts m = rw (lookup-insert k j ts m) (ground arith)
