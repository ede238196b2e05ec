-- ===== src/Backoff/Schedule.antt =====
-- The schedule of events/backoff.ts.
use sharpn.Prelude.{ℕ, zero, suc, ◌*◌, ◌≤◌, min, ◌≡◌, refl, sym, ap, ◌∙◌, some, arith}
use Prim.Native.Nat.{◌^◌}
use native.Mathlib.Nat.{mul_assoc, pow-suc}
use sharpn.Prelude.Int.{ℤ, pos, negsuc}
use sharpn.Backoff.{Backoff, Delays, delays, next_delay, start_from}

-- What the closure keeps after a number of calls.
unfoldable pub after : (ℕ → ℕ) → ℕ → Delays → Delays
after jitter zero d = d
after jitter (suc n) d = (next_delay jitter (after jitter n d)).1

-- What the closure keeps of a call.
abbrev pub kept : Delays → Delays
kept e = record e { ceiling = min e.limit (e.ceiling * 2) }

-- What is drawn has no part in what the closure keeps.
pub after-draws : (jitter other : ℕ → ℕ) (n : ℕ) (d : Delays) → after jitter n d ≡ after other n d
unfolding after next_delay
after-draws jitter other zero d = refl
after-draws jitter other (suc n) d = ap kept (after-draws jitter other n d)

-- The ceiling is never above the limit, which never moves.
after-limit : (jitter : ℕ → ℕ) (n : ℕ) (d : Delays) → (after jitter n d).limit ≡ d.limit
unfolding after next_delay
after-limit jitter zero d = refl
after-limit jitter (suc n) d = after-limit jitter n d

double_min : (l x : ℕ) → min l (min l x * 2) ≡ min l (x * 2)
double_min l x = omega arith

-- The ceiling of the call after `n` others is the first one doubled `n` times, or the limit.
pub after-ceiling :
    (jitter : ℕ → ℕ) (n : ℕ) (d : Delays)
    → d.ceiling ≤ d.limit
    → (after jitter n d).ceiling ≡ min d.limit (d.ceiling * 2 ^ n)
unfolding after next_delay
after-ceiling jitter zero d h = omega arith
after-ceiling jitter (suc n) d h =
    rw (after-limit jitter n d, after-ceiling jitter n d h)
      (double_min d.limit (d.ceiling * 2 ^ n)
        ∙ ap (min d.limit)
            (mul_assoc d.ceiling (2 ^ n) 2 ∙ ap (λ p. d.ceiling * p) (sym (pow-suc 2 n))))

start_from-some :
    (base : ℕ) (c : ℤ) (d : Delays)
    → start_from base c ≡ some d
    → (c ≡ pos d.limit) × (d.ceiling ≡ base) × (d.ceiling ≤ d.limit)
start_from-some base (negsuc n) d h = cc
start_from-some base (pos c) d h = ground arith

start_some :
    (base limit : ℤ) (d : Delays)
    → delays (record { base_ms = base; ceiling_ms = limit }) ≡ some d
    → (base ≡ pos d.ceiling) × (limit ≡ pos d.limit) × (d.ceiling ≤ d.limit)
unfolding delays
start_some (negsuc n) limit d h = cc
start_some (pos base) limit d h =
    let (ends, begins, le) = start_from-some base limit d h in (ap pos (sym begins), ends, le)

-- However the waits are drawn below their ceilings, the wait after `n` others of a schedule that a
-- backoff gives is at most the base doubled `n` times, and never more than the backoff's ceiling.
pub delay-le :
    (b : Backoff) (d : Delays) (jitter : ℕ → ℕ) (n : ℕ)
    → delays b ≡ some d
    → ((c : ℕ) → jitter c ≤ c)
    → (b.base_ms ≡ pos d.ceiling)
      × (b.ceiling_ms ≡ pos d.limit)
      × ((next_delay jitter (after jitter n d)).0 ≤ d.ceiling * 2 ^ n)
      × ((next_delay jitter (after jitter n d)).0 ≤ d.limit)
unfolding next_delay
delay-le b d jitter n h drawn =
    let (begins, ends, le) = start_some b.base_ms b.ceiling_ms d h in
    (
      begins,
      ends,
      omega (arith, drawn (after jitter n d).ceiling, after-ceiling jitter n d le),
      omega (arith, drawn (after jitter n d).ceiling, after-ceiling jitter n d le),
    )
