-- ===== src/Meter/Waiting.antt =====
-- What a refusal of http/meter.ts tells a browser about waiting.
use sharpn.Prelude.{
  ◌↔◌, ltb→lt, ℕ, ◌+◌, ◌*◌, ◌≤◌, ◌<◌, String, ◌≡◌, ◌≢◌, refl, Bool, List, [], ◌∷◌, ◌++◌, arith, ltb,
  length, keep, str_eq, str_eq_iff, length-append, length-keep-le, Bool-cases, inl, inr, All,
}
use sharpn.Prelude.Maps.{Distinct}
use sharpn.Meter.{
  Sent, allowed, refused, inside, window_ms, sweep, times, decide, spend, wait_for, seconds_to_wait,
}
use sharpn.Meter.Sweep.{times-insert, times-sweep, sweep-Distinct}

-- Nothing in the list is older than its head, wherever the list is cut.
abbrev pub Sorted : List ℕ → Type 0
Sorted [] = Unit {0}
Sorted (t ∷ ts) = All (λ u. t ≤ u) ts × Sorted ts

-- What holds of one key's times at a moment: oldest first, none in the future, none too many.
pub record Tidy (limit now : ℕ) (ts : List ℕ) : Type 0 where
  pub oldest_first : Sorted ts
  pub past : All (λ t. t ≤ now) ts
  pub few : length ts ≤ limit

All-keep {ℓ} :
    {A : Type ℓ} (P : A → Type 0) (p : A → Bool) (xs : List A) → All P xs → All P (keep p xs)
All-keep P p [] h = tt
All-keep P p (x ∷ xs) (q, h) = ground (arith, All-keep P p xs h)

Sorted-keep : (p : ℕ → Bool) (ts : List ℕ) → Sorted ts → Sorted (keep p ts)
Sorted-keep p [] h = tt
Sorted-keep p (t ∷ ts) (q, h) = ground (arith, All-keep (λ u. t ≤ u) p ts q, Sorted-keep p ts h)

All-le : (a b : ℕ) (ts : List ℕ) → a ≤ b → All (λ t. t ≤ a) ts → All (λ t. t ≤ b) ts
All-le a b [] h q = tt
All-le a b (t ∷ ts) h (q, qs) = (omega arith, All-le a b ts h qs)

All-snoc : (P : ℕ → Type 0) (ts : List ℕ) (t : ℕ) → All P ts → P t → All P (ts ++ t ∷ [])
All-snoc P [] t h p = (p, tt)
All-snoc P (u ∷ ts) t (q, h) p = (q, All-snoc P ts t h p)

Sorted-snoc : (ts : List ℕ) (at : ℕ) → Sorted ts → All (λ t. t ≤ at) ts → Sorted (ts ++ at ∷ [])
Sorted-snoc [] at h q = (tt, tt)
Sorted-snoc (t ∷ ts) at (o, h) (le, q) = (All-snoc _ ts at o le, Sorted-snoc ts at h q)

pub keep-Tidy :
    (limit now at : ℕ) (ts : List ℕ)
    → now ≤ at
    → Tidy limit now ts
    → Tidy limit at (keep (inside at) ts)
keep-Tidy limit now at ts h t = record {
  oldest_first = Sorted-keep (inside at) ts t.oldest_first;
  past = All-keep _ (inside at) ts (All-le now at ts h t.past);
  few = omega (arith, length-keep-le (inside at) ts, t.few);
}

pub snoc-Tidy :
    (limit at : ℕ) (ts : List ℕ)
    → length ts < limit
    → Tidy limit at ts
    → Tidy limit at (ts ++ at ∷ [])
snoc-Tidy limit at ts room t = record {
  oldest_first = Sorted-snoc ts at t.oldest_first t.past;
  past = All-snoc _ ts at t.past (omega arith);
  few = omega (arith, length-append ts (at ∷ []));
}

decide-Tidy :
    (limit : ℕ) (k key : String) (at : ℕ) (m : Sent)
    → Tidy limit at (times key m)
    → Tidy limit at (times key (decide limit k at m).0)
unfolding decide
decide-Tidy limit k key at m t = elim (Bool-cases (ltb (length (times k m)) limit)) [
  | inl room ↦
      rw (room, times-insert k key (times k m ++ at ∷ []) m)
        (elim (Bool-cases (str_eq k key)) [
          | inl same ↦
              let e : k ≡ key = (str_eq_iff k key).0 same in
              rw (same, e) (snoc-Tidy limit at _ (ltb→lt _ limit (rw e at room)) t)
          | inr other ↦ rw other t
        ])
  | inr full ↦ rw full t
]

-- Every call, for whichever key, keeps every key's times in order, in the past and within the
-- limit.
pub spend-Tidy :
    (limit : ℕ) (k key : String) (now at : ℕ) (sent : Sent)
    → Distinct sent
    → now ≤ at
    → Tidy limit now (times key sent)
    → Tidy limit at (times key (spend limit k at sent).0)
unfolding spend
spend-Tidy limit k key now at sent d h t =
    decide-Tidy limit k key at (sweep at sent)
      (rw (times-sweep key at sent d) (keep-Tidy limit now at (times key sent) h t))

decide-allowed_iff :
    (limit : ℕ) (key : String) (at : ℕ) (m : Sent)
    → ((decide limit key at m).1 ≡ allowed) ↔ (length (times key m) < limit)
unfolding decide
decide-allowed_iff limit key at m = ground arith

-- A call is let through exactly when fewer than `limit` of the key's times are inside the window.
pub spend-allowed_iff :
    (limit : ℕ) (key : String) (at : ℕ) (sent : Sent)
    → Distinct sent
    → ((spend limit key at sent).1 ≡ allowed) ↔ (length (keep (inside at) (times key sent)) < limit)
unfolding spend
spend-allowed_iff limit key at sent d =
    rw (← times-sweep key at sent d) (decide-allowed_iff limit key at (sweep at sent))

-- A refusal leaves what the sweep left, and names the wait of the oldest time.
refusal_parts :
    (limit : ℕ) (key : String) (at : ℕ) (m : Sent) (s : ℕ)
    → (decide limit key at m).1 ≡ refused s
    → (limit ≤ length (times key m))
      × (s ≡ seconds_to_wait (wait_for at (times key m)))
      × ((decide limit key at m).0 ≡ m)
unfolding decide
refusal_parts limit key at m s e = ground arith

-- What is inside the window is younger than the window.
inside_lt : (at : ℕ) (ts : List ℕ) → All (λ t. at < t + window_ms) (keep (inside at) ts)
inside_lt at [] = tt
inside_lt at (t ∷ ts) = ground (arith, inside_lt at ts)

keep_young :
    (later t : ℕ) (ts : List ℕ)
    → later < t + window_ms
    → All (λ u. t ≤ u) ts
    → keep (inside later) ts ≡ ts
keep_young later t [] h q = refl
keep_young later t (u ∷ ts) h (le, q) = ground (arith, keep_young later t ts h q)

-- The count of what is left at a later moment of a full list whose head is `t`.
head_out :
    (limit at later s : ℕ) (ts : List ℕ)
    → Tidy limit at ts
    → 0 < limit
    → limit ≤ length ts
    → s ≡ seconds_to_wait (wait_for at ts)
    → at + s * 1000 ≤ later
    → length (keep (inside later) ts) < limit
head_out limit at later s [] t pos full e h = absurd (omega arith)
head_out limit at later s (u ∷ ts) t pos full e h =
    ground (arith, length-keep-le (inside later) ts, t.few, t.past.0)

head_in :
    (limit at later s : ℕ) (ts : List ℕ)
    → Tidy limit at ts
    → All (λ t. at < t + window_ms) ts
    → 0 < limit
    → limit ≤ length ts
    → s ≡ seconds_to_wait (wait_for at ts)
    → at ≤ later
    → later + 1000 ≤ at + s * 1000
    → limit ≤ length (keep (inside later) ts)
head_in limit at later s [] t young pos full e le h = absurd (omega arith)
head_in limit at later s (u ∷ ts) t young pos full e le h =
    ground (arith, keep_young later u ts, t.oldest_first.0, young.0)

pub wait_bounds :
    (limit at : ℕ) (ts : List ℕ)
    → Tidy limit at ts
    → (1 ≤ seconds_to_wait (wait_for at ts)) × (seconds_to_wait (wait_for at ts) ≤ 60)
wait_bounds limit at [] t = omega arith
wait_bounds limit at (u ∷ ts) t = omega (arith, t.past.0)

module _ (limit : ℕ) (key : String) (now at later : ℕ) (sent : Sent) (s : ℕ)
    (distinct : Distinct sent) (order : now ≤ at) (tidy : Tidy limit now (times key sent))
    (refusal : (spend limit key at sent).1 ≡ refused s) where
  swept-Tidy : Tidy limit at (times key (sweep at sent))
  swept-Tidy =
      rw (times-sweep key at sent distinct) (keep-Tidy limit now at (times key sent) order tidy)

  parts :
      (limit ≤ length (times key (sweep at sent)))
      × (s ≡ seconds_to_wait (wait_for at (times key (sweep at sent))))
      × ((spend limit key at sent).0 ≡ sweep at sent)
  unfolding spend
  parts = refusal_parts limit key at (sweep at sent) s refusal

  swept-Distinct : Distinct (sweep at sent)
  swept-Distinct = sweep-Distinct at sent distinct

  -- A refusal asks for at least one second and at most a minute.
  pub refused_seconds : (1 ≤ s) × (s ≤ 60)
  refused_seconds = rw parts.1 (wait_bounds limit at _ swept-Tidy)

  -- Under a limit that is not zero, a refused key that makes its next call once the named
  -- seconds are over is let through, where its times were in order, in the past and within the
  -- limit, as every call leaves them.
  pub refused_then_allowed :
      0 < limit
      → at + s * 1000 ≤ later
      → (spend limit key later (spend limit key at sent).0).1 ≡ allowed
  refused_then_allowed pos h = rw parts.2 (
      (spend-allowed_iff limit key later (sweep at sent) swept-Distinct).1
        (head_out limit at later s _ swept-Tidy pos parts.0 parts.1 h))

  -- The wait that a refusal names is not too long: under a limit that is not zero, a next call a
  -- whole second earlier is refused again, where the key's times were in order, in the past and
  -- within the limit, as every call leaves them.
  pub refused_too_early :
      0 < limit
      → at ≤ later
      → later + 1000 ≤ at + s * 1000
      → (spend limit key later (spend limit key at sent).0).1 ≢ allowed
  refused_too_early pos le h ok =
      let few =
        (spend-allowed_iff limit key later (sweep at sent) swept-Distinct).0 (rw parts.2 at ok) in
      let young = rw (← times-sweep key at sent distinct) at (inside_lt at (times key sent)) in
      omega (arith, few, head_in limit at later s _ swept-Tidy young pos parts.0 parts.1 le h)
