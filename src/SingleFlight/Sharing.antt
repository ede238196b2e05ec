-- ===== src/SingleFlight/Sharing.antt =====
-- How callers share an RPC of gateway/single-flight.ts.
use sharpn.Prelude.{
  All-keep_cons, ℕ, suc, ◌+◌, ◌<◌, String, ◌≡◌, refl, sym, ap, ◌∙◌, ◌≢◌, inl, inr, true, not, none,
  some, List, [], ◌∷◌, arith, ◌==◌, str_eq, ◌&&◌, str_eq_iff, str_eq_refl, Option-cases, length,
  length-append, keep, All,
}
use sharpn.Prelude.Maps.{lookup, insert, delete, lookup-insert, lookup-insert_self, lookup-delete}
use sharpn.SingleFlight.{
  Sharer, Flights, idle, join_or_start, ask, waits_on, settle, Rpc, is_rpc, runs,
}

-- An RPC settles once, some time after it was started.
pub data Step : Flights → Flights → Type 0 where
  asks : (caller : ℕ) (key : String) (f : Flights) → Step f (ask caller key f)
  settles :
      (key : String) (flight : ℕ) (f : Flights)
      → runs key flight f.running ≡ true
      → Step f (settle key flight f)

pub data Run : Flights → Type 0 where
  start : Run idle
  next : {f g : Flights} → Run f → Step f g → Run g

-- The Map holds the RPCs that run, each under its key, no RPC under two keys, and every caller that
-- waits does so on the one under the key that it asked.
pub record IsShared (f : Flights) : Type 0 where
  pub old : (key : String) (flight : ℕ) → lookup key f.in_flight ≡ some flight → flight < f.started
  pub one_key :
      (key other : String) (flight : ℕ)
      → lookup key f.in_flight ≡ some flight
      → lookup other f.in_flight ≡ some flight
      → key ≡ other
  pub held :
      (key : String) (flight : ℕ)
      → runs key flight f.running ≡ true
      → lookup key f.in_flight ≡ some flight
  pub unsettled :
      (key : String) (flight : ℕ)
      → lookup key f.in_flight ≡ some flight
      → runs key flight f.running ≡ true
  pub alive : All (λ w. lookup w.key f.in_flight ≡ some w.flight) f.waiting

runs-keep :
    (key other : String) (flight n : ℕ) (rs : List Rpc)
    → runs other n (keep (λ r. not (is_rpc key flight r)) rs)
      ≡ (runs other n rs && not (str_eq key other && flight == n))
runs-keep key other flight n [] = refl
runs-keep key other flight n (r ∷ rs) = ground (
  arith,
  runs-keep key other flight n rs,
  str_eq_iff r.key key,
  str_eq_iff r.key other,
  str_eq_iff key other,
)

alive-insert :
    (key : String) (n : ℕ) (m : List (String × ℕ)) (ws : List Sharer)
    → lookup key m ≡ none
    → All (λ w. lookup w.key m ≡ some w.flight) ws
    → All (λ w. lookup w.key (insert key n m) ≡ some w.flight) ws
alive-insert key n m [] fresh h = tt
alive-insert key n m (w ∷ ws) fresh (a, h) = (
  ground (arith, lookup-insert key w.key n m, str_eq_iff key w.key),
  alive-insert key n m ws fresh h,
)

alive-delete :
    (key : String) (n : ℕ) (m : List (String × ℕ)) (ws : List Sharer)
    → lookup key m ≡ some n
    → All (λ w. lookup w.key m ≡ some w.flight) ws
    → All (λ w. lookup w.key (delete key m) ≡ some w.flight) (keep (λ w. not (waits_on n w)) ws)
alive-delete key n m [] found h = tt
alive-delete key n m (w ∷ ws) found (a, h) =
    ground (arith, lookup-delete key w.key m, str_eq_iff key w.key, alive-delete key n m ws found h)

ask-IsShared : (caller : ℕ) (key : String) (f : Flights) → IsShared f → IsShared (ask caller key f)
unfolding ask
ask-IsShared caller key f s = elim (Option-cases (lookup key f.in_flight)) [
  | inl fresh ↦
      rw (fresh, ask)
        (record {
          old = λ k n h. ground (arith, lookup-insert key k f.started f.in_flight, s.old k n);
          one_key = λ k o n h g. ground (
            arith,
            lookup-insert key k f.started f.in_flight,
            lookup-insert key o f.started f.in_flight,
            str_eq_iff key k,
            str_eq_iff key o,
            s.old k n,
            s.old o n,
            s.one_key k o n,
          );
          held = λ k n h.
              ground
                (arith, lookup-insert key k f.started f.in_flight, str_eq_iff key k, s.held k n);
          unsettled = λ k n h.
              ground (
                arith,
                lookup-insert key k f.started f.in_flight,
                str_eq_iff key k,
                s.unsettled k n,
              );
          alive = (
            lookup-insert_self key f.started f.in_flight,
            alive-insert key f.started f.in_flight f.waiting fresh s.alive,
          );
        })
  | inr (n, found) ↦
      rw (found, ask)
        (record {
          old = s.old;
          one_key = s.one_key;
          held = s.held;
          unsettled = s.unsettled;
          alive = (found, s.alive);
        })
]

settle-IsShared :
    (key : String) (flight : ℕ) (f : Flights)
    → lookup key f.in_flight ≡ some flight
    → IsShared f
    → IsShared (settle key flight f)
unfolding settle
settle-IsShared key flight f found s = record {
  old = λ k n h. ground (arith, lookup-delete key k f.in_flight, s.old k n);
  one_key = λ k o n h g.
      ground
        (arith, lookup-delete key k f.in_flight, lookup-delete key o f.in_flight, s.one_key k o n);
  held = λ k n h. ground (
    arith,
    lookup-delete key k f.in_flight,
    str_eq_iff key k,
    runs-keep key k flight n f.running,
    s.held k n,
  );
  unsettled = λ k n h.
      ground (
        arith,
        lookup-delete key k f.in_flight,
        runs-keep key k flight n f.running,
        s.unsettled k n,
      );
  alive = alive-delete key flight f.in_flight f.waiting found s.alive;
}

Step-IsShared : {f g : Flights} → Step f g → IsShared f → IsShared g
Step-IsShared (asks caller key f) s = ask-IsShared caller key f s
Step-IsShared (settles key flight f going) s =
    settle-IsShared key flight f (s.held key flight going) s

-- However asking and settling interleave, the Map holds under each key the RPC that was started
-- under it and has not settled, if there is one, and nothing else; no RPC is held under two keys,
-- and every caller that waits does so on the one that runs under the key that it asked.
pub Run-IsShared : {f : Flights} → Run f → IsShared f
unfolding lookup
Run-IsShared start = record {
  old = λ k n h. cc;
  one_key = λ k o n h g. cc;
  held = λ k n h. cc;
  unsettled = λ k n h. cc;
  alive = tt;
}
Run-IsShared (next r st) = Step-IsShared st (Run-IsShared r)

answers :
    (flight : ℕ) (ws : List Sharer)
    → All (λ w. waits_on flight w ≡ true) (keep (waits_on flight) ws)
answers flight [] = tt
answers flight (w ∷ ws) = ground (arith, answers flight ws)

-- Nobody waits twice or is lost when an RPC settles.
split_count :
    (flight : ℕ) (ws : List Sharer)
    → length (keep (waits_on flight) ws) + length (keep (λ w. not (waits_on flight w)) ws)
      ≡ length ws
split_count flight [] = omega arith
split_count flight (w ∷ ws) = ground (arith, split_count flight ws)

nobody_left :
    (key : String) (flight : ℕ) (m : List (String × ℕ)) (ws : List Sharer)
    → lookup key m ≡ some flight
    → All (λ w. lookup w.key m ≡ some w.flight) ws
    → All (λ w. w.key ≢ key) (keep (λ w. not (waits_on flight w)) ws)
nobody_left key flight m [] found h = tt
nobody_left key flight m (w ∷ ws) found (a, h) =
    All-keep_cons (λ w. w.key ≢ key) (λ w. not (waits_on flight w)) w ws
      (λ other e.
        other_flight w.flight flight other (some_inj (sym a ∙ ap (λ k. lookup k m) e ∙ found)))
      (nobody_left key flight m ws found h)
  where
    some_inj : {a b : ℕ} → some a ≡ some b → a ≡ b
    some_inj e = cc

    other_flight : (a b : ℕ) → not (a == b) ≡ true → a ≢ b
    other_flight a b h e = ground arith

-- When the RPC under a key settles, everybody who asked under that key is answered and nobody else
-- is, no caller is lost, and the next question under the key starts a new RPC.
pub settle_answers :
    {f : Flights} (key : String) (flight caller : ℕ)
    → Run f
    → lookup key f.in_flight ≡ some flight
    → All (λ w. w.key ≢ key) (settle key flight f).waiting
      × (length (settle key flight f).waiting + length (settle key flight f).answered
          ≡ length f.waiting + length f.answered)
      × ((ask caller key (settle key flight f)).started ≡ suc f.started)
unfolding settle ask
settle_answers {f} key flight caller r found =
    let gone : lookup key (delete key f.in_flight) ≡ none =
      ground (arith, lookup-delete key key f.in_flight, str_eq_refl key) in
    (
      nobody_left key flight f.in_flight f.waiting found (Run-IsShared r).alive,
      omega (
        arith,
        split_count flight f.waiting,
        length-append (keep (waits_on flight) f.waiting) f.answered,
      ),
      ap (λ o. (join_or_start caller key o (settle key flight f)).started) gone,
    )
