-- ===== src/Fanout/Waits.antt =====
-- How long events/fanout.ts waits before it opens the next subscription.
use sharpn.Prelude.{
  ◌^◌, ℕ, suc, ◌*◌, ◌≤◌, min, ◌≡◌, refl, sym, ap, subst, ◌∙◌, inl, inr, Bool, true, false, Option,
  none, some, List, [], ◌∷◌, Bool-cases, length,
}
use sharpn.Prelude.Int.{pos}
use sharpn.Backoff.{Backoff, Delays, delays, next_delay}
use sharpn.Backoff.Schedule.{after, kept, after-draws, delay-le, after-ceiling}
use sharpn.Fanout.{
  Fanout, on_ended, start, reopen, first, on_notice, on_opened, confirm, listen, unlisten, stop,
}
use sharpn.Fanout.Running.{
  Step, ends, opens, notices, reopens, confirms, listens, unlistens, stops, Steps, here, later,
}

-- A draw that takes the whole ceiling. What the schedule keeps is the same for every draw.
abbrev whole : ℕ → ℕ
whole c = c

-- The wait is one that the schedule draws after a number of losses, at the end of some subscription.
abbrev IsDrawn : (ℕ → ℕ → ℕ) → Delays → Option ℕ → Type 0
IsDrawn jitter d none = Unit {0}
IsDrawn jitter d (some wait) =
    (s : ℕ) × (n : ℕ) × (wait ≡ (next_delay (jitter s) (after whole n d)).0)

module _ (jitter : ℕ → ℕ → ℕ) (d : Delays) where
  -- The schedule is where some number of losses since the last confirmation left it.
  record IsPaced (f : Fanout) : Type 0 where
    pub losses : ℕ
    pub at : f.next ≡ after whole losses d
    pub drawn : IsDrawn jitter d f.reopening

  on_ended-IsPaced : (s : ℕ) (f : Fanout) → IsPaced f → IsPaced (on_ended jitter s f)
  unfolding on_ended after next_delay
  on_ended-IsPaced s f p = elim (Bool-cases f.stopped) [
    | inl done ↦ rw done (record { losses = p.losses; at = p.at; drawn = p.drawn })
    | inr going ↦ rw going (record {
      losses = suc p.losses;
      at = ap kept p.at;
      drawn = (s, p.losses, ap (λ e. jitter s e.ceiling) p.at);
    })
  ]

  start-IsPaced : (refused : Bool) (f : Fanout) → IsPaced f → IsPaced (start jitter refused f)
  unfolding start
  start-IsPaced true f p =
      let q =
        on_ended-IsPaced f.opened _ (record { losses = p.losses; at = p.at; drawn = p.drawn }) in
      record { losses = q.losses; at = q.at; drawn = q.drawn }
  start-IsPaced false f p = record { losses = p.losses; at = p.at; drawn = p.drawn }

  Step-IsPaced : {f g : Fanout} → Step jitter d f g → IsPaced f → IsPaced g
  unfolding on_opened on_notice confirm listen unlisten stop reopen after
  Step-IsPaced (ends s f lives) p = on_ended-IsPaced s f p
  Step-IsPaced (opens s f lives) p = record { losses = p.losses; at = p.at; drawn = p.drawn }
  Step-IsPaced (notices s n f lives) p = record { losses = p.losses; at = p.at; drawn = p.drawn }
  Step-IsPaced (reopens refused wait f set) p =
      start-IsPaced refused _ (record { losses = p.losses; at = p.at; drawn = tt })
  Step-IsPaced (confirms f set) p = record { losses = 0; at = refl; drawn = p.drawn }
  Step-IsPaced (listens l f) p = record { losses = p.losses; at = p.at; drawn = p.drawn }
  Step-IsPaced (unlistens l f) p = record { losses = p.losses; at = p.at; drawn = p.drawn }
  Step-IsPaced (stops f) p = record { losses = p.losses; at = p.at; drawn = tt }

  Steps-IsPaced : {f g : Fanout} → Steps jitter d f g → IsPaced f → IsPaced g
  Steps-IsPaced here p = p
  Steps-IsPaced (later run step) p = Step-IsPaced step (Steps-IsPaced run p)

  -- However a fan-out runs, the wait before the next subscription is never more than the ceiling
  -- of the backoff, where no wait, each of them drawn anew, is drawn above the ceiling that it
  -- is drawn from.
  pub wait-le-ceiling :
      {g : Fanout} (b : Backoff) (refused : Bool) (wait : ℕ)
      → delays b ≡ some d
      → ((s c : ℕ) → jitter s c ≤ c)
      → Steps jitter d (start jitter refused (first jitter d)) g
      → g.reopening ≡ some wait
      → (b.ceiling_ms ≡ pos d.limit) × (wait ≤ d.limit)
  unfolding after
  wait-le-ceiling {g} b refused wait given below run set =
      let p =
        Steps-IsPaced run
          (start-IsPaced refused (first jitter d) (record { losses = 0; at = refl; drawn = tt })) in
      let (s, n, drawn) = subst (IsDrawn jitter d) set p.drawn in
      let (begins, ends_at, small, within) = delay-le b d (jitter s) n given (below s) in
      (
        ends_at,
        subst (λ w. w ≤ d.limit)
            (ap (λ e. (next_delay (jitter s) e).0) (after-draws (jitter s) whole n d) ∙ sym drawn)
            within,
      )

  -- Subscriptions that end one after the other, none of them confirmed.
  abbrev pub lose : List ℕ → Fanout → Fanout
  lose [] f = f
  lose (s ∷ ss) f = on_ended jitter s (lose ss f)

  lose-next :
      (ss : List ℕ) (f : Fanout)
      → f.stopped ≡ false
      → f.next ≡ d
      → ((lose ss f).stopped ≡ false) × ((lose ss f).next ≡ after whole (length ss) d)
  unfolding on_ended after next_delay
  lose-next [] f going at = (going, at)
  lose-next (s ∷ ss) f going at =
      let (still, then_at) = lose-next ss f going at in rw still (refl, ap kept then_at)

  -- In a fan-out that was not stopped, with a base that is not above the ceiling, the first wait
  -- after a confirmed stream is drawn from the base of the backoff again, and every further loss
  -- without one doubles what the wait is drawn from, up to the ceiling.
  pub lose-reopening :
      (f : Fanout) (s : ℕ) (ss : List ℕ)
      → f.stopped ≡ false
      → d.ceiling ≤ d.limit
      → (lose (s ∷ ss) (confirm d f)).reopening
        ≡ some (jitter s (min d.limit (d.ceiling * 2 ^ length ss)))
  unfolding on_ended confirm next_delay
  lose-reopening f s ss going le =
      let (still, at) = lose-next ss (confirm d f) going refl in
      rw still (
        ap (λ c. some (jitter s c)) (ap (λ e. e.ceiling) at ∙ after-ceiling whole (length ss) d le))
