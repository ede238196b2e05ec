-- ===== src/Fanout/Running.antt =====
-- How events/fanout.ts runs, until it is stopped.
use sharpn.Prelude.{
  ℕ, ◌≡◌, refl, subst, ◌∙◌, ◌⊎◌, inl, inr, Bool, true, false, none, some, [], ◌∷◌, arith, ◌==◌,
  Option-cases, any,
}
use sharpn.Backoff.{Backoff, Delays, delays, next_delay}
use sharpn.Codec.{Notice}
use sharpn.Fanout.{
  Fanout, on_ended, start, reopen, first, fanout_events, on_notice, on_opened, confirm, listen,
  unlisten, stop,
}

module _ (jitter : ℕ → ℕ → ℕ) (d : Delays) where
  -- A subscription says nothing once it has ended, and ends once; a timer fires while it is set.
  pub data Step : Fanout → Fanout → Type 0 where
    ends : (s : ℕ) (f : Fanout) → any (λ t. t == s) f.live ≡ true → Step f (on_ended jitter s f)
    opens : (s : ℕ) (f : Fanout) → any (λ t. t == s) f.live ≡ true → Step f (on_opened f)
    notices :
        (s : ℕ) (n : Notice) (f : Fanout) → any (λ t. t == s) f.live ≡ true → Step f (on_notice n f)
    reopens :
        (refused : Bool) (wait : ℕ) (f : Fanout)
        → f.reopening ≡ some wait
        → Step f (reopen jitter refused f)
    confirms : (f : Fanout) → f.confirming ≡ true → Step f (confirm d f)
    listens : (l : ℕ) (f : Fanout) → Step f (listen l f)
    unlistens : (l : ℕ) (f : Fanout) → Step f (unlisten l f)
    stops : (f : Fanout) → Step f (stop f)

  -- What happens from one state on.
  pub data Steps (f : Fanout) : Fanout → Type 0 where
    here : Steps f f
    later : {g h : Fanout} → Steps f g → Step g h → Steps f h

-- Either a subscription is live and reported, or the next one waits its turn, or nothing more is
-- going to be opened and at most the cancelled one has still to end.
pub data IsSound (f : Fanout) : Type 0 where
  streams :
      (s : ℕ)
      → f.live ≡ s ∷ []
      → f.listening ≡ some s
      → f.is_open ≡ true
      → f.stopped ≡ false
      → f.reopening ≡ none
      → IsSound f
  waits :
      (wait : ℕ)
      → f.live ≡ []
      → f.is_open ≡ false
      → f.stopped ≡ false
      → f.reopening ≡ some wait
      → IsSound f
  over :
      f.stopped ≡ true
      → f.is_open ≡ false
      → f.reopening ≡ none
      → (f.live ≡ []) ⊎ ((s : ℕ) × (f.live ≡ s ∷ []))
      → IsSound f

module _ (jitter : ℕ → ℕ → ℕ) where
  pub start-IsSound :
      (refused : Bool) (f : Fanout)
      → f.live ≡ []
      → f.stopped ≡ false
      → f.reopening ≡ none
      → IsSound (start jitter refused f)
  unfolding start on_ended
  start-IsSound true f dead going clear =
      waits (next_delay (jitter f.opened) f.next).0 (rw dead (ground arith)) (rw going refl)
        (rw going refl) (rw going refl)
  start-IsSound false f dead going clear = streams f.opened (rw dead refl) refl refl going clear

  on_ended-IsSound :
      (s : ℕ) (f : Fanout)
      → any (λ t. t == s) f.live ≡ true
      → IsSound f
      → IsSound (on_ended jitter s f)
  unfolding on_ended
  on_ended-IsSound s f lives (streams t live at up going clear) =
      waits (next_delay (jitter s) f.next).0 (ground arith) (rw going refl) (rw going refl)
        (rw going refl)
  on_ended-IsSound s f lives (waits wait live shut going set) = absurd (ground arith)
  on_ended-IsSound s f lives (over done shut clear (inl live)) = absurd (ground arith)
  on_ended-IsSound s f lives (over done shut clear (inr (t, live))) =
      rw done (over refl refl clear (inl (ground arith)))

  keeps-IsSound :
      (f g : Fanout)
      → g.live ≡ f.live
      → g.listening ≡ f.listening
      → g.is_open ≡ f.is_open
      → g.stopped ≡ f.stopped
      → g.reopening ≡ f.reopening
      → IsSound f
      → IsSound g
  keeps-IsSound f g a b c e h (streams s live at up going clear) =
      streams s (a ∙ live) (b ∙ at) (c ∙ up) (e ∙ going) (h ∙ clear)
  keeps-IsSound f g a b c e h (waits wait live shut going set) =
      waits wait (a ∙ live) (c ∙ shut) (e ∙ going) (h ∙ set)
  keeps-IsSound f g a b c e h (over done shut clear (inl live)) =
      over (e ∙ done) (c ∙ shut) (h ∙ clear) (inl (a ∙ live))
  keeps-IsSound f g a b c e h (over done shut clear (inr (s, live))) =
      over (e ∙ done) (c ∙ shut) (h ∙ clear) (inr (s, a ∙ live))

  stop-IsSound : (f : Fanout) → IsSound f → IsSound (stop f)
  unfolding stop
  stop-IsSound f (streams s live at up going clear) = over refl refl refl (inr (s, live))
  stop-IsSound f (waits wait live shut going set) = over refl refl refl (inl live)
  stop-IsSound f (over done shut clear live) = over refl refl refl live

  reopen-IsSound :
      (refused : Bool) (wait : ℕ) (f : Fanout)
      → f.reopening ≡ some wait
      → IsSound f
      → IsSound (reopen jitter refused f)
  unfolding reopen
  reopen-IsSound refused wait f set (streams s live at up going clear) = absurd (ground arith)
  reopen-IsSound refused wait f set (waits w live shut going h) =
      start-IsSound refused _ live going refl
  reopen-IsSound refused wait f set (over done shut clear live) = absurd (ground arith)

  Step-IsSound : {d : Delays} {f g : Fanout} → Step jitter d f g → IsSound f → IsSound g
  unfolding on_opened on_notice confirm listen unlisten
  Step-IsSound (ends s f lives) h = on_ended-IsSound s f lives h
  Step-IsSound (opens s f lives) h = keeps-IsSound f _ refl refl refl refl refl h
  Step-IsSound (notices s n f lives) h = keeps-IsSound f _ refl refl refl refl refl h
  Step-IsSound (reopens refused wait f set) h = reopen-IsSound refused wait f set h
  Step-IsSound (confirms f set) h = keeps-IsSound f _ refl refl refl refl refl h
  Step-IsSound (listens l f) h = keeps-IsSound f _ refl refl refl refl refl h
  Step-IsSound (unlistens l f) h = keeps-IsSound f _ refl refl refl refl refl h
  Step-IsSound (stops f) h = stop-IsSound f h

  Steps-keep-IsSound : {d : Delays} {f g : Fanout} → Steps jitter d f g → IsSound f → IsSound g
  Steps-keep-IsSound here h = h
  Steps-keep-IsSound (later run step) h = Step-IsSound step (Steps-keep-IsSound run h)

  fanout_events-IsSound :
      (refused : Bool) (b : Backoff) (f : Fanout)
      → fanout_events jitter refused b ≡ some f
      → IsSound f
  unfolding fanout_events
  fanout_events-IsSound refused b f made = elim (Option-cases (delays b)) [
    | inl none_given ↦ ground arith
    | inr (d, given) ↦
        subst IsSound (some_inj (rw (given, fanout_events) at made))
          (start-IsSound refused (first jitter d) refl refl refl)
  ]
    where
      some_inj : {a c : Fanout} → some a ≡ some c → a ≡ c
      some_inj e = cc

  -- Whatever happens to a fan-out that was made: at most one subscription is live, `subscribed`
  -- is answered true exactly while one is and it was not stopped, and one that was not stopped
  -- always has a subscription or the timer that opens the next one.
  pub Steps-IsSound :
      {d : Delays} {f g : Fanout} (refused : Bool) (b : Backoff)
      → fanout_events jitter refused b ≡ some f
      → Steps jitter d f g
      → IsSound g
  Steps-IsSound {d} {f} {g} refused b made run =
      Steps-keep-IsSound run (fanout_events-IsSound refused b f made)

-- Nothing is going to be opened.
record IsOver (n : ℕ) (f : Fanout) : Type 0 where
  pub done : f.stopped ≡ true
  pub shut : f.is_open ≡ false
  pub clear : f.reopening ≡ none
  pub count : f.opened ≡ n

module _ (jitter : ℕ → ℕ → ℕ) where
  Step-IsOver : {d : Delays} {f g : Fanout} (n : ℕ) → Step jitter d f g → IsOver n f → IsOver n g
  unfolding on_ended on_opened on_notice confirm listen unlisten stop
  Step-IsOver n (ends s f lives) h =
      rw h.done (record { done = refl; shut = refl; clear = h.clear; count = h.count })
  Step-IsOver n (opens s f lives) h = record {
    done = h.done;
    shut = h.shut;
    clear = h.clear;
    count = h.count;
  }
  Step-IsOver n (notices s m f lives) h = record {
    done = h.done;
    shut = h.shut;
    clear = h.clear;
    count = h.count;
  }
  Step-IsOver n (reopens refused wait f set) h = absurd (ground (arith, h.clear))
  Step-IsOver n (confirms f set) h = record {
    done = h.done;
    shut = h.shut;
    clear = h.clear;
    count = h.count;
  }
  Step-IsOver n (listens l f) h = record {
    done = h.done;
    shut = h.shut;
    clear = h.clear;
    count = h.count;
  }
  Step-IsOver n (unlistens l f) h = record {
    done = h.done;
    shut = h.shut;
    clear = h.clear;
    count = h.count;
  }
  Step-IsOver n (stops f) h = record { done = refl; shut = refl; clear = refl; count = h.count }

  Steps-IsOver : {d : Delays} {f g : Fanout} (n : ℕ) → Steps jitter d f g → IsOver n f → IsOver n g
  Steps-IsOver n here h = h
  Steps-IsOver n (later run step) h = Step-IsOver n step (Steps-IsOver n run h)

  -- Once it is stopped, whatever happens next, no subscription is opened and none is reported.
  pub stop-for_good :
      {d : Delays} {g : Fanout} (f : Fanout)
      → Steps jitter d (stop f) g
      → (g.opened ≡ f.opened) × (g.is_open ≡ false)
  unfolding stop
  stop-for_good {d} {g} f run =
      let o =
        Steps-IsOver f.opened run
          (record { done = refl; shut = refl; clear = refl; count = refl }) in
      (o.count, o.shut)
