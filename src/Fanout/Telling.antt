-- ===== src/Fanout/Telling.antt =====
-- Who is told what by events/fanout.ts.
use sharpn.Prelude.{
  ℕ, ◌≡◌, refl, sym, subst, ◌≢◌, inl, inr, Bool, true, false, ◌||◌, List, [], ◌∷◌, ◌++◌, arith,
  ◌==◌, if◌then◌else◌, Bool-cases, any,
}
use sharpn.Backoff.{Delays}
use sharpn.Codec.{Notice}
use sharpn.Fanout.{
  Fanout, on_ended, start, reopen, first, tell, on_notice, on_opened, confirm, listen, unlisten,
  stop, drop,
}
use sharpn.Fanout.Running.{
  Step, ends, opens, notices, reopens, confirms, listens, unlistens, stops, Steps, here, later,
}

-- What one listener was told, latest first.
abbrev pub told_to : ℕ → List (ℕ × Notice) → List Notice
told_to l [] = []
told_to l ((k, n) ∷ told) = if k == l then n ∷ told_to l told else told_to l told

abbrev pub listens_in : ℕ → List ℕ → Bool
listens_in l ls = any (λ k. k == l) ls

-- No listener stands twice in the Set.
abbrev IsUnrepeated : List ℕ → Type 0
IsUnrepeated [] = Unit {0}
IsUnrepeated (l ∷ ls) = (listens_in l ls ≡ false) × IsUnrepeated ls

told_to-tell_absent :
    (l : ℕ) (n : Notice) (ls : List ℕ) (told : List (ℕ × Notice))
    → listens_in l ls ≡ false
    → told_to l (tell n ls told) ≡ told_to l told
told_to-tell_absent l n [] told h = refl
told_to-tell_absent l n (k ∷ ls) told h = ground (arith, told_to-tell_absent l n ls ((k, n) ∷ told))

told_to-tell :
    (l : ℕ) (n : Notice) (ls : List ℕ) (told : List (ℕ × Notice))
    → IsUnrepeated ls
    → told_to l (tell n ls told) ≡ (if listens_in l ls then n ∷ told_to l told else told_to l told)
told_to-tell l n [] told s = refl
told_to-tell l n (k ∷ ls) told (fresh, s) = elim (Bool-cases (k == l)) [
  | inl same ↦ ground (arith, told_to-tell_absent l n ls ((k, n) ∷ told))
  | inr other ↦ ground (arith, told_to-tell l n ls ((k, n) ∷ told) s)
]

listens_in-snoc :
    (l k : ℕ) (ls : List ℕ) → listens_in l (ls ++ k ∷ []) ≡ (listens_in l ls || k == l)
listens_in-snoc l k [] = ground arith
listens_in-snoc l k (j ∷ ls) = ground (arith, listens_in-snoc l k ls)

IsUnrepeated-snoc :
    (l : ℕ) (ls : List ℕ) → listens_in l ls ≡ false → IsUnrepeated ls → IsUnrepeated (ls ++ l ∷ [])
IsUnrepeated-snoc l [] h s = (refl, tt)
IsUnrepeated-snoc l (k ∷ ls) h (fresh, s) =
    (ground (arith, listens_in-snoc k l ls), IsUnrepeated-snoc l ls (ground arith) s)

listens_in-drop :
    (l k : ℕ) (ls : List ℕ) → listens_in l ls ≡ false → listens_in l (drop k ls) ≡ false
listens_in-drop l k [] h = refl
listens_in-drop l k (j ∷ ls) h = ground (arith, listens_in-drop l k ls)

IsUnrepeated-drop : (k : ℕ) (ls : List ℕ) → IsUnrepeated ls → IsUnrepeated (drop k ls)
IsUnrepeated-drop k [] s = tt
IsUnrepeated-drop k (j ∷ ls) (fresh, s) =
    ground (arith, listens_in-drop j k ls fresh, IsUnrepeated-drop k ls s)

listen-IsUnrepeated :
    (l : ℕ) (f : Fanout) → IsUnrepeated f.listeners → IsUnrepeated (listen l f).listeners
unfolding listen
listen-IsUnrepeated l f s = elim (Bool-cases (listens_in l f.listeners)) [
  | inl known ↦ rw known s
  | inr fresh ↦ rw fresh (IsUnrepeated-snoc l f.listeners fresh s)
]

listeners-on_ended :
    (jitter : ℕ → ℕ → ℕ) (s : ℕ) (f : Fanout) → (on_ended jitter s f).listeners ≡ f.listeners
unfolding on_ended
listeners-on_ended jitter s f = ground arith

listeners-start :
    (jitter : ℕ → ℕ → ℕ) (refused : Bool) (f : Fanout)
    → (start jitter refused f).listeners ≡ f.listeners
unfolding start
listeners-start jitter true f = listeners-on_ended jitter f.opened _
listeners-start jitter false f = refl

module _ {jitter : ℕ → ℕ → ℕ} {d : Delays} where
  Step-IsUnrepeated :
      {f g : Fanout} → Step jitter d f g → IsUnrepeated f.listeners → IsUnrepeated g.listeners
  unfolding on_opened on_notice confirm unlisten stop reopen
  Step-IsUnrepeated (ends s f lives) h = subst IsUnrepeated (sym (listeners-on_ended jitter s f)) h
  Step-IsUnrepeated (opens s f lives) h = h
  Step-IsUnrepeated (notices s n f lives) h = h
  Step-IsUnrepeated (reopens refused wait f set) h =
      subst IsUnrepeated (sym (listeners-start jitter refused _)) h
  Step-IsUnrepeated (confirms f set) h = h
  Step-IsUnrepeated (listens l f) h = listen-IsUnrepeated l f h
  Step-IsUnrepeated (unlistens l f) h = IsUnrepeated-drop l f.listeners h
  Step-IsUnrepeated (stops f) h = h

  Steps-IsUnrepeated :
      {f g : Fanout} → Steps jitter d f g → IsUnrepeated f.listeners → IsUnrepeated g.listeners
  Steps-IsUnrepeated here h = h
  Steps-IsUnrepeated (later run step) h = Step-IsUnrepeated step (Steps-IsUnrepeated run h)

  -- However a fan-out ran before, a notice is told once to each listener that listens, and to
  -- nobody else, and what they were told before stays.
  pub on_notice-told_to :
      {g : Fanout} (refused : Bool) (l : ℕ) (n : Notice)
      → Steps jitter d (start jitter refused (first jitter d)) g
      → told_to l (on_notice n g).told
        ≡ (if listens_in l g.listeners then n ∷ told_to l g.told else told_to l g.told)
  unfolding on_notice
  on_notice-told_to {g} refused l n run = told_to-tell l n g.listeners g.told (
      Steps-IsUnrepeated run
        (subst IsUnrepeated (sym (listeners-start jitter refused (first jitter d))) tt))

listens_in-drop_self : (l : ℕ) (ls : List ℕ) → listens_in l (drop l ls) ≡ false
listens_in-drop_self l [] = refl
listens_in-drop_self l (k ∷ ls) = ground (arith, listens_in-drop_self l ls)

listens_in-drop_other : (l k : ℕ) (ls : List ℕ) → k ≢ l → listens_in l (drop k ls) ≡ listens_in l ls
listens_in-drop_other l k [] ne = refl
listens_in-drop_other l k (j ∷ ls) ne = ground (arith, listens_in-drop_other l k ls ne)

-- Whoever registers listens and whoever removes itself does not, whatever was done before, and
-- neither changes whether somebody else listens.
pub listen-unlisten :
    (l k : ℕ) (f : Fanout)
    → k ≢ l
    → (listens_in l (listen l f).listeners ≡ true)
      × (listens_in l (unlisten l f).listeners ≡ false)
      × (listens_in k (listen l f).listeners ≡ listens_in k f.listeners)
      × (listens_in k (unlisten l f).listeners ≡ listens_in k f.listeners)
unfolding listen unlisten
listen-unlisten l k f ne = (
  ground (arith, listens_in-snoc l l f.listeners),
  listens_in-drop_self l f.listeners,
  ground (arith, listens_in-snoc k l f.listeners),
  listens_in-drop_other k l f.listeners (λ e. ne (sym e)),
)
