-- ===== src/Console/Sending/InFlight.antt =====
-- How many PATCHes of a Light apps/console/src/queries/useUpdateLight.ts has in flight.
use sharpn.Prelude.{
  ℕ, suc, ◌+◌, ◌≤◌, String, ◌≡◌, refl, sym, ap, ◌∙◌, true, All, subst, inl, inr, Option, none, some,
  List, [], ◌∷◌, ◌++◌, arith, str_eq, if◌then◌else◌, str_eq_iff, str_eq_refl, Bool-cases,
  Option-cases,
}
use sharpn.Prelude.Maps.{lookup, delete, lookup-insert, lookup-delete}
use sharpn.Command.{LightCommand}
use sharpn.Console.Sending.{
  Patch, Sender, quiet, commands_equal, fire, send_held, settle, Settlement, acknowledged, failed,
  conclude, on_settled, send,
}
use sharpn.Errors.{ErrorCode}
use sharpn.Codec.{success}

-- A PATCH that has not settled is taken out of the network as it does.
abbrev pub arrived : List Patch → List Patch → Sender → Sender
arrived before after s = record s { outstanding = before ++ after }

-- What happens to a hook that stays mounted and is asked for one Light, as each control of the Console
-- holds its own.
module _ (id : String) where
  pub data Step : Sender → Sender → Type 0 where
    sends : (now : ℕ) (c : LightCommand) (s : Sender) → Step s (send now id c s)
    settles :
        (before after : List Patch) (p : Patch) (how : Settlement) (now : ℕ) (s : Sender)
        → s.outstanding ≡ before ++ p ∷ after
        → Step s (on_settled how now p (arrived before after s))

  pub data Run : Sender → Type 0 where
    start : Run quiet
    later : {s t : Sender} → Run s → Step s t → Run t

-- How many PATCHes of a Light have not settled.
abbrev pub flying : String → List Patch → ℕ
flying l [] = 0
flying l (p ∷ ps) = if str_eq p.light_id l then suc (flying l ps) else flying l ps

flying-append : (l : String) (ps qs : List Patch) → flying l (ps ++ qs) ≡ flying l ps + flying l qs
flying-append l [] qs = omega arith
flying-append l (p ∷ ps) qs = ground (arith, flying-append l ps qs)

abbrev pub one_if {ℓ} : {A : Type ℓ} → Option A → ℕ
one_if none = 0
one_if (some a) = 1

-- A Light has a PATCH outstanding exactly while the Map has it, and one only.
abbrev pub IsSingle : Sender → Type 0
IsSingle s = (l : String) → flying l s.outstanding ≡ one_if (lookup l s.in_flight)

fire-IsSingle :
    (now : ℕ) (light_id : String) (c : LightCommand) (s : Sender)
    → lookup light_id s.in_flight ≡ none
    → IsSingle s
    → IsSingle (fire now light_id c s)
unfolding fire
fire-IsSingle now light_id c s free h =
    λ l. ground (arith, lookup-insert light_id l none s.in_flight, h l, str_eq_iff light_id l)

send-IsSingle :
    (now : ℕ) (light_id : String) (c : LightCommand) (s : Sender)
    → IsSingle s
    → IsSingle (send now light_id c s)
unfolding send
send-IsSingle now light_id c s h = elim (Option-cases (lookup light_id s.in_flight)) [
  | inl free ↦ rw (free, send) (fire-IsSingle now light_id c _ free h)
  | inr (held, found) ↦
      rw (found, send)
        (λ l.
          ground (arith, lookup-insert light_id l (some c) s.in_flight, h l, str_eq_iff light_id l))
]

-- Only the Pending Commands and the reads are touched.
pub conclude-same :
    (how : Settlement) (p : Patch) (s : Sender)
    → ((conclude how p s).in_flight ≡ s.in_flight)
      × ((conclude how p s).outstanding ≡ s.outstanding)
      × ((conclude how p s).asked ≡ s.asked)
      × ((conclude how p s).fired ≡ s.fired)
      × ((conclude how p s).calls ≡ s.calls)
      × ((conclude how p s).mounted ≡ s.mounted)
conclude-same (acknowledged success) p s = (refl, refl, refl, refl, refl, refl)
conclude-same (acknowledged _) p s = (refl, refl, refl, refl, refl, refl)
conclude-same (failed none) p s = (refl, refl, refl, refl, refl, refl)
conclude-same (failed (some ErrorCode.not_authenticated)) p s = (refl, refl, refl, refl, refl, refl)
conclude-same (failed (some _)) p s = (refl, refl, refl, refl, refl, refl)

-- What is left of the network is what the Map says, without the Light that settles.
abbrev pub IsFreed : String → Sender → Type 0
IsFreed light_id s =
    (l : String)
    → flying l s.outstanding ≡ (if str_eq light_id l then 0 else one_if (lookup l s.in_flight))

deleted-IsSingle :
    (light_id : String) (s : Sender)
    → IsFreed light_id s
    → IsSingle (record s { in_flight = delete light_id s.in_flight })
deleted-IsSingle light_id s h = λ l. ground (arith, h l, lookup-delete light_id l s.in_flight)

settle-IsSingle :
    (now : ℕ) (light_id : String) (c : LightCommand) (s : Sender)
    → IsFreed light_id s
    → IsSingle (settle now light_id c s)
unfolding settle
settle-IsSingle now light_id c s h = held (lookup light_id s.in_flight)
  where
    freed : IsSingle (record s { in_flight = delete light_id s.in_flight })
    freed = deleted-IsSingle light_id s h

    held :
        (o : Option (Option LightCommand))
        → IsSingle
            (send_held now light_id c o (record s { in_flight = delete light_id s.in_flight }))
    held none = freed
    held (some none) = freed
    held (some (some next)) = elim (Bool-cases (commands_equal next c)) [
      | inl same ↦ rw same freed
      | inr other ↦ rw other (
          fire-IsSingle now light_id next _
            (ground (arith, lookup-delete light_id light_id s.in_flight, str_eq_refl light_id))
            freed)
    ]

pub arrived-IsFreed :
    (before after : List Patch) (p : Patch) (s : Sender)
    → s.outstanding ≡ before ++ p ∷ after
    → IsSingle s
    → IsFreed p.light_id (arrived before after s)
arrived-IsFreed before after p s there h = λ l. ground (
  arith,
  subst (λ ps. flying l ps ≡ one_if (lookup l s.in_flight)) there (h l),
  flying-append l before (p ∷ after),
  flying-append l before after,
  one_if_le (lookup l s.in_flight),
)
  where
    one_if_le : (o : Option (Option LightCommand)) → one_if o ≤ 1
    one_if_le none = omega arith
    one_if_le (some a) = omega arith

pub All-middle {ℓ} :
    {A : Type ℓ} (P : A → Type 0) (xs ys : List A) (x : A)
    → All P (xs ++ x ∷ ys)
    → P x × All P (xs ++ ys)
All-middle P [] ys x h = h
All-middle P (y ∷ xs) ys x (p, h) = let (q, rest) = All-middle P xs ys x h in (q, (p, rest))

-- Whatever is outstanding is a PATCH of the one Light, and the hook's latest call.
pub record IsHooked (id : String) (s : Sender) : Type 0 where
  pub mounted : s.mounted ≡ true
  pub latest : All (λ p. (p.light_id ≡ id) × (p.number ≡ s.calls)) s.outstanding

none_flying :
    (id : String) (n : ℕ) (ps : List Patch)
    → All (λ p. (p.light_id ≡ id) × (p.number ≡ n)) ps
    → flying id ps ≡ 0
    → ps ≡ []
none_flying id n [] h free = refl
none_flying id n (p ∷ ps) ((same, at), h) free = absurd (ground (arith, str_eq_iff p.light_id id))

fire-IsHooked :
    (now : ℕ) (id : String) (c : LightCommand) (s : Sender)
    → flying id s.outstanding ≡ 0
    → IsHooked id s
    → IsHooked id (fire now id c s)
unfolding fire
fire-IsHooked now id c s free h = record {
  mounted = h.mounted;
  latest = rw (none_flying id s.calls s.outstanding h.latest free) ((refl, refl), tt);
}

send-IsHooked :
    (now : ℕ) (id : String) (c : LightCommand) (s : Sender)
    → IsSingle s
    → IsHooked id s
    → IsHooked id (send now id c s)
unfolding send
send-IsHooked now id c s single h = elim (Option-cases (lookup id s.in_flight)) [
  | inl free ↦
      rw (free, send)
        (fire-IsHooked now id c _ (single id ∙ ap one_if free)
          (record { mounted = h.mounted; latest = h.latest }))
  | inr (held, found) ↦ rw (found, send) (record { mounted = h.mounted; latest = h.latest })
]

settle-IsHooked :
    (now : ℕ) (id : String) (c : LightCommand) (s : Sender)
    → flying id s.outstanding ≡ 0
    → IsHooked id s
    → IsHooked id (settle now id c s)
unfolding settle
settle-IsHooked now id c s free h = held (lookup id s.in_flight)
  where
    rest : IsHooked id (record s { in_flight = delete id s.in_flight })
    rest = record { mounted = h.mounted; latest = h.latest }

    held :
        (o : Option (Option LightCommand))
        → IsHooked id (send_held now id c o (record s { in_flight = delete id s.in_flight }))
    held none = rest
    held (some none) = rest
    held (some (some next)) = elim (Bool-cases (commands_equal next c)) [
      | inl same ↦ rw same rest
      | inr other ↦ rw other (fire-IsHooked now id next _ free rest)
    ]

module _ (id : String) (before after : List Patch) (p : Patch) (how : Settlement) (now : ℕ)
    (s : Sender) (there : s.outstanding ≡ before ++ p ∷ after) (h : IsHooked id s) where
  settling :
      ((p.light_id ≡ id) × (p.number ≡ s.calls))
      × All (λ q. (q.light_id ≡ id) × (q.number ≡ s.calls)) (before ++ after)
  settling =
      All-middle (λ q. (q.light_id ≡ id) × (q.number ≡ s.calls)) before after p
        (subst (All (λ q. (q.light_id ≡ id) × (q.number ≡ s.calls))) there h.latest)

  -- The callbacks of the PATCH that settles run.
  pub on_settled-runs :
      on_settled how now p (arrived before after s)
      ≡ settle now p.light_id p.command (conclude how p (arrived before after s))
  unfolding on_settled
  on_settled-runs = let number = settling.0.1 in let m = h.mounted in ground arith

  concluded-IsHooked :
      ((conclude how p (arrived before after s)).outstanding ≡ before ++ after)
      → ((conclude how p (arrived before after s)).calls ≡ s.calls)
      → ((conclude how p (arrived before after s)).mounted ≡ s.mounted)
      → IsHooked id (conclude how p (arrived before after s))
  concluded-IsHooked network calls mounted = record {
    mounted = mounted ∙ h.mounted;
    latest = rw (network, calls) settling.1;
  }

  on_settled-IsHooked : IsSingle s → IsHooked id (on_settled how now p (arrived before after s))
  on_settled-IsHooked single =
      let (map_same, network_same, asked_same, fired_same, calls_same, mounted_same) =
        conclude-same how p (arrived before after s) in
      let free =
        arrived-IsFreed before after p s there single p.light_id
        ∙ rw (str_eq_refl p.light_id) refl in
      let own : flying id (conclude how p (arrived before after s)).outstanding ≡ 0 =
        ap (flying id) network_same
        ∙ subst (λ k. flying k (before ++ after) ≡ 0) settling.0.0 free in
      subst (IsHooked id) (sym on_settled-runs) (
        subst (λ k. IsHooked id (settle now k p.command (conclude how p (arrived before after s))))
          (sym settling.0.0)
          (settle-IsHooked now id p.command (conclude how p (arrived before after s)) own
            (concluded-IsHooked network_same calls_same mounted_same)))

  on_settled-IsSingle : IsSingle s → IsSingle (on_settled how now p (arrived before after s))
  on_settled-IsSingle single =
      let (map_same, network_same, asked, fired, calls, mounted) =
        conclude-same how p (arrived before after s) in
      subst IsSingle (sym on_settled-runs) (
        settle-IsSingle now p.light_id p.command (conclude how p (arrived before after s))
          (λ l. rw (map_same, network_same) (arrived-IsFreed before after p s there single l)))

Step-kept :
    {id : String} {s t : Sender}
    → Step id s t
    → IsSingle s × IsHooked id s
    → IsSingle t × IsHooked id t
Step-kept {id} (sends now c s) (single, h) =
    (send-IsSingle now id c s single, send-IsHooked now id c s single h)
Step-kept {id} (settles before after p how now s there) (single, h) = (
  on_settled-IsSingle id before after p how now s there h single,
  on_settled-IsHooked id before after p how now s there h single,
)

pub Run-kept : {id : String} {s : Sender} → Run id s → IsSingle s × IsHooked id s
unfolding lookup
Run-kept start = ((λ l. refl), record { mounted = refl; latest = tt })
Run-kept (later run step) = Step-kept step (Run-kept run)

-- However sending and settling interleave in a hook that stays mounted and is asked for one Light,
-- the Light has one PATCH outstanding exactly while the hook holds it as in flight, and otherwise
-- none: never two of one hook at once.
pub Run-IsSingle : {id : String} {s : Sender} → Run id s → IsSingle s
Run-IsSingle run = (Run-kept run).0
