-- ===== src/Meter/Window.antt =====
-- What http/meter.ts lets through in a window, however the calls fall.
use sharpn.Prelude.{
  ap, ◌∙◌, sym, ℕ, ◌+◌, ◌≤◌, ◌<◌, String, ◌≡◌, refl, Bool, false, ◌&&◌, List, [], ◌∷◌, ◌++◌, arith,
  ltb, leb, length, keep, str_eq, str_eq_iff, if◌then◌else◌, keep-append, subst, length-append,
  Bool-cases, inl, inr, leb→le, ltb→lt, length-keep-le, str_eq_refl,
}
use mathlib.Core.List.{append-nil, append_assoc}
use sharpn.Prelude.Maps.{lookup, insert, Distinct, insert-Distinct}
use sharpn.Meter.{Sent, Spend, allowed, refused, inside, sweep, times, decide, spend}
use sharpn.Meter.Sweep.{times-insert, keep-inside, times-sweep, sweep-Distinct}

-- Calls of `spend`, each with the time at which it is made.
abbrev pub Calls : Type 0
Calls = List (String × ℕ)

-- The clock never goes back.
abbrev pub InOrder : ℕ → Calls → Type 0
InOrder now [] = Unit {0}
InOrder now ((k, at) ∷ cs) = (now ≤ at) × InOrder at cs

-- The time of a call, if it was made for `key` and let through.
abbrev pub when_allowed : String → String → ℕ → Spend → List ℕ
when_allowed key k at allowed = if str_eq k key then at ∷ [] else []
when_allowed key k at (refused s) = []

-- When the calls for `key` that the meter let through were made.
unfoldable pub granted : ℕ → String → Sent → Calls → List ℕ
granted limit key sent [] = []
granted limit key sent ((k, at) ∷ cs) =
    when_allowed key k at (spend limit k at sent).1
    ++ granted limit key (spend limit k at sent).0 cs

-- How many of the times fall in the window that ends at `end`.
abbrev pub in_window : ℕ → ℕ → Bool
in_window end t = leb t end && inside end t

abbrev pub count_in : ℕ → List ℕ → ℕ
count_in end ts = length (keep (in_window end) ts)

count_in-le : (end at : ℕ) (ts : List ℕ) → at ≤ end → count_in end ts ≤ length (keep (inside at) ts)
count_in-le end at [] h = omega arith
count_in-le end at (t ∷ ts) h = ground (arith, count_in-le end at ts h)

count_in-append :
    (end : ℕ) (xs ys : List ℕ) → count_in end (xs ++ ys) ≡ count_in end xs + count_in end ys
count_in-append end xs ys =
    ap length (keep-append (in_window end) xs ys) ∙ length-append (keep (in_window end) xs) _

-- What ties the map to the times that were let through before `now`.
record Tracks (limit : ℕ) (key : String) (now : ℕ) (past : List ℕ) (sent : Sent) : Type 0 where
  distinct : Distinct sent
  agrees : (at : ℕ) → now ≤ at → keep (inside at) (times key sent) ≡ keep (inside at) past
  bounded : (end : ℕ) → count_in end past ≤ limit

recent-agrees :
    {limit : ℕ} {key : String} {now : ℕ} {past : List ℕ} {sent : Sent} (at : ℕ)
    → Tracks limit key now past sent
    → now ≤ at
    → times key (sweep at sent) ≡ keep (inside at) past
recent-agrees {key} {sent} at t h = times-sweep key at sent t.distinct ∙ t.agrees at h

sweep-Tracks :
    {limit : ℕ} {key : String} {now : ℕ} {past : List ℕ} {sent : Sent} (at : ℕ)
    → Tracks limit key now past sent
    → now ≤ at
    → Tracks limit key at past (sweep at sent)
sweep-Tracks {past} {sent} at t h = record {
  distinct = sweep-Distinct at sent t.distinct;
  agrees =
      λ later le. ap (keep (inside later)) (recent-agrees at t h) ∙ keep-inside at later past le;
  bounded = t.bounded;
}

-- The call that is let through ends a window with room in it.
push_bounded :
    (limit at : ℕ) (past : List ℕ)
    → length (keep (inside at) past) < limit
    → ((end : ℕ) → count_in end past ≤ limit)
    → (end : ℕ) → count_in end (past ++ at ∷ []) ≤ limit
push_bounded limit at past room b end = elim (Bool-cases (leb at end)) [
  | inl after ↦ omega (
    arith,
    count_in-append end past (at ∷ []),
    length-keep-le (in_window end) (at ∷ []),
    count_in-le end at past (leb→le at end after),
  )
  | inr before ↦
      let none_new : count_in end (at ∷ []) ≡ 0 = ground arith in
      omega (arith, count_in-append end past (at ∷ []), none_new, b end)
]

push-Tracks :
    {limit : ℕ} {key : String} {past : List ℕ} {m : Sent} (at : ℕ)
    → Tracks limit key at past m
    → times key m ≡ keep (inside at) past
    → length (times key m) < limit
    → Tracks limit key at (past ++ at ∷ []) (insert key (times key m ++ at ∷ []) m)
push-Tracks {limit} {key} {past} {m} at t e room = record {
  distinct = insert-Distinct key _ m t.distinct;
  agrees = λ later le.
      ap (keep (inside later))
        (times-insert key key (times key m ++ at ∷ []) m ∙ rw (str_eq_refl key))
      ∙ keep-append (inside later) (times key m) (at ∷ [])
      ∙ ap (λ ts. ts ++ keep (inside later) (at ∷ [])) (t.agrees later le)
      ∙ sym (keep-append (inside later) past (at ∷ []));
  bounded = push_bounded limit at past (rw e at room) t.bounded;
}

other-Tracks :
    {limit : ℕ} {key : String} {past : List ℕ} {m : Sent} (at : ℕ) (k : String) (ts : List ℕ)
    → str_eq k key ≡ false
    → Tracks limit key at past m
    → Tracks limit key at past (insert k ts m)
other-Tracks {key} {m} at k ts ne t = record {
  distinct = insert-Distinct k ts m t.distinct;
  agrees =
      λ later le. ap (keep (inside later)) (times-insert k key ts m ∙ rw ne) ∙ t.agrees later le;
  bounded = t.bounded;
}

decide-Tracks :
    {limit : ℕ} {key : String} {past : List ℕ} {m : Sent} (at : ℕ) (k : String)
    → Tracks limit key at past m
    → times key m ≡ keep (inside at) past
    → Tracks limit key at
        (past ++ when_allowed key k at (decide limit k at m).1)
        (decide limit k at m).0
unfolding decide
decide-Tracks {limit} {key} {past} {m} at k t e =
    elim (Bool-cases (ltb (length (times k m)) limit)) [
      | inl room ↦ rw room (elim (Bool-cases (str_eq k key)) [
        | inl same ↦
            let e' : k ≡ key = (str_eq_iff k key).0 same in
            rw same (
              subst (λ j. Tracks limit key at (past ++ at ∷ []) (insert j (times j m ++ at ∷ []) m))
                (sym e') (push-Tracks at t e (ltb→lt _ limit (rw e' at room))))
        | inr other ↦ rw (other, append-nil past) (other-Tracks at k _ other t)
      ])
      | inr full ↦ rw (full, append-nil past) t
    ]

granted_bounded :
    (limit : ℕ) (key : String) (now : ℕ) (past : List ℕ) (sent : Sent) (cs : Calls)
    → Tracks limit key now past sent
    → InOrder now cs
    → (end : ℕ) → count_in end (past ++ granted limit key sent cs) ≤ limit
unfolding granted spend
granted_bounded limit key now past sent [] t o end = rw (append-nil past) (t.bounded end)
granted_bounded limit key now past sent ((k, at) ∷ cs) t (le, o) end =
    rw (← append_assoc past (when_allowed key k at (decide limit k at (sweep at sent)).1) _) (
      granted_bounded limit key at _ _ cs
        (decide-Tracks at k (sweep-Tracks at t le) (recent-agrees at t le)) o end)

-- Whatever calls are made, for whatever keys, of a meter that starts empty and whose clock does
-- not go back, at most `limit` of those for one key are let through in any window of a minute.
pub granted-le-limit :
    (limit : ℕ) (key : String) (cs : Calls)
    → InOrder 0 cs
    → (end : ℕ) → count_in end (granted limit key [] cs) ≤ limit
unfolding lookup
granted-le-limit limit key cs o end =
    granted_bounded limit key 0 [] [] cs
      (record { distinct = tt; agrees = λ at h. refl; bounded = λ e. omega arith }) o end
