-- ===== src/Console/Listing/Ordered.antt =====
-- How the list of Lights is ordered, whatever order the Bridge answers in.
use sharpn.Prelude.{
  ◌≡◌, refl, sym, ap, ◌∙◌, ◌≢◌, ◌⊎◌, inl, inr, true, false, List, [], ◌∷◌, arith, Bool-cases, keep,
  All,
}
use sharpn.Prelude.Decimal.{Text}
use sharpn.Light.{Light}
use sharpn.Console.Listing.Collating.{
  Ordering-cases, lt-ne-gt, not_gt, flipped, strict_left, strict_right, even_trans, flip-then_by,
  then_by-ne-gt,
}
use sharpn.Console.Listing.{
  Ordering, flip, Locale, is_after, by_name, put, sort_lights_by_name, shown_lights,
}

-- The same Lights in another order.
pub data Reordered : List Light → List Light → Type 0 where
  same : Reordered [] []
  after : (l : Light) {ls ms : List Light} → Reordered ls ms → Reordered (l ∷ ls) (l ∷ ms)
  swapped : (l m : Light) (ls : List Light) → Reordered (l ∷ m ∷ ls) (m ∷ l ∷ ls)
  twice : {ls ms ns : List Light} → Reordered ls ms → Reordered ms ns → Reordered ls ns

module _ (locale : Locale) where
  abbrev pub Apart : Light → List Light → Type 0
  Apart l ls = All (λ m. locale.ids.compare l.id m.id ≢ Ordering.eq) ls

  -- No two Lights have ids that the locale does not tell apart.
  abbrev pub HasIds : List Light → Type 0
  HasIds [] = Unit {0}
  HasIds (l ∷ ls) = Apart l ls × HasIds ls

  Apart-Reordered : (l : Light) {ls ms : List Light} → Reordered ls ms → Apart l ls → Apart l ms
  Apart-Reordered l same a = a
  Apart-Reordered l (after m r) (x, a) = (x, Apart-Reordered l r a)
  Apart-Reordered l (swapped m n ls) (x, (y, a)) = (y, (x, a))
  Apart-Reordered l (twice r s) a = Apart-Reordered l s (Apart-Reordered l r a)

  even_back :
      (l m : Light)
      → locale.ids.compare l.id m.id ≢ Ordering.eq
      → locale.ids.compare m.id l.id ≢ Ordering.eq
  even_back l m ne e = ne (flipped locale.ids m.id l.id e)

  HasIds-Reordered : {ls ms : List Light} → Reordered ls ms → HasIds ls → HasIds ms
  HasIds-Reordered same h = h
  HasIds-Reordered (after m r) (a, h) = (Apart-Reordered m r a, HasIds-Reordered r h)
  HasIds-Reordered (swapped m n ls) ((x, a), (b, h)) = ((even_back m n x, b), (a, h))
  HasIds-Reordered (twice r s) h = HasIds-Reordered s (HasIds-Reordered r h)

  by_name-flip : (l m : Light) → by_name locale m l ≡ flip (by_name locale l m)
  unfolding by_name
  by_name-flip l m =
      rw (locale.names.compare_flip l.name m.name, locale.ids.compare_flip l.id m.id)
        (sym (flip-then_by _ _))

  by_name_trans :
      (l m n : Light)
      → by_name locale l m ≢ Ordering.gt
      → by_name locale m n ≢ Ordering.gt
      → by_name locale l n ≢ Ordering.gt
  unfolding by_name
  by_name_trans l m n h k =
      let c = locale.names in
      let first = then_by-ne-gt (c.compare l.name m.name) (locale.ids.compare l.id m.id) h in
      let second = then_by-ne-gt (c.compare m.name n.name) (locale.ids.compare m.id n.id) k in
      elim (not_gt (c.compare l.name m.name) first) [
        | inl less ↦ rw (strict_left c l.name m.name n.name less second) (λ e. cc)
        | inr even ↦ elim (not_gt (c.compare m.name n.name) second) [
          | inl less ↦ rw (strict_right c l.name m.name n.name first less) (λ e. cc)
          | inr beside ↦
              rw (even_trans c l.name m.name n.name even beside)
                (locale.ids.compare_trans l.id m.id n.id (rw even at h) (rw beside at k))
        ]
      ]

  by_name_apart :
      (l m : Light) → locale.ids.compare l.id m.id ≢ Ordering.eq → by_name locale l m ≢ Ordering.eq
  unfolding by_name
  by_name_apart l m ne h = elim (Ordering-cases (locale.names.compare l.name m.name)) [
    | inl less ↦ lt_clash (rw less at h)
    | inr (inl even) ↦ ne (rw even at h)
    | inr (inr more) ↦ gt_clash (rw more at h)
  ]
    where
      lt_clash : Ordering.lt ≢ Ordering.eq
      lt_clash e = cc

      gt_clash : Ordering.gt ≢ Ordering.eq
      gt_clash e = cc

  put-put :
      (l m : Light) (ls : List Light)
      → by_name locale l m ≢ Ordering.eq
      → put locale l (put locale m ls) ≡ put locale m (put locale l ls)
  unfolding put
  put-put l m [] ne = ground (arith, by_name-flip l m)
  put-put l m (n ∷ ns) ne =
      ground (arith, by_name-flip l m, by_name_trans l m n, by_name_trans m l n, put-put l m ns ne)

  -- Two answers with the same Lights in another order are listed in the same order, where the
  -- locale tells the ids of any two of them apart.
  pub sort-Reordered :
      {ls ms : List Light}
      → Reordered ls ms
      → HasIds ls
      → sort_lights_by_name locale ls ≡ sort_lights_by_name locale ms
  unfolding sort_lights_by_name
  sort-Reordered same h = refl
  sort-Reordered (after l r) (a, h) = ap (put locale l) (sort-Reordered r h)
  sort-Reordered (swapped l m ls) ((x, a), b) =
      put-put l m (sort_lights_by_name locale ls) (by_name_apart l m x)
  sort-Reordered (twice r s) h = sort-Reordered r h ∙ sort-Reordered s (HasIds-Reordered r h)

  -- No Light comes after the one that it precedes.
  abbrev InTurn : List Light → Type 0
  InTurn [] = Unit {0}
  InTurn (l ∷ ls) = All (λ m. by_name locale l m ≢ Ordering.gt) ls × InTurn ls

  -- The name comes first, or the names are even and the id does not come after.
  abbrev pub Precedes : Light → Light → Type 0
  Precedes l m =
      (locale.names.compare l.name m.name ≡ Ordering.lt)
      ⊎ ((locale.names.compare l.name m.name ≡ Ordering.eq)
          × (locale.ids.compare l.id m.id ≢ Ordering.gt))

  -- Every Light precedes all that follow it.
  abbrev pub IsOrdered : List Light → Type 0
  IsOrdered [] = Unit {0}
  IsOrdered (l ∷ ls) = All (Precedes l) ls × IsOrdered ls

  by_name-Precedes : (l m : Light) → by_name locale l m ≢ Ordering.gt → Precedes l m
  unfolding by_name
  by_name-Precedes l m h =
      elim (not_gt (locale.names.compare l.name m.name)
        (then_by-ne-gt (locale.names.compare l.name m.name) (locale.ids.compare l.id m.id) h)) [
          | inl less ↦ inl less
          | inr even ↦ inr (even, rw even at h)
        ]

  All-Precedes :
      (l : Light) (ls : List Light)
      → All (λ m. by_name locale l m ≢ Ordering.gt) ls
      → All (Precedes l) ls
  All-Precedes l [] a = tt
  All-Precedes l (m ∷ ms) (x, a) = (by_name-Precedes l m x, All-Precedes l ms a)

  InTurn-IsOrdered : (ls : List Light) → InTurn ls → IsOrdered ls
  InTurn-IsOrdered [] o = tt
  InTurn-IsOrdered (l ∷ ls) (a, o) = (All-Precedes l ls a, InTurn-IsOrdered ls o)

  All-put :
      (P : Light → Type 0) (l : Light) (ls : List Light) → P l → All P ls → All P (put locale l ls)
  unfolding put
  All-put P l [] p ps = (p, tt)
  All-put P l (m ∷ ms) p (q, qs) = elim (Bool-cases (is_after (by_name locale l m))) [
    | inl later ↦ rw later (q, All-put P l ms p qs)
    | inr before ↦ rw before (p, (q, qs))
  ]

  All-follows :
      (l m : Light) (ls : List Light)
      → by_name locale l m ≢ Ordering.gt
      → All (λ n. by_name locale m n ≢ Ordering.gt) ls
      → All (λ n. by_name locale l n ≢ Ordering.gt) ls
  All-follows l m [] le a = tt
  All-follows l m (n ∷ ns) le (x, a) = (by_name_trans l m n le x, All-follows l m ns le a)

  not_after : (o : Ordering) → is_after o ≡ false → o ≢ Ordering.gt
  not_after o h e = false_true (sym h ∙ ap is_after e)
    where
      false_true : false ≢ true
      false_true q = cc

  is_gt : (o : Ordering) → is_after o ≡ true → o ≡ Ordering.gt
  is_gt Ordering.gt h = refl
  is_gt Ordering.lt h = cc
  is_gt Ordering.eq h = cc

  put-InTurn : (l : Light) (ls : List Light) → InTurn ls → InTurn (put locale l ls)
  unfolding put
  put-InTurn l [] o = (tt, tt)
  put-InTurn l (m ∷ ms) (first, o) = elim (Bool-cases (is_after (by_name locale l m))) [
    | inl later ↦ rw later (
      All-put (λ n. by_name locale m n ≢ Ordering.gt) l ms
          (lt-ne-gt (by_name-flip l m ∙ ap flip (is_gt (by_name locale l m) later))) first,
      put-InTurn l ms o,
    )
    | inr before ↦
        let le = not_after (by_name locale l m) before in
        rw before ((le, All-follows l m ms le first), (first, o))
  ]

  put-Reordered : (l : Light) (ls : List Light) → Reordered (l ∷ ls) (put locale l ls)
  unfolding put
  put-Reordered l [] = after l same
  put-Reordered l (m ∷ ms) = elim (Bool-cases (is_after (by_name locale l m))) [
    | inl later ↦ rw later (twice (swapped l m ms) (after m (put-Reordered l ms)))
    | inr before ↦ rw before (itself (l ∷ m ∷ ms))
  ]
    where
      itself : (ls : List Light) → Reordered ls ls
      itself [] = same
      itself (l ∷ ls) = after l (itself ls)

  sort-InTurn :
      (ls : List Light)
      → InTurn (sort_lights_by_name locale ls) × Reordered ls (sort_lights_by_name locale ls)
  unfolding sort_lights_by_name
  sort-InTurn [] = (tt, same)
  sort-InTurn (l ∷ ls) =
      let (ordered, reordered) = sort-InTurn ls in
      (
        put-InTurn l (sort_lights_by_name locale ls) ordered,
        twice (after l reordered) (put-Reordered l (sort_lights_by_name locale ls)),
      )

  -- The list holds the Lights of the answer, each as often as that, and each of them, before all
  -- that follow it, has the name that the collator puts first, or an even name and an id that
  -- the locale does not put after.
  pub sort-IsOrdered :
      (ls : List Light)
      → IsOrdered (sort_lights_by_name locale ls) × Reordered ls (sort_lights_by_name locale ls)
  sort-IsOrdered ls =
      let (ordered, reordered) = sort-InTurn ls in
      (InTurn-IsOrdered (sort_lights_by_name locale ls) ordered, reordered)

  -- What is shown of a search does not depend on the order of the answer either.
  pub shown-Reordered :
      {ls ms : List Light} (search : Text)
      → Reordered ls ms
      → HasIds ls
      → shown_lights locale search ls ≡ shown_lights locale search ms
  unfolding shown_lights
  shown-Reordered search r h = ap (keep (λ l. _)) (sort-Reordered r h)
