-- ===== src/Console/Archetype/Mirrored.antt =====
-- How the Console's names of archetypes, outcomes and codes stand to those of
-- apps/console-api/src/contract, and what they are shown as.
use sharpn.Prelude.{
  ◌≡◌, refl, sym, ap, subst, ◌∙◌, ◌≢◌, ◌↔◌, ◌⊎◌, inl, inr, Bool, true, false, ◌&&◌, ◌||◌, not,
  Option, none, some, List, [], ◌∷◌, map, arith, Bool-cases, keep, all, any,
}
use sharpn.Prelude.Decimal.{Text, codes}
use sharpn.Light
use sharpn.Gen.Archetype.{LightArchetype}
use sharpn.Gen.Archetype
use sharpn.Codec.{archetype_from, text_eq}
use mathlib.Core.Bool.{and-eq-true_iff}
use sharpn.Console.Archetype.{light_archetypes, IconBucket, icon_bucket_for, archetype_label}

-- The names that name no fitting.
abbrev pub nameless : Text → Bool
nameless a = text_eq a (codes "unspecified") || text_eq a (codes "unknown_archetype")

abbrev is_plain : IconBucket → Bool
is_plain IconBucket.plain = true
is_plain _ = false

abbrev same : Bool → Bool → Bool
same true b = b
same false b = not b

abbrev is_drawn : Option IconBucket → Bool → Bool
is_drawn none b = false
is_drawn (some bucket) b = same (is_plain bucket) b

abbrev all_distinct : List Text → Bool
all_distinct [] = true
all_distinct (t ∷ ts) = all (λ u. not (text_eq t u)) ts && all_distinct ts

abbrev pub fittings : List Text → List Text
fittings as' = keep (λ a. not (nameless a)) as'

mirrors : light_archetypes ≡ Light.light_archetypes
mirrors = refl

archetype_from-is_drawn :
    (a : LightArchetype)
    → is_drawn (icon_bucket_for (archetype_from (some a))) (nameless (archetype_from (some a)))
      ≡ true
unfolding archetype_from icon_bucket_for text_eq
archetype_from-is_drawn Archetype.unspecified = refl
archetype_from-is_drawn _ = refl

is_plain_iff : (k : IconBucket) → is_plain k ≡ true ↔ (k ≡ IconBucket.plain)
is_plain_iff IconBucket.plain = (λ e. refl, λ e. refl)
is_plain_iff _ = ground arith

same_iff : (a b : Bool) → same a b ≡ true → a ≡ b
same_iff true b h = sym h
same_iff false true h = cc
same_iff false false h = refl

is_drawn_sound :
    (o : Option IconBucket) (b : Bool)
    → is_drawn o b ≡ true
    → (k : IconBucket) × (o ≡ some k) × ((k ≡ IconBucket.plain) ↔ (b ≡ true))
is_drawn_sound none b h = cc
is_drawn_sound (some k) b h =
    let agrees = same_iff (is_plain k) b h in
    (k, refl, ((λ e. sym agrees ∙ (is_plain_iff k).1 e), λ e. (is_plain_iff k).0 (agrees ∙ e)))

-- Every archetype that the service reads from a message has an icon in the Console, and the plain
-- one exactly where it names no fitting.
pub archetype_from-drawn :
    (a : LightArchetype)
    → (k : IconBucket) × (icon_bucket_for (archetype_from (some a)) ≡ some k)
      × ((k ≡ IconBucket.plain) ↔ (nameless (archetype_from (some a)) ≡ true))
archetype_from-drawn a = is_drawn_sound _ _ (archetype_from-is_drawn a)

labels_distinct : all_distinct (map archetype_label (fittings light_archetypes)) ≡ true
unfolding archetype_label text_eq
labels_distinct = refl

text_eq_refl : (t : Text) → text_eq t t ≡ true
unfolding text_eq
text_eq_refl [] = refl
text_eq_refl (c ∷ cs) = ground (arith, text_eq_refl cs)

text_eq_sound : (t u : Text) → text_eq t u ≡ true → t ≡ u
unfolding text_eq
text_eq_sound [] [] h = refl
text_eq_sound [] (d ∷ ds) h = cc
text_eq_sound (c ∷ cs) [] h = cc
text_eq_sound (c ∷ cs) (d ∷ ds) h = ground (arith, text_eq_sound cs ds)

-- A text is one of a list, as `includes` tests it.
abbrev pub IsOneOf : Text → List Text → Type 0
IsOneOf t ts = any (text_eq t) ts ≡ true

-- The first of a list, or another.
IsOneOf-cases : (t v : Text) (vs : List Text) → IsOneOf t (v ∷ vs) → (t ≡ v) ⊎ IsOneOf t vs
IsOneOf-cases t v vs m = elim (Bool-cases (text_eq t v)) [
  | inl first ↦ inl (text_eq_sound t v first)
  | inr other ↦ inr (rw other at m)
]

apart_sound :
    (f : Text → Text) (t u : Text) (us : List Text)
    → all (λ v. not (text_eq (f t) v)) (map f us) ≡ true
    → IsOneOf u us
    → f t ≡ f u
    → ⊥
apart_sound f t u [] h m e = cc
apart_sound f t u (v ∷ vs) h m e =
    let (here, rest) =
      (and-eq-true_iff (not (text_eq (f t) (f v))) (all (λ w. not (text_eq (f t) w)) (map f vs))).0
        h in
    elim (IsOneOf-cases u v vs m) [
      | inl first ↦ clash (
          sym here
          ∙ ap not (subst (λ w. text_eq (f t) w ≡ true) (e ∙ ap f first) (text_eq_refl (f t))))
      | inr other ↦ apart_sound f t u vs rest other e
    ]
  where
    clash : true ≢ false
    clash q = cc

distinct_sound :
    (f : Text → Text) (t u : Text) (ts : List Text)
    → all_distinct (map f ts) ≡ true
    → IsOneOf t ts
    → IsOneOf u ts
    → f t ≡ f u
    → t ≡ u
distinct_sound f t u [] h m n e = cc
distinct_sound f t u (v ∷ vs) h m n e =
    let (apart, rest) =
      (and-eq-true_iff (all (λ w. not (text_eq (f v) w)) (map f vs)) (all_distinct (map f vs))).0
        h in
    elim (IsOneOf-cases t v vs m) [
      | inl first ↦ elim (IsOneOf-cases u v vs n) [
        | inl second ↦ first ∙ sym second
        | inr other ↦ absurd (apart_sound f v u vs apart other (ap f (sym first) ∙ e))
      ]
      | inr other ↦ elim (IsOneOf-cases u v vs n) [
        | inl second ↦ absurd (apart_sound f v t vs apart other (ap f (sym second) ∙ sym e))
        | inr both ↦ distinct_sound f t u vs rest other both e
      ]
    ]

-- No two fittings are shown under the same label.
pub label-distinct :
    (t u : Text)
    → IsOneOf t (fittings light_archetypes)
    → IsOneOf u (fittings light_archetypes)
    → archetype_label t ≡ archetype_label u
    → t ≡ u
label-distinct t u m n e =
    distinct_sound archetype_label t u (fittings light_archetypes) labels_distinct m n e
