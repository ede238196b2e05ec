-- ===== src/Command/Reading.antt =====
-- What contract/command.ts lets through, and what it refuses as what.
use sharpn.Prelude.{
  ℕ, ◌*◌, ◌%◌, ◌≤◌, ◌≡◌, refl, sym, ap, subst, ◌∙◌, ◌≢◌, ◌↔◌, ◌⊎◌, inl, inr, Bool, true, false,
  Option, none, some, List, [], ◌∷◌, arith, Option-cases,
}
use sharpn.Prelude.Maps.{lookup}
use mathlib.Core.Bool.{and-eq-true_iff}
use Prim.Native.Nat.{◌^◌}
use sharpn.Errors.{ErrorCode, color_and_temperature_both_set}
use sharpn.Command.{
  command_keys, ◌>>=◌, Decimal, ColorXy, Json, null, bool, num, obj, LightCommand, within, is_whole,
  gamut_ok, number_that, boolean, optional, color, only, shape, fields, when, refine, Issue, Zod,
  ok, refused, refusal_for, reading_of, read_light_command, brightness_ok, mirek_ok,
}

-- The number lies between two whole bounds, both ends included.
abbrev pub InRange : ℕ → ℕ → Decimal → Type 0
InRange low high d =
    ((d.negative ≡ false) ⊎ (d.digits ≡ 0))
    × (low * 10 ^ d.places ≤ d.digits)
    × (d.digits ≤ high * 10 ^ d.places)

within-InRange : (low high : ℕ) (d : Decimal) → within low high d ≡ true → InRange low high d
within-InRange low high d h = ground arith

abbrev pub Every {ℓ} : {A : Type ℓ} → (A → Type 0) → Option A → Type 0
Every P none = Unit {0}
Every P (some a) = P a

-- What a Command may be when it is sent.
pub record IsSendable (c : LightCommand) : Type 0 where
  pub brightness_in : Every (InRange 0 100) c.brightness
  pub mirek_in :
      Every (λ d. InRange 153 500 d × (d.digits % 10 ^ d.places ≡ 0)) c.color_temperature_mirek
  pub xy_in : Every (λ p. InRange 0 1 p.x × InRange 0 1 p.y) c.color_xy
  pub one_colour : (c.color_xy ≡ none) ⊎ (c.color_temperature_mirek ≡ none)
  pub asks :
      (c.on ≢ none)
      ⊎ (c.brightness ≢ none)
      ⊎ (c.color_temperature_mirek ≢ none)
      ⊎ (c.color_xy ≢ none)

number_that-some :
    (p : Decimal → Bool) (v : Json) (d : Decimal) → number_that p v ≡ some d → p d ≡ true
number_that-some p null d h = cc
number_that-some p (bool b) d h = cc
number_that-some p (num e) d h = ground arith
number_that-some p _ d h = cc

some_inj {ℓ} : {A : Type ℓ} {a b : A} → some a ≡ some b → a ≡ b
some_inj e = cc

bind_some {ℓ κ} :
    {A : Type ℓ} {B : Type κ} (m : Option A) (f : A → Option B) {b : B}
    → (m >>= f) ≡ some b
    → (a : A) × (m ≡ some a) × (f a ≡ some b)
bind_some none f h = cc
bind_some (some a) f h = (a, refl, h)

optional-some :
    {A : Type 0} (P : A → Type 0) (read : Json → Option A) (o : Option Json) (r : Option A)
    → ((v : Json) (a : A) → read v ≡ some a → P a)
    → optional read o ≡ some r
    → Every P r
optional-some P read none none h e = tt
optional-some P read none (some a) h e = cc
optional-some {A} P read (some v) r h e =
    let (a, found, same) = bind_some (read v) (λ (x : A). some (some x)) e in
    subst (Every P) (some_inj same) (h v a found)

brightness-InRange :
    (v : Json) (d : Decimal) → number_that brightness_ok v ≡ some d → InRange 0 100 d
brightness-InRange v d h = within-InRange 0 100 d (number_that-some brightness_ok v d h)

whole_of : (d : Decimal) → is_whole d ≡ true → d.digits % 10 ^ d.places ≡ 0
whole_of d h = ground arith

mirek-InRange :
    (v : Json) (d : Decimal)
    → number_that mirek_ok v ≡ some d
    → InRange 153 500 d × (d.digits % 10 ^ d.places ≡ 0)
mirek-InRange v d h =
    let (whole, inside) = (and-eq-true_iff _ _).0 (number_that-some mirek_ok v d h) in
    (within-InRange 153 500 d inside, whole_of d whole)

gamut-InRange :
    (o : Option Json) (d : Decimal) → (o >>= number_that gamut_ok) ≡ some d → InRange 0 1 d
gamut-InRange none d h = cc
gamut-InRange (some v) d h = within-InRange 0 1 d (number_that-some gamut_ok v d h)

color-InRange : (v : Json) (p : ColorXy) → color v ≡ some p → InRange 0 1 p.x × InRange 0 1 p.y
unfolding color
color-InRange (obj fs) p h =
    let (body, e0, h0) = bind_some (when (only ("x" ∷ "y" ∷ []) (fields fs)) (fields fs)) _ h in
    let (x, e1, h1) = bind_some (lookup "x" body >>= number_that gamut_ok) _ h0 in
    let (y, e2, h2) = bind_some (lookup "y" body >>= number_that gamut_ok) _ h1 in
    subst (λ q. InRange 0 1 q.x × InRange 0 1 q.y) (some_inj h2)
      (gamut-InRange (lookup "x" body) x e1, gamut-InRange (lookup "y" body) y e2)
color-InRange _ p h = cc

-- The ranges of a Command that a body spells.
abbrev Bounded : LightCommand → Type 0
Bounded c =
    Every (InRange 0 100) c.brightness
    × Every (λ d. InRange 153 500 d × (d.digits % 10 ^ d.places ≡ 0)) c.color_temperature_mirek
    × Every (λ p. InRange 0 1 p.x × InRange 0 1 p.y) c.color_xy

shape-Bounded : (body : Json) (c : LightCommand) → shape body ≡ some c → Bounded c
unfolding shape
shape-Bounded (obj fs) c h =
    let (body, e0, h0) = bind_some (when (only command_keys (fields fs)) (fields fs)) _ h in
    let (on, e1, h1) = bind_some (optional boolean (lookup "on" body)) _ h0 in
    let (b, e2, h2) =
      bind_some (optional (number_that brightness_ok) (lookup "brightness" body)) _ h1 in
    let (m, e3, h3) =
      bind_some (optional (number_that mirek_ok) (lookup "colorTemperatureMirek" body)) _ h2 in
    let (xy, e4, h4) = bind_some (optional color (lookup "colorXy" body)) _ h3 in
    subst Bounded (some_inj h4) (
      optional-some (InRange 0 100) (number_that brightness_ok) (lookup "brightness" body) b
          brightness-InRange e2,
      optional-some (λ d. InRange 153 500 d × (d.digits % 10 ^ d.places ≡ 0)) (number_that mirek_ok)
          (lookup "colorTemperatureMirek" body) m mirek-InRange e3,
      optional-some (λ p. InRange 0 1 p.x × InRange 0 1 p.y) color (lookup "colorXy" body) xy
          color-InRange e4,
    )
shape-Bounded _ c h = cc

-- The refinement has nothing to say exactly when one colour at most, and something, is asked for.
refine_nil :
    (c : LightCommand)
    → refine c ≡ []
    → ((c.color_xy ≡ none) ⊎ (c.color_temperature_mirek ≡ none))
      × ((c.on ≢ none)
          ⊎ (c.brightness ≢ none)
          ⊎ (c.color_temperature_mirek ≢ none)
          ⊎ (c.color_xy ≢ none))
unfolding refine
refine_nil c h = grind arith

reading-shaped :
    (zod : Zod) (body : Json) (c : LightCommand) (is : List Issue)
    → shape body ≡ some c
    → refine c ≡ is
    → read_light_command zod body
      ≡ (elim is [ [] ↦ ok c | i ∷ rest ↦ refused (refusal_for (i ∷ rest)) ])
unfolding read_light_command reading_of
reading-shaped zod body c [] e h = rw (zod.accepts body c e h)
reading-shaped zod body c (i ∷ is) e h = rw (zod.refuses body c i is e h)

reading-unshaped :
    (zod : Zod) (body : Json)
    → shape body ≡ none
    → (code : ErrorCode) × (read_light_command zod body ≡ refused code)
unfolding read_light_command reading_of
reading-unshaped zod body h =
    let (is, failed) = zod.rejects body h in (refusal_for is, ap reading_of failed)

ok_inj : {c d : LightCommand} → ok c ≡ ok d → c ≡ d
ok_inj e = cc

-- A body is read as a Command exactly when it spells it and the refinement has nothing to say.
pub read-eq-ok_iff :
    (zod : Zod) (body : Json) (c : LightCommand)
    → (read_light_command zod body ≡ ok c) ↔ ((shape body ≡ some c) × (refine c ≡ []))
read-eq-ok_iff zod body c = (to, λ p. reading-shaped zod body c [] p.0 p.1)
  where
    shaped :
        (d : LightCommand) (is : List Issue)
        → shape body ≡ some d
        → refine d ≡ is
        → read_light_command zod body ≡ ok c
        → (shape body ≡ some c) × (refine c ≡ [])
    shaped d [] e r h =
        let same = ok_inj (sym (reading-shaped zod body d [] e r) ∙ h) in
        (e ∙ ap some same, subst (λ x. refine x ≡ []) same r)
    shaped d (i ∷ is) e r h = cc (reading-shaped zod body d (i ∷ is) e r)

    to : read_light_command zod body ≡ ok c → (shape body ≡ some c) × (refine c ≡ [])
    to h = elim (Option-cases (shape body)) [
      | inl missed ↦ cc (h, (reading-unshaped zod body missed).1)
      | inr (d, found) ↦ shaped d (refine d) found refl h
    ]

-- Every Command that is read from a body may be sent: its numbers are in Hue's ranges, it asks for
-- one colour at most, and it asks for something.
pub read-IsSendable :
    (zod : Zod) (body : Json) (c : LightCommand) → read_light_command zod body ≡ ok c → IsSendable c
read-IsSendable zod body c h =
    let (spelled, quiet) = (read-eq-ok_iff zod body c).0 h in
    let (brightness, mirek, xy) = shape-Bounded body c spelled in
    let (one, asks) = refine_nil c quiet in
    record {
      brightness_in = brightness;
      mirek_in = mirek;
      xy_in = xy;
      one_colour = one;
      asks = asks;
    }

-- A body that spells a Command is refused under the code for two colours exactly when it asks for
-- both.
pub read-both_iff :
    (zod : Zod) (body : Json) (c : LightCommand)
    → shape body ≡ some c
    → (read_light_command zod body ≡ refused color_and_temperature_both_set)
      ↔ ((c.color_xy ≢ none) × (c.color_temperature_mirek ≢ none))
unfolding refine refusal_for
read-both_iff zod body c e = rw (reading-shaped zod body c (refine c) e refl) (ground arith)
