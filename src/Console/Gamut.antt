-- ===== src/Console/Gamut.antt =====
-- apps/console/src/domain: gamutTriangle.ts, hsvToXy.ts and colorPresets.ts, and what
-- apps/console/src/components/ColorControl.tsx makes of them. JavaScript's numbers are a parameter,
-- NaN among them: it is the one number that is not equal to itself, and is before and after none.
pub mod Reachable
use sharpn.Prelude.{
  ℕ, zero, suc, ◌+◌, ◌-◌, ◌*◌, ◌/◌, ◌%◌, ◌≤◌, ◌<◌, min, max, String, ◌≡◌, refl, sym, ap, subst, ◌∙◌,
  ◌≢◌, ◌↔◌, ◌⊎◌, inl, inr, Bool, true, false, ◌&&◌, ◌||◌, not, Option, none, some, List, [], ◌∷◌,
  ◌++◌, map, arith, ltb, leb, ◌==◌, str_eq, if◌then◌else◌, ltb→lt, lt→ltb, leb→le, str_eq_iff,
  str_eq_refl, Bool-cases, Option-cases, or_else, is_some, length, get_elem?, head?, length-append,
  keep, all, any, All,
}
use sharpn.Prelude.Maps.{
  lookup, insert, delete, lookup-insert, lookup-insert_self, lookup-delete, Distinct,
  insert-Distinct,
}
use sharpn.Command.{Decimal}

pub record Numbers : Type 1 where
  pub Num : Type 0
  pub lit : Decimal → Num
  pub add : Num → Num → Num
  pub sub : Num → Num → Num
  pub mul : Num → Num → Num
  pub div : Num → Num → Num
  pub rem : Num → Num → Num
  pub pow : Num → Num → Num
  pub lt : Num → Num → Bool
  pub equal : Num → Num → Bool
  pub lt_irrefl : (a : Num) → lt a a ≡ false
  pub lt_asym : (a b : Num) → lt a b ≡ true → lt b a ≡ false
  pub nan_unordered : (a b : Num) → equal a a ≡ false → (lt a b ≡ false) × (lt b a ≡ false)
  pub not_lt_trans :
      (a b c : Num) → equal b b ≡ true → lt a b ≡ false → lt b c ≡ false → lt a c ≡ false
  pub one_not_lt_zero :
      lt
        (lit (record { negative = false; digits = 1; places = 0 }))
        (lit (record { negative = false; digits = 0; places = 0 }))
      ≡ false

-- `digits / 10 ^ places`.
abbrev pub dec : ℕ → ℕ → Decimal
dec digits places = record { negative = false; digits = digits; places = places }

module _ (n : Numbers) where
  open n use {Num, lit, add, sub, mul, div, rem, pow, lt, equal}

  pub record ColorXy : Type 0 where
    pub x : Num
    pub y : Num

  pub record ColorGamut : Type 0 where
    pub red : ColorXy
    pub green : ColorXy
    pub blue : ColorXy

  abbrev pub nought : Num
  nought = lit (dec 0 0)

  abbrev pub one : Num
  one = lit (dec 1 0)

  abbrev pub xy : Decimal → Decimal → ColorXy
  xy x y = record { x = lit x; y = lit y }

  abbrev pub gamut_c : ColorGamut
  gamut_c = record {
    red = xy (dec 6915 4) (dec 3083 4);
    green = xy (dec 17 2) (dec 7 1);
    blue = xy (dec 1532 4) (dec 475 4);
  }

  -- `Math.min` and `Math.max`, which are NaN where either is.
  abbrev pub smaller : Num → Num → Num
  smaller a b = if not (equal a a) then a else if not (equal b b) || lt b a then b else a

  abbrev pub larger : Num → Num → Num
  larger a b = if not (equal a a) then a else if not (equal b b) || lt a b then b else a

  pub squared_distance : ColorXy → ColorXy → Num
  squared_distance a b = let dx = sub a.x b.x in let dy = sub a.y b.y in add (mul dx dx) (mul dy dy)

  -- The part of the way from `a` to `b`.
  abbrev pub along : ColorXy → ColorXy → Num → ColorXy
  along a b t = record { x = add a.x (mul t (sub b.x a.x)); y = add a.y (mul t (sub b.y a.y)) }

  abbrev pub clamp_unit : Num → Num
  clamp_unit t = larger nought (smaller one t)

  pub closest_on_segment : ColorXy → ColorXy → ColorXy → ColorXy
  closest_on_segment point a b =
      let abx = sub b.x a.x in
      let aby = sub b.y a.y in
      let length_squared = add (mul abx abx) (mul aby aby) in
      if equal length_squared nought
      then a
      else along a b (
          clamp_unit
            (div (add (mul (sub point.x a.x) abx) (mul (sub point.y a.y) aby)) length_squared))

  abbrev pub sign : ColorXy → ColorXy → ColorXy → Num
  sign p q r = sub (mul (sub q.x p.x) (sub r.y p.y)) (mul (sub q.y p.y) (sub r.x p.x))

  abbrev pub epsilon : Num
  epsilon = lit (dec 1 9)

  abbrev pub minus_epsilon : Num
  minus_epsilon = lit (record { negative = true; digits = 1; places = 9 })

  pub is_inside_triangle : ColorXy → ColorXy → ColorXy → ColorXy → Bool
  is_inside_triangle point a b c =
      let d1 = sign a b point in
      let d2 = sign b c point in
      let d3 = sign c a point in
      let has_negative = lt d1 minus_epsilon || lt d2 minus_epsilon || lt d3 minus_epsilon in
      let has_positive = lt epsilon d1 || lt epsilon d2 || lt epsilon d3 in
      not (has_negative && has_positive)

  abbrev pub nearer : ColorXy → ColorXy → ColorXy → ColorXy
  nearer point nearest candidate =
      if lt (squared_distance candidate point) (squared_distance nearest point)
      then candidate
      else nearest

  pub clamp_to_gamut : ColorXy → ColorGamut → ColorXy
  clamp_to_gamut point g =
      if is_inside_triangle point g.red g.green g.blue
      then point
      else nearer point
          (nearer point (closest_on_segment point g.red g.green)
            (closest_on_segment point g.green g.blue))
          (closest_on_segment point g.blue g.red)
