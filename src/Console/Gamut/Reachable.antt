-- ===== src/Console/Gamut/Reachable.antt =====
-- Which colours apps/console/src/domain/gamutTriangle.ts answers with.
use sharpn.Prelude.{
  arith, ◌↔◌, ◌≡◌, refl, ◌⊎◌, inl, inr, Bool, true, false, if◌then◌else◌, Bool-cases,
}
use sharpn.Console.Gamut.{
  Numbers, ColorXy, ColorGamut, nought, one, smaller, larger, squared_distance, along, clamp_unit,
  closest_on_segment, sign, epsilon, minus_epsilon, is_inside_triangle, nearer, clamp_to_gamut,
}

module _ (n : Numbers) where
  open n use {Num, lt, lt_irrefl, lt_asym, not_lt_trans, nan_unordered, one_not_lt_zero, equal}

  -- Between two corners, both ends included.
  abbrev pub OnSegment : ColorXy n → ColorXy n → ColorXy n → Type 0
  OnSegment a b p =
      (p ≡ a)
      ⊎ ((t : Num) × (lt t (nought n) ≡ false) × (lt (one n) t ≡ false) × (p ≡ along n a b t))

  -- A cross product with NaN is neither too low nor too high. Seen from each side in turn, the point is on no two sides at once by more than a billionth: it
  -- is to the right of none, or to the left of none.
  abbrev pub Inside : ColorGamut n → ColorXy n → Type 0
  Inside g p =
      ((lt (sign n g.red g.green p) (minus_epsilon n) ≡ false)
        × (lt (sign n g.green g.blue p) (minus_epsilon n) ≡ false)
        × (lt (sign n g.blue g.red p) (minus_epsilon n) ≡ false))
      ⊎ ((lt (epsilon n) (sign n g.red g.green p) ≡ false)
          × (lt (epsilon n) (sign n g.green g.blue p) ≡ false)
          × (lt (epsilon n) (sign n g.blue g.red p) ≡ false))

  Inside-iff :
      (g : ColorGamut n) (p : ColorXy n)
      → (is_inside_triangle n p g.red g.green g.blue ≡ true) ↔ Inside g p
  unfolding is_inside_triangle
  Inside-iff g p = ground arith

  -- Inside the triangle, or on one of its sides.
  abbrev pub IsReachable : ColorGamut n → ColorXy n → Type 0
  IsReachable g p =
      Inside g p ⊎ OnSegment g.red g.green p ⊎ OnSegment g.green g.blue p ⊎ OnSegment g.blue g.red p

  abbrev pub OnASide : ColorGamut n → ColorXy n → Type 0
  OnASide g p = OnSegment g.red g.green p ⊎ OnSegment g.green g.blue p ⊎ OnSegment g.blue g.red p

  smaller-le : (t : Num) → lt (one n) (smaller n (one n) t) ≡ false
  smaller-le t = ground (arith, lt_asym t (one n), lt_irrefl (one n), nan_unordered t (one n))

  larger_bounds :
      (m : Num)
      → lt (one n) m ≡ false
      → (lt (larger n (nought n) m) (nought n) ≡ false)
        × (lt (one n) (larger n (nought n) m) ≡ false)
  larger_bounds m low = ground (
    arith,
    lt_asym (nought n) m,
    lt_irrefl (nought n),
    nan_unordered m (nought n),
    one_not_lt_zero,
  )

  segment_if :
      (b : Bool) (p q : ColorXy n) (t : Num)
      → OnSegment p q (if b then p else along n p q (clamp_unit n t))
  segment_if true p q t = inl refl
  segment_if false p q t =
      let (low, high) = larger_bounds (smaller n (one n) t) (smaller-le t) in
      inr (clamp_unit n t, low, high, refl)

  closest-OnSegment : (p a b : ColorXy n) → OnSegment a b (closest_on_segment n p a b)
  unfolding closest_on_segment
  closest-OnSegment p a b = segment_if _ a b _

  -- What the nearer of two points is.
  nearer_cases : (P : ColorXy n → Type 0) (p a c : ColorXy n) → P a → P c → P (nearer n p a c)
  nearer_cases P p a c pa pc =
      elim (Bool-cases (lt (squared_distance n c p) (squared_distance n a p))) [
        | inl less ↦ rw less pc
        | inr more ↦ rw more pa
      ]

  -- `q` is no nearer to `p` than `r` is.
  abbrev pub NotNearer : ColorXy n → ColorXy n → ColorXy n → Type 0
  NotNearer p q r = lt (squared_distance n q p) (squared_distance n r p) ≡ false

  -- A colour that clamping answers with, for whatever it was given, is inside the triangle, or on
  -- one of its sides between two corners.
  pub clamp-IsReachable : (p : ColorXy n) (g : ColorGamut n) → IsReachable g (clamp_to_gamut n p g)
  unfolding clamp_to_gamut
  clamp-IsReachable p g = elim (Bool-cases (is_inside_triangle n p g.red g.green g.blue)) [
    | inl inside ↦ rw inside (inl ((Inside-iff g p).0 inside))
    | inr outside ↦ rw outside (
        nearer_cases (IsReachable g) p _ _
          (nearer_cases (IsReachable g) p _ _ (inr (inl (closest-OnSegment p g.red g.green)))
            (inr (inr (inl (closest-OnSegment p g.green g.blue)))))
          (inr (inr (inr (closest-OnSegment p g.blue g.red)))))
  ]

  -- The squared distance is a number.
  abbrev pub IsMeasured : ColorXy n → ColorXy n → Type 0
  IsMeasured p q = equal (squared_distance n q p) (squared_distance n q p) ≡ true

  -- The nearest of the candidates on the three sides.
  abbrev pub IsNearest : ColorXy n → ColorGamut n → ColorXy n → Type 0
  IsNearest p g q =
      NotNearer p (closest_on_segment n p g.red g.green) q
      × NotNearer p (closest_on_segment n p g.green g.blue) q
      × NotNearer p (closest_on_segment n p g.blue g.red) q
