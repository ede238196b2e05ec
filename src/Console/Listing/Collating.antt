-- ===== src/Console/Listing/Collating.antt =====
-- What follows of a comparison that can be sorted by.
use sharpn.Prelude.{String, ◌≡◌, refl, ap, ◌∙◌, ◌≢◌, ◌⊎◌, inl, inr}
use sharpn.Console.Listing.{Ordering, flip, Collation, then_by}

pub Ordering-cases : (o : Ordering) → (o ≡ Ordering.lt) ⊎ (o ≡ Ordering.eq) ⊎ (o ≡ Ordering.gt)
Ordering-cases Ordering.lt = inl refl
Ordering-cases Ordering.eq = inr (inl refl)
Ordering-cases Ordering.gt = inr (inr refl)

pub lt-ne-gt : {o : Ordering} → o ≡ Ordering.lt → o ≢ Ordering.gt
lt-ne-gt h k = cc

pub eq-ne-gt : {o : Ordering} → o ≡ Ordering.eq → o ≢ Ordering.gt
eq-ne-gt h k = cc

-- What does not come after is before or beside.
pub not_gt : (o : Ordering) → o ≢ Ordering.gt → (o ≡ Ordering.lt) ⊎ (o ≡ Ordering.eq)
not_gt Ordering.lt h = inl refl
not_gt Ordering.eq h = inr refl
not_gt Ordering.gt h = absurd (h refl)

module _ (c : Collation) where
  pub flipped : (a b : String) {o : Ordering} → c.compare a b ≡ o → c.compare b a ≡ flip o
  flipped a b h = c.compare_flip a b ∙ ap flip h

  -- A strict step before or after one that does not go back is strict.
  pub strict_left :
      (x y z : String)
      → c.compare x y ≡ Ordering.lt
      → c.compare y z ≢ Ordering.gt
      → c.compare x z ≡ Ordering.lt
  strict_left x y z h k = elim (not_gt (c.compare x z) (c.compare_trans x y z (lt-ne-gt h) k)) [
    | inl less ↦ less
    | inr even ↦ absurd (c.compare_trans y z x k (eq-ne-gt (flipped x z even)) (flipped x y h))
  ]

  pub strict_right :
      (x y z : String)
      → c.compare x y ≢ Ordering.gt
      → c.compare y z ≡ Ordering.lt
      → c.compare x z ≡ Ordering.lt
  strict_right x y z h k = elim (not_gt (c.compare x z) (c.compare_trans x y z h (lt-ne-gt k))) [
    | inl less ↦ less
    | inr even ↦ absurd (c.compare_trans z x y (eq-ne-gt (flipped x z even)) h (flipped y z k))
  ]

  pub even_trans :
      (x y z : String)
      → c.compare x y ≡ Ordering.eq
      → c.compare y z ≡ Ordering.eq
      → c.compare x z ≡ Ordering.eq
  even_trans x y z h k =
      elim (not_gt (c.compare x z) (c.compare_trans x y z (eq-ne-gt h) (eq-ne-gt k))) [
        | inl less ↦ absurd (
            c.compare_trans z y x (eq-ne-gt (flipped y z k)) (eq-ne-gt (flipped x y h))
              (flipped x z less))
        | inr even ↦ even
      ]

pub flip-then_by : (a b : Ordering) → flip (then_by a b) ≡ then_by (flip a) (flip b)
flip-then_by Ordering.lt b = refl
flip-then_by Ordering.eq b = refl
flip-then_by Ordering.gt b = refl

pub then_by-ne-gt : (a b : Ordering) → then_by a b ≢ Ordering.gt → a ≢ Ordering.gt
then_by-ne-gt a b h e = h (ap (λ o. then_by o b) e)
