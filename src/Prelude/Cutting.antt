-- ===== src/Prelude/Cutting.antt =====
-- Cutting a text at a character: `indexOf` or `lastIndexOf` together with the two `slice`s.
use sharpn.Prelude.{
  ℕ, ◌≡◌, refl, inl, inr, Bool, true, false, Option, none, some, [], ◌∷◌, ◌++◌, arith, ◌==◌,
  if◌then◌else◌, Bool-cases, Option-cases,
}
use sharpn.Prelude.Decimal.{Text}

-- The character stands nowhere in the text.
abbrev pub Without : ℕ → Text → Type 0
Without c [] = Unit {0}
Without c (x ∷ xs) = ((x == c) ≡ false) × Without c xs

abbrev pub before : ℕ → Option (Text × Text) → Option (Text × Text)
before x none = none
before x (some (front, back)) = some (x ∷ front, back)

-- What stands before and after the first `c`, or nothing where `indexOf` is -1.
unfoldable pub cut_first : ℕ → Text → Option (Text × Text)
cut_first c [] = none
cut_first c (x ∷ xs) = if x == c then some ([], xs) else before x (cut_first c xs)

abbrev here_or : Bool → ℕ → Text → Option (Text × Text) → Option (Text × Text)
here_or hit x xs (some (front, back)) = some (x ∷ front, back)
here_or true x xs none = some ([], xs)
here_or false x xs none = none

-- What stands before and after the last `c`, or nothing where `lastIndexOf` is -1.
unfoldable pub cut_last : ℕ → Text → Option (Text × Text)
cut_last c [] = none
cut_last c (x ∷ xs) = here_or (x == c) x xs (cut_last c xs)

pub cut_first-append :
    (c : ℕ) (front back : Text)
    → Without c front
    → cut_first c (front ++ c ∷ back) ≡ some (front, back)
unfolding cut_first
cut_first-append c [] back w = ground arith
cut_first-append c (x ∷ front) back (ne, w) = rw (ne, cut_first-append c front back w)

pub cut_last-Without : (c : ℕ) (s : Text) → Without c s → cut_last c s ≡ none
unfolding cut_last
cut_last-Without c [] w = refl
cut_last-Without c (x ∷ s) (ne, w) = rw (ne, cut_last-Without c s w)

pub cut_last-append :
    (c : ℕ) (front back : Text)
    → Without c back
    → cut_last c (front ++ c ∷ back) ≡ some (front, back)
unfolding cut_last
cut_last-append c [] back w = rw (cut_last-Without c back w) (ground arith)
cut_last-append c (x ∷ front) back w = rw (cut_last-append c front back w)

-- A cut loses nothing.
pub cut_last_joined :
    (c : ℕ) (s front back : Text) → cut_last c s ≡ some (front, back) → s ≡ front ++ c ∷ back
unfolding cut_last
cut_last_joined c [] front back e = cc
cut_last_joined c (x ∷ s) front back e = elim (Option-cases (cut_last c s)) [
  | inl missed ↦ ground arith
  | inr ((f, b), found) ↦ ground (arith, cut_last_joined c s f b found)
]

pub cut_first-Without :
    (c : ℕ) (s front back : Text) → cut_first c s ≡ some (front, back) → Without c front
unfolding cut_first
cut_first-Without c [] front back e = cc
cut_first-Without c (x ∷ s) front back e = elim (Bool-cases (x == c)) [
  | inl hit ↦ ground arith
  | inr miss ↦ elim (Option-cases (cut_first c s)) [
    | inl missed ↦ ground arith
    | inr ((f, b), found) ↦ ground (arith, cut_first-Without c s f b found)
  ]
]

pub cut_first-Without-none : (c : ℕ) (s : Text) → cut_first c s ≡ none → Without c s
unfolding cut_first
cut_first-Without-none c [] e = tt
cut_first-Without-none c (x ∷ s) e = ground (arith, cut_first-Without-none c s)
