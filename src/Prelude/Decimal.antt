-- ===== src/Prelude/Decimal.antt =====
-- Texts as lists of character codes, and whole numbers in decimal: what a template literal prints,
-- and what `Number` reads from a text that is all digits.
use sharpn.Prelude.{
  ℕ, zero, suc, ◌+◌, ◌-◌, ◌*◌, ◌/◌, ◌%◌, ◌<◌, String, ◌≡◌, refl, ap, ◌∙◌, inl, inr, Bool, true,
  false, ◌&&◌, List, [], ◌∷◌, arith, ltb, leb, if◌then◌else◌, Bool-cases, all,
}
use Prim.Native.Char.{code}
use Prim.Native.String.{String}

abbrev pub Text : Type 0
Text = List ℕ

abbrev pub is_digit : ℕ → Bool
is_digit c = leb b'0' c && leb c b'9'

pub print_from : ℕ → ℕ → Text → Text
print_from zero n rest = rest
print_from (suc f) n rest =
    let more = print_from f (n / 10) ((b'0' + n % 10) ∷ rest) in
    if ltb n 10 then (b'0' + n) ∷ rest else more

-- `${n}`.
unfoldable pub print : ℕ → Text
unfolding print_from
print n = print_from (suc n) n []

unfoldable pub value_from : ℕ → Text → ℕ
value_from n [] = n
value_from n (c ∷ cs) = value_from (n * 10 + (c - b'0')) cs

unfoldable pub value : Text → ℕ
unfolding value_from
value s = value_from 0 s

abbrev pub is_numeral : Text → Bool
is_numeral [] = false
is_numeral (c ∷ cs) = is_digit c && all is_digit cs

value-print_from :
    (f n : ℕ) (rest : Text) → n < f → value_from 0 (print_from f n rest) ≡ value_from n rest
unfolding print_from value_from
value-print_from zero n rest h = elim h [ ]
value-print_from (suc f) n rest h = elim (Bool-cases (ltb n 10)) [
  | inl small ↦ rw small (ap (λ m. value_from m rest) (omega arith))
  | inr big ↦ rw big (
      value-print_from f (n / 10) ((b'0' + n % 10) ∷ rest) (ground arith)
      ∙ ap (λ m. value_from m rest) (omega arith))
]

-- Reading what was printed gives the number back.
pub value-print : (n : ℕ) → value (print n) ≡ n
unfolding print value
value-print n = value-print_from (suc n) n [] (omega arith) ∙ done n
  where
    done : (m : ℕ) → value_from m [] ≡ m
    done m = refl

numeral_front :
    (c : ℕ) (rest : Text)
    → is_digit c ≡ true
    → all is_digit rest ≡ true
    → is_numeral (c ∷ rest) ≡ true
numeral_front c rest h k = rw (h, k)

numeral-print_from :
    (f n : ℕ) (rest : Text)
    → n < f
    → all is_digit rest ≡ true
    → is_numeral (print_from f n rest) ≡ true
unfolding print_from
numeral-print_from zero n rest h d = elim h [ ]
numeral-print_from (suc f) n rest h d = elim (Bool-cases (ltb n 10)) [
  | inl small ↦ rw small (numeral_front (b'0' + n) rest (ground arith) d)
  | inr big ↦
      rw big (
        numeral-print_from f (n / 10) ((b'0' + n % 10) ∷ rest) (ground arith) (rw d (ground arith)))
]

pub is_numeral-print : (n : ℕ) → is_numeral (print n) ≡ true
unfolding print
is_numeral-print n = numeral-print_from (suc n) n [] (omega arith) refl

print_test :
    print 1700000000123
    ≡ b'1' ∷ b'7' ∷ b'0' ∷ b'0' ∷ b'0' ∷ b'0' ∷ b'0' ∷ b'0' ∷ b'0' ∷ b'0' ∷ b'1' ∷ b'2' ∷ b'3' ∷ []
unfolding print
print_test = refl

-- The characters of a literal.
abbrev pub codes : String → Text
codes String.[] = []
codes (String.◌∷◌ c s) = code c ∷ codes s
