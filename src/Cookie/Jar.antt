-- ===== src/Cookie/Jar.antt =====
-- What http/session.ts reads out of the header that a browser makes of its cookies.
use mathlib.Core.List.{append-nil}
use sharpn.Prelude.{
  ℕ, ◌≡◌, refl, ap, ◌∙◌, Option, none, some, List, [], ◌∷◌, ◌++◌, map, arith, if◌then◌else◌, All,
}
use sharpn.Prelude.Decimal.{Text}
use sharpn.Prelude.Cutting.{Without, cut_first-append}
use sharpn.Session.{constant_time_equal}
use sharpn.Cookie.{trim, split, value_or, value_in, cookie_named}

-- A browser's cookies, and the header that it sends for them: `a=1; b=2`.
abbrev pub Jar : Type 0
Jar = List (Text × Text)

abbrev pub pair_of : Text × Text → Text
pair_of c = c.0 ++ b'=' ∷ c.1

abbrev pub rest_of : Jar → Text
rest_of [] = []
rest_of (c ∷ jar) = b';' ∷ b' ' ∷ pair_of c ++ rest_of jar

abbrev pub header_of : Text × Text → Jar → Text
header_of c jar = pair_of c ++ rest_of jar

-- A name and a value as cookies may have them: no separator in either, no `=` in the name, and no
-- white space around them.
pub record IsCookie (c : Text × Text) : Type 0 where
  pub name_whole : Without b';' c.0
  pub value_whole : Without b';' c.1
  pub name_plain : Without b'=' c.0
  pub name_trimmed : trim c.0 ≡ c.0
  pub value_trimmed : trim c.1 ≡ c.1

abbrev pub first_named : Text → Jar → Option Text
first_named name [] = none
first_named name (c ∷ jar) = if constant_time_equal c.0 name then some c.1 else first_named name jar

Without-append : (c : ℕ) (xs ys : Text) → Without c xs → Without c ys → Without c (xs ++ ys)
Without-append c [] ys w v = v
Without-append c (x ∷ xs) ys (ne, w) v = (ne, Without-append c xs ys w v)

split-Without : (c : ℕ) (s : Text) → Without c s → split c s ≡ s ∷ []
split-Without c [] w = refl
split-Without c (x ∷ xs) (ne, w) = rw (ne, split-Without c xs w) refl

split-append :
    (c : ℕ) (front back : Text)
    → Without c front
    → split c (front ++ c ∷ back) ≡ front ∷ split c back
split-append c [] back w = ground arith
split-append c (x ∷ front) back (ne, w) = rw (ne, split-append c front back w) refl

pair_of-Without : (c : Text × Text) → IsCookie c → Without b';' (pair_of c)
pair_of-Without c k = Without-append b';' c.0 (b'=' ∷ c.1) k.name_whole (refl, k.value_whole)

split-rest_of :
    (front : Text) (jar : Jar)
    → Without b';' front
    → All IsCookie jar
    → split b';' (front ++ rest_of jar) ≡ front ∷ map (λ d. b' ' ∷ pair_of d) jar
split-rest_of front [] w h = rw (append-nil front) (split-Without b';' front w)
split-rest_of front (c ∷ jar) w (k, h) =
    split-append b';' front (b' ' ∷ pair_of c ++ rest_of jar) w
    ∙ ap (λ ts. front ∷ ts) (split-rest_of (b' ' ∷ pair_of c) jar (refl, pair_of-Without c k) h)

value_or_here :
    (name : Text) (c : Text × Text) (front : Text) (o : Option Text)
    → IsCookie c
    → trim front ≡ c.0
    → value_or name (some (front, c.1)) o ≡ (if constant_time_equal c.0 name then some c.1 else o)
value_or_here name c front o k e = rw (e, k.value_trimmed) refl

value_in-spaced :
    (name : Text) (jar : Jar)
    → All IsCookie jar
    → value_in name (map (λ d. b' ' ∷ pair_of d) jar) ≡ first_named name jar
unfolding value_in
value_in-spaced name [] h = refl
value_in-spaced name (c ∷ jar) (k, h) =
    rw (cut_first-append b'=' (b' ' ∷ c.0) c.1 (refl, k.name_plain)) (
      value_or_here name c (b' ' ∷ c.0) _ k k.name_trimmed
      ∙ ap (λ o. if constant_time_equal c.0 name then some c.1 else o) (value_in-spaced name jar h))

-- From the header that a browser makes of its cookies, a name reads the value of the first cookie
-- that has the name, and nothing where none has.
pub cookie_named-header_of :
    (name : Text) (c : Text × Text) (jar : Jar)
    → IsCookie c
    → All IsCookie jar
    → cookie_named name (some (header_of c jar)) ≡ first_named name (c ∷ jar)
unfolding cookie_named value_in
cookie_named-header_of name c jar k h = rw (split-rest_of (pair_of c) jar (pair_of-Without c k) h) (
    rw (cut_first-append b'=' c.0 c.1 k.name_plain) (
      value_or_here name c c.0 _ k k.name_trimmed
      ∙ ap (λ o. if constant_time_equal c.0 name then some c.1 else o)
          (value_in-spaced name jar h)))
