-- ===== src/Console/Listing.antt =====
-- apps/console/src/domain/sortLights.ts, and the list of apps/console/src/routes/LightListPage.tsx.
-- `Array.prototype.sort` is stable; the collation and the lower case of the browser's locale are
-- parameters.
pub mod Collating
pub mod Ordered
use sharpn.Prelude.{
  Ordering, ℕ, zero, suc, ◌+◌, ◌-◌, ◌*◌, ◌/◌, ◌%◌, ◌≤◌, ◌<◌, min, max, String, ◌≡◌, refl, sym, ap,
  subst, ◌∙◌, ◌≢◌, ◌↔◌, ◌⊎◌, inl, inr, Bool, true, false, ◌&&◌, ◌||◌, not, Option, none, some, List,
  [], ◌∷◌, ◌++◌, map, arith, ltb, leb, ◌==◌, str_eq, if◌then◌else◌, ltb→lt, lt→ltb, leb→le,
  str_eq_iff, str_eq_refl, Bool-cases, Option-cases, or_else, is_some, length, get_elem?, head?,
  length-append, keep, all, any, All,
}
use sharpn.Prelude.Maps.{
  lookup, insert, delete, lookup-insert, lookup-insert_self, lookup-delete, Distinct,
  insert-Distinct,
}
use sharpn.Prelude.Decimal.{Text, codes, print}
use sharpn.Light.{Light}
use sharpn.Cookie.{trim}
use sharpn.Codec.{strip}

abbrev pub flip : Ordering → Ordering
flip Ordering.lt = Ordering.gt
flip Ordering.eq = Ordering.eq
flip Ordering.gt = Ordering.lt

-- A comparison of texts that can be sorted by.
pub record Collation : Type 0 where
  pub compare : String → String → Ordering
  pub compare_flip : (a b : String) → compare b a ≡ flip (compare a b)
  pub compare_trans :
      (a b c : String)
      → compare a b ≢ Ordering.gt
      → compare b c ≢ Ordering.gt
      → compare a c ≢ Ordering.gt

-- The collator for names, and `localeCompare` for ids.
pub record Locale : Type 0 where
  pub names : Collation
  pub ids : Collation
  pub lower : Text → Text

-- `byName !== 0 ? byName : byId`.
abbrev pub then_by : Ordering → Ordering → Ordering
then_by Ordering.eq by_id = by_id
then_by by_name by_id = by_name

abbrev pub is_after : Ordering → Bool
is_after Ordering.gt = true
is_after _ = false

module _ (locale : Locale) where
  pub by_name : Light → Light → Ordering
  by_name left right =
      then_by (locale.names.compare left.name right.name) (locale.ids.compare left.id right.id)

  pub put : Light → List Light → List Light
  put light [] = light ∷ []
  put light (l ∷ ls) = if is_after (by_name light l) then l ∷ put light ls else light ∷ l ∷ ls

  pub sort_lights_by_name : List Light → List Light
  sort_lights_by_name [] = []
  sort_lights_by_name (l ∷ ls) = put l (sort_lights_by_name ls)

  -- `text.includes(needle)`.
  pub includes : Text → Text → Bool
  unfolding strip
  includes [] needle = is_some (strip needle [])
  includes (c ∷ cs) needle = is_some (strip needle (c ∷ cs)) || includes cs needle

  abbrev pub is_blank : Text → Bool
  is_blank [] = true
  is_blank (c ∷ cs) = false

  pub shown_lights : Text → List Light → List Light
  shown_lights search lights =
      let needle = locale.lower (trim search) in
      keep (λ l. is_blank needle || includes (locale.lower (codes l.name)) needle)
        (sort_lights_by_name lights)

abbrev pub count_on : List Light → ℕ
count_on lights = length (keep (λ l. l.on) lights)

pub data Query : Type 0 where
  pending : Query
  failed : Query
  read : List Light → Query

pub subtitle : Query → Text
subtitle pending = codes "Reading the Bridge…"
subtitle failed = codes "The Bridge could not be read"
subtitle (read []) = codes "Nothing paired to the Bridge"
subtitle (read (l ∷ ls)) =
    let n = length (l ∷ ls) in
    print n
    ++ codes (if n == 1 then " light" else " lights")
    ++ codes " paired · "
    ++ print (count_on (l ∷ ls))
    ++ codes " on"
