-- ===== src/Codec/Names.antt =====
-- What gateway/codec.ts calls an archetype and a type of Resource.
use sharpn.Prelude.{ℕ, ◌≡◌, refl, ◌↔◌, Option, none, some, arith, get_elem?}
use sharpn.Prelude.Decimal.{Text, codes}
use sharpn.Light.{light_archetypes}
use sharpn.Gen.Archetype.{LightArchetype}
use sharpn.Gen.Archetype
use sharpn.Gen.Rtype.{Rtype}
use sharpn.Gen.Rtype
use sharpn.Codec.{
  lowered_or_unspecified, strip, archetype_from, ReportedIdentifier, identifier_from,
}

-- The name that stands in the contract's list at the number of the value.
abbrev pub name_at : Option ℕ → Option Text
name_at none = some (codes "unspecified")
name_at (some n) = get_elem? light_archetypes n

-- Every archetype that the Gateway can report is called what the contract lists under its number,
-- and one that these bindings cannot name is called unspecified.
pub archetype_from-name_at :
    (a : LightArchetype) → some (archetype_from (some a)) ≡ name_at (Archetype.number_of a)
unfolding archetype_from
archetype_from-name_at Archetype.unspecified = refl
archetype_from-name_at _ = refl

type_name : Rtype → Text
unfolding strip
type_name t = lowered_or_unspecified (strip (codes "RTYPE_") (Rtype.to_json t))

type_name-light_iff : (t : Rtype) → (type_name t ≡ codes "light") ↔ (t ≡ Rtype.light)
unfolding type_name
type_name-light_iff Rtype.light = (λ e. refl, λ e. refl)
type_name-light_iff _ = ground arith

-- A Resource is called a light exactly when its type is the light's.
pub rtype-light_iff :
    (r : ReportedIdentifier) → ((identifier_from r).rtype ≡ codes "light") ↔ (r.rtype ≡ Rtype.light)
unfolding identifier_from type_name
rtype-light_iff r = type_name-light_iff r.rtype
