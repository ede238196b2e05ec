-- ===== src/Wire/Lighting/LightGetColor.antt =====
-- `LightGet_Color` of apps/console-api/src/gen/hue/v1/lighting.ts in binary.
use sharpn.Prelude.{ℕ, ◌+◌, ◌<◌, refl, Option, none, some, List, [], ◌∷◌, ◌++◌, arith}
use sharpn.Prelude.Int.{ℤ}
use sharpn.Wire.{Bytes, Reader, IsInt32, Wire, Outcome, one_of, read_into, optional_field}
use sharpn.Wire.Pieces.{Reads, ◌▹◌}
use sharpn.Wire.Kinds.{int32_kind, IfSome, one_of-IsLawful, kind-Ends, Decoder, optional-Reads}
use sharpn.Wire.Message.{Message, FitsWithin, within, within-Ends, write_within, maybe_within-Reads}
use sharpn.Wire.Common.GamutPosition.{GamutPosition}
use sharpn.Wire.Common.GamutPosition
use sharpn.Wire.Lighting.LightGetColorGamut.{LightGetColorGamut}
use sharpn.Wire.Lighting.LightGetColorGamut

pub record LightGetColor : Type 0 where
  pub xy : Option GamutPosition
  pub gamut : Option LightGetColorGamut
  pub gamut_type : Option ℤ

abbrev pub base : LightGetColor
base = record { xy = none; gamut = none; gamut_type = none }

-- What fits in the message.
pub record IsSendable (w : Wire) (m : LightGetColor) : Type 0 where
  pub xy : IfSome (FitsWithin (GamutPosition.message w)) m.xy
  pub gamut : IfSome (FitsWithin (LightGetColorGamut.message w)) m.gamut
  pub gamut_type : IfSome IsInt32 m.gamut_type

module _ (w : Wire) where
  abbrev pub encode : LightGetColor → Bytes
  encode m =
      optional_field w 10 (write_within (GamutPosition.message w)) m.xy
      ++ optional_field w 18 (write_within (LightGetColorGamut.message w)) m.gamut
      ++ optional_field w 24 w.int32 m.gamut_type

  abbrev pub rows : ℕ → List (ℕ × (LightGetColor → Reader → Outcome LightGetColor))
  rows depth =
      (10, λ m. within (GamutPosition.message w) depth (λ v. record m { xy = some v }))
      ∷ (18, λ m. within (LightGetColorGamut.message w) depth (λ v. record m { gamut = some v }))
      ∷ (24, λ m r. read_into (λ v. record m { gamut_type = some v }) (w.read_int32 r))
      ∷ []

  abbrev pub decoder : ℕ → Decoder LightGetColor
  decoder depth = record {
    base = base;
    cases = one_of (rows depth);
    lawful = one_of-IsLawful (rows depth) (
      (λ m. within-Ends (GamutPosition.message w) depth _),
      (
        (λ m. within-Ends (LightGetColorGamut.message w) depth _),
        ((λ m. kind-Ends (int32_kind w) _), tt),
      ),
    );
  }

  pub encode-Reads :
      (m : LightGetColor)
      → IsSendable w m
      → (depth : ℕ) → 2 + depth < 100
      → Reads w (one_of (rows depth)) (encode m) base m
  encode-Reads m fits depth fine =
      let m1 : LightGetColor = record base { xy = m.xy } in
      let m2 : LightGetColor = record m1 { gamut = m.gamut } in
      maybe_within-Reads (GamutPosition.message w) (decoder depth) 10 refl depth
        (omega (arith, fine)) (λ v. record base { xy = v }) m.xy (λ r. refl) fits.xy
      ▹ maybe_within-Reads (LightGetColorGamut.message w) (decoder depth) 18 refl depth
          (omega (arith, fine)) (λ v. record m1 { gamut = v }) m.gamut (λ r. refl) fits.gamut
      ▹ optional-Reads w (decoder depth) 24 refl (int32_kind w) (λ v. record m2 { gamut_type = v })
          m.gamut_type (λ r. refl) fits.gamut_type

  abbrev pub message : Message w LightGetColor
  message = record {
    encode = encode;
    decoder = decoder;
    IsSendable = IsSendable w;
    height = 2;
    reads = encode-Reads;
  }
