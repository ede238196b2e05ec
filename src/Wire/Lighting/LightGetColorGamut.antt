-- ===== src/Wire/Lighting/LightGetColorGamut.antt =====
-- `LightGet_Color_Gamut` of apps/console-api/src/gen/hue/v1/lighting.ts in binary.
use sharpn.Prelude.{ℕ, ◌+◌, ◌<◌, refl, Option, none, some, List, [], ◌∷◌, ◌++◌, arith}
use sharpn.Wire.{Bytes, Reader, Wire, Outcome, one_of, optional_field}
use sharpn.Wire.Pieces.{Reads, ◌▹◌}
use sharpn.Wire.Kinds.{IfSome, one_of-IsLawful, Decoder}
use sharpn.Wire.Message.{Message, FitsWithin, within, within-Ends, write_within, maybe_within-Reads}
use sharpn.Wire.Common.GamutPosition.{GamutPosition}
use sharpn.Wire.Common.GamutPosition

pub record LightGetColorGamut : Type 0 where
  pub red : Option GamutPosition
  pub green : Option GamutPosition
  pub blue : Option GamutPosition

abbrev pub base : LightGetColorGamut
base = record { red = none; green = none; blue = none }

-- What fits in the message.
pub record IsSendable (w : Wire) (m : LightGetColorGamut) : Type 0 where
  pub red : IfSome (FitsWithin (GamutPosition.message w)) m.red
  pub green : IfSome (FitsWithin (GamutPosition.message w)) m.green
  pub blue : IfSome (FitsWithin (GamutPosition.message w)) m.blue

module _ (w : Wire) where
  abbrev pub encode : LightGetColorGamut → Bytes
  encode m =
      optional_field w 10 (write_within (GamutPosition.message w)) m.red
      ++ optional_field w 18 (write_within (GamutPosition.message w)) m.green
      ++ optional_field w 26 (write_within (GamutPosition.message w)) m.blue

  abbrev pub rows : ℕ → List (ℕ × (LightGetColorGamut → Reader → Outcome LightGetColorGamut))
  rows depth =
      (10, λ m. within (GamutPosition.message w) depth (λ v. record m { red = some v }))
      ∷ (18, λ m. within (GamutPosition.message w) depth (λ v. record m { green = some v }))
      ∷ (26, λ m. within (GamutPosition.message w) depth (λ v. record m { blue = some v }))
      ∷ []

  abbrev pub decoder : ℕ → Decoder LightGetColorGamut
  decoder depth = record {
    base = base;
    cases = one_of (rows depth);
    lawful = one_of-IsLawful (rows depth) (
      (λ m. within-Ends (GamutPosition.message w) depth _),
      (
        (λ m. within-Ends (GamutPosition.message w) depth _),
        ((λ m. within-Ends (GamutPosition.message w) depth _), tt),
      ),
    );
  }

  pub encode-Reads :
      (m : LightGetColorGamut)
      → IsSendable w m
      → (depth : ℕ) → 1 + depth < 100
      → Reads w (one_of (rows depth)) (encode m) base m
  encode-Reads m fits depth fine =
      let m1 : LightGetColorGamut = record base { red = m.red } in
      let m2 : LightGetColorGamut = record m1 { green = m.green } in
      maybe_within-Reads (GamutPosition.message w) (decoder depth) 10 refl depth
        (omega (arith, fine)) (λ v. record base { red = v }) m.red (λ r. refl) fits.red
      ▹ maybe_within-Reads (GamutPosition.message w) (decoder depth) 18 refl depth
          (omega (arith, fine)) (λ v. record m1 { green = v }) m.green (λ r. refl) fits.green
      ▹ maybe_within-Reads (GamutPosition.message w) (decoder depth) 26 refl depth
          (omega (arith, fine)) (λ v. record m2 { blue = v }) m.blue (λ r. refl) fits.blue

  abbrev pub message : Message w LightGetColorGamut
  message = record {
    encode = encode;
    decoder = decoder;
    IsSendable = IsSendable w;
    height = 1;
    reads = encode-Reads;
  }
