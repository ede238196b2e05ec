-- ===== src/Wire/Lighting/LightGetGeometry.antt =====
-- `LightGet_Geometry` of apps/console-api/src/gen/hue/v1/lighting.ts in binary.
use sharpn.Prelude.{ℕ, ◌+◌, ◌<◌, refl, List, [], ◌∷◌, ◌++◌, arith, All}
use sharpn.Wire.{Bytes, Reader, Wire, Outcome, one_of, each}
use sharpn.Wire.Pieces.{Reads}
use sharpn.Wire.Kinds.{one_of-IsLawful, Decoder}
use sharpn.Wire.Message.{Message, FitsWithin, within, within-Ends, write_within, list_within-Reads}
use sharpn.Wire.Lighting.LightGetGeometryPixelPositions.{LightGetGeometryPixelPositions}
use sharpn.Wire.Lighting.LightGetGeometryPixelPositions

pub record LightGetGeometry : Type 0 where
  pub pixel_positions : List LightGetGeometryPixelPositions

abbrev pub base : LightGetGeometry
base = record { pixel_positions = [] }

-- What fits in the message.
pub record IsSendable (w : Wire) (m : LightGetGeometry) : Type 0 where
  pub pixel_positions :
      All (FitsWithin (LightGetGeometryPixelPositions.message w)) m.pixel_positions

module _ (w : Wire) where
  abbrev pub encode : LightGetGeometry → Bytes
  encode m =
      each (λ v. w.uint32 10 ++ write_within (LightGetGeometryPixelPositions.message w) v)
        m.pixel_positions

  abbrev pub rows : ℕ → List (ℕ × (LightGetGeometry → Reader → Outcome LightGetGeometry))
  rows depth =
      (
        10,
        λ m.
            within (LightGetGeometryPixelPositions.message w) depth
              (λ v. record m { pixel_positions = m.pixel_positions ++ v ∷ [] }),
      )
      ∷ []

  abbrev pub decoder : ℕ → Decoder LightGetGeometry
  decoder depth = record {
    base = base;
    cases = one_of (rows depth);
    lawful =
        one_of-IsLawful (rows depth)
          ((λ m. within-Ends (LightGetGeometryPixelPositions.message w) depth _), tt);
  }

  pub encode-Reads :
      (m : LightGetGeometry)
      → IsSendable w m
      → (depth : ℕ) → 1 + depth < 100
      → Reads w (one_of (rows depth)) (encode m) base m
  encode-Reads m fits depth fine =
      list_within-Reads (LightGetGeometryPixelPositions.message w) (decoder depth) 10 refl depth
        (omega (arith, fine)) (λ v. record base { pixel_positions = v }) m.pixel_positions
        (λ vs r. refl) fits.pixel_positions

  abbrev pub message : Message w LightGetGeometry
  message = record {
    encode = encode;
    decoder = decoder;
    IsSendable = IsSendable w;
    height = 1;
    reads = encode-Reads;
  }
