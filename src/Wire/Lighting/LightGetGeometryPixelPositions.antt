-- ===== src/Wire/Lighting/LightGetGeometryPixelPositions.antt =====
-- `LightGet_Geometry_PixelPositions` of apps/console-api/src/gen/hue/v1/lighting.ts in binary.
use sharpn.Prelude.{ℕ, ◌+◌, ◌<◌, refl, Option, none, some, List, [], ◌∷◌, ◌++◌}
use sharpn.Wire.{Bytes, Reader, IsDouble, Wire, Outcome, one_of, read_into, optional_field}
use sharpn.Wire.Pieces.{Reads, ◌▹◌}
use sharpn.Wire.Kinds.{double_kind, IfSome, one_of-IsLawful, kind-Ends, Decoder, optional-Reads}
use sharpn.Wire.Message.{Message}

pub record LightGetGeometryPixelPositions : Type 0 where
  pub x : Option ℕ
  pub y : Option ℕ
  pub z : Option ℕ

abbrev pub base : LightGetGeometryPixelPositions
base = record { x = none; y = none; z = none }

-- What fits in the message.
pub record IsSendable (w : Wire) (m : LightGetGeometryPixelPositions) : Type 0 where
  pub x : IfSome IsDouble m.x
  pub y : IfSome IsDouble m.y
  pub z : IfSome IsDouble m.z

module _ (w : Wire) where
  abbrev pub encode : LightGetGeometryPixelPositions → Bytes
  encode m =
      optional_field w 9 w.double m.x
      ++ optional_field w 17 w.double m.y
      ++ optional_field w 25 w.double m.z

  abbrev pub rows :
      ℕ
      → List
          (ℕ × (LightGetGeometryPixelPositions → Reader → Outcome LightGetGeometryPixelPositions))
  rows depth =
      (9, λ m r. read_into (λ v. record m { x = some v }) (w.read_double r))
      ∷ (17, λ m r. read_into (λ v. record m { y = some v }) (w.read_double r))
      ∷ (25, λ m r. read_into (λ v. record m { z = some v }) (w.read_double r))
      ∷ []

  abbrev pub decoder : ℕ → Decoder LightGetGeometryPixelPositions
  decoder depth = record {
    base = base;
    cases = one_of (rows depth);
    lawful = one_of-IsLawful (rows depth) (
      (λ m. kind-Ends (double_kind w) _),
      ((λ m. kind-Ends (double_kind w) _), ((λ m. kind-Ends (double_kind w) _), tt)),
    );
  }

  pub encode-Reads :
      (m : LightGetGeometryPixelPositions)
      → IsSendable w m
      → (depth : ℕ) → 0 + depth < 100
      → Reads w (one_of (rows depth)) (encode m) base m
  encode-Reads m fits depth fine =
      let m1 : LightGetGeometryPixelPositions = record base { x = m.x } in
      let m2 : LightGetGeometryPixelPositions = record m1 { y = m.y } in
      optional-Reads w (decoder depth) 9 refl (double_kind w) (λ v. record base { x = v }) m.x
        (λ r. refl) fits.x
      ▹ optional-Reads w (decoder depth) 17 refl (double_kind w) (λ v. record m1 { y = v }) m.y
          (λ r. refl) fits.y
      ▹ optional-Reads w (decoder depth) 25 refl (double_kind w) (λ v. record m2 { z = v }) m.z
          (λ r. refl) fits.z

  abbrev pub message : Message w LightGetGeometryPixelPositions
  message = record {
    encode = encode;
    decoder = decoder;
    IsSendable = IsSendable w;
    height = 0;
    reads = encode-Reads;
  }
