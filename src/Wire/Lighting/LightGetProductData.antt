-- ===== src/Wire/Lighting/LightGetProductData.antt =====
-- `LightGet_ProductData` of apps/console-api/src/gen/hue/v1/lighting.ts in binary.
use sharpn.Prelude.{ℕ, ◌+◌, ◌<◌, refl, Option, none, some, List, [], ◌∷◌}
use sharpn.Prelude.Int.{ℤ}
use sharpn.Wire.{Bytes, Reader, IsInt32, Wire, Outcome, one_of, read_into, optional_field}
use sharpn.Wire.Pieces.{Reads}
use sharpn.Wire.Kinds.{int32_kind, IfSome, one_of-IsLawful, kind-Ends, Decoder, optional-Reads}
use sharpn.Wire.Message.{Message}

pub record LightGetProductData : Type 0 where
  pub function : Option ℤ

abbrev pub base : LightGetProductData
base = record { function = none }

-- What fits in the message.
pub record IsSendable (w : Wire) (m : LightGetProductData) : Type 0 where
  pub function : IfSome IsInt32 m.function

module _ (w : Wire) where
  abbrev pub encode : LightGetProductData → Bytes
  encode m = optional_field w 8 w.int32 m.function

  abbrev pub rows : ℕ → List (ℕ × (LightGetProductData → Reader → Outcome LightGetProductData))
  rows depth = (8, λ m r. read_into (λ v. record m { function = some v }) (w.read_int32 r)) ∷ []

  abbrev pub decoder : ℕ → Decoder LightGetProductData
  decoder depth = record {
    base = base;
    cases = one_of (rows depth);
    lawful = one_of-IsLawful (rows depth) ((λ m. kind-Ends (int32_kind w) _), tt);
  }

  pub encode-Reads :
      (m : LightGetProductData)
      → IsSendable w m
      → (depth : ℕ) → 0 + depth < 100
      → Reads w (one_of (rows depth)) (encode m) base m
  encode-Reads m fits depth fine =
      optional-Reads w (decoder depth) 8 refl (int32_kind w) (λ v. record base { function = v })
        m.function (λ r. refl) fits.function

  abbrev pub message : Message w LightGetProductData
  message = record {
    encode = encode;
    decoder = decoder;
    IsSendable = IsSendable w;
    height = 0;
    reads = encode-Reads;
  }
