-- ===== src/Wire/Lighting/LightGetColorTemperatureMirekSchema.antt =====
-- `LightGet_ColorTemperature_MirekSchema` of apps/console-api/src/gen/hue/v1/lighting.ts in binary.
use sharpn.Prelude.{ℕ, ◌+◌, ◌<◌, refl, Option, none, some, List, [], ◌∷◌, ◌++◌}
use sharpn.Prelude.Int.{ℤ}
use sharpn.Wire.{Bytes, Reader, IsInt32, Wire, Outcome, one_of, read_into, optional_field}
use sharpn.Wire.Pieces.{Reads, ◌▹◌}
use sharpn.Wire.Kinds.{int32_kind, IfSome, one_of-IsLawful, kind-Ends, Decoder, optional-Reads}
use sharpn.Wire.Message.{Message}

pub record LightGetColorTemperatureMirekSchema : Type 0 where
  pub mirek_minimum : Option ℤ
  pub mirek_maximum : Option ℤ

abbrev pub base : LightGetColorTemperatureMirekSchema
base = record { mirek_minimum = none; mirek_maximum = none }

-- What fits in the message.
pub record IsSendable (w : Wire) (m : LightGetColorTemperatureMirekSchema) : Type 0 where
  pub mirek_minimum : IfSome IsInt32 m.mirek_minimum
  pub mirek_maximum : IfSome IsInt32 m.mirek_maximum

module _ (w : Wire) where
  abbrev pub encode : LightGetColorTemperatureMirekSchema → Bytes
  encode m =
      optional_field w 8 w.int32 m.mirek_minimum ++ optional_field w 16 w.int32 m.mirek_maximum

  abbrev pub rows :
      ℕ
      → List (
          ℕ
          × (LightGetColorTemperatureMirekSchema
              → Reader
              → Outcome LightGetColorTemperatureMirekSchema))
  rows depth =
      (8, λ m r. read_into (λ v. record m { mirek_minimum = some v }) (w.read_int32 r))
      ∷ (16, λ m r. read_into (λ v. record m { mirek_maximum = some v }) (w.read_int32 r))
      ∷ []

  abbrev pub decoder : ℕ → Decoder LightGetColorTemperatureMirekSchema
  decoder depth = record {
    base = base;
    cases = one_of (rows depth);
    lawful =
        one_of-IsLawful (rows depth)
          ((λ m. kind-Ends (int32_kind w) _), ((λ m. kind-Ends (int32_kind w) _), tt));
  }

  pub encode-Reads :
      (m : LightGetColorTemperatureMirekSchema)
      → IsSendable w m
      → (depth : ℕ) → 0 + depth < 100
      → Reads w (one_of (rows depth)) (encode m) base m
  encode-Reads m fits depth fine =
      let m1 : LightGetColorTemperatureMirekSchema = record base {
        mirek_minimum = m.mirek_minimum;
      } in
      optional-Reads w (decoder depth) 8 refl (int32_kind w)
        (λ v. record base { mirek_minimum = v }) m.mirek_minimum (λ r. refl) fits.mirek_minimum
      ▹ optional-Reads w (decoder depth) 16 refl (int32_kind w)
          (λ v. record m1 { mirek_maximum = v }) m.mirek_maximum (λ r. refl) fits.mirek_maximum

  abbrev pub message : Message w LightGetColorTemperatureMirekSchema
  message = record {
    encode = encode;
    decoder = decoder;
    IsSendable = IsSendable w;
    height = 0;
    reads = encode-Reads;
  }
