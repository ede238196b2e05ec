-- ===== src/Wire/Lighting/LightGetColorTemperature.antt =====
-- `LightGet_ColorTemperature` of apps/console-api/src/gen/hue/v1/lighting.ts in binary.
use sharpn.Prelude.{ℕ, ◌+◌, ◌<◌, refl, Bool, Option, none, some, List, [], ◌∷◌, ◌++◌, arith}
use sharpn.Prelude.Int.{ℤ}
use sharpn.Wire.{Bytes, Reader, IsInt32, Wire, Outcome, one_of, read_into, optional_field}
use sharpn.Wire.Pieces.{Reads, ◌▹◌}
use sharpn.Wire.Kinds.{
  int32_kind, bool_kind, IfSome, any_bool, one_of-IsLawful, kind-Ends, Decoder, optional-Reads,
}
use sharpn.Wire.Message.{Message, FitsWithin, within, within-Ends, write_within, maybe_within-Reads}
use sharpn.Wire.Lighting.LightGetColorTemperatureMirekSchema.{LightGetColorTemperatureMirekSchema}
use sharpn.Wire.Lighting.LightGetColorTemperatureMirekSchema

pub record LightGetColorTemperature : Type 0 where
  pub mirek : Option ℤ
  pub mirek_valid : Option Bool
  pub mirek_schema : Option LightGetColorTemperatureMirekSchema

abbrev pub base : LightGetColorTemperature
base = record { mirek = none; mirek_valid = none; mirek_schema = none }

-- What fits in the message.
pub record IsSendable (w : Wire) (m : LightGetColorTemperature) : Type 0 where
  pub mirek : IfSome IsInt32 m.mirek
  pub mirek_schema :
      IfSome (FitsWithin (LightGetColorTemperatureMirekSchema.message w)) m.mirek_schema

module _ (w : Wire) where
  abbrev pub encode : LightGetColorTemperature → Bytes
  encode m =
      optional_field w 8 w.int32 m.mirek
      ++ optional_field w 16 w.bool m.mirek_valid
      ++ optional_field w 26 (write_within (LightGetColorTemperatureMirekSchema.message w))
          m.mirek_schema

  abbrev pub rows :
      ℕ → List (ℕ × (LightGetColorTemperature → Reader → Outcome LightGetColorTemperature))
  rows depth =
      (8, λ m r. read_into (λ v. record m { mirek = some v }) (w.read_int32 r))
      ∷ (16, λ m r. read_into (λ v. record m { mirek_valid = some v }) (w.read_bool r))
      ∷ (
        26,
        λ m.
            within (LightGetColorTemperatureMirekSchema.message w) depth
              (λ v. record m { mirek_schema = some v }),
      )
      ∷ []

  abbrev pub decoder : ℕ → Decoder LightGetColorTemperature
  decoder depth = record {
    base = base;
    cases = one_of (rows depth);
    lawful = one_of-IsLawful (rows depth) (
      (λ m. kind-Ends (int32_kind w) _),
      (
        (λ m. kind-Ends (bool_kind w) _),
        ((λ m. within-Ends (LightGetColorTemperatureMirekSchema.message w) depth _), tt),
      ),
    );
  }

  pub encode-Reads :
      (m : LightGetColorTemperature)
      → IsSendable w m
      → (depth : ℕ) → 1 + depth < 100
      → Reads w (one_of (rows depth)) (encode m) base m
  encode-Reads m fits depth fine =
      let m1 : LightGetColorTemperature = record base { mirek = m.mirek } in
      let m2 : LightGetColorTemperature = record m1 { mirek_valid = m.mirek_valid } in
      optional-Reads w (decoder depth) 8 refl (int32_kind w) (λ v. record base { mirek = v })
        m.mirek (λ r. refl) fits.mirek
      ▹ optional-Reads w (decoder depth) 16 refl (bool_kind w) (λ v. record m1 { mirek_valid = v })
          m.mirek_valid (λ r. refl) (any_bool m.mirek_valid)
      ▹ maybe_within-Reads (LightGetColorTemperatureMirekSchema.message w) (decoder depth) 26 refl
          depth (omega (arith, fine)) (λ v. record m2 { mirek_schema = v }) m.mirek_schema
          (λ r. refl) fits.mirek_schema

  abbrev pub message : Message w LightGetColorTemperature
  message = record {
    encode = encode;
    decoder = decoder;
    IsSendable = IsSendable w;
    height = 1;
    reads = encode-Reads;
  }
