-- ===== src/Wire/Lighting/LightGetMetadata.antt =====
-- `LightGet_Metadata` of apps/console-api/src/gen/hue/v1/lighting.ts in binary.
use sharpn.Prelude.{ℕ, ◌+◌, ◌<◌, refl, Option, none, some, List, [], ◌∷◌, ◌++◌}
use sharpn.Prelude.Int.{ℤ, pos}
use sharpn.Prelude.Decimal.{Text}
use sharpn.Wire.{
  Bytes, Reader, IsInt32, Wire, Outcome, one_of, read_into, string_field, int32_field,
  optional_field,
}
use sharpn.Wire.Pieces.{Reads, ◌▹◌}
use sharpn.Wire.Fields.{IsWritten}
use sharpn.Wire.Kinds.{
  string_kind, int32_kind, IfSome, one_of-IsLawful, kind-Ends, Decoder, optional-Reads,
  string_field-Reads, int32_field-Reads,
}
use sharpn.Wire.Message.{Message}

pub record LightGetMetadata : Type 0 where
  pub name : Text
  pub archetype : ℤ
  pub function : ℤ
  pub fixed_mired : Option ℤ

abbrev pub base : LightGetMetadata
base = record { name = []; archetype = pos 0; function = pos 0; fixed_mired = none }

-- What fits in the message.
pub record IsSendable (w : Wire) (m : LightGetMetadata) : Type 0 where
  pub name : IsWritten w m.name
  pub archetype : IsInt32 m.archetype
  pub function : IsInt32 m.function
  pub fixed_mired : IfSome IsInt32 m.fixed_mired

module _ (w : Wire) where
  abbrev pub encode : LightGetMetadata → Bytes
  encode m =
      string_field w 10 m.name
      ++ int32_field w 16 m.archetype
      ++ int32_field w 24 m.function
      ++ optional_field w 32 w.int32 m.fixed_mired

  abbrev pub rows : ℕ → List (ℕ × (LightGetMetadata → Reader → Outcome LightGetMetadata))
  rows depth =
      (10, λ m r. read_into (λ v. record m { name = v }) (w.read_string r))
      ∷ (16, λ m r. read_into (λ v. record m { archetype = v }) (w.read_int32 r))
      ∷ (24, λ m r. read_into (λ v. record m { function = v }) (w.read_int32 r))
      ∷ (32, λ m r. read_into (λ v. record m { fixed_mired = some v }) (w.read_int32 r))
      ∷ []

  abbrev pub decoder : ℕ → Decoder LightGetMetadata
  decoder depth = record {
    base = base;
    cases = one_of (rows depth);
    lawful = one_of-IsLawful (rows depth) (
      (λ m. kind-Ends (string_kind w) _),
      (
        (λ m. kind-Ends (int32_kind w) _),
        ((λ m. kind-Ends (int32_kind w) _), ((λ m. kind-Ends (int32_kind w) _), tt)),
      ),
    );
  }

  pub encode-Reads :
      (m : LightGetMetadata)
      → IsSendable w m
      → (depth : ℕ) → 0 + depth < 100
      → Reads w (one_of (rows depth)) (encode m) base m
  encode-Reads m fits depth fine =
      let m1 : LightGetMetadata = record base { name = m.name } in
      let m2 : LightGetMetadata = record m1 { archetype = m.archetype } in
      let m3 : LightGetMetadata = record m2 { function = m.function } in
      string_field-Reads w (decoder depth) 10 refl (λ v. record base { name = v }) m.name
        (λ r. refl) fits.name
      ▹ int32_field-Reads w (decoder depth) 16 refl (λ v. record m1 { archetype = v }) m.archetype
          (λ r. refl) fits.archetype
      ▹ int32_field-Reads w (decoder depth) 24 refl (λ v. record m2 { function = v }) m.function
          (λ r. refl) fits.function
      ▹ optional-Reads w (decoder depth) 32 refl (int32_kind w) (λ v. record m3 { fixed_mired = v })
          m.fixed_mired (λ r. refl) fits.fixed_mired

  abbrev pub message : Message w LightGetMetadata
  message = record {
    encode = encode;
    decoder = decoder;
    IsSendable = IsSendable w;
    height = 0;
    reads = encode-Reads;
  }
