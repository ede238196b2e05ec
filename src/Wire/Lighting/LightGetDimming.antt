-- ===== src/Wire/Lighting/LightGetDimming.antt =====
-- `LightGet_Dimming` of apps/console-api/src/gen/hue/v1/lighting.ts in binary.
use sharpn.Prelude.{ℕ, ◌+◌, ◌<◌, refl, Option, none, some, List, [], ◌∷◌, ◌++◌}
use sharpn.Wire.{Bytes, Reader, IsDouble, Wire, Outcome, one_of, read_into, optional_field}
use sharpn.Wire.Pieces.{Reads, ◌▹◌}
use sharpn.Wire.Kinds.{double_kind, IfSome, one_of-IsLawful, kind-Ends, Decoder, optional-Reads}
use sharpn.Wire.Message.{Message}

pub record LightGetDimming : Type 0 where
  pub brightness : Option ℕ
  pub min_dim_level : Option ℕ

abbrev pub base : LightGetDimming
base = record { brightness = none; min_dim_level = none }

-- What fits in the message.
pub record IsSendable (w : Wire) (m : LightGetDimming) : Type 0 where
  pub brightness : IfSome IsDouble m.brightness
  pub min_dim_level : IfSome IsDouble m.min_dim_level

module _ (w : Wire) where
  abbrev pub encode : LightGetDimming → Bytes
  encode m =
      optional_field w 9 w.double m.brightness ++ optional_field w 17 w.double m.min_dim_level

  abbrev pub rows : ℕ → List (ℕ × (LightGetDimming → Reader → Outcome LightGetDimming))
  rows depth =
      (9, λ m r. read_into (λ v. record m { brightness = some v }) (w.read_double r))
      ∷ (17, λ m r. read_into (λ v. record m { min_dim_level = some v }) (w.read_double r))
      ∷ []

  abbrev pub decoder : ℕ → Decoder LightGetDimming
  decoder depth = record {
    base = base;
    cases = one_of (rows depth);
    lawful =
        one_of-IsLawful (rows depth)
          ((λ m. kind-Ends (double_kind w) _), ((λ m. kind-Ends (double_kind w) _), tt));
  }

  pub encode-Reads :
      (m : LightGetDimming)
      → IsSendable w m
      → (depth : ℕ) → 0 + depth < 100
      → Reads w (one_of (rows depth)) (encode m) base m
  encode-Reads m fits depth fine =
      let m1 : LightGetDimming = record base { brightness = m.brightness } in
      optional-Reads w (decoder depth) 9 refl (double_kind w) (λ v. record base { brightness = v })
        m.brightness (λ r. refl) fits.brightness
      ▹ optional-Reads w (decoder depth) 17 refl (double_kind w)
          (λ v. record m1 { min_dim_level = v }) m.min_dim_level (λ r. refl) fits.min_dim_level

  abbrev pub message : Message w LightGetDimming
  message = record {
    encode = encode;
    decoder = decoder;
    IsSendable = IsSendable w;
    height = 0;
    reads = encode-Reads;
  }
