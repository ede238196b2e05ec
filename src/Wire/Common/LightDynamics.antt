-- ===== src/Wire/Common/LightDynamics.antt =====
-- `LightDynamics` of apps/console-api/src/gen/hue/v1/common.ts in binary.
use sharpn.Prelude.{ℕ, ◌+◌, ◌<◌, refl, Option, none, some, List, [], ◌∷◌, ◌++◌}
use sharpn.Prelude.Int.{ℤ}
use sharpn.Wire.{Bytes, Reader, IsInt32, IsDouble, Wire, Outcome, one_of, read_into, optional_field}
use sharpn.Wire.Pieces.{Reads, ◌▹◌}
use sharpn.Wire.Kinds.{
  int32_kind, double_kind, IfSome, one_of-IsLawful, kind-Ends, Decoder, optional-Reads,
}
use sharpn.Wire.Message.{Message}

pub record LightDynamics : Type 0 where
  pub duration : Option ℤ
  pub speed : Option ℕ

abbrev pub base : LightDynamics
base = record { duration = none; speed = none }

-- What fits in the message.
pub record IsSendable (w : Wire) (m : LightDynamics) : Type 0 where
  pub duration : IfSome IsInt32 m.duration
  pub speed : IfSome IsDouble m.speed

module _ (w : Wire) where
  abbrev pub encode : LightDynamics → Bytes
  encode m = optional_field w 8 w.int32 m.duration ++ optional_field w 17 w.double m.speed

  abbrev pub rows : ℕ → List (ℕ × (LightDynamics → Reader → Outcome LightDynamics))
  rows depth =
      (8, λ m r. read_into (λ v. record m { duration = some v }) (w.read_int32 r))
      ∷ (17, λ m r. read_into (λ v. record m { speed = some v }) (w.read_double r))
      ∷ []

  abbrev pub decoder : ℕ → Decoder LightDynamics
  decoder depth = record {
    base = base;
    cases = one_of (rows depth);
    lawful =
        one_of-IsLawful (rows depth)
          ((λ m. kind-Ends (int32_kind w) _), ((λ m. kind-Ends (double_kind w) _), tt));
  }

  pub encode-Reads :
      (m : LightDynamics)
      → IsSendable w m
      → (depth : ℕ) → 0 + depth < 100
      → Reads w (one_of (rows depth)) (encode m) base m
  encode-Reads m fits depth fine =
      let m1 : LightDynamics = record base { duration = m.duration } in
      optional-Reads w (decoder depth) 8 refl (int32_kind w) (λ v. record base { duration = v })
        m.duration (λ r. refl) fits.duration
      ▹ optional-Reads w (decoder depth) 17 refl (double_kind w) (λ v. record m1 { speed = v })
          m.speed (λ r. refl) fits.speed

  abbrev pub message : Message w LightDynamics
  message = record {
    encode = encode;
    decoder = decoder;
    IsSendable = IsSendable w;
    height = 0;
    reads = encode-Reads;
  }
