-- ===== src/Wire/Lighting/LightPutTimedEffects.antt =====
-- `LightPut_TimedEffects` of apps/console-api/src/gen/hue/v1/lighting.ts in binary.
use sharpn.Prelude.{ℕ, ◌+◌, ◌<◌, refl, Option, none, some, List, [], ◌∷◌, ◌++◌}
use sharpn.Prelude.Int.{ℤ}
use sharpn.Wire.{Bytes, Reader, IsInt32, Wire, Outcome, one_of, read_into, optional_field}
use sharpn.Wire.Pieces.{Reads, ◌▹◌}
use sharpn.Wire.Kinds.{int32_kind, IfSome, one_of-IsLawful, kind-Ends, Decoder, optional-Reads}
use sharpn.Wire.Message.{Message}

pub record LightPutTimedEffects : Type 0 where
  pub effect : Option ℤ
  pub duration : Option ℤ

abbrev pub base : LightPutTimedEffects
base = record { effect = none; duration = none }

-- What fits in the message.
pub record IsSendable (w : Wire) (m : LightPutTimedEffects) : Type 0 where
  pub effect : IfSome IsInt32 m.effect
  pub duration : IfSome IsInt32 m.duration

module _ (w : Wire) where
  abbrev pub encode : LightPutTimedEffects → Bytes
  encode m = optional_field w 8 w.int32 m.effect ++ optional_field w 16 w.int32 m.duration

  abbrev pub rows : ℕ → List (ℕ × (LightPutTimedEffects → Reader → Outcome LightPutTimedEffects))
  rows depth =
      (8, λ m r. read_into (λ v. record m { effect = some v }) (w.read_int32 r))
      ∷ (16, λ m r. read_into (λ v. record m { duration = some v }) (w.read_int32 r))
      ∷ []

  abbrev pub decoder : ℕ → Decoder LightPutTimedEffects
  decoder depth = record {
    base = base;
    cases = one_of (rows depth);
    lawful =
        one_of-IsLawful (rows depth)
          ((λ m. kind-Ends (int32_kind w) _), ((λ m. kind-Ends (int32_kind w) _), tt));
  }

  pub encode-Reads :
      (m : LightPutTimedEffects)
      → IsSendable w m
      → (depth : ℕ) → 0 + depth < 100
      → Reads w (one_of (rows depth)) (encode m) base m
  encode-Reads m fits depth fine =
      let m1 : LightPutTimedEffects = record base { effect = m.effect } in
      optional-Reads w (decoder depth) 8 refl (int32_kind w) (λ v. record base { effect = v })
        m.effect (λ r. refl) fits.effect
      ▹ optional-Reads w (decoder depth) 16 refl (int32_kind w) (λ v. record m1 { duration = v })
          m.duration (λ r. refl) fits.duration

  abbrev pub message : Message w LightPutTimedEffects
  message = record {
    encode = encode;
    decoder = decoder;
    IsSendable = IsSendable w;
    height = 0;
    reads = encode-Reads;
  }
