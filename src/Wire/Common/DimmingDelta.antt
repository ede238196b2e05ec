-- ===== src/Wire/Common/DimmingDelta.antt =====
-- `DimmingDelta` of apps/console-api/src/gen/hue/v1/common.ts in binary.
use sharpn.Prelude.{ℕ, ◌+◌, ◌<◌, refl, Option, none, some, List, [], ◌∷◌, ◌++◌}
use sharpn.Prelude.Int.{ℤ}
use sharpn.Wire.{Bytes, Reader, IsInt32, IsDouble, Wire, Outcome, one_of, read_into, optional_field}
use sharpn.Wire.Pieces.{Reads, ◌▹◌}
use sharpn.Wire.Kinds.{
  int32_kind, double_kind, IfSome, one_of-IsLawful, kind-Ends, Decoder, optional-Reads,
}
use sharpn.Wire.Message.{Message}

pub record DimmingDelta : Type 0 where
  pub action : Option ℤ
  pub brightness_delta : Option ℕ

abbrev pub base : DimmingDelta
base = record { action = none; brightness_delta = none }

-- What fits in the message.
pub record IsSendable (w : Wire) (m : DimmingDelta) : Type 0 where
  pub action : IfSome IsInt32 m.action
  pub brightness_delta : IfSome IsDouble m.brightness_delta

module _ (w : Wire) where
  abbrev pub encode : DimmingDelta → Bytes
  encode m = optional_field w 8 w.int32 m.action ++ optional_field w 17 w.double m.brightness_delta

  abbrev pub rows : ℕ → List (ℕ × (DimmingDelta → Reader → Outcome DimmingDelta))
  rows depth =
      (8, λ m r. read_into (λ v. record m { action = some v }) (w.read_int32 r))
      ∷ (17, λ m r. read_into (λ v. record m { brightness_delta = some v }) (w.read_double r))
      ∷ []

  abbrev pub decoder : ℕ → Decoder DimmingDelta
  decoder depth = record {
    base = base;
    cases = one_of (rows depth);
    lawful =
        one_of-IsLawful (rows depth)
          ((λ m. kind-Ends (int32_kind w) _), ((λ m. kind-Ends (double_kind w) _), tt));
  }

  pub encode-Reads :
      (m : DimmingDelta)
      → IsSendable w m
      → (depth : ℕ) → 0 + depth < 100
      → Reads w (one_of (rows depth)) (encode m) base m
  encode-Reads m fits depth fine =
      let m1 : DimmingDelta = record base { action = m.action } in
      optional-Reads w (decoder depth) 8 refl (int32_kind w) (λ v. record base { action = v })
        m.action (λ r. refl) fits.action
      ▹ optional-Reads w (decoder depth) 17 refl (double_kind w)
          (λ v. record m1 { brightness_delta = v }) m.brightness_delta (λ r. refl)
          fits.brightness_delta

  abbrev pub message : Message w DimmingDelta
  message = record {
    encode = encode;
    decoder = decoder;
    IsSendable = IsSendable w;
    height = 0;
    reads = encode-Reads;
  }
