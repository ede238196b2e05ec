-- ===== src/Wire/Common/GamutPosition.antt =====
-- `GamutPosition` of apps/console-api/src/gen/hue/v1/common.ts in binary.
use sharpn.Prelude.{ℕ, ◌+◌, ◌<◌, refl, List, [], ◌∷◌, ◌++◌}
use sharpn.Wire.{Bytes, Reader, Wire, Outcome, one_of, read_into, double_field}
use sharpn.Wire.Pieces.{Reads, ◌▹◌}
use sharpn.Wire.Kinds.{
  double_kind, IsPlain, one_of-IsLawful, kind-Ends, Decoder, double_field-Reads,
}
use sharpn.Wire.Message.{Message}

pub record GamutPosition : Type 0 where
  pub x : ℕ
  pub y : ℕ

abbrev pub base : GamutPosition
base = record { x = 0; y = 0 }

-- What fits in the message.
pub record IsSendable (w : Wire) (m : GamutPosition) : Type 0 where
  pub x : IsPlain m.x
  pub y : IsPlain m.y

module _ (w : Wire) where
  abbrev pub encode : GamutPosition → Bytes
  encode m = double_field w 9 m.x ++ double_field w 17 m.y

  abbrev pub rows : ℕ → List (ℕ × (GamutPosition → Reader → Outcome GamutPosition))
  rows depth =
      (9, λ m r. read_into (λ v. record m { x = v }) (w.read_double r))
      ∷ (17, λ m r. read_into (λ v. record m { y = v }) (w.read_double r))
      ∷ []

  abbrev pub decoder : ℕ → Decoder GamutPosition
  decoder depth = record {
    base = base;
    cases = one_of (rows depth);
    lawful =
        one_of-IsLawful (rows depth)
          ((λ m. kind-Ends (double_kind w) _), ((λ m. kind-Ends (double_kind w) _), tt));
  }

  pub encode-Reads :
      (m : GamutPosition)
      → IsSendable w m
      → (depth : ℕ) → 0 + depth < 100
      → Reads w (one_of (rows depth)) (encode m) base m
  encode-Reads m fits depth fine =
      let m1 : GamutPosition = record base { x = m.x } in
      double_field-Reads w (decoder depth) 9 refl (λ v. record base { x = v }) m.x (λ r. refl)
        fits.x
      ▹ double_field-Reads w (decoder depth) 17 refl (λ v. record m1 { y = v }) m.y (λ r. refl)
          fits.y

  abbrev pub message : Message w GamutPosition
  message = record {
    encode = encode;
    decoder = decoder;
    IsSendable = IsSendable w;
    height = 0;
    reads = encode-Reads;
  }
