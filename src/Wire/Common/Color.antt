-- ===== src/Wire/Common/Color.antt =====
-- `Color` of apps/console-api/src/gen/hue/v1/common.ts in binary.
use sharpn.Prelude.{ℕ, ◌+◌, ◌<◌, refl, Option, none, some, List, [], ◌∷◌, arith}
use sharpn.Wire.{Bytes, Reader, Wire, Outcome, one_of, optional_field}
use sharpn.Wire.Pieces.{Reads}
use sharpn.Wire.Kinds.{IfSome, one_of-IsLawful, Decoder}
use sharpn.Wire.Message.{Message, FitsWithin, within, within-Ends, write_within, maybe_within-Reads}
use sharpn.Wire.Common.GamutPosition.{GamutPosition}
use sharpn.Wire.Common.GamutPosition

pub record Color : Type 0 where
  pub xy : Option GamutPosition

abbrev pub base : Color
base = record { xy = none }

-- What fits in the message.
pub record IsSendable (w : Wire) (m : Color) : Type 0 where
  pub xy : IfSome (FitsWithin (GamutPosition.message w)) m.xy

module _ (w : Wire) where
  abbrev pub encode : Color → Bytes
  encode m = optional_field w 10 (write_within (GamutPosition.message w)) m.xy

  abbrev pub rows : ℕ → List (ℕ × (Color → Reader → Outcome Color))
  rows depth =
      (10, λ m. within (GamutPosition.message w) depth (λ v. record m { xy = some v })) ∷ []

  abbrev pub decoder : ℕ → Decoder Color
  decoder depth = record {
    base = base;
    cases = one_of (rows depth);
    lawful =
        one_of-IsLawful (rows depth) ((λ m. within-Ends (GamutPosition.message w) depth _), tt);
  }

  pub encode-Reads :
      (m : Color)
      → IsSendable w m
      → (depth : ℕ) → 1 + depth < 100
      → Reads w (one_of (rows depth)) (encode m) base m
  encode-Reads m fits depth fine =
      maybe_within-Reads (GamutPosition.message w) (decoder depth) 10 refl depth
        (omega (arith, fine)) (λ v. record base { xy = v }) m.xy (λ r. refl) fits.xy

  abbrev pub message : Message w Color
  message = record {
    encode = encode;
    decoder = decoder;
    IsSendable = IsSendable w;
    height = 1;
    reads = encode-Reads;
  }
