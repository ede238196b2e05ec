-- ===== src/Wire/Common/Dimming.antt =====
-- `Dimming` of apps/console-api/src/gen/hue/v1/common.ts in binary.
use sharpn.Prelude.{ℕ, ◌+◌, ◌<◌, refl, List, [], ◌∷◌}
use sharpn.Wire.{Bytes, Reader, Wire, Outcome, one_of, read_into, double_field}
use sharpn.Wire.Pieces.{Reads}
use sharpn.Wire.Kinds.{
  double_kind, IsPlain, one_of-IsLawful, kind-Ends, Decoder, double_field-Reads,
}
use sharpn.Wire.Message.{Message}

pub record Dimming : Type 0 where
  pub brightness : ℕ

abbrev pub base : Dimming
base = record { brightness = 0 }

-- What fits in the message.
pub record IsSendable (w : Wire) (m : Dimming) : Type 0 where
  pub brightness : IsPlain m.brightness

module _ (w : Wire) where
  abbrev pub encode : Dimming → Bytes
  encode m = double_field w 9 m.brightness

  abbrev pub rows : ℕ → List (ℕ × (Dimming → Reader → Outcome Dimming))
  rows depth = (9, λ m r. read_into (λ v. record m { brightness = v }) (w.read_double r)) ∷ []

  abbrev pub decoder : ℕ → Decoder Dimming
  decoder depth = record {
    base = base;
    cases = one_of (rows depth);
    lawful = one_of-IsLawful (rows depth) ((λ m. kind-Ends (double_kind w) _), tt);
  }

  pub encode-Reads :
      (m : Dimming)
      → IsSendable w m
      → (depth : ℕ) → 0 + depth < 100
      → Reads w (one_of (rows depth)) (encode m) base m
  encode-Reads m fits depth fine =
      double_field-Reads w (decoder depth) 9 refl (λ v. record base { brightness = v }) m.brightness
        (λ r. refl) fits.brightness

  abbrev pub message : Message w Dimming
  message = record {
    encode = encode;
    decoder = decoder;
    IsSendable = IsSendable w;
    height = 0;
    reads = encode-Reads;
  }
