-- ===== src/Wire/Common/PowerupDimming.antt =====
-- `Powerup_Dimming` of apps/console-api/src/gen/hue/v1/common.ts in binary.
use sharpn.Prelude.{ℕ, ◌+◌, ◌<◌, refl, Option, none, some, List, [], ◌∷◌, ◌++◌, arith}
use sharpn.Prelude.Int.{ℤ}
use sharpn.Wire.{Bytes, Reader, IsInt32, IsDouble, Wire, Outcome, one_of, read_into, optional_field}
use sharpn.Wire.Pieces.{Reads, ◌▹◌}
use sharpn.Wire.Kinds.{
  int32_kind, double_kind, IfSome, one_of-IsLawful, kind-Ends, Decoder, optional-Reads,
}
use sharpn.Wire.Message.{Message, FitsWithin, within, within-Ends, write_within, maybe_within-Reads}
use sharpn.Wire.Common.PowerupDimmingColor.{PowerupDimmingColor}
use sharpn.Wire.Common.PowerupDimmingColor

pub record PowerupDimming : Type 0 where
  pub mode : Option ℤ
  pub dimming : Option ℕ
  pub color : Option PowerupDimmingColor

abbrev pub base : PowerupDimming
base = record { mode = none; dimming = none; color = none }

-- What fits in the message.
pub record IsSendable (w : Wire) (m : PowerupDimming) : Type 0 where
  pub mode : IfSome IsInt32 m.mode
  pub dimming : IfSome IsDouble m.dimming
  pub color : IfSome (FitsWithin (PowerupDimmingColor.message w)) m.color

module _ (w : Wire) where
  abbrev pub encode : PowerupDimming → Bytes
  encode m =
      optional_field w 8 w.int32 m.mode
      ++ optional_field w 17 w.double m.dimming
      ++ optional_field w 26 (write_within (PowerupDimmingColor.message w)) m.color

  abbrev pub rows : ℕ → List (ℕ × (PowerupDimming → Reader → Outcome PowerupDimming))
  rows depth =
      (8, λ m r. read_into (λ v. record m { mode = some v }) (w.read_int32 r))
      ∷ (17, λ m r. read_into (λ v. record m { dimming = some v }) (w.read_double r))
      ∷ (26, λ m. within (PowerupDimmingColor.message w) depth (λ v. record m { color = some v }))
      ∷ []

  abbrev pub decoder : ℕ → Decoder PowerupDimming
  decoder depth = record {
    base = base;
    cases = one_of (rows depth);
    lawful = one_of-IsLawful (rows depth) (
      (λ m. kind-Ends (int32_kind w) _),
      (
        (λ m. kind-Ends (double_kind w) _),
        ((λ m. within-Ends (PowerupDimmingColor.message w) depth _), tt),
      ),
    );
  }

  pub encode-Reads :
      (m : PowerupDimming)
      → IsSendable w m
      → (depth : ℕ) → 4 + depth < 100
      → Reads w (one_of (rows depth)) (encode m) base m
  encode-Reads m fits depth fine =
      let m1 : PowerupDimming = record base { mode = m.mode } in
      let m2 : PowerupDimming = record m1 { dimming = m.dimming } in
      optional-Reads w (decoder depth) 8 refl (int32_kind w) (λ v. record base { mode = v }) m.mode
        (λ r. refl) fits.mode
      ▹ optional-Reads w (decoder depth) 17 refl (double_kind w) (λ v. record m1 { dimming = v })
          m.dimming (λ r. refl) fits.dimming
      ▹ maybe_within-Reads (PowerupDimmingColor.message w) (decoder depth) 26 refl depth
          (omega (arith, fine)) (λ v. record m2 { color = v }) m.color (λ r. refl) fits.color

  abbrev pub message : Message w PowerupDimming
  message = record {
    encode = encode;
    decoder = decoder;
    IsSendable = IsSendable w;
    height = 4;
    reads = encode-Reads;
  }
