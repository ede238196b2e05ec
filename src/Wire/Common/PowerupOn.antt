-- ===== src/Wire/Common/PowerupOn.antt =====
-- `Powerup_On` of apps/console-api/src/gen/hue/v1/common.ts in binary.
use sharpn.Prelude.{ℕ, ◌+◌, ◌<◌, refl, Option, none, some, List, [], ◌∷◌, ◌++◌, arith}
use sharpn.Prelude.Int.{ℤ}
use sharpn.Wire.{Bytes, Reader, IsInt32, Wire, Outcome, one_of, read_into, optional_field}
use sharpn.Wire.Pieces.{Reads, ◌▹◌}
use sharpn.Wire.Kinds.{int32_kind, IfSome, one_of-IsLawful, kind-Ends, Decoder, optional-Reads}
use sharpn.Wire.Message.{Message, FitsWithin, within, within-Ends, write_within, maybe_within-Reads}
use sharpn.Wire.Common.On.{On}
use sharpn.Wire.Common.On

pub record PowerupOn : Type 0 where
  pub mode : Option ℤ
  pub on : Option On

abbrev pub base : PowerupOn
base = record { mode = none; on = none }

-- What fits in the message.
pub record IsSendable (w : Wire) (m : PowerupOn) : Type 0 where
  pub mode : IfSome IsInt32 m.mode
  pub on : IfSome (FitsWithin (On.message w)) m.on

module _ (w : Wire) where
  abbrev pub encode : PowerupOn → Bytes
  encode m =
      optional_field w 8 w.int32 m.mode ++ optional_field w 18 (write_within (On.message w)) m.on

  abbrev pub rows : ℕ → List (ℕ × (PowerupOn → Reader → Outcome PowerupOn))
  rows depth =
      (8, λ m r. read_into (λ v. record m { mode = some v }) (w.read_int32 r))
      ∷ (18, λ m. within (On.message w) depth (λ v. record m { on = some v }))
      ∷ []

  abbrev pub decoder : ℕ → Decoder PowerupOn
  decoder depth = record {
    base = base;
    cases = one_of (rows depth);
    lawful =
        one_of-IsLawful (rows depth)
          ((λ m. kind-Ends (int32_kind w) _), ((λ m. within-Ends (On.message w) depth _), tt));
  }

  pub encode-Reads :
      (m : PowerupOn)
      → IsSendable w m
      → (depth : ℕ) → 1 + depth < 100
      → Reads w (one_of (rows depth)) (encode m) base m
  encode-Reads m fits depth fine =
      let m1 : PowerupOn = record base { mode = m.mode } in
      optional-Reads w (decoder depth) 8 refl (int32_kind w) (λ v. record base { mode = v }) m.mode
        (λ r. refl) fits.mode
      ▹ maybe_within-Reads (On.message w) (decoder depth) 18 refl depth (omega (arith, fine))
          (λ v. record m1 { on = v }) m.on (λ r. refl) fits.on

  abbrev pub message : Message w PowerupOn
  message = record {
    encode = encode;
    decoder = decoder;
    IsSendable = IsSendable w;
    height = 1;
    reads = encode-Reads;
  }
