-- ===== src/Wire/Common/EffectsV2.antt =====
-- `EffectsV2` of apps/console-api/src/gen/hue/v1/common.ts in binary.
use sharpn.Prelude.{ℕ, ◌+◌, ◌<◌, refl, Option, none, some, List, [], ◌∷◌, ◌++◌, arith}
use sharpn.Wire.{Bytes, Reader, Wire, Outcome, one_of, optional_field}
use sharpn.Wire.Pieces.{Reads, ◌▹◌}
use sharpn.Wire.Kinds.{IfSome, one_of-IsLawful, Decoder}
use sharpn.Wire.Message.{Message, FitsWithin, within, within-Ends, write_within, maybe_within-Reads}
use sharpn.Wire.Common.EffectsV2Action.{EffectsV2Action}
use sharpn.Wire.Common.EffectsV2Action
use sharpn.Wire.Common.EffectsV2Status.{EffectsV2Status}
use sharpn.Wire.Common.EffectsV2Status

pub record EffectsV2 : Type 0 where
  pub action : Option EffectsV2Action
  pub status : Option EffectsV2Status

abbrev pub base : EffectsV2
base = record { action = none; status = none }

-- What fits in the message.
pub record IsSendable (w : Wire) (m : EffectsV2) : Type 0 where
  pub action : IfSome (FitsWithin (EffectsV2Action.message w)) m.action
  pub status : IfSome (FitsWithin (EffectsV2Status.message w)) m.status

module _ (w : Wire) where
  abbrev pub encode : EffectsV2 → Bytes
  encode m =
      optional_field w 10 (write_within (EffectsV2Action.message w)) m.action
      ++ optional_field w 18 (write_within (EffectsV2Status.message w)) m.status

  abbrev pub rows : ℕ → List (ℕ × (EffectsV2 → Reader → Outcome EffectsV2))
  rows depth =
      (10, λ m. within (EffectsV2Action.message w) depth (λ v. record m { action = some v }))
      ∷ (18, λ m. within (EffectsV2Status.message w) depth (λ v. record m { status = some v }))
      ∷ []

  abbrev pub decoder : ℕ → Decoder EffectsV2
  decoder depth = record {
    base = base;
    cases = one_of (rows depth);
    lawful = one_of-IsLawful (rows depth) (
      (λ m. within-Ends (EffectsV2Action.message w) depth _),
      ((λ m. within-Ends (EffectsV2Status.message w) depth _), tt),
    );
  }

  pub encode-Reads :
      (m : EffectsV2)
      → IsSendable w m
      → (depth : ℕ) → 4 + depth < 100
      → Reads w (one_of (rows depth)) (encode m) base m
  encode-Reads m fits depth fine =
      let m1 : EffectsV2 = record base { action = m.action } in
      maybe_within-Reads (EffectsV2Action.message w) (decoder depth) 10 refl depth
        (omega (arith, fine)) (λ v. record base { action = v }) m.action (λ r. refl) fits.action
      ▹ maybe_within-Reads (EffectsV2Status.message w) (decoder depth) 18 refl depth
          (omega (arith, fine)) (λ v. record m1 { status = v }) m.status (λ r. refl) fits.status

  abbrev pub message : Message w EffectsV2
  message = record {
    encode = encode;
    decoder = decoder;
    IsSendable = IsSendable w;
    height = 4;
    reads = encode-Reads;
  }
