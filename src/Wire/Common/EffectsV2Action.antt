-- ===== src/Wire/Common/EffectsV2Action.antt =====
-- `EffectsV2_Action` of apps/console-api/src/gen/hue/v1/common.ts in binary.
use sharpn.Prelude.{ℕ, ◌+◌, ◌<◌, refl, Option, none, some, List, [], ◌∷◌, ◌++◌, arith}
use sharpn.Prelude.Int.{ℤ}
use sharpn.Wire.{Bytes, Reader, IsInt32, Wire, Outcome, one_of, read_into, optional_field}
use sharpn.Wire.Pieces.{Reads, ◌▹◌}
use sharpn.Wire.Kinds.{int32_kind, IfSome, one_of-IsLawful, kind-Ends, Decoder, optional-Reads}
use sharpn.Wire.Message.{Message, FitsWithin, within, within-Ends, write_within, maybe_within-Reads}
use sharpn.Wire.Common.EffectsV2Parameters.{EffectsV2Parameters}
use sharpn.Wire.Common.EffectsV2Parameters

pub record EffectsV2Action : Type 0 where
  pub effect : Option ℤ
  pub parameters : Option EffectsV2Parameters

abbrev pub base : EffectsV2Action
base = record { effect = none; parameters = none }

-- What fits in the message.
pub record IsSendable (w : Wire) (m : EffectsV2Action) : Type 0 where
  pub effect : IfSome IsInt32 m.effect
  pub parameters : IfSome (FitsWithin (EffectsV2Parameters.message w)) m.parameters

module _ (w : Wire) where
  abbrev pub encode : EffectsV2Action → Bytes
  encode m =
      optional_field w 8 w.int32 m.effect
      ++ optional_field w 18 (write_within (EffectsV2Parameters.message w)) m.parameters

  abbrev pub rows : ℕ → List (ℕ × (EffectsV2Action → Reader → Outcome EffectsV2Action))
  rows depth =
      (8, λ m r. read_into (λ v. record m { effect = some v }) (w.read_int32 r))
      ∷ (
        18,
        λ m. within (EffectsV2Parameters.message w) depth (λ v. record m { parameters = some v }),
      )
      ∷ []

  abbrev pub decoder : ℕ → Decoder EffectsV2Action
  decoder depth = record {
    base = base;
    cases = one_of (rows depth);
    lawful = one_of-IsLawful (rows depth) (
      (λ m. kind-Ends (int32_kind w) _),
      ((λ m. within-Ends (EffectsV2Parameters.message w) depth _), tt),
    );
  }

  pub encode-Reads :
      (m : EffectsV2Action)
      → IsSendable w m
      → (depth : ℕ) → 3 + depth < 100
      → Reads w (one_of (rows depth)) (encode m) base m
  encode-Reads m fits depth fine =
      let m1 : EffectsV2Action = record base { effect = m.effect } in
      optional-Reads w (decoder depth) 8 refl (int32_kind w) (λ v. record base { effect = v })
        m.effect (λ r. refl) fits.effect
      ▹ maybe_within-Reads (EffectsV2Parameters.message w) (decoder depth) 18 refl depth
          (omega (arith, fine)) (λ v. record m1 { parameters = v }) m.parameters (λ r. refl)
          fits.parameters

  abbrev pub message : Message w EffectsV2Action
  message = record {
    encode = encode;
    decoder = decoder;
    IsSendable = IsSendable w;
    height = 3;
    reads = encode-Reads;
  }
