-- ===== src/Wire/Common/EffectsV2Status.antt =====
-- `EffectsV2_Status` of apps/console-api/src/gen/hue/v1/common.ts in binary.
use sharpn.Prelude.{ℕ, ◌+◌, ◌<◌, refl, Option, none, some, List, [], ◌∷◌, ◌++◌, arith, length, All}
use sharpn.Prelude.Int.{ℤ}
use sharpn.Wire.{
  Bytes, Reader, limit, IsInt32, Wire, Outcome, one_of, read_into, unpack, optional_field,
  delimited, each,
}
use sharpn.Wire.Pieces.{Reads, ◌▹◌}
use sharpn.Wire.Packed.{unpack-Ends}
use sharpn.Wire.Kinds.{
  int32_kind, IfSome, one_of-IsLawful, kind-Ends, Decoder, optional-Reads, types-Reads,
}
use sharpn.Wire.Message.{Message, FitsWithin, within, within-Ends, write_within, maybe_within-Reads}
use sharpn.Wire.Common.EffectsV2Parameters.{EffectsV2Parameters}
use sharpn.Wire.Common.EffectsV2Parameters

pub record EffectsV2Status : Type 0 where
  pub effect : Option ℤ
  pub effect_values : List ℤ
  pub parameters : Option EffectsV2Parameters

abbrev pub base : EffectsV2Status
base = record { effect = none; effect_values = []; parameters = none }

-- What fits in the message.
pub record IsSendable (w : Wire) (m : EffectsV2Status) : Type 0 where
  pub effect : IfSome IsInt32 m.effect
  pub effect_values : All IsInt32 m.effect_values × (length (each w.int32 m.effect_values) < limit)
  pub parameters : IfSome (FitsWithin (EffectsV2Parameters.message w)) m.parameters

module _ (w : Wire) where
  abbrev pub encode : EffectsV2Status → Bytes
  encode m =
      optional_field w 8 w.int32 m.effect
      ++ (w.uint32 18 ++ delimited w (each w.int32 m.effect_values))
      ++ optional_field w 26 (write_within (EffectsV2Parameters.message w)) m.parameters

  abbrev pub rows : ℕ → List (ℕ × (EffectsV2Status → Reader → Outcome EffectsV2Status))
  rows depth =
      (8, λ m r. read_into (λ v. record m { effect = some v }) (w.read_int32 r))
      ∷ (
        16,
        λ m r.
            read_into (λ v. record m { effect_values = m.effect_values ++ v ∷ [] })
              (w.read_int32 r),
      )
      ∷ (
        18,
        λ m r. unpack w m.effect_values (λ vs. record m { effect_values = vs }) (w.read_uint32 r),
      )
      ∷ (
        26,
        λ m. within (EffectsV2Parameters.message w) depth (λ v. record m { parameters = some v }),
      )
      ∷ []

  abbrev pub decoder : ℕ → Decoder EffectsV2Status
  decoder depth = record {
    base = base;
    cases = one_of (rows depth);
    lawful = one_of-IsLawful (rows depth) (
      (λ m. kind-Ends (int32_kind w) _),
      (
        (λ m. kind-Ends (int32_kind w) _),
        (
          (λ m. unpack-Ends w m.effect_values _),
          ((λ m. within-Ends (EffectsV2Parameters.message w) depth _), tt),
        ),
      ),
    );
  }

  pub encode-Reads :
      (m : EffectsV2Status)
      → IsSendable w m
      → (depth : ℕ) → 3 + depth < 100
      → Reads w (one_of (rows depth)) (encode m) base m
  encode-Reads m fits depth fine =
      let m1 : EffectsV2Status = record base { effect = m.effect } in
      let m2 : EffectsV2Status = record m1 { effect_values = m.effect_values } in
      optional-Reads w (decoder depth) 8 refl (int32_kind w) (λ v. record base { effect = v })
        m.effect (λ r. refl) fits.effect
      ▹ types-Reads w (decoder depth) 18 refl (λ v. record m1 { effect_values = v }) m.effect_values
          (λ r. refl) fits.effect_values
      ▹ maybe_within-Reads (EffectsV2Parameters.message w) (decoder depth) 26 refl depth
          (omega (arith, fine)) (λ v. record m2 { parameters = v }) m.parameters (λ r. refl)
          fits.parameters

  abbrev pub message : Message w EffectsV2Status
  message = record {
    encode = encode;
    decoder = decoder;
    IsSendable = IsSendable w;
    height = 3;
    reads = encode-Reads;
  }
