-- ===== src/Wire/Lighting/LightGetSignaling.antt =====
-- `LightGet_Signaling` of apps/console-api/src/gen/hue/v1/lighting.ts in binary.
use sharpn.Prelude.{ℕ, ◌+◌, ◌<◌, refl, Option, none, some, List, [], ◌∷◌, ◌++◌, arith, length, All}
use sharpn.Prelude.Int.{ℤ}
use sharpn.Wire.{
  Bytes, Reader, limit, IsInt32, Wire, Outcome, one_of, read_into, unpack, optional_field,
  delimited, each,
}
use sharpn.Wire.Pieces.{Reads, ◌▹◌}
use sharpn.Wire.Packed.{unpack-Ends}
use sharpn.Wire.Kinds.{
  int32_kind, IfSome, one_of-IsLawful, kind-Ends, Decoder, optional-Reads, types-Reads,
}
use sharpn.Wire.Message.{Message, FitsWithin, within, within-Ends, write_within, list_within-Reads}
use sharpn.Wire.Common.Color.{Color}
use sharpn.Wire.Common.Color

pub record LightGetSignaling : Type 0 where
  pub signal_values : List ℤ
  pub estimated_end : Option ℤ
  pub colors : List Color

abbrev pub base : LightGetSignaling
base = record { signal_values = []; estimated_end = none; colors = [] }

-- What fits in the message.
pub record IsSendable (w : Wire) (m : LightGetSignaling) : Type 0 where
  pub signal_values : All IsInt32 m.signal_values × (length (each w.int32 m.signal_values) < limit)
  pub estimated_end : IfSome IsInt32 m.estimated_end
  pub colors : All (FitsWithin (Color.message w)) m.colors

module _ (w : Wire) where
  abbrev pub encode : LightGetSignaling → Bytes
  encode m =
      (w.uint32 10 ++ delimited w (each w.int32 m.signal_values))
      ++ optional_field w 16 w.int32 m.estimated_end
      ++ each (λ v. w.uint32 26 ++ write_within (Color.message w) v) m.colors

  abbrev pub rows : ℕ → List (ℕ × (LightGetSignaling → Reader → Outcome LightGetSignaling))
  rows depth =
      (
        8,
        λ m r.
            read_into (λ v. record m { signal_values = m.signal_values ++ v ∷ [] })
              (w.read_int32 r),
      )
      ∷ (
        10,
        λ m r. unpack w m.signal_values (λ vs. record m { signal_values = vs }) (w.read_uint32 r),
      )
      ∷ (16, λ m r. read_into (λ v. record m { estimated_end = some v }) (w.read_int32 r))
      ∷ (26, λ m. within (Color.message w) depth (λ v. record m { colors = m.colors ++ v ∷ [] }))
      ∷ []

  abbrev pub decoder : ℕ → Decoder LightGetSignaling
  decoder depth = record {
    base = base;
    cases = one_of (rows depth);
    lawful = one_of-IsLawful (rows depth) (
      (λ m. kind-Ends (int32_kind w) _),
      (
        (λ m. unpack-Ends w m.signal_values _),
        ((λ m. kind-Ends (int32_kind w) _), ((λ m. within-Ends (Color.message w) depth _), tt)),
      ),
    );
  }

  pub encode-Reads :
      (m : LightGetSignaling)
      → IsSendable w m
      → (depth : ℕ) → 2 + depth < 100
      → Reads w (one_of (rows depth)) (encode m) base m
  encode-Reads m fits depth fine =
      let m1 : LightGetSignaling = record base { signal_values = m.signal_values } in
      let m2 : LightGetSignaling = record m1 { estimated_end = m.estimated_end } in
      types-Reads w (decoder depth) 10 refl (λ v. record base { signal_values = v }) m.signal_values
        (λ r. refl) fits.signal_values
      ▹ optional-Reads w (decoder depth) 16 refl (int32_kind w)
          (λ v. record m1 { estimated_end = v }) m.estimated_end (λ r. refl) fits.estimated_end
      ▹ list_within-Reads (Color.message w) (decoder depth) 26 refl depth (omega (arith, fine))
          (λ v. record m2 { colors = v }) m.colors (λ vs r. refl) fits.colors

  abbrev pub message : Message w LightGetSignaling
  message = record {
    encode = encode;
    decoder = decoder;
    IsSendable = IsSendable w;
    height = 2;
    reads = encode-Reads;
  }
