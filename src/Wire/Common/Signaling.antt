-- ===== src/Wire/Common/Signaling.antt =====
-- `Signaling` of apps/console-api/src/gen/hue/v1/common.ts in binary.
use sharpn.Prelude.{ℕ, ◌+◌, ◌<◌, refl, Option, none, some, List, [], ◌∷◌, ◌++◌, arith, All}
use sharpn.Prelude.Int.{ℤ}
use sharpn.Wire.{Bytes, Reader, IsInt32, Wire, Outcome, one_of, read_into, optional_field, each}
use sharpn.Wire.Pieces.{Reads, ◌▹◌}
use sharpn.Wire.Kinds.{int32_kind, IfSome, one_of-IsLawful, kind-Ends, Decoder, optional-Reads}
use sharpn.Wire.Message.{Message, FitsWithin, within, within-Ends, write_within, list_within-Reads}
use sharpn.Wire.Common.Color.{Color}
use sharpn.Wire.Common.Color

pub record Signaling : Type 0 where
  pub signal : Option ℤ
  pub duration : Option ℤ
  pub color : List Color

abbrev pub base : Signaling
base = record { signal = none; duration = none; color = [] }

-- What fits in the message.
pub record IsSendable (w : Wire) (m : Signaling) : Type 0 where
  pub signal : IfSome IsInt32 m.signal
  pub duration : IfSome IsInt32 m.duration
  pub color : All (FitsWithin (Color.message w)) m.color

module _ (w : Wire) where
  abbrev pub encode : Signaling → Bytes
  encode m =
      optional_field w 8 w.int32 m.signal
      ++ optional_field w 16 w.int32 m.duration
      ++ each (λ v. w.uint32 26 ++ write_within (Color.message w) v) m.color

  abbrev pub rows : ℕ → List (ℕ × (Signaling → Reader → Outcome Signaling))
  rows depth =
      (8, λ m r. read_into (λ v. record m { signal = some v }) (w.read_int32 r))
      ∷ (16, λ m r. read_into (λ v. record m { duration = some v }) (w.read_int32 r))
      ∷ (26, λ m. within (Color.message w) depth (λ v. record m { color = m.color ++ v ∷ [] }))
      ∷ []

  abbrev pub decoder : ℕ → Decoder Signaling
  decoder depth = record {
    base = base;
    cases = one_of (rows depth);
    lawful = one_of-IsLawful (rows depth) (
      (λ m. kind-Ends (int32_kind w) _),
      ((λ m. kind-Ends (int32_kind w) _), ((λ m. within-Ends (Color.message w) depth _), tt)),
    );
  }

  pub encode-Reads :
      (m : Signaling)
      → IsSendable w m
      → (depth : ℕ) → 2 + depth < 100
      → Reads w (one_of (rows depth)) (encode m) base m
  encode-Reads m fits depth fine =
      let m1 : Signaling = record base { signal = m.signal } in
      let m2 : Signaling = record m1 { duration = m.duration } in
      optional-Reads w (decoder depth) 8 refl (int32_kind w) (λ v. record base { signal = v })
        m.signal (λ r. refl) fits.signal
      ▹ optional-Reads w (decoder depth) 16 refl (int32_kind w) (λ v. record m1 { duration = v })
          m.duration (λ r. refl) fits.duration
      ▹ list_within-Reads (Color.message w) (decoder depth) 26 refl depth (omega (arith, fine))
          (λ v. record m2 { color = v }) m.color (λ vs r. refl) fits.color

  abbrev pub message : Message w Signaling
  message = record {
    encode = encode;
    decoder = decoder;
    IsSendable = IsSendable w;
    height = 2;
    reads = encode-Reads;
  }
