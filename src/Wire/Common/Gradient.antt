-- ===== src/Wire/Common/Gradient.antt =====
-- `Gradient` of apps/console-api/src/gen/hue/v1/common.ts in binary.
use sharpn.Prelude.{ℕ, ◌+◌, ◌<◌, refl, Option, none, some, List, [], ◌∷◌, ◌++◌, arith, All}
use sharpn.Prelude.Int.{ℤ}
use sharpn.Wire.{Bytes, Reader, IsInt32, Wire, Outcome, one_of, read_into, optional_field, each}
use sharpn.Wire.Pieces.{Reads, ◌▹◌}
use sharpn.Wire.Kinds.{int32_kind, IfSome, one_of-IsLawful, kind-Ends, Decoder, optional-Reads}
use sharpn.Wire.Message.{Message, FitsWithin, within, within-Ends, write_within, list_within-Reads}
use sharpn.Wire.Common.Color.{Color}
use sharpn.Wire.Common.Color

pub record Gradient : Type 0 where
  pub points : List Color
  pub mode : Option ℤ

abbrev pub base : Gradient
base = record { points = []; mode = none }

-- What fits in the message.
pub record IsSendable (w : Wire) (m : Gradient) : Type 0 where
  pub points : All (FitsWithin (Color.message w)) m.points
  pub mode : IfSome IsInt32 m.mode

module _ (w : Wire) where
  abbrev pub encode : Gradient → Bytes
  encode m =
      each (λ v. w.uint32 10 ++ write_within (Color.message w) v) m.points
      ++ optional_field w 16 w.int32 m.mode

  abbrev pub rows : ℕ → List (ℕ × (Gradient → Reader → Outcome Gradient))
  rows depth =
      (10, λ m. within (Color.message w) depth (λ v. record m { points = m.points ++ v ∷ [] }))
      ∷ (16, λ m r. read_into (λ v. record m { mode = some v }) (w.read_int32 r))
      ∷ []

  abbrev pub decoder : ℕ → Decoder Gradient
  decoder depth = record {
    base = base;
    cases = one_of (rows depth);
    lawful =
        one_of-IsLawful (rows depth)
          ((λ m. within-Ends (Color.message w) depth _), ((λ m. kind-Ends (int32_kind w) _), tt));
  }

  pub encode-Reads :
      (m : Gradient)
      → IsSendable w m
      → (depth : ℕ) → 2 + depth < 100
      → Reads w (one_of (rows depth)) (encode m) base m
  encode-Reads m fits depth fine =
      let m1 : Gradient = record base { points = m.points } in
      list_within-Reads (Color.message w) (decoder depth) 10 refl depth (omega (arith, fine))
        (λ v. record base { points = v }) m.points (λ vs r. refl) fits.points
      ▹ optional-Reads w (decoder depth) 16 refl (int32_kind w) (λ v. record m1 { mode = v }) m.mode
          (λ r. refl) fits.mode

  abbrev pub message : Message w Gradient
  message = record {
    encode = encode;
    decoder = decoder;
    IsSendable = IsSendable w;
    height = 2;
    reads = encode-Reads;
  }
