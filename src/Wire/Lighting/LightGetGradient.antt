-- ===== src/Wire/Lighting/LightGetGradient.antt =====
-- `LightGet_Gradient` of apps/console-api/src/gen/hue/v1/lighting.ts in binary.
use sharpn.Prelude.{ℕ, ◌+◌, ◌<◌, refl, Option, none, some, List, [], ◌∷◌, ◌++◌, arith, length, All}
use sharpn.Prelude.Int.{ℤ}
use sharpn.Wire.{
  Bytes, Reader, limit, IsInt32, Wire, Outcome, one_of, read_into, unpack, optional_field,
  delimited, each,
}
use sharpn.Wire.Pieces.{Reads, ◌▹◌}
use sharpn.Wire.Packed.{unpack-Ends}
use sharpn.Wire.Kinds.{
  int32_kind, IfSome, one_of-IsLawful, kind-Ends, Decoder, optional-Reads, types-Reads,
}
use sharpn.Wire.Message.{Message, FitsWithin, within, within-Ends, write_within, list_within-Reads}
use sharpn.Wire.Common.Color.{Color}
use sharpn.Wire.Common.Color

pub record LightGetGradient : Type 0 where
  pub points : List Color
  pub mode : Option ℤ
  pub points_capable : Option ℤ
  pub mode_values : List ℤ
  pub pixel_count : Option ℤ

abbrev pub base : LightGetGradient
base = record {
  points = [];
  mode = none;
  points_capable = none;
  mode_values = [];
  pixel_count = none;
}

-- What fits in the message.
pub record IsSendable (w : Wire) (m : LightGetGradient) : Type 0 where
  pub points : All (FitsWithin (Color.message w)) m.points
  pub mode : IfSome IsInt32 m.mode
  pub points_capable : IfSome IsInt32 m.points_capable
  pub mode_values : All IsInt32 m.mode_values × (length (each w.int32 m.mode_values) < limit)
  pub pixel_count : IfSome IsInt32 m.pixel_count

module _ (w : Wire) where
  abbrev pub encode : LightGetGradient → Bytes
  encode m =
      each (λ v. w.uint32 10 ++ write_within (Color.message w) v) m.points
      ++ optional_field w 16 w.int32 m.mode
      ++ optional_field w 24 w.int32 m.points_capable
      ++ (w.uint32 34 ++ delimited w (each w.int32 m.mode_values))
      ++ optional_field w 40 w.int32 m.pixel_count

  abbrev pub rows : ℕ → List (ℕ × (LightGetGradient → Reader → Outcome LightGetGradient))
  rows depth =
      (10, λ m. within (Color.message w) depth (λ v. record m { points = m.points ++ v ∷ [] }))
      ∷ (16, λ m r. read_into (λ v. record m { mode = some v }) (w.read_int32 r))
      ∷ (24, λ m r. read_into (λ v. record m { points_capable = some v }) (w.read_int32 r))
      ∷ (
        32,
        λ m r. read_into (λ v. record m { mode_values = m.mode_values ++ v ∷ [] }) (w.read_int32 r),
      )
      ∷ (34, λ m r. unpack w m.mode_values (λ vs. record m { mode_values = vs }) (w.read_uint32 r))
      ∷ (40, λ m r. read_into (λ v. record m { pixel_count = some v }) (w.read_int32 r))
      ∷ []

  abbrev pub decoder : ℕ → Decoder LightGetGradient
  decoder depth = record {
    base = base;
    cases = one_of (rows depth);
    lawful = one_of-IsLawful (rows depth) (
      (λ m. within-Ends (Color.message w) depth _),
      (
        (λ m. kind-Ends (int32_kind w) _),
        (
          (λ m. kind-Ends (int32_kind w) _),
          (
            (λ m. kind-Ends (int32_kind w) _),
            ((λ m. unpack-Ends w m.mode_values _), ((λ m. kind-Ends (int32_kind w) _), tt)),
          ),
        ),
      ),
    );
  }

  pub encode-Reads :
      (m : LightGetGradient)
      → IsSendable w m
      → (depth : ℕ) → 2 + depth < 100
      → Reads w (one_of (rows depth)) (encode m) base m
  encode-Reads m fits depth fine =
      let m1 : LightGetGradient = record base { points = m.points } in
      let m2 : LightGetGradient = record m1 { mode = m.mode } in
      let m3 : LightGetGradient = record m2 { points_capable = m.points_capable } in
      let m4 : LightGetGradient = record m3 { mode_values = m.mode_values } in
      list_within-Reads (Color.message w) (decoder depth) 10 refl depth (omega (arith, fine))
        (λ v. record base { points = v }) m.points (λ vs r. refl) fits.points
      ▹ optional-Reads w (decoder depth) 16 refl (int32_kind w) (λ v. record m1 { mode = v }) m.mode
          (λ r. refl) fits.mode
      ▹ optional-Reads w (decoder depth) 24 refl (int32_kind w)
          (λ v. record m2 { points_capable = v }) m.points_capable (λ r. refl) fits.points_capable
      ▹ types-Reads w (decoder depth) 34 refl (λ v. record m3 { mode_values = v }) m.mode_values
          (λ r. refl) fits.mode_values
      ▹ optional-Reads w (decoder depth) 40 refl (int32_kind w) (λ v. record m4 { pixel_count = v })
          m.pixel_count (λ r. refl) fits.pixel_count

  abbrev pub message : Message w LightGetGradient
  message = record {
    encode = encode;
    decoder = decoder;
    IsSendable = IsSendable w;
    height = 2;
    reads = encode-Reads;
  }
