-- ===== src/Wire/Lighting/LightGetDynamics.antt =====
-- `LightGet_Dynamics` of apps/console-api/src/gen/hue/v1/lighting.ts in binary.
use sharpn.Prelude.{ℕ, ◌+◌, ◌<◌, refl, Bool, Option, none, some, List, [], ◌∷◌, ◌++◌, length, All}
use sharpn.Prelude.Int.{ℤ}
use sharpn.Wire.{
  Bytes, Reader, limit, IsInt32, IsDouble, Wire, Outcome, one_of, read_into, unpack, optional_field,
  delimited, each,
}
use sharpn.Wire.Pieces.{Reads, ◌▹◌}
use sharpn.Wire.Packed.{unpack-Ends}
use sharpn.Wire.Kinds.{
  int32_kind, double_kind, bool_kind, IfSome, any_bool, one_of-IsLawful, kind-Ends, Decoder,
  optional-Reads, types-Reads,
}
use sharpn.Wire.Message.{Message}

pub record LightGetDynamics : Type 0 where
  pub status : Option ℤ
  pub status_values : List ℤ
  pub speed : Option ℕ
  pub speed_valid : Option Bool

abbrev pub base : LightGetDynamics
base = record { status = none; status_values = []; speed = none; speed_valid = none }

-- What fits in the message.
pub record IsSendable (w : Wire) (m : LightGetDynamics) : Type 0 where
  pub status : IfSome IsInt32 m.status
  pub status_values : All IsInt32 m.status_values × (length (each w.int32 m.status_values) < limit)
  pub speed : IfSome IsDouble m.speed

module _ (w : Wire) where
  abbrev pub encode : LightGetDynamics → Bytes
  encode m =
      optional_field w 8 w.int32 m.status
      ++ (w.uint32 18 ++ delimited w (each w.int32 m.status_values))
      ++ optional_field w 25 w.double m.speed
      ++ optional_field w 32 w.bool m.speed_valid

  abbrev pub rows : ℕ → List (ℕ × (LightGetDynamics → Reader → Outcome LightGetDynamics))
  rows depth =
      (8, λ m r. read_into (λ v. record m { status = some v }) (w.read_int32 r))
      ∷ (
        16,
        λ m r.
            read_into (λ v. record m { status_values = m.status_values ++ v ∷ [] })
              (w.read_int32 r),
      )
      ∷ (
        18,
        λ m r. unpack w m.status_values (λ vs. record m { status_values = vs }) (w.read_uint32 r),
      )
      ∷ (25, λ m r. read_into (λ v. record m { speed = some v }) (w.read_double r))
      ∷ (32, λ m r. read_into (λ v. record m { speed_valid = some v }) (w.read_bool r))
      ∷ []

  abbrev pub decoder : ℕ → Decoder LightGetDynamics
  decoder depth = record {
    base = base;
    cases = one_of (rows depth);
    lawful = one_of-IsLawful (rows depth) (
      (λ m. kind-Ends (int32_kind w) _),
      (
        (λ m. kind-Ends (int32_kind w) _),
        (
          (λ m. unpack-Ends w m.status_values _),
          ((λ m. kind-Ends (double_kind w) _), ((λ m. kind-Ends (bool_kind w) _), tt)),
        ),
      ),
    );
  }

  pub encode-Reads :
      (m : LightGetDynamics)
      → IsSendable w m
      → (depth : ℕ) → 0 + depth < 100
      → Reads w (one_of (rows depth)) (encode m) base m
  encode-Reads m fits depth fine =
      let m1 : LightGetDynamics = record base { status = m.status } in
      let m2 : LightGetDynamics = record m1 { status_values = m.status_values } in
      let m3 : LightGetDynamics = record m2 { speed = m.speed } in
      optional-Reads w (decoder depth) 8 refl (int32_kind w) (λ v. record base { status = v })
        m.status (λ r. refl) fits.status
      ▹ types-Reads w (decoder depth) 18 refl (λ v. record m1 { status_values = v }) m.status_values
          (λ r. refl) fits.status_values
      ▹ optional-Reads w (decoder depth) 25 refl (double_kind w) (λ v. record m2 { speed = v })
          m.speed (λ r. refl) fits.speed
      ▹ optional-Reads w (decoder depth) 32 refl (bool_kind w) (λ v. record m3 { speed_valid = v })
          m.speed_valid (λ r. refl) (any_bool m.speed_valid)

  abbrev pub message : Message w LightGetDynamics
  message = record {
    encode = encode;
    decoder = decoder;
    IsSendable = IsSendable w;
    height = 0;
    reads = encode-Reads;
  }
