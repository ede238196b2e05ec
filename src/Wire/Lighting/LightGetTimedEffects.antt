-- ===== src/Wire/Lighting/LightGetTimedEffects.antt =====
-- `LightGet_TimedEffects` of apps/console-api/src/gen/hue/v1/lighting.ts in binary.
use sharpn.Prelude.{ℕ, ◌+◌, ◌<◌, refl, Option, none, some, List, [], ◌∷◌, ◌++◌, length, All}
use sharpn.Prelude.Int.{ℤ}
use sharpn.Wire.{
  Bytes, Reader, limit, IsInt32, Wire, Outcome, one_of, read_into, unpack, optional_field,
  delimited, each,
}
use sharpn.Wire.Pieces.{Reads, ◌▹◌}
use sharpn.Wire.Packed.{unpack-Ends}
use sharpn.Wire.Kinds.{
  int32_kind, IfSome, one_of-IsLawful, kind-Ends, Decoder, optional-Reads, types-Reads,
}
use sharpn.Wire.Message.{Message}

pub record LightGetTimedEffects : Type 0 where
  pub effect : Option ℤ
  pub effect_values : List ℤ
  pub status : Option ℤ
  pub status_values : List ℤ
  pub duration : Option ℤ

abbrev pub base : LightGetTimedEffects
base = record {
  effect = none;
  effect_values = [];
  status = none;
  status_values = [];
  duration = none;
}

-- What fits in the message.
pub record IsSendable (w : Wire) (m : LightGetTimedEffects) : Type 0 where
  pub effect : IfSome IsInt32 m.effect
  pub effect_values : All IsInt32 m.effect_values × (length (each w.int32 m.effect_values) < limit)
  pub status : IfSome IsInt32 m.status
  pub status_values : All IsInt32 m.status_values × (length (each w.int32 m.status_values) < limit)
  pub duration : IfSome IsInt32 m.duration

module _ (w : Wire) where
  abbrev pub encode : LightGetTimedEffects → Bytes
  encode m =
      optional_field w 8 w.int32 m.effect
      ++ (w.uint32 18 ++ delimited w (each w.int32 m.effect_values))
      ++ optional_field w 24 w.int32 m.status
      ++ (w.uint32 34 ++ delimited w (each w.int32 m.status_values))
      ++ optional_field w 40 w.int32 m.duration

  abbrev pub rows : ℕ → List (ℕ × (LightGetTimedEffects → Reader → Outcome LightGetTimedEffects))
  rows depth =
      (8, λ m r. read_into (λ v. record m { effect = some v }) (w.read_int32 r))
      ∷ (
        16,
        λ m r.
            read_into (λ v. record m { effect_values = m.effect_values ++ v ∷ [] })
              (w.read_int32 r),
      )
      ∷ (
        18,
        λ m r. unpack w m.effect_values (λ vs. record m { effect_values = vs }) (w.read_uint32 r),
      )
      ∷ (24, λ m r. read_into (λ v. record m { status = some v }) (w.read_int32 r))
      ∷ (
        32,
        λ m r.
            read_into (λ v. record m { status_values = m.status_values ++ v ∷ [] })
              (w.read_int32 r),
      )
      ∷ (
        34,
        λ m r. unpack w m.status_values (λ vs. record m { status_values = vs }) (w.read_uint32 r),
      )
      ∷ (40, λ m r. read_into (λ v. record m { duration = some v }) (w.read_int32 r))
      ∷ []

  abbrev pub decoder : ℕ → Decoder LightGetTimedEffects
  decoder depth = record {
    base = base;
    cases = one_of (rows depth);
    lawful = one_of-IsLawful (rows depth) (
      (λ m. kind-Ends (int32_kind w) _),
      (
        (λ m. kind-Ends (int32_kind w) _),
        (
          (λ m. unpack-Ends w m.effect_values _),
          (
            (λ m. kind-Ends (int32_kind w) _),
            (
              (λ m. kind-Ends (int32_kind w) _),
              ((λ m. unpack-Ends w m.status_values _), ((λ m. kind-Ends (int32_kind w) _), tt)),
            ),
          ),
        ),
      ),
    );
  }

  pub encode-Reads :
      (m : LightGetTimedEffects)
      → IsSendable w m
      → (depth : ℕ) → 0 + depth < 100
      → Reads w (one_of (rows depth)) (encode m) base m
  encode-Reads m fits depth fine =
      let m1 : LightGetTimedEffects = record base { effect = m.effect } in
      let m2 : LightGetTimedEffects = record m1 { effect_values = m.effect_values } in
      let m3 : LightGetTimedEffects = record m2 { status = m.status } in
      let m4 : LightGetTimedEffects = record m3 { status_values = m.status_values } in
      optional-Reads w (decoder depth) 8 refl (int32_kind w) (λ v. record base { effect = v })
        m.effect (λ r. refl) fits.effect
      ▹ types-Reads w (decoder depth) 18 refl (λ v. record m1 { effect_values = v }) m.effect_values
          (λ r. refl) fits.effect_values
      ▹ optional-Reads w (decoder depth) 24 refl (int32_kind w) (λ v. record m2 { status = v })
          m.status (λ r. refl) fits.status
      ▹ types-Reads w (decoder depth) 34 refl (λ v. record m3 { status_values = v }) m.status_values
          (λ r. refl) fits.status_values
      ▹ optional-Reads w (decoder depth) 40 refl (int32_kind w) (λ v. record m4 { duration = v })
          m.duration (λ r. refl) fits.duration

  abbrev pub message : Message w LightGetTimedEffects
  message = record {
    encode = encode;
    decoder = decoder;
    IsSendable = IsSendable w;
    height = 0;
    reads = encode-Reads;
  }
