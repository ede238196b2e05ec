-- ===== src/Wire/Lighting/LightGetAlert.antt =====
-- `LightGet_Alert` of apps/console-api/src/gen/hue/v1/lighting.ts in binary.
use sharpn.Prelude.{ℕ, ◌+◌, ◌<◌, refl, List, [], ◌∷◌, ◌++◌, All}
use sharpn.Prelude.Decimal.{Text}
use sharpn.Wire.{Bytes, Reader, Wire, Outcome, one_of, read_into, each}
use sharpn.Wire.Pieces.{Reads}
use sharpn.Wire.Fields.{IsWritten}
use sharpn.Wire.Kinds.{string_kind, one_of-IsLawful, kind-Ends, Decoder, repeated-Reads}
use sharpn.Wire.Message.{Message}

pub record LightGetAlert : Type 0 where
  pub action_values : List Text

abbrev pub base : LightGetAlert
base = record { action_values = [] }

-- What fits in the message.
pub record IsSendable (w : Wire) (m : LightGetAlert) : Type 0 where
  pub action_values : All (IsWritten w) m.action_values

module _ (w : Wire) where
  abbrev pub encode : LightGetAlert → Bytes
  encode m = each (λ v. w.uint32 10 ++ w.string v) m.action_values

  abbrev pub rows : ℕ → List (ℕ × (LightGetAlert → Reader → Outcome LightGetAlert))
  rows depth =
      (
        10,
        λ m r.
            read_into (λ v. record m { action_values = m.action_values ++ v ∷ [] })
              (w.read_string r),
      )
      ∷ []

  abbrev pub decoder : ℕ → Decoder LightGetAlert
  decoder depth = record {
    base = base;
    cases = one_of (rows depth);
    lawful = one_of-IsLawful (rows depth) ((λ m. kind-Ends (string_kind w) _), tt);
  }

  pub encode-Reads :
      (m : LightGetAlert)
      → IsSendable w m
      → (depth : ℕ) → 0 + depth < 100
      → Reads w (one_of (rows depth)) (encode m) base m
  encode-Reads m fits depth fine =
      repeated-Reads w (decoder depth) 10 refl (string_kind w)
        (λ v. record base { action_values = v }) m.action_values (λ vs r. refl) fits.action_values

  abbrev pub message : Message w LightGetAlert
  message = record {
    encode = encode;
    decoder = decoder;
    IsSendable = IsSendable w;
    height = 0;
    reads = encode-Reads;
  }
