-- ===== src/Wire/Common/Alert.antt =====
-- `Alert` of apps/console-api/src/gen/hue/v1/common.ts in binary.
use sharpn.Prelude.{ℕ, ◌+◌, ◌<◌, refl, Option, none, some, List, [], ◌∷◌}
use sharpn.Prelude.Decimal.{Text}
use sharpn.Wire.{Bytes, Reader, Wire, Outcome, one_of, read_into, optional_field}
use sharpn.Wire.Pieces.{Reads}
use sharpn.Wire.Fields.{IsWritten}
use sharpn.Wire.Kinds.{string_kind, IfSome, one_of-IsLawful, kind-Ends, Decoder, optional-Reads}
use sharpn.Wire.Message.{Message}

pub record Alert : Type 0 where
  pub action : Option Text

abbrev pub base : Alert
base = record { action = none }

-- What fits in the message.
pub record IsSendable (w : Wire) (m : Alert) : Type 0 where
  pub action : IfSome (IsWritten w) m.action

module _ (w : Wire) where
  abbrev pub encode : Alert → Bytes
  encode m = optional_field w 10 w.string m.action

  abbrev pub rows : ℕ → List (ℕ × (Alert → Reader → Outcome Alert))
  rows depth = (10, λ m r. read_into (λ v. record m { action = some v }) (w.read_string r)) ∷ []

  abbrev pub decoder : ℕ → Decoder Alert
  decoder depth = record {
    base = base;
    cases = one_of (rows depth);
    lawful = one_of-IsLawful (rows depth) ((λ m. kind-Ends (string_kind w) _), tt);
  }

  pub encode-Reads :
      (m : Alert)
      → IsSendable w m
      → (depth : ℕ) → 0 + depth < 100
      → Reads w (one_of (rows depth)) (encode m) base m
  encode-Reads m fits depth fine =
      optional-Reads w (decoder depth) 10 refl (string_kind w) (λ v. record base { action = v })
        m.action (λ r. refl) fits.action

  abbrev pub message : Message w Alert
  message = record {
    encode = encode;
    decoder = decoder;
    IsSendable = IsSendable w;
    height = 0;
    reads = encode-Reads;
  }
