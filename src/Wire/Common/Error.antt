-- ===== src/Wire/Common/Error.antt =====
-- `Error` of apps/console-api/src/gen/hue/v1/common.ts in binary.
use sharpn.Prelude.{ℕ, ◌+◌, ◌<◌, refl, List, [], ◌∷◌}
use sharpn.Prelude.Decimal.{Text}
use sharpn.Wire.{Bytes, Reader, Wire, Outcome, one_of, read_into, string_field}
use sharpn.Wire.Pieces.{Reads}
use sharpn.Wire.Fields.{IsWritten}
use sharpn.Wire.Kinds.{string_kind, one_of-IsLawful, kind-Ends, Decoder, string_field-Reads}
use sharpn.Wire.Message.{Message}

pub record Error : Type 0 where
  pub description : Text

abbrev pub base : Error
base = record { description = [] }

-- What fits in the message.
pub record IsSendable (w : Wire) (m : Error) : Type 0 where
  pub description : IsWritten w m.description

module _ (w : Wire) where
  abbrev pub encode : Error → Bytes
  encode m = string_field w 10 m.description

  abbrev pub rows : ℕ → List (ℕ × (Error → Reader → Outcome Error))
  rows depth = (10, λ m r. read_into (λ v. record m { description = v }) (w.read_string r)) ∷ []

  abbrev pub decoder : ℕ → Decoder Error
  decoder depth = record {
    base = base;
    cases = one_of (rows depth);
    lawful = one_of-IsLawful (rows depth) ((λ m. kind-Ends (string_kind w) _), tt);
  }

  pub encode-Reads :
      (m : Error)
      → IsSendable w m
      → (depth : ℕ) → 0 + depth < 100
      → Reads w (one_of (rows depth)) (encode m) base m
  encode-Reads m fits depth fine =
      string_field-Reads w (decoder depth) 10 refl (λ v. record base { description = v })
        m.description (λ r. refl) fits.description

  abbrev pub message : Message w Error
  message = record {
    encode = encode;
    decoder = decoder;
    IsSendable = IsSendable w;
    height = 0;
    reads = encode-Reads;
  }
