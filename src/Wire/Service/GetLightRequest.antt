-- ===== src/Wire/Service/GetLightRequest.antt =====
-- `GetLightRequest` of apps/console-api/src/gen/hue/v1/lighting_service.ts in binary.
use sharpn.Prelude.{ℕ, ◌+◌, ◌<◌, refl, List, [], ◌∷◌}
use sharpn.Prelude.Decimal.{Text}
use sharpn.Wire.{Bytes, Reader, Wire, Outcome, one_of, read_into, string_field}
use sharpn.Wire.Pieces.{Reads}
use sharpn.Wire.Fields.{IsWritten}
use sharpn.Wire.Kinds.{string_kind, one_of-IsLawful, kind-Ends, Decoder, string_field-Reads}
use sharpn.Wire.Message.{Message}

pub record GetLightRequest : Type 0 where
  pub light_id : Text

abbrev pub base : GetLightRequest
base = record { light_id = [] }

-- What fits in the message.
pub record IsSendable (w : Wire) (m : GetLightRequest) : Type 0 where
  pub light_id : IsWritten w m.light_id

module _ (w : Wire) where
  abbrev pub encode : GetLightRequest → Bytes
  encode m = string_field w 10 m.light_id

  abbrev pub rows : ℕ → List (ℕ × (GetLightRequest → Reader → Outcome GetLightRequest))
  rows depth = (10, λ m r. read_into (λ v. record m { light_id = v }) (w.read_string r)) ∷ []

  abbrev pub decoder : ℕ → Decoder GetLightRequest
  decoder depth = record {
    base = base;
    cases = one_of (rows depth);
    lawful = one_of-IsLawful (rows depth) ((λ m. kind-Ends (string_kind w) _), tt);
  }

  pub encode-Reads :
      (m : GetLightRequest)
      → IsSendable w m
      → (depth : ℕ) → 0 + depth < 100
      → Reads w (one_of (rows depth)) (encode m) base m
  encode-Reads m fits depth fine =
      string_field-Reads w (decoder depth) 10 refl (λ v. record base { light_id = v }) m.light_id
        (λ r. refl) fits.light_id

  abbrev pub message : Message w GetLightRequest
  message = record {
    encode = encode;
    decoder = decoder;
    IsSendable = IsSendable w;
    height = 0;
    reads = encode-Reads;
  }
