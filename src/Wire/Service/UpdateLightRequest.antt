-- ===== src/Wire/Service/UpdateLightRequest.antt =====
-- `UpdateLightRequest` of apps/console-api/src/gen/hue/v1/lighting_service.ts in binary.
use sharpn.Prelude.{ℕ, ◌+◌, ◌<◌, refl, Option, none, some, List, [], ◌∷◌, ◌++◌, arith}
use sharpn.Prelude.Decimal.{Text}
use sharpn.Wire.{Bytes, Reader, Wire, Outcome, one_of, read_into, string_field, optional_field}
use sharpn.Wire.Pieces.{Reads, ◌▹◌}
use sharpn.Wire.Fields.{IsWritten}
use sharpn.Wire.Kinds.{string_kind, IfSome, one_of-IsLawful, kind-Ends, Decoder, string_field-Reads}
use sharpn.Wire.Message.{Message, FitsWithin, within, within-Ends, write_within, maybe_within-Reads}
use sharpn.Wire.Lighting.LightPut.{LightPut}
use sharpn.Wire.Lighting.LightPut.Reading

pub record UpdateLightRequest : Type 0 where
  pub light_id : Text
  pub command : Option LightPut

abbrev pub base : UpdateLightRequest
base = record { light_id = []; command = none }

-- What fits in the message.
pub record IsSendable (w : Wire) (m : UpdateLightRequest) : Type 0 where
  pub light_id : IsWritten w m.light_id
  pub command : IfSome (FitsWithin (Reading.message w)) m.command

module _ (w : Wire) where
  abbrev pub encode : UpdateLightRequest → Bytes
  encode m =
      string_field w 10 m.light_id
      ++ optional_field w 18 (write_within (Reading.message w)) m.command

  abbrev pub rows : ℕ → List (ℕ × (UpdateLightRequest → Reader → Outcome UpdateLightRequest))
  rows depth =
      (10, λ m r. read_into (λ v. record m { light_id = v }) (w.read_string r))
      ∷ (18, λ m. within (Reading.message w) depth (λ v. record m { command = some v }))
      ∷ []

  abbrev pub decoder : ℕ → Decoder UpdateLightRequest
  decoder depth = record {
    base = base;
    cases = one_of (rows depth);
    lawful =
        one_of-IsLawful (rows depth) (
          (λ m. kind-Ends (string_kind w) _),
          ((λ m. within-Ends (Reading.message w) depth _), tt),
        );
  }

  pub encode-Reads :
      (m : UpdateLightRequest)
      → IsSendable w m
      → (depth : ℕ) → 7 + depth < 100
      → Reads w (one_of (rows depth)) (encode m) base m
  encode-Reads m fits depth fine =
      let m1 : UpdateLightRequest = record base { light_id = m.light_id } in
      string_field-Reads w (decoder depth) 10 refl (λ v. record base { light_id = v }) m.light_id
        (λ r. refl) fits.light_id
      ▹ maybe_within-Reads (Reading.message w) (decoder depth) 18 refl depth (omega (arith, fine))
          (λ v. record m1 { command = v }) m.command (λ r. refl) fits.command

  abbrev pub message : Message w UpdateLightRequest
  message = record {
    encode = encode;
    decoder = decoder;
    IsSendable = IsSendable w;
    height = 7;
    reads = encode-Reads;
  }
