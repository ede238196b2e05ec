-- ===== src/Wire/Service/ListLightsResponse.antt =====
-- `ListLightsResponse` of apps/console-api/src/gen/hue/v1/lighting_service.ts in binary.
use sharpn.Prelude.{ℕ, ◌+◌, ◌<◌, refl, List, [], ◌∷◌, ◌++◌, arith, All}
use sharpn.Wire.{Bytes, Reader, Wire, Outcome, one_of, each}
use sharpn.Wire.Pieces.{Reads}
use sharpn.Wire.Kinds.{one_of-IsLawful, Decoder}
use sharpn.Wire.Message.{Message, FitsWithin, within, within-Ends, write_within, list_within-Reads}
use sharpn.Wire.Lighting.LightGet.{LightGet}
use sharpn.Wire.Lighting.LightGet.Reading

pub record ListLightsResponse : Type 0 where
  pub lights : List LightGet

abbrev pub base : ListLightsResponse
base = record { lights = [] }

-- What fits in the message.
pub record IsSendable (w : Wire) (m : ListLightsResponse) : Type 0 where
  pub lights : All (FitsWithin (Reading.message w)) m.lights

module _ (w : Wire) where
  abbrev pub encode : ListLightsResponse → Bytes
  encode m = each (λ v. w.uint32 10 ++ write_within (Reading.message w) v) m.lights

  abbrev pub rows : ℕ → List (ℕ × (ListLightsResponse → Reader → Outcome ListLightsResponse))
  rows depth =
      (10, λ m. within (Reading.message w) depth (λ v. record m { lights = m.lights ++ v ∷ [] }))
      ∷ []

  abbrev pub decoder : ℕ → Decoder ListLightsResponse
  decoder depth = record {
    base = base;
    cases = one_of (rows depth);
    lawful = one_of-IsLawful (rows depth) ((λ m. within-Ends (Reading.message w) depth _), tt);
  }

  pub encode-Reads :
      (m : ListLightsResponse)
      → IsSendable w m
      → (depth : ℕ) → 7 + depth < 100
      → Reads w (one_of (rows depth)) (encode m) base m
  encode-Reads m fits depth fine =
      list_within-Reads (Reading.message w) (decoder depth) 10 refl depth (omega (arith, fine))
        (λ v. record base { lights = v }) m.lights (λ vs r. refl) fits.lights

  abbrev pub message : Message w ListLightsResponse
  message = record {
    encode = encode;
    decoder = decoder;
    IsSendable = IsSendable w;
    height = 7;
    reads = encode-Reads;
  }
