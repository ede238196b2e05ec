-- ===== src/Wire/Service/MutationResponse.antt =====
-- `MutationResponse` of apps/console-api/src/gen/hue/v1/lighting_service.ts in binary.
use sharpn.Prelude.{ℕ, ◌+◌, ◌<◌, refl, List, [], ◌∷◌, ◌++◌, arith, All}
use sharpn.Wire.{Bytes, Reader, Wire, Outcome, one_of, each}
use sharpn.Wire.Pieces.{Reads, ◌▹◌}
use sharpn.Wire.Kinds.{one_of-IsLawful, Decoder}
use sharpn.Wire.Message.{Message, FitsWithin, within, within-Ends, write_within, list_within-Reads}
use sharpn.Wire.Common.ResourceIdentifier.{ResourceIdentifier}
use sharpn.Wire.Common.ResourceIdentifier
use sharpn.Wire.Common.Error.{Error}
use sharpn.Wire.Common.Error

pub record MutationResponse : Type 0 where
  pub updated : List ResourceIdentifier
  pub errors : List Error

abbrev pub base : MutationResponse
base = record { updated = []; errors = [] }

-- What fits in the message.
pub record IsSendable (w : Wire) (m : MutationResponse) : Type 0 where
  pub updated : All (FitsWithin (ResourceIdentifier.message w)) m.updated
  pub errors : All (FitsWithin (Error.message w)) m.errors

module _ (w : Wire) where
  abbrev pub encode : MutationResponse → Bytes
  encode m =
      each (λ v. w.uint32 10 ++ write_within (ResourceIdentifier.message w) v) m.updated
      ++ each (λ v. w.uint32 18 ++ write_within (Error.message w) v) m.errors

  abbrev pub rows : ℕ → List (ℕ × (MutationResponse → Reader → Outcome MutationResponse))
  rows depth =
      (
        10,
        λ m.
            within (ResourceIdentifier.message w) depth
              (λ v. record m { updated = m.updated ++ v ∷ [] }),
      )
      ∷ (18, λ m. within (Error.message w) depth (λ v. record m { errors = m.errors ++ v ∷ [] }))
      ∷ []

  abbrev pub decoder : ℕ → Decoder MutationResponse
  decoder depth = record {
    base = base;
    cases = one_of (rows depth);
    lawful = one_of-IsLawful (rows depth) (
      (λ m. within-Ends (ResourceIdentifier.message w) depth _),
      ((λ m. within-Ends (Error.message w) depth _), tt),
    );
  }

  pub encode-Reads :
      (m : MutationResponse)
      → IsSendable w m
      → (depth : ℕ) → 1 + depth < 100
      → Reads w (one_of (rows depth)) (encode m) base m
  encode-Reads m fits depth fine =
      let m1 : MutationResponse = record base { updated = m.updated } in
      list_within-Reads (ResourceIdentifier.message w) (decoder depth) 10 refl depth
        (omega (arith, fine)) (λ v. record base { updated = v }) m.updated (λ vs r. refl)
        fits.updated
      ▹ list_within-Reads (Error.message w) (decoder depth) 18 refl depth (omega (arith, fine))
          (λ v. record m1 { errors = v }) m.errors (λ vs r. refl) fits.errors

  abbrev pub message : Message w MutationResponse
  message = record {
    encode = encode;
    decoder = decoder;
    IsSendable = IsSendable w;
    height = 1;
    reads = encode-Reads;
  }
