-- ===== src/Wire/Service/ListLightsRequest.antt =====
-- `ListLightsRequest` of apps/console-api/src/gen/hue/v1/lighting_service.ts in binary.
use sharpn.Prelude.{ℕ, ◌+◌, ◌<◌, List, []}
use sharpn.Wire.{Bytes, Reader, Wire, Outcome, one_of}
use sharpn.Wire.Pieces.{Reads, nothing-Reads}
use sharpn.Wire.Kinds.{one_of-IsLawful, Decoder}
use sharpn.Wire.Message.{Message}

pub record ListLightsRequest : Type 0 where

abbrev pub base : ListLightsRequest
base = record {}

abbrev pub IsSendable : Wire → ListLightsRequest → Type 0
IsSendable w m = Unit {0}

module _ (w : Wire) where
  abbrev pub encode : ListLightsRequest → Bytes
  encode m = []

  abbrev pub rows : ℕ → List (ℕ × (ListLightsRequest → Reader → Outcome ListLightsRequest))
  rows depth = []

  abbrev pub decoder : ℕ → Decoder ListLightsRequest
  decoder depth = record {
    base = base;
    cases = one_of (rows depth);
    lawful = one_of-IsLawful (rows depth) tt;
  }

  pub encode-Reads :
      (m : ListLightsRequest)
      → IsSendable w m
      → (depth : ℕ) → 0 + depth < 100
      → Reads w (one_of (rows depth)) (encode m) base m
  encode-Reads m fits depth fine = nothing-Reads w (one_of (rows depth)) base

  abbrev pub message : Message w ListLightsRequest
  message = record {
    encode = encode;
    decoder = decoder;
    IsSendable = IsSendable w;
    height = 0;
    reads = encode-Reads;
  }
