-- ===== src/Wire/Common/On.antt =====
-- `On` of apps/console-api/src/gen/hue/v1/common.ts in binary.
use sharpn.Prelude.{ℕ, ◌+◌, ◌<◌, refl, Bool, false, List, [], ◌∷◌}
use sharpn.Wire.{Bytes, Reader, Wire, Outcome, one_of, read_into, bool_field}
use sharpn.Wire.Pieces.{Reads}
use sharpn.Wire.Kinds.{bool_kind, one_of-IsLawful, kind-Ends, Decoder, bool_field-Reads}
use sharpn.Wire.Message.{Message}

pub record On : Type 0 where
  pub on : Bool

abbrev pub base : On
base = record { on = false }

abbrev pub IsSendable : Wire → On → Type 0
IsSendable w m = Unit {0}

module _ (w : Wire) where
  abbrev pub encode : On → Bytes
  encode m = bool_field w 8 m.on

  abbrev pub rows : ℕ → List (ℕ × (On → Reader → Outcome On))
  rows depth = (8, λ m r. read_into (λ v. record m { on = v }) (w.read_bool r)) ∷ []

  abbrev pub decoder : ℕ → Decoder On
  decoder depth = record {
    base = base;
    cases = one_of (rows depth);
    lawful = one_of-IsLawful (rows depth) ((λ m. kind-Ends (bool_kind w) _), tt);
  }

  pub encode-Reads :
      (m : On)
      → IsSendable w m
      → (depth : ℕ) → 0 + depth < 100
      → Reads w (one_of (rows depth)) (encode m) base m
  encode-Reads m fits depth fine =
      bool_field-Reads w (decoder depth) 8 refl (λ v. record base { on = v }) m.on (λ r. refl)

  abbrev pub message : Message w On
  message = record {
    encode = encode;
    decoder = decoder;
    IsSendable = IsSendable w;
    height = 0;
    reads = encode-Reads;
  }
