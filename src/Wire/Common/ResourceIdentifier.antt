-- ===== src/Wire/Common/ResourceIdentifier.antt =====
-- `ResourceIdentifier` of apps/console-api/src/gen/hue/v1/common.ts in binary.
use sharpn.Prelude.{ℕ, ◌+◌, ◌<◌, refl, List, [], ◌∷◌, ◌++◌}
use sharpn.Prelude.Int.{ℤ, pos}
use sharpn.Prelude.Decimal.{Text}
use sharpn.Wire.{
  Bytes, Reader, IsInt32, Wire, Outcome, one_of, read_into, string_field, int32_field,
}
use sharpn.Wire.Pieces.{Reads, ◌▹◌}
use sharpn.Wire.Fields.{IsWritten}
use sharpn.Wire.Kinds.{
  string_kind, int32_kind, one_of-IsLawful, kind-Ends, Decoder, string_field-Reads,
  int32_field-Reads,
}
use sharpn.Wire.Message.{Message}

pub record ResourceIdentifier : Type 0 where
  pub rid : Text
  pub rtype : ℤ

abbrev pub base : ResourceIdentifier
base = record { rid = []; rtype = pos 0 }

-- What fits in the message.
pub record IsSendable (w : Wire) (m : ResourceIdentifier) : Type 0 where
  pub rid : IsWritten w m.rid
  pub rtype : IsInt32 m.rtype

module _ (w : Wire) where
  abbrev pub encode : ResourceIdentifier → Bytes
  encode m = string_field w 10 m.rid ++ int32_field w 16 m.rtype

  abbrev pub rows : ℕ → List (ℕ × (ResourceIdentifier → Reader → Outcome ResourceIdentifier))
  rows depth =
      (10, λ m r. read_into (λ v. record m { rid = v }) (w.read_string r))
      ∷ (16, λ m r. read_into (λ v. record m { rtype = v }) (w.read_int32 r))
      ∷ []

  abbrev pub decoder : ℕ → Decoder ResourceIdentifier
  decoder depth = record {
    base = base;
    cases = one_of (rows depth);
    lawful =
        one_of-IsLawful (rows depth)
          ((λ m. kind-Ends (string_kind w) _), ((λ m. kind-Ends (int32_kind w) _), tt));
  }

  pub encode-Reads :
      (m : ResourceIdentifier)
      → IsSendable w m
      → (depth : ℕ) → 0 + depth < 100
      → Reads w (one_of (rows depth)) (encode m) base m
  encode-Reads m fits depth fine =
      let m1 : ResourceIdentifier = record base { rid = m.rid } in
      string_field-Reads w (decoder depth) 10 refl (λ v. record base { rid = v }) m.rid (λ r. refl)
        fits.rid
      ▹ int32_field-Reads w (decoder depth) 16 refl (λ v. record m1 { rtype = v }) m.rtype
          (λ r. refl) fits.rtype

  abbrev pub message : Message w ResourceIdentifier
  message = record {
    encode = encode;
    decoder = decoder;
    IsSendable = IsSendable w;
    height = 0;
    reads = encode-Reads;
  }
