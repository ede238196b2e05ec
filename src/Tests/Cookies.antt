-- ===== src/Tests/Cookies.antt =====
-- auth/session.ts on a small cookie.
use sharpn.Prelude.{
  ℕ, ◌+◌, ◌<◌, ◌≡◌, ◌≢◌, Bool, not, none, some, [], ◌∷◌, ◌++◌, arith, leb, ◌==◌, if◌then◌else◌,
  keep,
}
use sharpn.Prelude.Decimal.{Text, codes}
use sharpn.Prelude.Cutting.{Without}
use sharpn.Session.{Keys, mint, verify, read_payload}
use sharpn.Session.Signing.{verify-mint, verify_sound}

not_dot : ℕ → Bool
not_dot c = not (c == b'.')

-- A signature that never holds a dot.
abbrev pub keys : Keys
keys = record {
  sign = λ secret payload. keep (λ c. not (c == b'.')) (secret ++ payload);
  other_number = λ t. none;
  secret = codes "k";
  duration_ms = 100;
}

keep-Without : (t : Text) → Without b'.' (keep (λ c. not (c == b'.')) t)
keep-Without [] = tt
keep-Without (c ∷ t) = ground (arith, keep-Without t)

sign_dotless : (payload : Text) → Without b'.' (keys.sign keys.secret payload)
sign_dotless payload = keep-Without (keys.secret ++ payload)

abbrev pub id : Text
id = codes "ab"

id-nonempty : id ≢ []
id-nonempty = λ e. cc

id-Without : Without b'.' id
id-Without = ground arith

verify-mint_example :
    verify keys 70 (mint keys id 7).value
    ≡ (if leb (7 + 100) 70 then none else some (record { id = id; expires_at = 7 + 100 }))
verify-mint_example = verify-mint keys sign_dotless id 7 70 id-nonempty id-Without

minted : verify keys 70 (mint keys id 7).value ≡ some (record { id = id; expires_at = 107 })
minted = verify-mint keys sign_dotless id 7 70 id-nonempty id-Without

verify_sound_example :
    (payload : Text) × ((mint keys id 7).value ≡ payload ++ b'.' ∷ keys.sign keys.secret payload)
    × (read_payload keys payload ≡ some (record { id = id; expires_at = 107 }))
    × (70 < 107)
verify_sound_example =
    verify_sound keys sign_dotless (mint keys id 7).value 70 (record { id = id; expires_at = 107 })
      minted
