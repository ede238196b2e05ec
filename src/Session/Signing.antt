-- ===== src/Session/Signing.antt =====
-- What a cookie of auth/session.ts is worth.
use sharpn.Prelude.{
  ℕ, ◌+◌, ◌<◌, ◌≡◌, refl, sym, subst, ◌∙◌, ◌≢◌, inl, inr, true, Option, none, some, [], ◌∷◌, ◌++◌,
  arith, leb, if◌then◌else◌, Bool-cases, Option-cases,
}
use sharpn.Prelude.Decimal.{Text, print, value-print, is_numeral-print}
use sharpn.Prelude.Cutting.{
  cut_first, cut_last, Without, cut_first-append, cut_last-append, cut_last_joined,
  cut_first-Without, cut_first-Without-none,
}
use sharpn.Session.{
  Keys, Session, constant_time_equal, drop_last, id_and_expiry, payload_of, signed, number,
  session_from, read_payload, check_signature, verified, mint, unexpired, verify, renew,
}

constant_time_equal_refl : (s : Text) → constant_time_equal s s ≡ true
constant_time_equal_refl [] = refl
constant_time_equal_refl (c ∷ s) = ground (arith, constant_time_equal_refl s)

constant_time_equal-eq : (s t : Text) → constant_time_equal s t ≡ true → s ≡ t
constant_time_equal-eq [] [] h = refl
constant_time_equal-eq [] (b ∷ t) h = cc
constant_time_equal-eq (a ∷ s) [] h = cc
constant_time_equal-eq (a ∷ s) (b ∷ t) h = ground (arith, constant_time_equal-eq s t)

session_from_nonempty :
    (id : Text) (expires_at : ℕ)
    → id ≢ []
    → session_from id (some expires_at) ≡ some (record { id = id; expires_at = expires_at })
unfolding session_from
session_from_nonempty [] expires_at h = absurd (h refl)
session_from_nonempty (c ∷ id) expires_at h = refl

drop_last-Without : (c : ℕ) (s : Text) → Without c s → Without c (drop_last s)
drop_last-Without c [] w = tt
drop_last-Without c (x ∷ []) w = tt
drop_last-Without c (x ∷ y ∷ s) (ne, w) = (ne, drop_last-Without c (y ∷ s) w)

-- The id that a payload states never holds a dot.
id-Without : (payload : Text) → Without b'.' (id_and_expiry payload).0
id-Without payload = elim (Option-cases (cut_first b'.' payload)) [
  | inl missed ↦
      rw missed (drop_last-Without b'.' payload (cut_first-Without-none b'.' payload missed))
  | inr ((front, back), found) ↦ rw found (cut_first-Without b'.' payload front back found)
]

session_from-some :
    (id : Text) (expires_at : Option ℕ) (s : Session)
    → session_from id expires_at ≡ some s
    → (s.id ≡ id) × (id ≢ [])
unfolding session_from
session_from-some [] expires_at s h = cc
session_from-some (c ∷ id) none s h = cc
session_from-some (c ∷ id) (some e) s h = (ground arith, λ p. cc)

unexpired-some :
    (now : ℕ) (o : Option Session) (s : Session)
    → unexpired now o ≡ some s
    → (o ≡ some s) × (now < s.expires_at)
unfolding unexpired
unexpired-some now none s h = cc
unexpired-some now (some t) s h = ground arith

module _ (keys : Keys)
    -- The alphabet of base64url has no dot.
    (sign_dotless : (payload : Text) → Without b'.' (keys.sign keys.secret payload)) where
  read_payload-payload_of :
      (s : Session) → s.id ≢ [] → Without b'.' s.id → read_payload keys (payload_of s) ≡ some s
  unfolding read_payload payload_of number
  read_payload-payload_of s nonempty dotless =
      rw
        (
          cut_first-append b'.' s.id (print s.expires_at) dotless,
          is_numeral-print s.expires_at,
          value-print s.expires_at,
        )
        (session_from_nonempty s.id s.expires_at nonempty)

  verified-signed :
      (s : Session) → s.id ≢ [] → Without b'.' s.id → verified keys (signed keys s).value ≡ some s
  unfolding verified signed check_signature
  verified-signed s nonempty dotless =
      let payload = payload_of s in
      let signature = keys.sign keys.secret payload in
      rw (cut_last-append b'.' payload signature (sign_dotless payload), verified)
        (rw (constant_time_equal_refl signature) (read_payload-payload_of s nonempty dotless))

  -- A minted cookie names its session for as long as sessions last, and nothing from then on,
  -- where the id is not empty and neither it nor a signature holds a dot.
  pub verify-mint :
      (id : Text) (now later : ℕ)
      → id ≢ []
      → Without b'.' id
      → verify keys later (mint keys id now).value ≡ (
          if leb (now + keys.duration_ms) later
          then none
          else some (record { id = id; expires_at = now + keys.duration_ms }))
  unfolding verify mint unexpired
  verify-mint id now later nonempty dotless =
      rw
        (verified-signed (record { id = id; expires_at = now + keys.duration_ms }) nonempty dotless)

  check_signature-some :
      (payload signature : Text) (s : Session)
      → check_signature keys (payload, signature) ≡ some s
      → (signature ≡ keys.sign keys.secret payload) × (read_payload keys payload ≡ some s)
  unfolding check_signature
  check_signature-some payload signature s h =
      elim (Bool-cases (constant_time_equal signature (keys.sign keys.secret payload))) [
        | inl same ↦ (constant_time_equal-eq _ _ same, ground arith)
        | inr other ↦ ground arith
      ]

  verified-some :
      (v : Text) (s : Session)
      → verified keys v ≡ some s
      → (payload : Text) × (v ≡ payload ++ b'.' ∷ keys.sign keys.secret payload)
        × (read_payload keys payload ≡ some s)
  unfolding verified
  verified-some v s h = elim (Option-cases (cut_last b'.' v)) [
    | inl missed ↦ ground arith
    | inr ((payload, signature), found) ↦
        let (same, reads) = check_signature-some payload signature s (rw (found, verified) at h) in
        (payload, cut_last_joined b'.' v payload signature found ∙ rw same, reads)
  ]

  -- Whatever verifies is a payload with the signature that the secret gives it, names the
  -- session that the payload states, and has not expired, where no signature holds a dot.
  pub verify_sound :
      (v : Text) (now : ℕ) (s : Session)
      → verify keys now v ≡ some s
      → (payload : Text) × (v ≡ payload ++ b'.' ∷ keys.sign keys.secret payload)
        × (read_payload keys payload ≡ some s)
        × (now < s.expires_at)
  unfolding verify
  verify_sound v now s h =
      let (found, alive) = unexpired-some now (verified keys v) s h in
      let (payload, joined, reads) = verified-some v s found in (payload, joined, reads, alive)

  read_payload_id :
      (payload : Text) (s : Session)
      → read_payload keys payload ≡ some s
      → (s.id ≢ []) × Without b'.' s.id
  unfolding read_payload
  read_payload_id payload s h =
      let (same, nonempty) = session_from-some _ _ s h in
      (λ e. nonempty (sym same ∙ e), subst (Without b'.') (sym same) (id-Without payload))

  -- Whoever holds a cookie that verifies is handed one for the same id that lasts a full term
  -- from the moment it is renewed, and no longer, where no signature holds a dot.
  pub verify-renew :
      (v : Text) (now at later : ℕ) (s : Session)
      → verify keys now v ≡ some s
      → verify keys later (renew keys at s).value ≡ (
          if leb (at + keys.duration_ms) later
          then none
          else some (record { id = s.id; expires_at = at + keys.duration_ms }))
  unfolding verify renew unexpired
  verify-renew v now at later s h =
      let (payload, joined, reads, alive) = verify_sound v now s h in
      let (nonempty, dotless) = read_payload_id payload s reads in
      rw (verified-signed (record s { expires_at = at + keys.duration_ms }) nonempty dotless)
