-- ===== src/Secrets/Echoed.antt =====
-- What is read of a secret that a person, or `echo`, has written to a file.
use sharpn.Prelude.{
  ℕ, ◌≤◌, ◌≡◌, refl, sym, ap, subst, ◌∙◌, ◌≢◌, ◌↔◌, ◌⊎◌, inl, inr, Bool, true, false, some, [], ◌∷◌,
  ◌++◌, arith, if◌then◌else◌, Bool-cases, Option-cases, length, all,
}
use sharpn.Prelude.Decimal.{Text, codes}
use sharpn.Cookie.{is_space, trim, trim_start, trim_end, unless_blank}
use sharpn.Codec.{strip}
use mathlib.Core.Bool.{and-eq-true_iff}
use sharpn.Secrets.{
  not_a_hash, Result, ok, throws, trimmed, unless_empty, read_session_secret, read_token, read_hash,
  if_hash, argon2_prefix,
}

abbrev pub IsBlank : Text → Type 0
IsBlank t = all is_space t ≡ true

-- Something, with no white space around it.
pub record IsBare (t : Text) : Type 0 where
  pub something : t ≢ []
  pub starts : trim_start t ≡ t
  pub ends : trim_end t ≡ t

trim_start-append : (before t : Text) → IsBlank before → trim_start (before ++ t) ≡ trim_start t
trim_start-append [] t h = refl
trim_start-append (c ∷ cs) t h =
    let (space, rest) = (and-eq-true_iff (is_space c) (all is_space cs)).0 h in
    rw space (trim_start-append cs t rest)

trim_end-IsBlank : (after : Text) → IsBlank after → trim_end after ≡ []
trim_end-IsBlank [] h = refl
trim_end-IsBlank (c ∷ cs) h =
    let (space, rest) = (and-eq-true_iff (is_space c) (all is_space cs)).0 h in
    rw (trim_end-IsBlank cs rest, space) refl

trim_end-append : (t after : Text) → IsBlank after → trim_end (t ++ after) ≡ trim_end t
trim_end-append [] after h = trim_end-IsBlank after h
trim_end-append (c ∷ cs) after h = ap (unless_blank c) (trim_end-append cs after h)

-- Taking white space off makes nothing longer, so what keeps its first character starts with no space.
length-trim_start : (t : Text) → length (trim_start t) ≤ length t
length-trim_start [] = omega arith
length-trim_start (c ∷ cs) = ground (arith, length-trim_start cs)

bare_start :
    (c : ℕ) (cs after : Text)
    → trim_start (c ∷ cs) ≡ c ∷ cs
    → trim_start (c ∷ cs ++ after) ≡ c ∷ cs ++ after
bare_start c cs after h = elim (Bool-cases (is_space c)) [
  | inl space ↦ absurd (longer (rw space at h))
  | inr other ↦ rw other refl
]
  where
    longer : trim_start cs ≢ c ∷ cs
    longer e = omega (arith, ap length e, length-trim_start cs)

trim_around :
    (before t after : Text)
    → IsBlank before
    → IsBare t
    → IsBlank after
    → trim (before ++ (t ++ after)) ≡ t
trim_around before t after b bare a =
    ap trim_end (trim_start-append before (t ++ after) b ∙ kept t bare.something bare.starts)
    ∙ trim_end-append t after a
    ∙ bare.ends
  where
    kept : (t : Text) → t ≢ [] → trim_start t ≡ t → trim_start (t ++ after) ≡ t ++ after
    kept [] something h = absurd (something refl)
    kept (c ∷ cs) something h = bare_start c cs after h

-- The name of the kind of hash, between its two dollars.
abbrev pub IsHash : Text → Type 0
IsHash h =
    (kind : Text) × ((kind ≡ codes "id") ⊎ (kind ≡ codes "i") ⊎ (kind ≡ codes "d"))
    × (rest : Text) × (h ≡ codes "$argon2" ++ (kind ++ b'$' ∷ rest))

unless_empty-some : (t : Text) → t ≢ [] → unless_empty t ≡ ok t
unless_empty-some [] something = absurd (something refl)
unless_empty-some (c ∷ cs) something = refl

strip-append : (p t r : Text) → strip p t ≡ some r → t ≡ p ++ r
unfolding strip
strip-append [] t r h = cc
strip-append (c ∷ cs) [] r h = cc
strip-append (c ∷ cs) (d ∷ ds) r h = ground (arith, strip-append cs ds r)

IsHash-if_hash : (t : Text) → IsHash t → if_hash t ≡ ok t
unfolding argon2_prefix strip
IsHash-if_hash t (kind, which, rest, e) = subst (λ h. if_hash h ≡ ok h) (sym e) (of_kind kind which)
  where
    of_kind :
        (kind : Text)
        → (kind ≡ codes "id") ⊎ (kind ≡ codes "i") ⊎ (kind ≡ codes "d")
        → if_hash (codes "$argon2" ++ (kind ++ b'$' ∷ rest))
          ≡ ok (codes "$argon2" ++ (kind ++ b'$' ∷ rest))
    of_kind kind (inl k) =
        subst
          (λ k.
            if_hash (codes "$argon2" ++ (k ++ b'$' ∷ rest))
            ≡ ok (codes "$argon2" ++ (k ++ b'$' ∷ rest)))
          (sym k) refl
    of_kind kind (inr (inl k)) =
        subst
          (λ k.
            if_hash (codes "$argon2" ++ (k ++ b'$' ∷ rest))
            ≡ ok (codes "$argon2" ++ (k ++ b'$' ∷ rest)))
          (sym k) refl
    of_kind kind (inr (inr k)) =
        subst
          (λ k.
            if_hash (codes "$argon2" ++ (k ++ b'$' ∷ rest))
            ≡ ok (codes "$argon2" ++ (k ++ b'$' ∷ rest)))
          (sym k) refl

hash_if :
    (b : Bool) (t h : Text) → (if b then ok t else throws not_a_hash) ≡ ok h → (b ≡ true) × (t ≡ h)
hash_if true t h e = (refl, cc)
hash_if false t h e = cc

argon2_prefix-IsHash : (t : Text) → argon2_prefix t ≡ true → IsHash t
unfolding argon2_prefix
argon2_prefix-IsHash t h = elim (Option-cases (strip (codes "$argon2id$") t)) [
  | inr (r, found) ↦ (codes "id", inl refl, r, strip-append (codes "$argon2id$") t r found)
  | inl missing ↦ elim (Option-cases (strip (codes "$argon2i$") t)) [
    | inr (r, found) ↦ (codes "i", inr (inl refl), r, strip-append (codes "$argon2i$") t r found)
    | inl missing2 ↦ elim (Option-cases (strip (codes "$argon2d$") t)) [
      | inr (r, found) ↦ (codes "d", inr (inr refl), r, strip-append (codes "$argon2d$") t r found)
      | inl missing3 ↦ absurd (clash (rw (missing, missing2, missing3) at h))
    ]
  ]
]
  where
    clash : false ≢ true
    clash = λ q. cc

if_hash_ok : (t h : Text) → if_hash t ≡ ok h → (t ≡ h) × IsHash t
if_hash_ok [] h e = cc
if_hash_ok (c ∷ cs) h e =
    let (hash, same) = hash_if (argon2_prefix (c ∷ cs)) (c ∷ cs) h e in
    (same, argon2_prefix-IsHash (c ∷ cs) hash)

-- A file is read as a password hash exactly where it is that hash with white space around it, and
-- the hash begins as argon2 begins one of its three kinds.
pub read_hash-ok_iff :
    (contents h : Text) → read_hash (some contents) ≡ ok h ↔ (trim contents ≡ h) × IsHash h
unfolding read_hash
read_hash-ok_iff contents h = (
  λ e. let (same, hash) = if_hash_ok (trim contents) h e in (same, subst IsHash same hash),
  λ p. ap if_hash p.0 ∙ IsHash-if_hash h p.1,
)

module _ (before t after : Text) (b : IsBlank before) (bare : IsBare t) (a : IsBlank after) where
  trimmed-bare : (rest : Text → Result) → trimmed rest (some (before ++ (t ++ after))) ≡ rest t
  trimmed-bare rest = ap rest (trim_around before t after b bare a)

  -- Of a file that holds a secret without white space around it, with any white space before and
  -- after, the Gateway Token and the session secret are read as that secret.
  pub read_token-echoed :
      (read_token (some (before ++ (t ++ after))) ≡ ok t)
      × (read_session_secret (some (before ++ (t ++ after))) ≡ ok t)
  unfolding read_token read_session_secret
  read_token-echoed = (
    trimmed-bare unless_empty ∙ unless_empty-some t bare.something,
    trimmed-bare unless_empty ∙ unless_empty-some t bare.something,
  )
