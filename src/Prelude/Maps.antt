-- ===== src/Prelude/Maps.antt =====
-- A JavaScript `Map` with text keys: an association list in insertion order.
use Prim.Native.String.{String}
use mathlib.Core.Path.{◌≡◌, refl}
use mathlib.Core.Option.{Option, none, some}
use mathlib.Core.List.{List, [], ◌∷◌}
use native.Mathlib.Omega.{arith}
use mathlib.Core.Path.{subst}
use mathlib.Core.Bool.{false}
use mathlib.Core.Logic.{inl, inr}
use sharpn.Prelude.Lists.{All}
use sharpn.Prelude.Tests.{Bool-cases, if◌then◌else◌, str_eq, str_eq_iff, str_eq_refl}

module _ {ℓ} {V : Type ℓ} where
  -- `m.get(k)`.
  unfoldable pub lookup : String → List (String × V) → Option V
  lookup k [] = none
  lookup k ((j, v) ∷ m) = if str_eq j k then some v else lookup k m

  -- `m.set(k, v)`: an old key keeps its place, a new one goes to the end.
  unfoldable pub insert : String → V → List (String × V) → List (String × V)
  insert k v [] = (k, v) ∷ []
  insert k v ((j, w) ∷ m) = if str_eq j k then (j, v) ∷ m else (j, w) ∷ insert k v m

  -- `m.delete(k)`.
  unfoldable pub delete : String → List (String × V) → List (String × V)
  delete k [] = []
  delete k ((j, w) ∷ m) = if str_eq j k then delete k m else (j, w) ∷ delete k m

  pub lookup-insert :
      (k j : String) (v : V) (m : List (String × V))
      → lookup j (insert k v m) ≡ (if str_eq k j then some v else lookup j m)
  unfolding lookup insert
  lookup-insert k j v [] = refl
  lookup-insert k j v ((i, w) ∷ m) =
      ground (arith, str_eq_iff k j, str_eq_iff i k, str_eq_iff i j, lookup-insert k j v m)

  pub lookup-insert_self :
      (k : String) (v : V) (m : List (String × V)) → lookup k (insert k v m) ≡ some v
  lookup-insert_self k v m = simp (lookup-insert, str_eq_refl)

  pub lookup-delete :
      (k j : String) (m : List (String × V))
      → lookup j (delete k m) ≡ (if str_eq k j then none else lookup j m)
  unfolding lookup delete
  lookup-delete k j [] = ground arith
  lookup-delete k j ((i, w) ∷ m) =
      ground (arith, str_eq_iff k j, str_eq_iff i k, str_eq_iff i j, lookup-delete k j m)

  -- No key stands twice, which a `Map` guarantees.
  abbrev pub Distinct : List (String × V) → Type ℓ
  Distinct [] = Unit
  Distinct ((j, w) ∷ m) = (lookup j m ≡ none) × Distinct m

  pub insert-Distinct :
      (k : String) (v : V) (m : List (String × V)) → Distinct m → Distinct (insert k v m)
  unfolding insert lookup
  insert-Distinct k v [] d = (refl, tt)
  insert-Distinct k v ((j, w) ∷ m) (fresh, d) =
      ground (arith, insert-Distinct k v m d, lookup-insert k j v m, str_eq_iff k j, str_eq_iff j k)

  -- What holds of a key with each entry's value, and of a key that no entry has with `none`, holds of
  -- whatever is looked up.
  pub lookup_cases {κ} :
      (Q : String → Option V → Type κ) (m : List (String × V)) (k : String)
      → All (λ e. Q e.0 (some e.1)) m
      → (All (λ e. str_eq e.0 k ≡ false) m → Q k none)
      → Q k (lookup k m)
  unfolding lookup
  lookup_cases Q [] k here absent = absent tt
  lookup_cases Q ((j, v) ∷ m) k (h, here) absent = elim (Bool-cases (str_eq j k)) [
    | inl hit ↦ rw hit (subst (λ i. Q i (some v)) ((str_eq_iff j k).0 hit) h)
    | inr miss ↦ rw miss (lookup_cases Q m k here (λ rest. absent (miss, rest)))
  ]
