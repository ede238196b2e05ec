-- ===== src/Codec/Outcomes.antt =====
-- What gateway/codec.ts makes of the two arrays of a Mutation's answer.
use sharpn.Prelude.{String, ◌≡◌, refl, subst, ◌≢◌, ◌↔◌, List, [], ◌∷◌, map, arith, length}
use sharpn.Codec.{
  Outcome, success, partial, rejected, unknown, outcome_from, MutationResponse,
  acknowledgement_from, ReportedIdentifier, identifier_from,
}

-- What each outcome says of the two arrays that it is read from.
abbrev pub Means : Outcome → List ReportedIdentifier → List String → Type 0
Means success updated errors = (updated ≢ []) × (errors ≡ [])
Means partial updated errors = (updated ≢ []) × (errors ≢ [])
Means rejected updated errors = (updated ≡ []) × (errors ≢ [])
Means unknown updated errors = (updated ≡ []) × (errors ≡ [])

outcome-Means :
    (updated : List ReportedIdentifier) (errors : List String)
    → Means (outcome_from (length (map identifier_from updated)) (length errors)) updated errors
unfolding outcome_from
outcome-Means [] [] = ground arith
outcome-Means [] (e ∷ es) = ground arith
outcome-Means (u ∷ us) [] = ground arith
outcome-Means (u ∷ us) (e ∷ es) = ground arith

Means-unique :
    (o p : Outcome) (updated : List ReportedIdentifier) (errors : List String)
    → Means o updated errors
    → Means p updated errors
    → o ≡ p
Means-unique success success updated errors h k = refl
Means-unique _ _ updated errors h k = ground arith

-- The outcome of an Acknowledgement is the one that its two arrays mean: success only with nothing
-- but Resources, rejected only with nothing but errors, partial with both and unknown with
-- neither.
pub acknowledgement-outcome_iff :
    (response : MutationResponse) (correlation_id : String) (o : Outcome)
    → ((acknowledgement_from response correlation_id).outcome ≡ o)
      ↔ Means o response.updated response.errors
unfolding acknowledgement_from
acknowledgement-outcome_iff response correlation_id o =
    let means = outcome-Means response.updated response.errors in
    (
      λ e. subst (λ p. Means p response.updated response.errors) e means,
      λ h. Means-unique _ o response.updated response.errors means h,
    )
