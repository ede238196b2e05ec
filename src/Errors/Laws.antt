-- ===== src/Errors/Laws.antt =====
-- What the table of contract/errors.ts can and cannot answer.
use sharpn.Prelude.{
  ◌⊎◌, ne_of_str_eq, String, ◌≡◌, refl, sym, ◌≢◌, ◌↔◌, false, Option, some, str_eq,
}
use sharpn.Prelude.Maps.{lookup_cases}
use sharpn.Errors.{
  arith, true, errors, not_authenticated, csrf_rejected, too_many_requests, bridge_busy, Row,
  channel_down, ErrorCode, CallKind, update, by_call, by_failure, code_of,
  error_code_for_gateway_failure, read,
}
use sharpn.Errors.{mutation_outcome_unknown, bridge_timeout, gateway_unreachable}

-- A row under another name, with another code, does not answer for `name`.
other_row :
    (target code : ErrorCode) (name s : String) (P : Type 0)
    → str_eq s name ≡ false
    → code ≢ target
    → (code ≡ target) ↔ ((s ≡ name) × P)
other_row target code name s P ne other =
    (λ e. absurd (other e), λ p. absurd (ne_of_str_eq s name ne p.0))

abbrev Unknown : CallKind → String → Option Row → Type 0
Unknown call failure row =
    (code_of row call ≡ mutation_outcome_unknown)
    ↔ ((failure ≡ "DEADLINE_EXCEEDED") × (call ≡ update))

deadline_row :
    (call : CallKind)
    → Unknown call "DEADLINE_EXCEEDED" (some (by_call bridge_timeout mutation_outcome_unknown))
deadline_row read = (λ e. cc, λ p. cc)
deadline_row update = (λ e. (refl, refl), λ p. refl)

-- The one code that says the change may have been made is for updates whose deadline passed, and
-- for nothing else.
pub outcome_unknown_iff :
    (failure : String) (call : CallKind)
    → (error_code_for_gateway_failure failure call ≡ mutation_outcome_unknown)
      ↔ ((failure ≡ "DEADLINE_EXCEEDED") × (call ≡ update))
unfolding error_code_for_gateway_failure
outcome_unknown_iff failure call =
    lookup_cases (Unknown call) by_failure failure
      (
        other _ _ refl (λ e. cc),
        (
          other _ _ refl (λ e. cc),
          (
            other _ _ refl (λ e. cc),
            (
              other _ _ refl (λ e. cc),
              (
                deadline_row call,
                (
                  other _ _ refl (λ e. cc),
                  (
                    other _ _ refl (λ e. cc),
                    (
                      other _ _ refl (λ e. cc),
                      (other _ _ refl (λ e. cc), (other _ _ refl (λ e. cc), tt)),
                    ),
                  ),
                ),
              ),
            ),
          ),
        ),
      )
      (λ absent. (
        λ e. cc,
        λ p. absurd (ne_of_str_eq "DEADLINE_EXCEEDED" failure absent.1.1.1.1.0 (sym p.0)),
      ))
  where
    other :
        (code : ErrorCode) (s : String)
        → str_eq s "DEADLINE_EXCEEDED" ≡ false
        → code ≢ mutation_outcome_unknown
        → (code ≡ mutation_outcome_unknown) ↔ ((s ≡ "DEADLINE_EXCEEDED") × (call ≡ update))
    other code s ne h =
        other_row mutation_outcome_unknown code "DEADLINE_EXCEEDED" s (call ≡ update) ne h

abbrev Unreachable : CallKind → String → Option Row → Type 0
Unreachable call failure row = (code_of row call ≡ gateway_unreachable) ↔ (failure ≡ channel_down)

deadline_reaches :
    (call : CallKind)
    → Unreachable call "DEADLINE_EXCEEDED" (some (by_call bridge_timeout mutation_outcome_unknown))
deadline_reaches read =
    (λ e. cc, λ e. absurd (ne_of_str_eq "DEADLINE_EXCEEDED" channel_down refl e))
deadline_reaches update =
    (λ e. cc, λ e. absurd (ne_of_str_eq "DEADLINE_EXCEEDED" channel_down refl e))

-- The code that blames the channel is for the channel being down, whatever the call.
pub gateway_unreachable_iff :
    (failure : String) (call : CallKind)
    → (error_code_for_gateway_failure failure call ≡ gateway_unreachable) ↔ (failure ≡ channel_down)
unfolding error_code_for_gateway_failure
gateway_unreachable_iff failure call =
    lookup_cases (Unreachable call) by_failure failure
      (
        other _ _ refl (λ e. cc),
        (
          other _ _ refl (λ e. cc),
          (
            other _ _ refl (λ e. cc),
            (
              other _ _ refl (λ e. cc),
              (
                deadline_reaches call,
                (
                  other _ _ refl (λ e. cc),
                  (
                    other _ _ refl (λ e. cc),
                    (
                      other _ _ refl (λ e. cc),
                      (other _ _ refl (λ e. cc), ((λ e. refl, λ e. refl), tt)),
                    ),
                  ),
                ),
              ),
            ),
          ),
        ),
      )
      (λ absent. (
        λ e. cc,
        λ e. absurd (ne_of_str_eq channel_down failure absent.1.1.1.1.1.1.1.1.1.0 (sym e)),
      ))
  where
    other :
        (code : ErrorCode) (s : String)
        → str_eq s channel_down ≡ false
        → code ≢ gateway_unreachable
        → (code ≡ gateway_unreachable) ↔ (s ≡ channel_down)
    other code s ne h = (λ e. absurd (h e), λ e. absurd (ne_of_str_eq s channel_down ne e))

-- The statuses that are about the browser are sent with one code each: 401 for no session, 403 for a
-- foreign page and 429 for going too fast. A busy Bridge is the only other reason to come back later.
pub browser_statuses :
    (code : ErrorCode)
    → (((errors code).http_status ≡ 401) ↔ (code ≡ not_authenticated))
      × (((errors code).http_status ≡ 403) ↔ (code ≡ csrf_rejected))
      × (((errors code).http_status ≡ 429) ↔ (code ≡ too_many_requests))
      × (((errors code).retry_after ≡ true) ↔ ((code ≡ too_many_requests) ⊎ (code ≡ bridge_busy)))
browser_statuses not_authenticated = ground arith
browser_statuses _ = ground arith
