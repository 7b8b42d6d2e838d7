-- ===== src/Communication/Turn/Outcomes.antt =====
-- src/core/communication/domain/llm-completion.ts: what becomes of a turn whose completion by the model
-- did not succeed.
use open_claw_bot_neo.Prelude.{
  ◌≡◌, ◌≢◌, ◌↔◌, arith, Bool, true, false, ◌||◌, ◌==◌, List, [], ◌∷◌, includes, if◌then◌else◌,
}
use open_claw_bot_neo.Communication.Turn.{
  LlmOutcome, LlmOutcome_eq, LlmOutcome-discrete, completed, cancelled_before_invocation,
  known_timeout, provider_unavailable, quota_unavailable, policy_rejected, invalid_response,
  outcome_unknown,
}

-- LLM_NOTICE_ELIGIBLE_FAILURE_OUTCOMES
abbrev pub notice_eligible_failure_outcomes : List LlmOutcome
notice_eligible_failure_outcomes =
    provider_unavailable ∷ quota_unavailable ∷ known_timeout ∷ cancelled_before_invocation ∷ []

-- LLM_NOTICE_INELIGIBLE_FAILURE_OUTCOMES
abbrev pub notice_ineligible_failure_outcomes : List LlmOutcome
notice_ineligible_failure_outcomes = policy_rejected ∷ invalid_response ∷ []

-- LlmFailureDisposition, less the outcome that it carries
pub data LlmFailureDisposition : Type 0 where
  known_failure_with_notice known_failure_without_notice unknown : LlmFailureDisposition

unfoldable pub is_notice_eligible : LlmOutcome → Bool
unfolding includes
is_notice_eligible o = includes notice_eligible_failure_outcomes o

unfoldable pub is_notice_ineligible : LlmOutcome → Bool
unfolding includes
is_notice_ineligible o = includes notice_ineligible_failure_outcomes o

-- classifyLlmFailureDisposition
unfoldable pub classify_llm_failure_disposition : LlmOutcome → LlmFailureDisposition
classify_llm_failure_disposition o =
    if o == outcome_unknown
    then unknown
    else if is_notice_eligible o
    then known_failure_with_notice
    else known_failure_without_notice

-- llmOutcomeAllowsDeterministicNotice
unfoldable pub allows_deterministic_notice : LlmOutcome → Bool
allows_deterministic_notice o = is_notice_eligible o

-- llmOutcomeForbidsAutomaticRetry
unfoldable pub forbids_automatic_retry : LlmOutcome → Bool
forbids_automatic_retry o = o == outcome_unknown || is_notice_ineligible o

-- llmOutcomeForbidsDeterministicNotice
unfoldable pub forbids_deterministic_notice : LlmOutcome → Bool
forbids_deterministic_notice o = o == outcome_unknown || is_notice_ineligible o

-- llmOutcomeForbidsDelivery
unfoldable pub forbids_delivery : LlmOutcome → Bool
forbids_delivery o = o == outcome_unknown || is_notice_ineligible o

-- Of an outcome other than completed, the disposition gives a notice exactly when the notice is allowed,
-- and exactly when neither the notice, nor delivery, nor another try is forbidden.
pub classify_llm_failure_disposition-notice_iff :
    (o : LlmOutcome)
    → o ≢ completed
    → (classify_llm_failure_disposition o ≡ known_failure_with_notice) ↔ (
        (allows_deterministic_notice o ≡ true)
        × (forbids_deterministic_notice o ≡ false)
        × (forbids_delivery o ≡ false)
        × (forbids_automatic_retry o ≡ false))
unfolding classify_llm_failure_disposition allows_deterministic_notice forbids_deterministic_notice
    forbids_delivery forbids_automatic_retry is_notice_eligible is_notice_ineligible includes
    LlmOutcome-discrete
classify_llm_failure_disposition-notice_iff o failed =
    (λ h. (ground arith, ground arith, ground arith, ground arith), λ h. ground arith)
