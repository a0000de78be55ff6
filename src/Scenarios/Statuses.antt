-- ===== src/Scenarios/Statuses.antt =====
-- Lives of operations, and the statuses and fields of domain/.

use mathlib.Core.List.Perm
use snoc_automation_agent.Prelude.{
  ◌≡◌, ◌≢◌, ◌↔◌, ◌⊎◌, inl, inr, refl, arith, none, some, [], ◌∷◌, List, true, false, contains, All,
  strip,
}
use snoc_automation_agent.Domain.Enums.{
  OperationAction, OperationStatus, RequestStatus, Eq-OperationStatus,
}
use snoc_automation_agent.Domain.Errors.{ok}
use snoc_automation_agent.Domain.StateMachine.{
  assert_operation_transition, operation_transitions, derive_request_status,
}
use snoc_automation_agent.Domain.StateMachine.Lifecycle.{
  Life, decided_status, IsTerminal, closed_stays, completed_needs_cause, executing_never_ready,
}
use snoc_automation_agent.Domain.StateMachine.Derived.{
  derive_request_status-perm, derive-eq-completed_iff, derive-eq-needs_information_iff,
}
use snoc_automation_agent.Domain.ValueObjects.{
  canonical_action, validate_operation_fields, normalize_numeric,
}
use snoc_automation_agent.Domain.ValueObjects.Fields.{
  validate-passed_iff, IsComplete, canonical_action_iff, Spells,
}
use snoc_automation_agent.Domain.ValueObjects.Numeric.{ReadsDigits, normalize_numeric_idem}
use snoc_automation_agent.Scenarios.{ascii}

abbrev done : OperationStatus
done = OperationStatus.completed

abbrev run : OperationStatus
run = OperationStatus.executing

ready_runs : assert_operation_transition OperationStatus.ready_for_validation run ≡ ok tt
unfolding assert_operation_transition operation_transitions contains
ready_runs = refl

run_ends : assert_operation_transition run done ≡ ok tt
unfolding assert_operation_transition operation_transitions contains
run_ends = refl

completed_needs_cause_example :
    (OperationStatus.ready_for_validation ≡ done)
    ⊎ (OperationStatus.ready_for_validation ≡ run)
    ⊎ (OperationStatus.ready_for_validation ≡ OperationStatus.escalated)
    ⊎ (contains run (run ∷ done ∷ []) ≡ true)
    ⊎ (contains OperationStatus.escalated (run ∷ done ∷ []) ≡ true)
completed_needs_cause_example =
    completed_needs_cause (Life.move ready_runs (Life.move run_ends Life.here)) refl

closed_stays_example :
    ((done ≡ OperationStatus.escalated) ⊎ IsTerminal done)
    × (contains run (OperationStatus.escalated ∷ done ∷ []) ≡ false)
unfolding decided_status
closed_stays_example = closed_stays (Life.escalate (Life.decide true Life.here)) (inr (inl refl))

executing_never_ready_example : contains OperationStatus.ready_for_validation (done ∷ []) ≡ false
executing_never_ready_example = executing_never_ready (Life.move run_ends Life.here) (inl refl)

abbrev mixed : List OperationStatus
mixed = done ∷ OperationStatus.needs_information ∷ []

derive_request_status-perm_example :
    derive_request_status mixed
    ≡ derive_request_status (OperationStatus.needs_information ∷ done ∷ [])
derive_request_status-perm_example =
    derive_request_status-perm mixed (OperationStatus.needs_information ∷ done ∷ [])
      (Perm.swap OperationStatus.needs_information done [])

derive-eq-completed_iff_example :
    (derive_request_status mixed ≡ RequestStatus.completed)
    ↔ ((mixed ≢ []) × All (λ s. s ≡ OperationStatus.completed) mixed)
derive-eq-completed_iff_example = derive-eq-completed_iff mixed

validate-passed_iff_example :
    ((validate_operation_fields ascii OperationAction.account_unblock
        (some "12345678")
        none
        "p"
        "q").passed
      ≡ true)
    ↔ IsComplete ascii OperationAction.account_unblock (some "12345678") none "p" "q"
validate-passed_iff_example =
    validate-passed_iff ascii OperationAction.account_unblock (some "12345678") none "p" "q"

reads_ascii : ReadsDigits ascii
reads_ascii = record {
  digit_not_space = λ c h. ground arith;
  plus_not_space = refl;
  plus_not_digit = refl;
}

normalize_numeric_idem_example :
    normalize_numeric ascii true (normalize_numeric ascii true (some " +216 12"))
    ≡ normalize_numeric ascii true (some " +216 12")
normalize_numeric_idem_example = normalize_numeric_idem ascii reads_ascii true (some " +216 12")

derive-eq-needs_information_iff_example :
    (derive_request_status mixed ≡ RequestStatus.needs_information) ↔ (
      (¬ All (λ s. s ≢ OperationStatus.needs_information) mixed)
      × All (λ s. s ≢ OperationStatus.completed) mixed)
derive-eq-needs_information_iff_example = derive-eq-needs_information_iff mixed

canonical_action_iff_example :
    (canonical_action ascii " vpn " ≡ OperationAction.vpn_access)
    ↔ Spells (ascii.casefold (strip ascii " vpn ")) OperationAction.vpn_access
canonical_action_iff_example =
    canonical_action_iff ascii " vpn " OperationAction.vpn_access (λ e. ground arith)
