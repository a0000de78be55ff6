-- ===== src/Domain/StateMachine.antt =====
-- domain/state_machine.py: the two transition tables, their guards, and the status of a request
-- derived from those of its operations.
pub mod Lifecycle
pub mod Derived
use snoc_automation_agent.Prelude.{
  ◌≡◌, Bool, not, ◌&&◌, List, [], ◌∷◌, contains, all, any, ◌==◌, if◌then◌else◌,
}
use snoc_automation_agent.Domain.Errors.{Result, ok, raise, invalid_state_transition}
use snoc_automation_agent.Domain.Enums.{
  OperationStatus, RequestStatus, Eq-OperationStatus, Eq-RequestStatus,
}

unfoldable pub operation_transitions : OperationStatus → List OperationStatus
operation_transitions OperationStatus.new =
    OperationStatus.needs_information ∷ OperationStatus.ready_for_validation
    ∷ OperationStatus.escalated ∷ OperationStatus.cancelled ∷ []
operation_transitions OperationStatus.needs_information =
    OperationStatus.ready_for_validation ∷ OperationStatus.escalated ∷ OperationStatus.cancelled
    ∷ []
operation_transitions OperationStatus.ready_for_validation =
    OperationStatus.executing ∷ OperationStatus.needs_information ∷ OperationStatus.escalated
    ∷ OperationStatus.cancelled ∷ []
operation_transitions OperationStatus.executing =
    OperationStatus.completed ∷ OperationStatus.failed ∷ OperationStatus.escalated ∷ []
operation_transitions OperationStatus.escalated = OperationStatus.cancelled ∷ []
operation_transitions OperationStatus.completed = []
operation_transitions OperationStatus.failed = []
operation_transitions OperationStatus.cancelled = []

unfoldable pub request_transitions : RequestStatus → List RequestStatus
request_transitions RequestStatus.new = RequestStatus.analyzing ∷ RequestStatus.cancelled ∷ []
request_transitions RequestStatus.analyzing =
    RequestStatus.active ∷ RequestStatus.ready_for_validation ∷ RequestStatus.needs_information
    ∷ RequestStatus.partially_completed ∷ RequestStatus.escalated ∷ RequestStatus.completed
    ∷ RequestStatus.failed ∷ []
request_transitions RequestStatus.active =
    RequestStatus.ready_for_validation ∷ RequestStatus.needs_information
    ∷ RequestStatus.partially_completed ∷ RequestStatus.escalated ∷ RequestStatus.completed
    ∷ RequestStatus.failed ∷ RequestStatus.cancelled ∷ RequestStatus.expired ∷ []
request_transitions RequestStatus.ready_for_validation =
    RequestStatus.active ∷ RequestStatus.needs_information ∷ RequestStatus.partially_completed
    ∷ RequestStatus.escalated ∷ RequestStatus.completed ∷ RequestStatus.failed ∷ []
request_transitions RequestStatus.needs_information =
    RequestStatus.ready_for_validation ∷ RequestStatus.partially_completed ∷ RequestStatus.escalated
    ∷ RequestStatus.completed ∷ RequestStatus.cancelled ∷ RequestStatus.expired ∷ []
request_transitions RequestStatus.partially_completed =
    RequestStatus.ready_for_validation ∷ RequestStatus.needs_information ∷ RequestStatus.escalated
    ∷ RequestStatus.completed ∷ RequestStatus.failed ∷ []
request_transitions RequestStatus.escalated = RequestStatus.cancelled ∷ RequestStatus.completed ∷ []
request_transitions RequestStatus.completed = []
request_transitions RequestStatus.failed = []
request_transitions RequestStatus.cancelled = []
request_transitions RequestStatus.expired = []

unfoldable pub assert_operation_transition : OperationStatus → OperationStatus → Result (Unit {0})
unfolding operation_transitions contains
assert_operation_transition current target =
    if not (target == current) && not (contains target (operation_transitions current))
    then raise invalid_state_transition
    else ok tt

unfoldable pub assert_request_transition : RequestStatus → RequestStatus → Result (Unit {0})
unfolding request_transitions contains
assert_request_transition current target =
    if not (target == current) && not (contains target (request_transitions current))
    then raise invalid_state_transition
    else ok tt

-- The chain of tests after the test that there is a status at all.
derive_nonempty : List OperationStatus → RequestStatus
derive_nonempty values =
    if all (λ s. s == OperationStatus.completed) values
    then RequestStatus.completed
    else if any (λ s. s == OperationStatus.needs_information) values
    then (if any (λ s. s == OperationStatus.completed) values
        then RequestStatus.partially_completed
        else RequestStatus.needs_information)
    else if any (λ s. s == OperationStatus.executing) values
    then RequestStatus.active
    else if any (λ s. s == OperationStatus.ready_for_validation) values
    then RequestStatus.ready_for_validation
    else if any (λ s. s == OperationStatus.escalated) values
    then (if any (λ s. s == OperationStatus.completed) values
        then RequestStatus.partially_completed
        else RequestStatus.escalated)
    else if any (λ s. s == OperationStatus.failed) values
    then RequestStatus.failed
    else RequestStatus.active

unfoldable pub derive_request_status : List OperationStatus → RequestStatus
unfolding derive_nonempty
derive_request_status [] = RequestStatus.active
derive_request_status (s ∷ rest) = derive_nonempty (s ∷ rest)
