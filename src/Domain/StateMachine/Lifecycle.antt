-- ===== src/Domain/StateMachine/Lifecycle.antt =====
-- The life of an operation's status: every assignment of `operation.status` after the creation.
-- Guarded by domain/state_machine.py are those of operation_service.py and, for EXECUTING and
-- COMPLETED, of execution_service.py; unguarded are the escalations of execution_service.py and
-- inbound_processor.py, and the decision of a person in api/app.py.
use snoc_automation_agent.Prelude.{
  ◌≡◌, ◌⊎◌, List, [], ◌∷◌, arith, contains, Bool, true, false, ◌==◌, if◌then◌else◌,
}
use snoc_automation_agent.Domain.Errors.{ok}
use snoc_automation_agent.Domain.Enums.{OperationStatus, Eq-OperationStatus}
use snoc_automation_agent.Domain.StateMachine.{assert_operation_transition}

-- What the decision of a person on a request makes of each of its operations.
unfoldable pub decided_status : Bool → OperationStatus → OperationStatus
decided_status approved status =
    if status == OperationStatus.escalated
    then (if approved then OperationStatus.completed else OperationStatus.cancelled)
    else status

-- The statuses assigned, the earliest first. Some escalations test that the operation is not
-- completed, those after a call of the business API test nothing.
pub data Life : OperationStatus → List OperationStatus → OperationStatus → Type 0 where
  here : {s : OperationStatus} → Life s [] s
  move :
      {s t u : OperationStatus} {path : List OperationStatus}
      → assert_operation_transition s t ≡ ok tt
      → Life t path u
      → Life s (t ∷ path) u
  escalate :
      {s u : OperationStatus} {path : List OperationStatus}
      → Life OperationStatus.escalated path u
      → Life s (OperationStatus.escalated ∷ path) u
  decide :
      {s u : OperationStatus} {path : List OperationStatus} (approved : Bool)
      → Life (decided_status approved s) path u
      → Life s (decided_status approved s ∷ path) u

abbrev pub IsTerminal : OperationStatus → Type 0
IsTerminal s =
    (s ≡ OperationStatus.completed) ⊎ (s ≡ OperationStatus.failed) ⊎ (s ≡ OperationStatus.cancelled)

-- Under the guarded transitions, the escalations and the decisions of a person, in any order, an
-- operation that is escalated, completed, failed or cancelled stays one of these, and is not
-- executing again.
pub closed_stays :
    {s t : OperationStatus} {path : List OperationStatus}
    → Life s path t
    → (s ≡ OperationStatus.escalated) ⊎ IsTerminal s
    → ((t ≡ OperationStatus.escalated) ⊎ IsTerminal t)
      × (contains OperationStatus.executing path ≡ false)
unfolding assert_operation_transition decided_status
closed_stays here h = ground arith
closed_stays (move g l) h = ground (arith, closed_stays l)
closed_stays (escalate l) h = ground (arith, closed_stays l)
closed_stays (decide approved l) h = ground (arith, closed_stays l)

-- Under the guarded transitions, the escalations and the decisions of a person, an operation
-- becomes completed only after it was executing or escalated.
pub completed_needs_cause :
    {s t : OperationStatus} {path : List OperationStatus}
    → Life s path t
    → t ≡ OperationStatus.completed
    → (s ≡ OperationStatus.completed)
      ⊎ (s ≡ OperationStatus.executing)
      ⊎ (s ≡ OperationStatus.escalated)
      ⊎ (contains OperationStatus.executing path ≡ true)
      ⊎ (contains OperationStatus.escalated path ≡ true)
unfolding assert_operation_transition decided_status
completed_needs_cause here e = ground arith
completed_needs_cause (move g l) e = ground (arith, completed_needs_cause l e)
completed_needs_cause (escalate l) e = ground arith
completed_needs_cause (decide approved l) e = ground (arith, completed_needs_cause l e)

-- Under the guarded transitions, the escalations and the decisions of a person, an operation that
-- is executing, escalated or terminal is never ready for validation again.
pub executing_never_ready :
    {s t : OperationStatus} {path : List OperationStatus}
    → Life s path t
    → (s ≡ OperationStatus.executing) ⊎ (s ≡ OperationStatus.escalated) ⊎ IsTerminal s
    → contains OperationStatus.ready_for_validation path ≡ false
unfolding assert_operation_transition decided_status
executing_never_ready here e = ground arith
executing_never_ready (move g l) e = ground (arith, executing_never_ready l)
executing_never_ready (escalate l) e = ground (arith, executing_never_ready l)
executing_never_ready (decide approved l) e = ground (arith, executing_never_ready l)
