-- ===== src/Domain/Enums.antt =====
-- domain/enums.py, and ScheduledExecutionStatus of workflow/execution_service.py. The database
-- stores the string value of a member; the member stands for it here. The member `open` of
-- ClarificationStatus is spelled `opened`, since the word is reserved.
use snoc_automation_agent.Prelude.{ℕ, ◌≡◌, ◌↔◌, Bool, true, arith, nat_eq, Eq}

pub data OperationAction : Type 0 where
  vpn_access otp_number_change account_unblock password_reset unknown : OperationAction

abbrev operation_action_index : OperationAction → ℕ
operation_action_index OperationAction.vpn_access = 0
operation_action_index OperationAction.otp_number_change = 1
operation_action_index OperationAction.account_unblock = 2
operation_action_index OperationAction.password_reset = 3
operation_action_index OperationAction.unknown = 4

abbrev operation_action_eq : OperationAction → OperationAction → Bool
operation_action_eq a b = nat_eq (operation_action_index a) (operation_action_index b)

pub operation_action_eq_iff : (a b : OperationAction) → (operation_action_eq a b ≡ true) ↔ (a ≡ b)
operation_action_eq_iff a b = ground arith

instance abbrev pub Eq-OperationAction : Eq OperationAction
Eq-OperationAction = record { same = operation_action_eq; same_iff = operation_action_eq_iff }

pub data Direction : Type 0 where
  inbound outbound : Direction

pub data ProcessingStatus : Type 0 where
  stored processing processed failed duplicate ignored quarantined : ProcessingStatus

abbrev processing_status_index : ProcessingStatus → ℕ
processing_status_index ProcessingStatus.stored = 0
processing_status_index ProcessingStatus.processing = 1
processing_status_index ProcessingStatus.processed = 2
processing_status_index ProcessingStatus.failed = 3
processing_status_index ProcessingStatus.duplicate = 4
processing_status_index ProcessingStatus.ignored = 5
processing_status_index ProcessingStatus.quarantined = 6

abbrev processing_status_eq : ProcessingStatus → ProcessingStatus → Bool
processing_status_eq a b = nat_eq (processing_status_index a) (processing_status_index b)

pub processing_status_eq_iff :
    (a b : ProcessingStatus) → (processing_status_eq a b ≡ true) ↔ (a ≡ b)
processing_status_eq_iff a b = ground arith

instance abbrev pub Eq-ProcessingStatus : Eq ProcessingStatus
Eq-ProcessingStatus = record { same = processing_status_eq; same_iff = processing_status_eq_iff }

pub data RequestStatus : Type 0 where
  new analyzing active partially_completed needs_information ready_for_validation escalated
        completed failed cancelled expired :
      RequestStatus

abbrev request_status_index : RequestStatus → ℕ
request_status_index RequestStatus.new = 0
request_status_index RequestStatus.analyzing = 1
request_status_index RequestStatus.active = 2
request_status_index RequestStatus.partially_completed = 3
request_status_index RequestStatus.needs_information = 4
request_status_index RequestStatus.ready_for_validation = 5
request_status_index RequestStatus.escalated = 6
request_status_index RequestStatus.completed = 7
request_status_index RequestStatus.failed = 8
request_status_index RequestStatus.cancelled = 9
request_status_index RequestStatus.expired = 10

abbrev request_status_eq : RequestStatus → RequestStatus → Bool
request_status_eq a b = nat_eq (request_status_index a) (request_status_index b)

pub request_status_eq_iff : (a b : RequestStatus) → (request_status_eq a b ≡ true) ↔ (a ≡ b)
request_status_eq_iff a b = ground arith

instance abbrev pub Eq-RequestStatus : Eq RequestStatus
Eq-RequestStatus = record { same = request_status_eq; same_iff = request_status_eq_iff }

pub data OperationStatus : Type 0 where
  new needs_information ready_for_validation escalated executing completed failed cancelled :
      OperationStatus

abbrev operation_status_index : OperationStatus → ℕ
operation_status_index OperationStatus.new = 0
operation_status_index OperationStatus.needs_information = 1
operation_status_index OperationStatus.ready_for_validation = 2
operation_status_index OperationStatus.escalated = 3
operation_status_index OperationStatus.executing = 4
operation_status_index OperationStatus.completed = 5
operation_status_index OperationStatus.failed = 6
operation_status_index OperationStatus.cancelled = 7

abbrev operation_status_eq : OperationStatus → OperationStatus → Bool
operation_status_eq a b = nat_eq (operation_status_index a) (operation_status_index b)

pub operation_status_eq_iff : (a b : OperationStatus) → (operation_status_eq a b ≡ true) ↔ (a ≡ b)
operation_status_eq_iff a b = ground arith

instance abbrev pub Eq-OperationStatus : Eq OperationStatus
Eq-OperationStatus = record { same = operation_status_eq; same_iff = operation_status_eq_iff }

pub data ClarificationStatus : Type 0 where
  pending_send opened resolved expired : ClarificationStatus

abbrev clarification_status_index : ClarificationStatus → ℕ
clarification_status_index ClarificationStatus.pending_send = 0
clarification_status_index ClarificationStatus.opened = 1
clarification_status_index ClarificationStatus.resolved = 2
clarification_status_index ClarificationStatus.expired = 3

abbrev clarification_status_eq : ClarificationStatus → ClarificationStatus → Bool
clarification_status_eq a b = nat_eq (clarification_status_index a) (clarification_status_index b)

pub clarification_status_eq_iff :
    (a b : ClarificationStatus) → (clarification_status_eq a b ≡ true) ↔ (a ≡ b)
clarification_status_eq_iff a b = ground arith

instance abbrev pub Eq-ClarificationStatus : Eq ClarificationStatus
Eq-ClarificationStatus = record {
  same = clarification_status_eq;
  same_iff = clarification_status_eq_iff;
}

pub data OutboxStatus : Type 0 where
  pending sending sent failed : OutboxStatus

abbrev outbox_status_index : OutboxStatus → ℕ
outbox_status_index OutboxStatus.pending = 0
outbox_status_index OutboxStatus.sending = 1
outbox_status_index OutboxStatus.sent = 2
outbox_status_index OutboxStatus.failed = 3

abbrev outbox_status_eq : OutboxStatus → OutboxStatus → Bool
outbox_status_eq a b = nat_eq (outbox_status_index a) (outbox_status_index b)

pub outbox_status_eq_iff : (a b : OutboxStatus) → (outbox_status_eq a b ≡ true) ↔ (a ≡ b)
outbox_status_eq_iff a b = ground arith

instance abbrev pub Eq-OutboxStatus : Eq OutboxStatus
Eq-OutboxStatus = record { same = outbox_status_eq; same_iff = outbox_status_eq_iff }

pub data ExecutionStatus : Type 0 where
  pending succeeded failed unknown : ExecutionStatus

abbrev execution_status_index : ExecutionStatus → ℕ
execution_status_index ExecutionStatus.pending = 0
execution_status_index ExecutionStatus.succeeded = 1
execution_status_index ExecutionStatus.failed = 2
execution_status_index ExecutionStatus.unknown = 3

abbrev execution_status_eq : ExecutionStatus → ExecutionStatus → Bool
execution_status_eq a b = nat_eq (execution_status_index a) (execution_status_index b)

pub execution_status_eq_iff : (a b : ExecutionStatus) → (execution_status_eq a b ≡ true) ↔ (a ≡ b)
execution_status_eq_iff a b = ground arith

instance abbrev pub Eq-ExecutionStatus : Eq ExecutionStatus
Eq-ExecutionStatus = record { same = execution_status_eq; same_iff = execution_status_eq_iff }

pub data FinalDecision : Type 0 where
  auto_execute ask_for_information escalate ignore mark_duplicate review_correction : FinalDecision

abbrev final_decision_index : FinalDecision → ℕ
final_decision_index FinalDecision.auto_execute = 0
final_decision_index FinalDecision.ask_for_information = 1
final_decision_index FinalDecision.escalate = 2
final_decision_index FinalDecision.ignore = 3
final_decision_index FinalDecision.mark_duplicate = 4
final_decision_index FinalDecision.review_correction = 5

abbrev final_decision_eq : FinalDecision → FinalDecision → Bool
final_decision_eq a b = nat_eq (final_decision_index a) (final_decision_index b)

pub final_decision_eq_iff : (a b : FinalDecision) → (final_decision_eq a b ≡ true) ↔ (a ≡ b)
final_decision_eq_iff a b = ground arith

instance abbrev pub Eq-FinalDecision : Eq FinalDecision
Eq-FinalDecision = record { same = final_decision_eq; same_iff = final_decision_eq_iff }

pub data CorrelationStrength : Type 0 where
  strong weak new conflict none : CorrelationStrength

abbrev correlation_strength_index : CorrelationStrength → ℕ
correlation_strength_index CorrelationStrength.strong = 0
correlation_strength_index CorrelationStrength.weak = 1
correlation_strength_index CorrelationStrength.new = 2
correlation_strength_index CorrelationStrength.conflict = 3
correlation_strength_index CorrelationStrength.none = 4

abbrev correlation_strength_eq : CorrelationStrength → CorrelationStrength → Bool
correlation_strength_eq a b = nat_eq (correlation_strength_index a) (correlation_strength_index b)

pub correlation_strength_eq_iff :
    (a b : CorrelationStrength) → (correlation_strength_eq a b ≡ true) ↔ (a ≡ b)
correlation_strength_eq_iff a b = ground arith

instance abbrev pub Eq-CorrelationStrength : Eq CorrelationStrength
Eq-CorrelationStrength = record {
  same = correlation_strength_eq;
  same_iff = correlation_strength_eq_iff;
}

pub data ScheduledExecutionStatus : Type 0 where
  scheduled dispatching dispatched cancelled failed : ScheduledExecutionStatus

abbrev scheduled_execution_status_index : ScheduledExecutionStatus → ℕ
scheduled_execution_status_index ScheduledExecutionStatus.scheduled = 0
scheduled_execution_status_index ScheduledExecutionStatus.dispatching = 1
scheduled_execution_status_index ScheduledExecutionStatus.dispatched = 2
scheduled_execution_status_index ScheduledExecutionStatus.cancelled = 3
scheduled_execution_status_index ScheduledExecutionStatus.failed = 4

abbrev scheduled_execution_status_eq : ScheduledExecutionStatus → ScheduledExecutionStatus → Bool
scheduled_execution_status_eq a b =
    nat_eq (scheduled_execution_status_index a) (scheduled_execution_status_index b)

pub scheduled_execution_status_eq_iff :
    (a b : ScheduledExecutionStatus) → (scheduled_execution_status_eq a b ≡ true) ↔ (a ≡ b)
scheduled_execution_status_eq_iff a b = ground arith

instance abbrev pub Eq-ScheduledExecutionStatus : Eq ScheduledExecutionStatus
Eq-ScheduledExecutionStatus = record {
  same = scheduled_execution_status_eq;
  same_iff = scheduled_execution_status_eq_iff;
}
