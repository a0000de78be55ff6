-- ===== src/Db/Models.antt =====
-- db/models.py: the rows that the workflow reads and writes, without the columns that no modelled
-- code reads. A UUID is a number; a timestamp column is the instant in UTC; the JSON object of a
-- response is its fields, with their values as texts. An idempotency key, the text `{operation.id}:{revision}`, is its parts.
use snoc_automation_agent.Prelude.{
  ℕ, ◌≡◌, ◌↔◌, Bool, true, ◌&&◌, Option, List, String, Eq, Eq-ℕ, nat_eq, arith,
}
use snoc_automation_agent.Domain.Enums.{
  OperationStatus, RequestStatus, ExecutionStatus, FinalDecision, ScheduledExecutionStatus,
  OutboxStatus, ClarificationStatus, ProcessingStatus, Direction,
}

pub record IdempotencyKey : Type 0 where
  pub operation_id : ℕ
  pub revision : ℕ

abbrev pub key_eq : IdempotencyKey → IdempotencyKey → Bool
key_eq a b = nat_eq a.operation_id b.operation_id && nat_eq a.revision b.revision

pub key_eq_iff : (a b : IdempotencyKey) → (key_eq a b ≡ true) ↔ (a ≡ b)
key_eq_iff a b = ground arith

instance abbrev pub Eq-IdempotencyKey : Eq IdempotencyKey
Eq-IdempotencyKey = record { same = key_eq; same_iff = key_eq_iff }

pub record Conversation : Type 0 where
  pub id : ℕ
  pub normalized_subject : String
  pub primary_sender : Option String
  pub last_message_at : ℕ

pub record EmailMessage : Type 0 where
  pub id : ℕ
  pub conversation_id : Option ℕ
  pub direction : Direction
  pub rfc_message_id : Option String
  pub normalized_message_id : Option String
  pub in_reply_to : Option String
  pub references_json : List String
  pub sender : String
  pub recipients_json : List String
  pub subject : String
  pub normalized_subject : String
  pub raw_text : String
  pub latest_user_message : String
  pub raw_eml_blob : Option String
  pub processing_status : ProcessingStatus

pub record BusinessRequest : Type 0 where
  pub id : ℕ
  pub public_reference : String
  pub conversation_id : ℕ
  pub initiating_email_id : ℕ
  pub status : RequestStatus
  pub last_active_at : ℕ
  pub latest_completion_marker : Option String
  pub version : ℕ

pub record Operation : Type 0 where
  pub id : ℕ
  pub request_id : ℕ
  pub sequence_number : ℕ
  pub action : String
  pub status : OperationStatus
  pub pdv_code : Option String
  pub phone : Option String
  pub additional_payload : List (String × Option String)
  pub missing_fields : List String
  pub current_revision : ℕ
  pub execution_eligible : Bool
  pub final_decision : Option FinalDecision

pub record FieldRevision : Type 0 where
  pub id : ℕ
  pub operation_id : ℕ
  pub field_name : String
  pub old_value : Option String
  pub new_value : Option String
  pub source_email_id : ℕ
  pub model_run_id : Option ℕ
  pub reason : String

pub record Clarification : Type 0 where
  pub id : ℕ
  pub request_id : ℕ
  pub outbound_email_id : Option ℕ
  pub source_inbound_email_id : ℕ
  pub target_operation_ids : List ℕ
  pub requested_fields : List (ℕ × List String)
  pub question_text : String
  pub status : ClarificationStatus
  pub round_number : ℕ

pub record Execution : Type 0 where
  pub id : ℕ
  pub operation_id : ℕ
  pub operation_revision : ℕ
  pub idempotency_key : IdempotencyKey
  pub endpoint : String
  pub request_payload : List (String × Option String)
  pub response_status : Option ℕ
  pub response_body : List (String × String)
  pub dry_run : Bool
  pub attempt_count : ℕ
  pub status : ExecutionStatus

-- The values of `cancellation_data`.
pub data Json : Type 0 where
  null : Json
  text : String → Json
  number : ℕ → Json
  status : OperationStatus → Json
  key : IdempotencyKey → Json
  decision : Option FinalDecision → Json

pub record ScheduledExecution : Type 0 where
  pub id : ℕ
  pub operation_id : ℕ
  pub request_id : ℕ
  pub operation_revision : ℕ
  pub idempotency_key : IdempotencyKey
  pub source_email_id : ℕ
  pub not_before : ℕ
  pub status : ScheduledExecutionStatus
  pub cancellation_reason : Option String
  pub cancellation_source_email_id : Option ℕ
  pub cancellation_data : List (String × Json)
  pub claimed_at : Option ℕ
  pub dispatched_at : Option ℕ
  pub cancelled_at : Option ℕ
  pub execution_id : Option ℕ
  pub last_error : Option String
  pub created_at : ℕ
  pub updated_at : ℕ

pub record OutboxMessage : Type 0 where
  pub id : ℕ
  pub related_request_id : Option ℕ
  pub related_clarification_id : Option ℕ
  pub outbound_email_id : ℕ
  pub recipient : String
  pub subject : String
  pub body : String
  pub headers : List (String × String)
  pub status : OutboxStatus
  pub retry_count : ℕ
  pub last_error : Option String
  pub created_at : ℕ
  pub sent_at : Option ℕ
