-- ===== src/Execution/Cancel.antt =====
-- `ExecutionService.cancel_scheduled_for_request` of workflow/execution_service.py.
use snoc_automation_agent.Prelude.{
  ℕ, Bool, not, ◌&&◌, Option, none, some, [], ◌∷◌, String, ◌==◌, Eq-ℕ, Eq-Option, if◌then◌else◌,
  update_where, count_where, strip, is_empty, truncate, Python,
}
use snoc_automation_agent.Domain.Enums.{ScheduledExecutionStatus, Eq-ScheduledExecutionStatus}
use snoc_automation_agent.Domain.Errors.{
  Result, ok, raise, lookup_error, unsafe_execution, value_error,
}
use snoc_automation_agent.Db.Models.{BusinessRequest, ScheduledExecution, Json}
use snoc_automation_agent.Db.Session.{Db, Tx, session_scope, get_email, get_request}

unfoldable pub is_waiting_for : ℕ → ScheduledExecution → Bool
is_waiting_for request_id row =
    row.request_id == request_id && row.status == ScheduledExecutionStatus.scheduled

abbrev source_json : Option ℕ → Json
source_json none = Json.null
source_json (some i) = Json.number i

unfoldable pub cancelled_row : String → Option ℕ → ℕ → ScheduledExecution → ScheduledExecution
cancelled_row reason source_email_id now row = record row {
  status = ScheduledExecutionStatus.cancelled;
  cancellation_reason = some (truncate 2000 reason);
  cancellation_source_email_id = source_email_id;
  cancellation_data =
      ("reason", Json.text (truncate 2000 reason))
      ∷ ("source_email_id", source_json source_email_id)
      ∷ [];
  cancelled_at = some now;
  updated_at = now;
}

unfoldable pub assert_cancellation_source : Option ℕ → BusinessRequest → Db → Result (Unit {0})
assert_cancellation_source none request db = ok tt
assert_cancellation_source (some i) request db = elim (get_email i db) [
  | none ↦ raise lookup_error
  | some email ↦
      if not (email.conversation_id == some request.conversation_id)
      then raise unsafe_execution
      else ok tt
]

unfoldable pub cancel_rows : ℕ → String → Option ℕ → ℕ → Tx ℕ
cancel_rows request_id reason source_email_id now db = elim (get_request request_id db) [
  | none ↦ raise lookup_error
  | some request ↦ elim (assert_cancellation_source source_email_id request db) [
    | raise e ↦ raise e
    | ok _ ↦ ok (
      count_where (is_waiting_for request_id) db.scheduled,
      record db {
        scheduled =
            update_where (is_waiting_for request_id) (cancelled_row reason source_email_id now)
              db.scheduled;
      },
    )
  ]
]

unfoldable pub cancel_scheduled_for_request :
    Python → ℕ → String → Option ℕ → ℕ → Db → Result ℕ × Db
cancel_scheduled_for_request py request_id reason source_email_id now db =
    let normalized_reason = strip py reason in
    if is_empty normalized_reason
    then (raise value_error, db)
    else session_scope (cancel_rows request_id normalized_reason source_email_id now) db
