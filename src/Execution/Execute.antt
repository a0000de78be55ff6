-- ===== src/Execution/Execute.antt =====
-- `ExecutionService.execute` of workflow/execution_service.py after its first transaction: the call
-- of the business API, and the transaction that records its outcome.
pub mod Steps
use Prim.Native.Nat.{max}
use snoc_automation_agent.Prelude.{
  ℕ, Bool, false, ◌⊎◌, inl, inr, Option, none, some, List, [], ◌∷◌, String, Eq-ℕ, if◌then◌else◌,
  truncate,
}
use snoc_automation_agent.Domain.Enums.{OperationAction, OperationStatus, ExecutionStatus}
use snoc_automation_agent.Domain.Errors.{Result, ok, raise, runtime_error, assertion_error}
use snoc_automation_agent.Domain.StateMachine.{assert_operation_transition}
use snoc_automation_agent.Db.Models.{Operation, Execution, IdempotencyKey}
use snoc_automation_agent.Db.Session.{
  Tx, session_scope, get_operation, get_execution, edit_operation, edit_execution,
}
use snoc_automation_agent.Execution.Api.{
  ApiCall, ApiReply, ApiErrorKind, ApiException, BusinessApiResult, Service, Run,
}
use snoc_automation_agent.Execution.Prepare.{
  ExecutionOutcome, PendingCall, Prepared, prepare, escalate_operation,
}

-- An exception that the method itself raises inside the `try` block.
abbrev local_exception : String → String → ApiException
local_exception type_name message = record {
  kind = ApiErrorKind.other;
  message = message;
  type_name = type_name;
  attempts = none;
}

-- Which call the `try` block makes, or the exception that it raises before any call.
unfoldable pub call_of :
    PendingCall → String → OperationAction → Option String → ApiCall ⊎ ApiException
call_of p pdv OperationAction.vpn_access (some phone) =
    inl (ApiCall.create_vpn_access pdv phone p.key p.additional)
call_of p pdv OperationAction.vpn_access none =
    inr (local_exception "AssertionError" "execution preflight allowed a missing VPN phone")
call_of p pdv OperationAction.otp_number_change (some phone) =
    inl (ApiCall.update_otp pdv phone p.key)
call_of p pdv OperationAction.otp_number_change none =
    inr (local_exception "AssertionError" "execution preflight allowed a missing OTP phone")
call_of p pdv OperationAction.account_unblock phone = inl (ApiCall.unlock_account pdv p.key)
call_of p pdv OperationAction.password_reset phone = inl (ApiCall.reset_password pdv p.key)
call_of p pdv OperationAction.unknown phone =
    inr (local_exception "UnsafeExecutionError" "unsupported action unknown")

-- The `try` block: the reply, and the calls made so far.
unfoldable pub invoke : Service → PendingCall → String → List ApiCall → ApiReply × List ApiCall
invoke svc p pdv calls = elim (call_of p pdv p.action p.phone) [
  | inl call ↦ (svc.business_api calls call, call ∷ calls)
  | inr e ↦ (ApiReply.raised e, calls)
]

-- The status that an exception leaves: only a definite refusal counts as failed.
unfoldable pub exception_status : ApiErrorKind → ExecutionStatus
exception_status ApiErrorKind.transport = ExecutionStatus.unknown
exception_status ApiErrorKind.api = ExecutionStatus.failed
exception_status ApiErrorKind.other = ExecutionStatus.unknown

abbrev attempts_of : Option ℕ → ℕ
attempts_of none = 1
attempts_of (some n) = n

unfoldable pub stored_exception : ApiException → Execution → Execution
stored_exception e x = record x {
  status = exception_status e.kind;
  attempt_count = max 1 (attempts_of e.attempts);
  response_body = ("error", truncate 2000 e.message) ∷ ("exception_type", e.type_name) ∷ [];
}

unfoldable pub record_exception : PendingCall → ApiException → Tx ExecutionOutcome
record_exception p e db = ok (
  record { execution_id = p.execution_id; status = exception_status e.kind; detail = e.message },
  edit_operation p.operation_id escalate_operation
      (edit_execution p.execution_id (stored_exception e) db),
)

unfoldable pub stored_result : BusinessApiResult → Execution → Execution
stored_result result x = record x {
  endpoint = result.endpoint;
  response_status = result.status_code;
  response_body = result.response_body;
  dry_run = result.dry_run;
  attempt_count = result.attempts;
  status = if result.success then ExecutionStatus.succeeded else ExecutionStatus.failed;
}

unfoldable pub result_outcome : PendingCall → BusinessApiResult → ExecutionOutcome
result_outcome p result = record {
  execution_id = p.execution_id;
  status = if result.success then ExecutionStatus.succeeded else ExecutionStatus.failed;
  detail =
      if result.success
      then "business API accepted operation"
      else "business API rejected operation";
}

unfoldable pub complete_operation : Operation → Operation
complete_operation op = record op { status = OperationStatus.completed; execution_eligible = false }

-- The status of the operation once the API answered.
unfoldable pub settle_operation : Bool → Operation → Result (Operation → Operation)
settle_operation success op =
    if success
    then elim (assert_operation_transition op.status OperationStatus.completed) [
      | ok _ ↦ ok complete_operation
      | raise e ↦ raise e
    ]
    else ok escalate_operation

unfoldable pub record_result : PendingCall → BusinessApiResult → Tx ExecutionOutcome
record_result p result db = elim (get_execution p.execution_id db) [
  | none ↦ raise runtime_error
  | some x ↦ elim (get_operation p.operation_id db) [
    | none ↦ raise runtime_error
    | some op ↦ elim (settle_operation result.success op) [
      | raise e ↦ raise e
      | ok settle ↦ ok (
        result_outcome p result,
        edit_operation p.operation_id settle
            (edit_execution p.execution_id (stored_result result) db),
      )
    ]
  ]
]

unfoldable pub record_reply : PendingCall → ApiReply → Tx ExecutionOutcome
record_reply p (ApiReply.returned result) = record_result p result
record_reply p (ApiReply.raised e) = record_exception p e

-- From the call to the end.
unfoldable pub complete : Service → PendingCall → Run ExecutionOutcome
complete svc p w = elim p.pdv_code [
  | none ↦ (raise assertion_error, w)
  | some pdv ↦
      let (reply, calls) = invoke svc p pdv w.calls in
      let (outcome, db) = session_scope (record_reply p reply) w.db in
      (outcome, record { db = db; calls = calls })
]

unfoldable pub execute_prepared : Service → Prepared → Run ExecutionOutcome
execute_prepared svc (Prepared.finished outcome) w = (ok outcome, w)
execute_prepared svc (Prepared.calling p) w = complete svc p w

unfoldable pub execute : Service → ℕ → Option ℕ → Option IdempotencyKey → Run ExecutionOutcome
execute svc operation_id expected_revision expected_key w =
    let (prepared, db) =
      session_scope (prepare svc operation_id expected_revision expected_key) w.db in
    elim prepared [
      | raise e ↦ (raise e, record w { db = db })
      | ok done ↦ execute_prepared svc done (record w { db = db })
    ]
