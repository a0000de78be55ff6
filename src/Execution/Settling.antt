-- ===== src/Execution/Settling.antt =====
-- What the transactions of `execute` in workflow/execution_service.py leave, step by step.

use Prim.Native.String.{◌++◌ as str_append}
use snoc_automation_agent.Prelude.{
  ◌≡◌, ◌≢◌, refl, ◌∙◌, Bool, false, ◌&&◌, ◌||◌, Option, none, some, [], ◌∷◌, ◌++◌, String, arith,
  is_none, ◌+◌, ◌==◌, Eq-ℕ, inl, inr, Option-cases, if◌then◌else◌, find,
}
use snoc_automation_agent.Prelude.Tables.{find-append, find-update_where}
use snoc_automation_agent.Domain.Enums.{
  OperationAction, OperationStatus, ExecutionStatus, Eq-OperationStatus, Eq-OperationAction,
  Eq-ExecutionStatus,
}
use snoc_automation_agent.Domain.Errors.{ok}
use snoc_automation_agent.Domain.StateMachine.{assert_operation_transition}
use snoc_automation_agent.Domain.ValueObjects.{canonical_action}
use snoc_automation_agent.Db.Models.{Execution, Operation, Eq-IdempotencyKey}
use snoc_automation_agent.Db.Session.{
  Db, get_operation, get_execution, by_idempotency_key, add_execution, edit_execution,
  edit_operation,
}
use snoc_automation_agent.Db.Rows.{
  get-edit_operation, get_operation-edit_execution, by_key-edit_operation, by_key-edit_execution,
}
use snoc_automation_agent.Execution.Api.{ApiCall, ApiReply, BusinessApiResult, Service, call_key}
use snoc_automation_agent.Execution.Prepare.{
  PendingCall, Prepared, escalate_operation, ExecutionOutcome, start_execution, preflight_error,
  idempotency_key, execution_row, pending_call,
}
use snoc_automation_agent.Execution.Execute.{
  call_of, record_reply, record_result, complete_operation, result_outcome, exception_status,
  record_exception, settle_operation, stored_result, stored_exception,
}

abbrev pub takes_phone : OperationAction → Bool
takes_phone action =
    action == OperationAction.vpn_access || action == OperationAction.otp_number_change

-- What preflight leaves: the fields that the call takes.
pub preflight-fields :
    (svc : Service) (op : Operation)
    → preflight_error svc op ≡ none
    → (pdv : String) × (op.pdv_code ≡ some pdv)
      × (canonical_action svc.python op.action ≢ OperationAction.unknown)
      × (takes_phone (canonical_action svc.python op.action) && is_none op.phone ≡ false)
unfolding preflight_error
preflight-fields svc op h = elim (Option-cases op.pdv_code) [
  | inl absent ↦ absurd (ground arith)
  | inr (pdv, e) ↦ (pdv, e, ground arith, ground arith)
]

-- A known action with its fields makes one call, under the key of the operation's revision.
pub call_of-made :
    (p : PendingCall) (pdv : String) (action : OperationAction) (phone : Option String)
    → action ≢ OperationAction.unknown
    → takes_phone action && is_none phone ≡ false
    → (c : ApiCall) × (call_of p pdv action phone ≡ inl c) × (call_key c ≡ p.key)
unfolding call_of
call_of-made p pdv OperationAction.vpn_access (some phone) known fits = (_, refl, refl)
call_of-made p pdv OperationAction.vpn_access none known fits = absurd (ground arith)
call_of-made p pdv OperationAction.otp_number_change (some phone) known fits = (_, refl, refl)
call_of-made p pdv OperationAction.otp_number_change none known fits = absurd (ground arith)
call_of-made p pdv OperationAction.account_unblock phone known fits = (_, refl, refl)
call_of-made p pdv OperationAction.password_reset phone known fits = (_, refl, refl)
call_of-made p pdv OperationAction.unknown phone known fits = absurd (known refl)

-- The database between the two transactions.
abbrev pub started : Operation → Db → Db
started op db =
    record (edit_operation op.id (λ o. record o { status = OperationStatus.executing }) db) {
      executions =
          db.executions
          ++ execution_row op db.next_id (str_append "pending:" op.action) []
              ExecutionStatus.pending
            ∷ [];
      next_id = db.next_id + 1;
    }

pub start_execution_lem :
    (svc : Service) (op : Operation) (db : Db)
    → op.status ≡ OperationStatus.ready_for_validation
    → by_idempotency_key (idempotency_key op) db ≡ none
    → start_execution svc op db
      ≡ ok (Prepared.calling (pending_call svc op db.next_id), started op db)
unfolding start_execution add_execution by_idempotency_key execution_row edit_operation
    assert_operation_transition
start_execution_lem svc op db ready fresh = ground arith

-- What a finished run leaves in the database: the operation is closed, as completed exactly on
-- success, and the row under its key has the outcome's status, which is no longer pending.
pub record IsSettled (op : Operation) (o : ExecutionOutcome) (db : Db) : Type 0 where
  pub operation : Operation
  pub operation_read : get_operation op.id db ≡ some operation
  pub operation_status : operation.status ≡ (
      if o.status == ExecutionStatus.succeeded
      then OperationStatus.completed
      else OperationStatus.escalated)
  pub operation_closed : operation.execution_eligible ≡ false
  pub execution : Execution
  pub execution_read : by_idempotency_key (idempotency_key op) db ≡ some execution
  pub execution_status : execution.status ≡ o.status
  pub same_id : operation.id ≡ op.id
  pub same_revision : operation.current_revision ≡ op.current_revision
  pub execution_id : execution.id ≡ o.execution_id
  pub not_pending : o.status ≢ ExecutionStatus.pending

abbrev pub new_row : Operation → Db → Execution
new_row op db =
    execution_row op db.next_id (str_append "pending:" op.action) [] ExecutionStatus.pending

module _ (svc : Service) (op : Operation) (db : Db) (found : get_operation op.id db ≡ some op)
    (fresh : by_idempotency_key (idempotency_key op) db ≡ none)
    (unused : get_execution db.next_id db ≡ none) where
  started-operation :
      get_operation op.id (started op db) ≡ some (record op { status = OperationStatus.executing })
  unfolding get_operation edit_operation
  started-operation = ground (
    arith,
    find-update_where (λ (x : Operation). x.id == op.id) (λ x. x.id == op.id)
        (λ o. record o { status = OperationStatus.executing }) db.operations (λ x. refl),
  )

  started-execution : get_execution db.next_id (started op db) ≡ some (new_row op db)
  unfolding get_execution find execution_row
  started-execution = ground (
    arith,
    find-append (λ (x : Execution). x.id == db.next_id) db.executions (new_row op db ∷ []),
  )

  started-by_key : by_idempotency_key (idempotency_key op) (started op db) ≡ some (new_row op db)
  unfolding by_idempotency_key find execution_row idempotency_key
  started-by_key = ground (
    arith,
    find-append (λ (x : Execution). x.idempotency_key == idempotency_key op) db.executions
        (new_row op db ∷ []),
  )

  -- What the last transaction does to the two rows.
  edited-operation :
      (f : Operation → Operation) (g : Execution → Execution)
      → ((x : Operation) → (f x).id ≡ x.id)
      → get_operation op.id (edit_operation op.id f (edit_execution db.next_id g (started op db)))
        ≡ some (f (record op { status = OperationStatus.executing }))
  edited-operation f g keeps =
      get-edit_operation op.id f (edit_execution db.next_id g (started op db)) _ keeps
        (get_operation-edit_execution op.id db.next_id g (started op db) ∙ started-operation)

  edited-execution :
      (f : Operation → Operation) (g : Execution → Execution)
      → ((x : Execution) → (g x).idempotency_key ≡ x.idempotency_key)
      → by_idempotency_key
          (idempotency_key op)
          (edit_operation op.id f (edit_execution db.next_id g (started op db)))
        ≡ some (g (new_row op db))
  unfolding execution_row
  edited-execution f g keeps =
      by_key-edit_operation (idempotency_key op) op.id f
        (edit_execution db.next_id g (started op db))
      ∙ by_key-edit_execution (idempotency_key op) g (started op db) (new_row op db) keeps
          started-by_key

  abbrev settled_db : (Operation → Operation) → (Execution → Execution) → Db
  settled_db f g = edit_operation op.id f (edit_execution db.next_id g (started op db))

  settled_result :
      (result : BusinessApiResult)
      → record_result (pending_call svc op db.next_id) result (started op db)
        ≡ ok (
          result_outcome (pending_call svc op db.next_id) result,
          settled_db
              (if result.success then complete_operation else escalate_operation)
              (stored_result result),
        )
  unfolding record_result pending_call settle_operation assert_operation_transition
  settled_result result = ground (arith, started-execution, started-operation)

  pub IsSettled-reply :
      (reply : ApiReply)
      → (o : ExecutionOutcome) × (db' : Db) × (record_reply
            (pending_call svc op db.next_id)
            reply
            (started op db)
          ≡ ok (o, db'))
        × IsSettled op o db'
  unfolding record_reply record_exception escalate_operation complete_operation stored_exception
      stored_result exception_status result_outcome pending_call execution_row
  IsSettled-reply (ApiReply.returned result) = (
    _,
    _,
    settled_result result,
    record {
      operation =
          (if result.success then complete_operation else escalate_operation)
            (record op { status = OperationStatus.executing });
      operation_read =
          edited-operation (if result.success then complete_operation else escalate_operation)
            (stored_result result) (λ x. ground arith);
      operation_status = ground arith;
      operation_closed = ground arith;
      execution = stored_result result (new_row op db);
      execution_read =
          edited-execution (if result.success then complete_operation else escalate_operation)
            (stored_result result) (λ x. refl);
      execution_status = refl;
      same_id = ground arith;
      same_revision = ground arith;
      execution_id = ground arith;
      not_pending = λ h. ground arith;
    },
  )
  IsSettled-reply (ApiReply.raised e) = (
    _,
    settled_db escalate_operation (stored_exception e),
    refl,
    record {
      operation = escalate_operation (record op { status = OperationStatus.executing });
      operation_read = edited-operation escalate_operation (stored_exception e) (λ x. refl);
      operation_status = ground arith;
      operation_closed = refl;
      execution = stored_exception e (new_row op db);
      execution_read = edited-execution escalate_operation (stored_exception e) (λ x. refl);
      execution_status = refl;
      same_id = ground arith;
      same_revision = ground arith;
      execution_id = ground arith;
      not_pending = λ h. ground arith;
    },
  )
