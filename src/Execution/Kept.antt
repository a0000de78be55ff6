-- ===== src/Execution/Kept.antt =====
-- The record that a run of `execute` in workflow/execution_service.py leaves of its outcome.
use Prim.Native.String.{◌++◌ as str_append}
use snoc_automation_agent.Prelude.{
  ℕ, ◌+◌, ◌≡◌, refl, ◌∙◌, sym, none, some, [], ◌∷◌, ◌++◌, String, arith, ◌==◌, Eq-ℕ, find,
}
use mathlib.Core.Path.{subst}
use snoc_automation_agent.Prelude.Tables.{find-append}
use snoc_automation_agent.Domain.Enums.{ExecutionStatus}
use snoc_automation_agent.Domain.Errors.{ok}
use snoc_automation_agent.Db.Models.{Execution, Operation, Eq-IdempotencyKey}
use snoc_automation_agent.Db.Session.{
  Db, get_operation, by_idempotency_key, add_execution, edit_operation,
}
use snoc_automation_agent.Db.Rows.{get-edit_operation, by_key-edit_operation}
use snoc_automation_agent.Execution.Api.{World}
use snoc_automation_agent.Execution.Prepare.{
  Prepared, ExecutionOutcome, reject_preflight, escalate_operation, idempotency_key, execution_row,
}
use snoc_automation_agent.Execution.Outcomes.{IsExecuted}

-- An outcome is recorded: the operation is still at its revision, and the row under its key has the
-- number and the status of the outcome.
pub record IsRecorded (i : ℕ) (op : Operation) (o : ExecutionOutcome) (db : Db) : Type 0 where
  pub operation : Operation
  pub operation_read : get_operation i db ≡ some operation
  pub same_id : operation.id ≡ op.id
  pub same_revision : operation.current_revision ≡ op.current_revision
  pub execution : Execution
  pub execution_read : by_idempotency_key (idempotency_key op) db ≡ some execution
  pub execution_id : execution.id ≡ o.execution_id
  pub execution_status : execution.status ≡ o.status

abbrev rejected_row : Operation → String → Db → Execution
rejected_row op error db =
    execution_row op db.next_id (str_append "rejected_preflight:" op.action) (("error", error) ∷ [])
      ExecutionStatus.failed

abbrev added : Operation → String → Db → Db
added op error db = record db {
  executions = db.executions ++ rejected_row op error db ∷ [];
  next_id = db.next_id + 1;
}

abbrev rejection : String → Db → ExecutionOutcome
rejection error db = record {
  execution_id = db.next_id;
  status = ExecutionStatus.failed;
  detail = error;
}

reject_preflight_lem :
    (op : Operation) (error : String) (db : Db)
    → by_idempotency_key (idempotency_key op) db ≡ none
    → reject_preflight op error db
      ≡ ok (
        Prepared.finished (rejection error db),
        edit_operation op.id escalate_operation (added op error db),
      )
unfolding reject_preflight add_execution by_idempotency_key execution_row
reject_preflight_lem op error db fresh = ground arith

added-by_key :
    (op : Operation) (error : String) (db : Db)
    → by_idempotency_key (idempotency_key op) db ≡ none
    → by_idempotency_key (idempotency_key op) (added op error db) ≡ some (rejected_row op error db)
unfolding by_idempotency_key find execution_row idempotency_key
added-by_key op error db fresh = ground (
  arith,
  find-append (λ (x : Execution). x.idempotency_key == idempotency_key op) db.executions
      (rejected_row op error db ∷ []),
)

added-operation :
    (i : ℕ) (op : Operation) (error : String) (db : Db)
    → get_operation i (added op error db) ≡ get_operation i db
unfolding get_operation
added-operation i op error db = refl

rejection-IsRecorded :
    (op : Operation) (error : String) (db : Db)
    → get_operation op.id db ≡ some op
    → by_idempotency_key (idempotency_key op) db ≡ none
    → IsRecorded op.id op
        (rejection error db)
        (edit_operation op.id escalate_operation (added op error db))
unfolding escalate_operation execution_row
rejection-IsRecorded op error db found fresh = record {
  operation = escalate_operation op;
  operation_read =
      get-edit_operation op.id escalate_operation (added op error db) op (λ x. refl)
        (added-operation op.id op error db ∙ found);
  same_id = refl;
  same_revision = refl;
  execution = rejected_row op error db;
  execution_read =
      by_key-edit_operation (idempotency_key op) op.id escalate_operation (added op error db)
      ∙ added-by_key op error db fresh;
  execution_id = refl;
  execution_status = refl;
}

pub reject_preflight-IsRecorded :
    (op : Operation) (error : String) (o : ExecutionOutcome) (db db' : Db)
    → get_operation op.id db ≡ some op
    → by_idempotency_key (idempotency_key op) db ≡ none
    → reject_preflight op error db ≡ ok (Prepared.finished o, db')
    → IsRecorded op.id op o db'
reject_preflight-IsRecorded op error o db db' found fresh h =
    let e = sym (reject_preflight_lem op error db fresh) ∙ h in
    let same_outcome : rejection error db ≡ o = ground (arith, e) in
    let same_db : edit_operation op.id escalate_operation (added op error db) ≡ db' =
      ground (arith, e) in
    subst (λ d. IsRecorded op.id op o d) same_db
      (subst
        (λ x. IsRecorded op.id op x (edit_operation op.id escalate_operation (added op error db)))
        same_outcome (rejection-IsRecorded op error db found fresh))

pub IsExecuted-IsRecorded :
    (op : Operation) (w w' : World) (o : ExecutionOutcome)
    → IsExecuted op w w' o
    → IsRecorded op.id op o w'.db
IsExecuted-IsRecorded op w w' o h = record {
  operation = h.settled.operation;
  operation_read = h.settled.operation_read;
  same_id = h.settled.same_id;
  same_revision = h.settled.same_revision;
  execution = h.settled.execution;
  execution_read = h.settled.execution_read;
  execution_id = h.settled.execution_id;
  execution_status = h.settled.execution_status;
}
