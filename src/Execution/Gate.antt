-- ===== src/Execution/Gate.antt =====
-- What the dispatch of a scheduled row requires, and what it leaves alone otherwise:
-- `_dispatch_claimed` and `dispatch_due` of workflow/execution_service.py.
use snoc_automation_agent.Prelude.{
  ℕ, ◌≡◌, ◌⊎◌, inl, inr, refl, true, Option, none, some, arith, ◌==◌, Eq-ℕ, Option-cases,
  Bool-cases,
}
use snoc_automation_agent.Domain.Enums.{
  OperationStatus, FinalDecision, ScheduledExecutionStatus, Eq-ScheduledExecutionStatus,
}
use snoc_automation_agent.Db.Models.{Operation, ScheduledExecution}
use snoc_automation_agent.Db.Session.{get_operation, get_scheduled, by_idempotency_key}
use snoc_automation_agent.Execution.Api.{Service, World}
use snoc_automation_agent.Execution.Prepare.{idempotency_key}
use snoc_automation_agent.Execution.Dispatch.{
  dispatch_claimed, dispatch_row, dispatch_unrecorded, dispatch_execution, dispatch_blocker,
}

-- The operation is still the one that was scheduled, and still cleared for automatic execution.
pub record IsGateOpen (row : ScheduledExecution) (op : Operation) : Type 0 where
  pub same_request : op.request_id ≡ row.request_id
  pub same_revision : op.current_revision ≡ row.operation_revision
  pub same_key : idempotency_key op ≡ row.idempotency_key
  pub ready : op.status ≡ OperationStatus.ready_for_validation
  pub eligible : op.execution_eligible ≡ true
  pub automatic : op.final_decision ≡ some FinalDecision.auto_execute

-- The guards let a row through exactly when its operation exists and the gate is open.
pub dispatch_blocker-none :
    (row : ScheduledExecution) (found : Option Operation)
    → dispatch_blocker row found ≡ none
    → (op : Operation) × (found ≡ some op) × IsGateOpen row op
unfolding dispatch_blocker
dispatch_blocker-none row none h = absurd (ground arith)
dispatch_blocker-none row (some op) h = (op, refl, ground arith)

pub IsGateOpen-dispatch_blocker :
    (row : ScheduledExecution) (op : Operation)
    → IsGateOpen row op
    → dispatch_blocker row (some op) ≡ none
unfolding dispatch_blocker
IsGateOpen-dispatch_blocker row op h = ground arith

-- What made a call of the API possible.
pub record IsDispatchable (id : ℕ) (w : World) : Type 0 where
  pub row : ScheduledExecution
  pub op : Operation
  pub row_read : get_scheduled id w.db ≡ some row
  pub claimed : row.status ≡ ScheduledExecutionStatus.dispatching
  pub unrecorded : by_idempotency_key row.idempotency_key w.db ≡ none
  pub op_read : get_operation row.operation_id w.db ≡ some op
  pub gate : IsGateOpen row op

dispatch_execution-read :
    (svc : Service) (row : ScheduledExecution) (now : ℕ) (w : World)
    → by_idempotency_key row.idempotency_key w.db ≡ none
    → dispatch_blocker row (get_operation row.operation_id w.db) ≡ none
    → dispatch_row svc row now w ≡ dispatch_execution svc row now w
unfolding dispatch_row dispatch_unrecorded
dispatch_execution-read svc row now w fresh clear = ground arith

dispatch_row-cases :
    (svc : Service) (row : ScheduledExecution) (now : ℕ) (w : World)
    → ((dispatch_row svc row now w).1.calls ≡ w.calls)
      ⊎ ((by_idempotency_key row.idempotency_key w.db ≡ none)
          × (dispatch_blocker row (get_operation row.operation_id w.db) ≡ none))
unfolding dispatch_row dispatch_unrecorded
dispatch_row-cases svc row now w =
    elim (Option-cases (by_idempotency_key row.idempotency_key w.db)) [
      | inr (prior, e) ↦ inl (ground arith)
      | inl fresh ↦
          elim (Option-cases (dispatch_blocker row (get_operation row.operation_id w.db))) [
            | inl clear ↦ inr (fresh, clear)
            | inr (reason, e) ↦ inl (ground arith)
          ]
    ]

-- Dispatching a claimed row calls the business API only through an open gate: the row is claimed,
-- its revision has no execution, and the operation is as it was scheduled and still cleared.
-- In every other case no call is made.
pub dispatch_claimed-gate :
    (svc : Service) (id now : ℕ) (w : World)
    → ((dispatch_claimed svc id now w).1.calls ≡ w.calls) ⊎ IsDispatchable id w
unfolding dispatch_claimed
dispatch_claimed-gate svc id now w = elim (Option-cases (get_scheduled id w.db)) [
  | inl absent ↦ inl (ground arith)
  | inr (row, read) ↦ elim (Bool-cases (row.status == ScheduledExecutionStatus.dispatching)) [
    | inr other ↦ inl (ground arith)
    | inl claimed ↦ elim (dispatch_row-cases svc row now w) [
      | inl same ↦ inl (ground arith)
      | inr (fresh, clear) ↦
          let (op, op_read, gate) =
            dispatch_blocker-none row (get_operation row.operation_id w.db) clear in
          inr (record {
            row = row;
            op = op;
            row_read = read;
            claimed = ground arith;
            unrecorded = fresh;
            op_read = op_read;
            gate = gate;
          })
    ]
  ]
]
