-- ===== src/Execution/Prepare/Inversion.antt =====
-- When the first transaction of `execute` in workflow/execution_service.py goes on to a call.
use snoc_automation_agent.Prelude.{
  ℕ, ◌≡◌, ◌≢◌, false, Option, none, some, String, arith, Eq-ℕ, inl, inr, Option-cases,
}
use snoc_automation_agent.Domain.Enums.{OperationStatus, Eq-OperationStatus}
use snoc_automation_agent.Domain.Errors.{ok}
use snoc_automation_agent.Db.Models.{Execution, Operation, IdempotencyKey}
use snoc_automation_agent.Db.Session.{Db, get_operation, by_idempotency_key}
use snoc_automation_agent.Execution.Api.{Service}
use snoc_automation_agent.Execution.Prepare.{
  ExecutionOutcome, recorded_outcome, PendingCall, Prepared, prepare, prepare_operation,
  prepare_new, start_execution, reject_preflight, preflight_error, idempotency_key,
  changed_revision, changed_key,
}

-- A rejection by preflight ends with an outcome.
reject_preflight-ne-calling :
    (op : Operation) (error : String) (p : PendingCall) (db db' : Db)
    → reject_preflight op error db ≢ ok (Prepared.calling p, db')
unfolding reject_preflight
reject_preflight-ne-calling op error p db db' h = ground arith

-- What holds where a call is made ready.
pub record IsCleared (svc : Service) (op : Operation) (r : Option ℕ) (key : Option IdempotencyKey)
    (p : PendingCall) (db db' : Db) : Type 0 where
  pub revision_kept : changed_revision r op ≡ false
  pub key_kept : changed_key key op ≡ false
  pub unrecorded : by_idempotency_key (idempotency_key op) db ≡ none
  pub ready : op.status ≡ OperationStatus.ready_for_validation
  pub accepted : preflight_error svc op ≡ none
  pub started : start_execution svc op db ≡ ok (Prepared.calling p, db')

module _ (svc : Service) (op : Operation) (p : PendingCall) (db db' : Db) where
  prepare_new-calling :
      prepare_new svc op db ≡ ok (Prepared.calling p, db')
      → (op.status ≡ OperationStatus.ready_for_validation)
        × (preflight_error svc op ≡ none)
        × (start_execution svc op db ≡ ok (Prepared.calling p, db'))
  unfolding prepare_new
  prepare_new-calling h = elim (Option-cases (preflight_error svc op)) [
    | inl clear ↦ ground arith
    | inr (error, bad) ↦ absurd (ground (arith, reject_preflight-ne-calling op error p db db'))
  ]

  prepare_operation-calling :
      (r : Option ℕ) (key : Option IdempotencyKey)
      → prepare_operation svc op r key db ≡ ok (Prepared.calling p, db')
      → IsCleared svc op r key p db db'
  unfolding prepare_operation
  prepare_operation-calling r key h =
      elim (Option-cases (by_idempotency_key (idempotency_key op) db)) [
        | inl fresh ↦ ground (arith, prepare_new-calling)
        | inr (prior, found) ↦ absurd (ground arith)
      ]

pub prepare-calling :
    (svc : Service) (i : ℕ) (r : Option ℕ) (key : Option IdempotencyKey) (p : PendingCall)
    (db db' : Db)
    → prepare svc i r key db ≡ ok (Prepared.calling p, db')
    → (op : Operation) × (get_operation i db ≡ some op) × IsCleared svc op r key p db db'
unfolding prepare
prepare-calling svc i r key p db db' h = elim (Option-cases (get_operation i db)) [
  | inl absent ↦ absurd (ground arith)
  | inr (op, found) ↦ (op, found, prepare_operation-calling svc op p db db' r key (ground arith))
]

-- What holds where the transaction ends the execution at once: the revision was recorded before,
-- or preflight rejects it.
pub data IsFinished (svc : Service) (op : Operation) (o : ExecutionOutcome) (db db' : Db)
    : Type 0 where
  replayed :
      (prior : Execution)
      → by_idempotency_key (idempotency_key op) db ≡ some prior
      → o ≡ recorded_outcome prior
      → db' ≡ db
      → IsFinished svc op o db db'
  rejected :
      (error : String)
      → by_idempotency_key (idempotency_key op) db ≡ none
      → preflight_error svc op ≡ some error
      → reject_preflight op error db ≡ ok (Prepared.finished o, db')
      → IsFinished svc op o db db'

module _ (svc : Service) (op : Operation) (o : ExecutionOutcome) (db db' : Db) where
  start_execution-ne-finished : start_execution svc op db ≢ ok (Prepared.finished o, db')
  unfolding start_execution
  start_execution-ne-finished h = ground arith

  prepare_new-finished :
      prepare_new svc op db ≡ ok (Prepared.finished o, db')
      → (error : String) × (preflight_error svc op ≡ some error)
        × (reject_preflight op error db ≡ ok (Prepared.finished o, db'))
  unfolding prepare_new
  prepare_new-finished h = elim (Option-cases (preflight_error svc op)) [
    | inl clear ↦ absurd (ground (arith, start_execution-ne-finished))
    | inr (error, bad) ↦ (error, bad, ground arith)
  ]

  prepare_operation-finished :
      (r : Option ℕ) (key : Option IdempotencyKey)
      → prepare_operation svc op r key db ≡ ok (Prepared.finished o, db')
      → IsFinished svc op o db db'
  unfolding prepare_operation
  prepare_operation-finished r key h =
      elim (Option-cases (by_idempotency_key (idempotency_key op) db)) [
        | inl fresh ↦
            let (error, bad, e) = prepare_new-finished (ground arith) in
            IsFinished.rejected error fresh bad e
        | inr (prior, found) ↦ IsFinished.replayed prior found (ground arith) (ground arith)
      ]

pub prepare-finished :
    (svc : Service) (i : ℕ) (r : Option ℕ) (key : Option IdempotencyKey) (o : ExecutionOutcome)
    (db db' : Db)
    → prepare svc i r key db ≡ ok (Prepared.finished o, db')
    → (op : Operation) × (get_operation i db ≡ some op) × IsFinished svc op o db db'
unfolding prepare
prepare-finished svc i r key o db db' h = elim (Option-cases (get_operation i db)) [
  | inl absent ↦ absurd (ground arith)
  | inr (op, found) ↦ (op, found, prepare_operation-finished svc op o db db' r key (ground arith))
]
