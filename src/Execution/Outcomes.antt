-- ===== src/Execution/Outcomes.antt =====
-- One run of `execute` in workflow/execution_service.py with nothing else at work: which calls it
-- makes, and in what state it leaves the operation and its execution row.
use mathlib.Core.Path.{subst}
use snoc_automation_agent.Prelude.{
  ℕ, ◌≡◌, refl, sym, ◌∙◌, false, Option, none, some, ◌∷◌, String, arith, Eq-ℕ, inl,
}
use snoc_automation_agent.Domain.Enums.{
  OperationStatus, Eq-OperationStatus, Eq-OperationAction, Eq-ExecutionStatus,
}
use snoc_automation_agent.Domain.Errors.{ok}
use snoc_automation_agent.Domain.ValueObjects.{canonical_action}
use snoc_automation_agent.Db.Models.{Execution, Operation, IdempotencyKey, Eq-IdempotencyKey}
use snoc_automation_agent.Db.Session.{
  Db, session_scope, get_operation, get_execution, by_idempotency_key,
}
use snoc_automation_agent.Db.Rows.{operation_id_of}
use snoc_automation_agent.Execution.Api.{ApiCall, Service, World, call_key}
use snoc_automation_agent.Execution.Prepare.{
  PendingCall, Prepared, ExecutionOutcome, prepare, prepare_operation, prepare_new, preflight_error,
  idempotency_key, recorded_outcome, changed_revision, changed_key, pending_call,
}
use snoc_automation_agent.Execution.Execute.Steps.{execute-calling}
use snoc_automation_agent.Execution.Execute.{
  execute, execute_prepared, complete, invoke, call_of, record_reply,
}
use snoc_automation_agent.Execution.Settling.{
  IsSettled-reply, IsSettled, call_of-made, preflight-fields, start_execution_lem, started,
}

module _ (svc : Service) (i : ℕ) (r : Option ℕ) (key : Option IdempotencyKey) (w : World)
    (op : Operation) (found : get_operation i w.db ≡ some op) where
  pub execute_replays :
      (prior : Execution)
      → changed_revision r op ≡ false
      → changed_key key op ≡ false
      → by_idempotency_key (idempotency_key op) w.db ≡ some prior
      → execute svc i r key w ≡ (ok (recorded_outcome prior), w)
  unfolding execute prepare prepare_operation session_scope execute_prepared
  execute_replays prior kept same recorded = ground arith

-- What a run of `execute` that is not refused does to the world.
pub record IsExecuted (op : Operation) (w w' : World) (o : ExecutionOutcome) : Type 0 where
  pub made : ApiCall
  pub one_call : w'.calls ≡ made ∷ w.calls
  pub keyed : call_key made ≡ idempotency_key op
  pub settled : IsSettled op o w'.db

complete_lem :
    (svc : Service) (p : PendingCall) (w : World) (pdv : String) (c : ApiCall)
    (o : ExecutionOutcome) (db' : Db)
    → p.pdv_code ≡ some pdv
    → call_of p pdv p.action p.phone ≡ inl c
    → record_reply p (svc.business_api w.calls c) w.db ≡ ok (o, db')
    → complete svc p w ≡ (ok o, record { db = db'; calls = c ∷ w.calls })
unfolding complete invoke session_scope
complete_lem svc p w pdv c o db' has makes recorded = ground arith

complete-settles :
    (svc : Service) (op : Operation) (w : World)
    → get_operation op.id w.db ≡ some op
    → by_idempotency_key (idempotency_key op) w.db ≡ none
    → get_execution w.db.next_id w.db ≡ none
    → preflight_error svc op ≡ none
    → (o : ExecutionOutcome) × (w' : World) × (complete svc
          (pending_call svc op w.db.next_id)
          (record w { db = started op w.db })
        ≡ (ok o, w'))
      × IsExecuted op w w' o
unfolding pending_call
complete-settles svc op w found fresh unused clear =
    let (pdv, has_pdv, known, fits) = preflight-fields svc op clear in
    let p = pending_call svc op w.db.next_id in
    let (c, makes, keyed) =
      call_of-made p pdv (canonical_action svc.python op.action) op.phone known fits in
    let (o, db', recorded, settled) =
      IsSettled-reply svc op w.db found fresh unused (svc.business_api w.calls c) in
    (
      o,
      record { db = db'; calls = c ∷ w.calls },
      complete_lem svc p (record w { db = started op w.db }) pdv c o db' has_pdv makes recorded,
      record { made = c; one_call = refl; keyed = keyed; settled = settled },
    )

prepare_lem :
    (svc : Service) (i : ℕ) (r : Option ℕ) (key : Option IdempotencyKey) (db : Db) (op : Operation)
    → get_operation i db ≡ some op
    → changed_revision r op ≡ false
    → changed_key key op ≡ false
    → op.status ≡ OperationStatus.ready_for_validation
    → preflight_error svc op ≡ none
    → by_idempotency_key (idempotency_key op) db ≡ none
    → prepare svc i r key db ≡ ok (Prepared.calling (pending_call svc op db.next_id), started op db)
unfolding prepare prepare_operation prepare_new
prepare_lem svc i r key db op found kept same ready clear fresh =
    ground (arith, start_execution_lem svc op db ready fresh)

-- A ready operation that passes the preflight, is as the caller expects it, and has no record for
-- its revision is executed, where the next row number is not taken: `execute` returns, whatever
-- the API replies or raises, after exactly one call under the revision's key, and the operation
-- and its execution row are settled.
pub execute_settles :
    (svc : Service) (i : ℕ) (r : Option ℕ) (key : Option IdempotencyKey) (w : World)
    (op : Operation)
    → get_operation i w.db ≡ some op
    → changed_revision r op ≡ false
    → changed_key key op ≡ false
    → op.status ≡ OperationStatus.ready_for_validation
    → preflight_error svc op ≡ none
    → by_idempotency_key (idempotency_key op) w.db ≡ none
    → get_execution w.db.next_id w.db ≡ none
    → (o : ExecutionOutcome) × (w' : World) × (execute svc i r key w ≡ (ok o, w'))
      × IsExecuted op w w' o
execute_settles svc i r key w op found kept same ready clear fresh unused =
    let id_of = operation_id_of i w.db op found in
    let found' : get_operation op.id w.db ≡ some op =
      subst (λ j. get_operation j w.db ≡ some op) (sym id_of) found in
    let (o, w', ran, done) = complete-settles svc op w found' fresh unused clear in
    (
      o,
      w',
      execute-calling svc i r key w (started op w.db) (pending_call svc op w.db.next_id)
            (prepare_lem svc i r key w.db op found kept same ready clear fresh)
          ∙ ran,
      done,
    )
