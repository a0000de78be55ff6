-- ===== src/Execution/Untouched.antt =====
-- What `execute` of workflow/execution_service.py leaves alone: the rows of the grace queue.
use snoc_automation_agent.Prelude.{ℕ, ◌≡◌, ap, String, ◌∙◌, Option, arith, inl, inr, Option-cases}
use snoc_automation_agent.Domain.Errors.{ok, Result-cases}
use snoc_automation_agent.Db.Models.{IdempotencyKey, Operation}
use snoc_automation_agent.Db.Session.{
  Db, Tx, commit_scope, session_scope, edit_operation, edit_execution, add_execution,
}
use snoc_automation_agent.Execution.Api.{ApiReply, Service, World}
use snoc_automation_agent.Execution.Prepare.{
  PendingCall, Prepared, ExecutionOutcome, prepare, start_execution, reject_preflight,
}
use snoc_automation_agent.Execution.Prepare.Inversion.{
  IsFinished, prepare-calling, prepare-finished,
}
use snoc_automation_agent.Execution.Execute.Steps.{execute-calling, execute-finished, execute-raise}
use snoc_automation_agent.Execution.Execute.{
  execute, complete, invoke, record_reply, record_result, record_exception,
}

module _ (db db' : Db) where
  start_execution-scheduled :
      (svc : Service) (op : Operation) (x : Prepared)
      → start_execution svc op db ≡ ok (x, db')
      → db'.scheduled ≡ db.scheduled
  unfolding start_execution add_execution edit_operation
  start_execution-scheduled svc op x h = ground arith

  reject_preflight-scheduled :
      (op : Operation) (error : String) (x : Prepared)
      → reject_preflight op error db ≡ ok (x, db')
      → db'.scheduled ≡ db.scheduled
  unfolding reject_preflight add_execution edit_operation
  reject_preflight-scheduled op error x h = ground arith

  finished-scheduled :
      (svc : Service) (op : Operation) (o : ExecutionOutcome)
      → IsFinished svc op o db db'
      → db'.scheduled ≡ db.scheduled
  finished-scheduled svc op o (IsFinished.replayed prior found same kept) =
      ap (λ (d : Db). d.scheduled) kept
  finished-scheduled svc op o (IsFinished.rejected error fresh bad done) =
      reject_preflight-scheduled op error (Prepared.finished o) done

  prepare-scheduled :
      (svc : Service) (i : ℕ) (r : Option ℕ) (key : Option IdempotencyKey) (x : Prepared)
      → prepare svc i r key db ≡ ok (x, db')
      → db'.scheduled ≡ db.scheduled
  prepare-scheduled svc i r key (Prepared.finished o) h =
      let (op, found, done) = prepare-finished svc i r key o db db' h in
      finished-scheduled svc op o done
  prepare-scheduled svc i r key (Prepared.calling p) h =
      let (op, found, clear) = prepare-calling svc i r key p db db' h in
      start_execution-scheduled svc op (Prepared.calling p) clear.started

  record_reply-scheduled :
      (p : PendingCall) (reply : ApiReply) (o : ExecutionOutcome)
      → record_reply p reply db ≡ ok (o, db')
      → db'.scheduled ≡ db.scheduled
  unfolding record_reply record_result record_exception edit_operation edit_execution
  record_reply-scheduled p (ApiReply.returned result) o h = ground arith
  record_reply-scheduled p (ApiReply.raised e) o h = ground arith

-- A transaction keeps what its committing runs keep.
session_scope-scheduled :
    {A : Type 0} (body : Tx A) (db : Db)
    → ((a : A) (db' : Db) → body db ≡ ok (a, db') → db'.scheduled ≡ db.scheduled)
    → (session_scope body db).1.scheduled ≡ db.scheduled
unfolding session_scope
session_scope-scheduled body db keeps = elim (Result-cases (body db)) [
  | inl ((a, db'), e) ↦ rw (session_scope, commit_scope, e) (keeps a db' e)
  | inr (x, e) ↦ rw (session_scope, commit_scope, e)
]

complete-scheduled :
    (svc : Service) (p : PendingCall) (w : World)
    → (complete svc p w).1.db.scheduled ≡ w.db.scheduled
unfolding complete
complete-scheduled svc p w = elim (Option-cases p.pdv_code) [
  | inl absent ↦ ground arith
  | inr (pdv, e) ↦
      rw (e, complete)
        (session_scope-scheduled (record_reply p (invoke svc p pdv w.calls).0) w.db
          (λ o db' h. record_reply-scheduled w.db db' p (invoke svc p pdv w.calls).0 o h))
]

-- A run of `execute`, however it ends, changes no row of the grace queue.
pub execute-scheduled :
    (svc : Service) (i : ℕ) (r : Option ℕ) (key : Option IdempotencyKey) (w : World)
    → (execute svc i r key w).1.db.scheduled ≡ w.db.scheduled
execute-scheduled svc i r key w = elim (Result-cases (prepare svc i r key w.db)) [
  | inl ((Prepared.finished o, db'), e) ↦
      rw (execute-finished svc i r key w db' o e)
        (prepare-scheduled w.db db' svc i r key (Prepared.finished o) e)
  | inl ((Prepared.calling p, db'), e) ↦ rw (execute-calling svc i r key w db' p e) (
      complete-scheduled svc p (record w { db = db' })
      ∙ prepare-scheduled w.db db' svc i r key (Prepared.calling p) e)
  | inr (x, e) ↦ rw (execute-raise svc i r key w x e)
]
