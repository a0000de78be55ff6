-- ===== src/Execution/Execute/Steps.antt =====
-- `execute` of workflow/execution_service.py by the result of its first transaction.
use snoc_automation_agent.Prelude.{ℕ, ◌≡◌, Option, arith}
use snoc_automation_agent.Domain.Errors.{Error, ok, raise}
use snoc_automation_agent.Db.Models.{IdempotencyKey}
use snoc_automation_agent.Db.Session.{Db, session_scope}
use snoc_automation_agent.Execution.Api.{Service, World}
use snoc_automation_agent.Execution.Prepare.{PendingCall, Prepared, ExecutionOutcome, prepare}
use snoc_automation_agent.Execution.Execute.{execute, execute_prepared, complete}

module _ (svc : Service) (i : ℕ) (r : Option ℕ) (key : Option IdempotencyKey) (w : World)
    (db' : Db) where
  pub execute-calling :
      (p : PendingCall)
      → prepare svc i r key w.db ≡ ok (Prepared.calling p, db')
      → execute svc i r key w ≡ complete svc p (record w { db = db' })
  unfolding execute execute_prepared session_scope
  execute-calling p h = ground arith

  pub execute-finished :
      (o : ExecutionOutcome)
      → prepare svc i r key w.db ≡ ok (Prepared.finished o, db')
      → execute svc i r key w ≡ (ok o, record w { db = db' })
  unfolding execute execute_prepared session_scope
  execute-finished o h = ground arith

pub execute-raise :
    (svc : Service) (i : ℕ) (r : Option ℕ) (key : Option IdempotencyKey) (w : World) (e : Error)
    → prepare svc i r key w.db ≡ raise e
    → execute svc i r key w ≡ (raise e, w)
unfolding execute session_scope
execute-raise svc i r key w e h = ground arith
