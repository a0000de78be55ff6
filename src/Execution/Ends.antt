-- ===== src/Execution/Ends.antt =====
-- How the dispatch of a claimed row ends: `_dispatch_claimed` of workflow/execution_service.py.
use mathlib.Core.Path.{subst}
use snoc_automation_agent.Prelude.{
  ℕ, ◌≡◌, ◌≢◌, inl, inr, refl, sym, ◌∙◌, some, arith, Eq-ℕ, Option-cases,
}
use snoc_automation_agent.Domain.Enums.{ScheduledExecutionStatus, Eq-ScheduledExecutionStatus}
use snoc_automation_agent.Domain.Errors.{Error, Result-cases}
use snoc_automation_agent.Db.Models.{ScheduledExecution}
use snoc_automation_agent.Db.Session.{
  Db, get_operation, get_scheduled, edit_scheduled, by_idempotency_key,
}
use snoc_automation_agent.Db.Rows.{get-edit_scheduled, scheduled_id_of}
use snoc_automation_agent.Execution.Api.{Service, World}
use snoc_automation_agent.Execution.Prepare.{ExecutionOutcome}
use snoc_automation_agent.Execution.Execute.{execute}
use snoc_automation_agent.Execution.Untouched.{execute-scheduled}
use snoc_automation_agent.Execution.Dispatch.{
  ScheduledDispatchOutcome, dispatch_claimed, dispatch_row, dispatch_unrecorded, dispatch_execution,
  dispatch_blocker, dispatch_raised, dispatch_precondition, dispatch_executed, finish,
  dispatched_row, cancel_claimed, failed_row,
}

-- The row is where the outcome says, and will not be dispatched again.
pub record IsEnded (id : ℕ) (o : ScheduledDispatchOutcome) (w : World) : Type 0 where
  pub row : ScheduledExecution
  pub row_read : get_scheduled id w.db ≡ some row
  pub agrees : row.status ≡ o.status
  pub not_waiting : row.status ≢ ScheduledExecutionStatus.scheduled
  pub not_dispatching : row.status ≢ ScheduledExecutionStatus.dispatching

get_scheduled_ext :
    (id : ℕ) (db db' : Db)
    → db'.scheduled ≡ db.scheduled
    → get_scheduled id db' ≡ get_scheduled id db
unfolding get_scheduled
get_scheduled_ext id db db' e = rw e

module _ (id : ℕ) (w : World) (row : ScheduledExecution) (read : get_scheduled id w.db ≡ some row)
    (claimed : row.status ≡ ScheduledExecutionStatus.dispatching) where
  -- An edit of the row that gives it the outcome's status ends it.
  IsEnded-edit :
      (f : ScheduledExecution → ScheduledExecution) (o : ScheduledDispatchOutcome)
      → ((x : ScheduledExecution) → (f x).id ≡ x.id)
      → (f row).status ≡ o.status
      → (f row).status ≢ ScheduledExecutionStatus.scheduled
      → (f row).status ≢ ScheduledExecutionStatus.dispatching
      → IsEnded id o (record w { db = edit_scheduled id f w.db })
  IsEnded-edit f o keeps agrees a b = record {
    row = f row;
    row_read = get-edit_scheduled id f w.db row keeps read;
    agrees = agrees;
    not_waiting = a;
    not_dispatching = b;
  }

  finish_lem :
      (f : ScheduledExecution → ScheduledExecution) → finish id f w.db ≡ edit_scheduled id f w.db
  unfolding finish
  finish_lem f = ground arith

  dispatch_raised-IsEnded :
      (svc : Service) (now : ℕ) (e : Error)
      → IsEnded id (dispatch_raised svc id now e w).0 (dispatch_raised svc id now e w).1
  unfolding dispatch_raised dispatch_precondition cancel_claimed failed_row
  dispatch_raised-IsEnded svc now Error.lookup_error =
      rw finish_lem (IsEnded-edit _ _ (λ x. refl) refl (λ h. ground arith) (λ h. ground arith))
  dispatch_raised-IsEnded svc now Error.unsafe_execution =
      rw finish_lem (IsEnded-edit _ _ (λ x. refl) refl (λ h. ground arith) (λ h. ground arith))
  dispatch_raised-IsEnded svc now _ =
      rw finish_lem (IsEnded-edit _ _ (λ x. refl) refl (λ h. ground arith) (λ h. ground arith))

  dispatch_executed-IsEnded :
      (now : ℕ) (x : ExecutionOutcome)
      → IsEnded id (dispatch_executed id now x w).0 (dispatch_executed id now x w).1
  unfolding dispatch_executed dispatched_row
  dispatch_executed-IsEnded now x =
      rw (read, dispatch_executed, claimed)
        (IsEnded-edit _ _ (λ x. refl) refl (λ h. ground arith) (λ h. ground arith))

module _ (svc : Service) (now : ℕ) (w : World) (row : ScheduledExecution)
    (read : get_scheduled row.id w.db ≡ some row)
    (claimed : row.status ≡ ScheduledExecutionStatus.dispatching) where
  abbrev Ends : ScheduledDispatchOutcome × World → Type 0
  Ends r = IsEnded row.id r.0 r.1

  dispatch_execution-IsEnded : Ends (dispatch_execution svc row now w)
  unfolding dispatch_execution
  dispatch_execution-IsEnded =
      let ran =
        execute svc row.operation_id (some row.operation_revision) (some row.idempotency_key) w in
      let kept : get_scheduled row.id ran.1.db ≡ some row =
        get_scheduled_ext row.id w.db ran.1.db (
          execute-scheduled svc row.operation_id (some row.operation_revision)
            (some row.idempotency_key) w)
        ∙ read in
      elim (Result-cases ran.0) [
        | inl (x, e) ↦
            rw (e, dispatch_execution)
              (dispatch_executed-IsEnded row.id ran.1 row kept claimed now x)
        | inr (x, e) ↦
            rw (e, dispatch_execution)
              (dispatch_raised-IsEnded row.id ran.1 row kept claimed svc now x)
      ]

  dispatch_unrecorded-IsEnded : Ends (dispatch_unrecorded svc row now w)
  unfolding dispatch_unrecorded cancel_claimed
  dispatch_unrecorded-IsEnded =
      elim (Option-cases (dispatch_blocker row (get_operation row.operation_id w.db))) [
        | inl clear ↦ rw (clear, dispatch_unrecorded) dispatch_execution-IsEnded
        | inr ((reason, details), e) ↦
            rw (e, dispatch_unrecorded)
              (IsEnded-edit row.id w row read claimed (cancel_claimed reason details now) _
                (λ x. refl) refl (λ h. ground arith) (λ h. ground arith))
      ]

  dispatch_row-IsEnded : Ends (dispatch_row svc row now w)
  unfolding dispatch_row dispatched_row
  dispatch_row-IsEnded = elim (Option-cases (by_idempotency_key row.idempotency_key w.db)) [
    | inl fresh ↦ rw (fresh, dispatch_row) dispatch_unrecorded-IsEnded
    | inr (prior, e) ↦
        rw (e, dispatch_row)
          (IsEnded-edit row.id w row read claimed (dispatched_row prior.id now) _ (λ x. refl) refl
            (λ h. ground arith) (λ h. ground arith))
  ]

dispatch_claimed-row :
    (svc : Service) (id now : ℕ) (w : World) (row : ScheduledExecution)
    → get_scheduled id w.db ≡ some row
    → row.status ≡ ScheduledExecutionStatus.dispatching
    → dispatch_claimed svc id now w ≡ dispatch_row svc row now w
unfolding dispatch_claimed
dispatch_claimed-row svc id now w row read claimed = ground arith

-- A claimed row never stays claimed: whatever the API replies or raises, and whatever became of
-- the operation, its row ends with the status that the outcome reports, neither waiting nor
-- dispatching.
pub dispatch_claimed-IsEnded :
    (svc : Service) (id now : ℕ) (w : World) (row : ScheduledExecution)
    → get_scheduled id w.db ≡ some row
    → row.status ≡ ScheduledExecutionStatus.dispatching
    → IsEnded id (dispatch_claimed svc id now w).0 (dispatch_claimed svc id now w).1
dispatch_claimed-IsEnded svc id now w row read claimed =
    let same = scheduled_id_of id w.db row read in
    let read' : get_scheduled row.id w.db ≡ some row =
      subst (λ j. get_scheduled j w.db ≡ some row) (sym same) read in
    let ended : Ends svc now w row read' claimed (dispatch_row svc row now w) =
      dispatch_row-IsEnded svc now w row read' claimed in
    rw (dispatch_claimed-row svc id now w row read claimed) (
      subst (λ j. IsEnded j (dispatch_row svc row now w).0 (dispatch_row svc row now w).1) same
        ended)
