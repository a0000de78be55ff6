-- ===== src/Execution/Recorded.antt =====
-- The execution rows of workflow/execution_service.py by their idempotency keys: which step of
-- `execute` adds one, and that none goes away.
use mathlib.Core.Path.{subst}
use native.Mathlib.Nat.{le_refl}
use Prim.Native.String.{◌++◌ as str_append}
use snoc_automation_agent.Domain.Enums.{ExecutionStatus}
use snoc_automation_agent.Prelude.{
  update_where, Bool-cases, ℕ, ◌+◌, ◌≤◌, ◌≡◌, refl, Bool, Option, none, List, [], ◌∷◌, ◌++◌, String,
  arith, ◌==◌, Eq-ℕ, if◌then◌else◌, is_some, inl, inr, find,
}
use snoc_automation_agent.Prelude.Tables.{find-append, find-update_where}
use snoc_automation_agent.Domain.Errors.{ok}
use snoc_automation_agent.Db.Models.{
  Execution, Operation, IdempotencyKey, Eq-IdempotencyKey, key_eq_iff,
}
use snoc_automation_agent.Db.Session.{
  Db, by_idempotency_key, add_execution, edit_execution, edit_operation,
}
use snoc_automation_agent.Execution.Api.{ApiReply, Service}
use snoc_automation_agent.Execution.Prepare.{
  pending_call, idempotency_key, execution_row, PendingCall, Prepared, ExecutionOutcome, prepare,
  start_execution, reject_preflight,
}
use snoc_automation_agent.Execution.Prepare.Inversion.{
  IsFinished, prepare-calling, prepare-finished,
}
use snoc_automation_agent.Execution.Execute.{
  record_result, record_exception, stored_result, stored_exception, record_reply,
}

abbrev pub recorded : IdempotencyKey → Db → ℕ
recorded k db = if is_some (by_idempotency_key k db) then 1 else 0

abbrev has_key : IdempotencyKey → Execution → Bool
has_key k e = e.idempotency_key == k

abbrev present : Option Execution → ℕ
present found = if is_some found then 1 else 0

-- A row with a new key takes that key from absent to present, and no other key away.
present-append :
    (k : IdempotencyKey) (e : Execution) (rows : List Execution)
    → find (has_key e.idempotency_key) rows ≡ none
    → present (find (has_key k) rows) + (if e.idempotency_key == k then 1 else 0)
      ≤ present (find (has_key k) (rows ++ e ∷ []))
unfolding find
present-append k e rows absent = elim (Bool-cases (e.idempotency_key == k)) [
  | inl same ↦
      let same_path : e.idempotency_key ≡ k = (key_eq_iff e.idempotency_key k).0 same in
      ground (
        arith,
        find-append (has_key k) rows (e ∷ []),
        subst (λ j. find (has_key j) rows ≡ none) same_path absent,
      )
  | inr other ↦ ground (arith, find-append (has_key k) rows (e ∷ []))
]

-- An update that leaves the keys alone leaves every lookup by key as it was.
present-update_where :
    (k : IdempotencyKey) (q : Execution → Bool) (f : Execution → Execution) (rows : List Execution)
    → ((e : Execution) → (f e).idempotency_key ≡ e.idempotency_key)
    → present (find (has_key k) (update_where q f rows)) ≡ present (find (has_key k) rows)
present-update_where k q f rows keeps =
    ground (arith, find-update_where (has_key k) q f rows (λ e. rw (keeps e)))

module _ (k : IdempotencyKey) where
  start_execution-recorded :
      (svc : Service) (op : Operation) (p : PendingCall) (db db' : Db)
      → start_execution svc op db ≡ ok (Prepared.calling p, db')
      → recorded k db + (if p.key == k then 1 else 0) ≤ recorded k db'
  unfolding start_execution by_idempotency_key add_execution execution_row idempotency_key
      edit_operation pending_call
  start_execution-recorded svc op p db db' h = ground (
    arith,
    present-append k
        (execution_row op db.next_id (str_append "pending:" op.action) [] ExecutionStatus.pending)
        db.executions,
  )

  pub prepare-recorded :
      (svc : Service) (i : ℕ) (r : Option ℕ) (key : Option IdempotencyKey) (p : PendingCall)
      (db db' : Db)
      → prepare svc i r key db ≡ ok (Prepared.calling p, db')
      → recorded k db + (if p.key == k then 1 else 0) ≤ recorded k db'
  prepare-recorded svc i r key p db db' h =
      let (op, found, clear) = prepare-calling svc i r key p db db' h in
      start_execution-recorded svc op p db db' clear.started

  reject_preflight-recorded :
      (op : Operation) (error : String) (o : ExecutionOutcome) (db db' : Db)
      → reject_preflight op error db ≡ ok (Prepared.finished o, db')
      → recorded k db ≤ recorded k db'
  unfolding reject_preflight by_idempotency_key add_execution execution_row idempotency_key
      edit_operation
  reject_preflight-recorded op error o db db' h = ground (
    arith,
    present-append k
        (execution_row op db.next_id (str_append "rejected_preflight:" op.action)
          (("error", error) ∷ []) ExecutionStatus.failed)
        db.executions,
  )

  finished-recorded :
      (svc : Service) (op : Operation) (o : ExecutionOutcome) (db db' : Db)
      → IsFinished svc op o db db'
      → recorded k db ≤ recorded k db'
  finished-recorded svc op o db db' (IsFinished.replayed prior found same kept) =
      rw kept (le_refl _)
  finished-recorded svc op o db db' (IsFinished.rejected error fresh bad done) =
      reject_preflight-recorded op error o db db' done

  pub prepare_finished-recorded :
      (svc : Service) (i : ℕ) (r : Option ℕ) (key : Option IdempotencyKey) (o : ExecutionOutcome)
      (db db' : Db)
      → prepare svc i r key db ≡ ok (Prepared.finished o, db')
      → recorded k db ≤ recorded k db'
  prepare_finished-recorded svc i r key o db db' h =
      let (op, found, done) = prepare-finished svc i r key o db db' h in
      finished-recorded svc op o db db' done

  pub record_reply-recorded :
      (p : PendingCall) (reply : ApiReply) (o : ExecutionOutcome) (db db' : Db)
      → record_reply p reply db ≡ ok (o, db')
      → recorded k db ≡ recorded k db'
  unfolding record_reply record_result record_exception by_idempotency_key edit_execution
      edit_operation
  record_reply-recorded p (ApiReply.returned result) o db db' h = ground (
    arith,
    present-update_where k (λ e. e.id == p.execution_id) (stored_result result) db.executions
        (λ x. unfold stored_result in refl),
  )
  record_reply-recorded p (ApiReply.raised e) o db db' h = ground (
    arith,
    present-update_where k (λ e. e.id == p.execution_id) (stored_exception e) db.executions
        (λ x. unfold stored_exception in refl),
  )
