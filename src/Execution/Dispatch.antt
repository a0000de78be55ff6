-- ===== src/Execution/Dispatch.antt =====
-- `ExecutionService.dispatch_due` of workflow/execution_service.py and what it calls: claiming a
-- row, the guards on the operation, and the end of a claimed row on every path.
use snoc_automation_agent.Prelude.{
  ℕ, Bool, not, ◌&&◌, ◌||◌, Option, none, some, List, [], ◌∷◌, String, ◌==◌, Eq-ℕ, Eq-Option,
  if◌then◌else◌, update_where, count_where, keep, sort_by, take, map, ltb, leb, truncate,
}
use snoc_automation_agent.Domain.Enums.{
  OperationStatus, FinalDecision, ScheduledExecutionStatus, Eq-OperationStatus, Eq-FinalDecision,
  Eq-ScheduledExecutionStatus,
}
use snoc_automation_agent.Domain.Errors.{Result, Error, ok, raise, value_error}
use snoc_automation_agent.Db.Models.{Operation, ScheduledExecution, Eq-IdempotencyKey, Json}
use snoc_automation_agent.Db.Session.{
  Db, get_operation, get_scheduled, edit_scheduled, by_idempotency_key,
}
use snoc_automation_agent.Execution.Api.{Service, World}
use snoc_automation_agent.Execution.Prepare.{ExecutionOutcome, idempotency_key, recorded_outcome}
use snoc_automation_agent.Execution.Execute.{execute}

pub record ScheduledDispatchOutcome : Type 0 where
  pub scheduled_execution_id : ℕ
  pub status : ScheduledExecutionStatus
  pub detail : String
  pub execution : Option ExecutionOutcome

abbrev pub dispatch_outcome :
    ℕ → ScheduledExecutionStatus → String → Option ExecutionOutcome → ScheduledDispatchOutcome
dispatch_outcome id status detail execution = record {
  scheduled_execution_id = id;
  status = status;
  detail = detail;
  execution = execution;
}

-- The rows that `_claim` may take: waiting, and due.
unfoldable pub is_due : ℕ → ScheduledExecution → Bool
is_due now row = row.status == ScheduledExecutionStatus.scheduled && leb row.not_before now

unfoldable pub claimed_row : ℕ → ScheduledExecution → ScheduledExecution
claimed_row now row = record row {
  status = ScheduledExecutionStatus.dispatching;
  claimed_at = some now;
  updated_at = now;
}

unfoldable pub claim : ℕ → ℕ → Db → Bool × Db
claim scheduled_id now db =
    let test = λ (row : ScheduledExecution). row.id == scheduled_id && is_due now row in
    (
      count_where test db.scheduled == 1,
      record db { scheduled = update_where test (claimed_row now) db.scheduled },
    )

-- Why a claimed row may not be dispatched, with what is kept of it.
unfoldable pub dispatch_blocker :
    ScheduledExecution → Option Operation → Option (String × List (String × Json))
dispatch_blocker row none =
    some ("operation_missing", ("operation_id", Json.number row.operation_id) ∷ [])
dispatch_blocker row (some op) =
    if not (op.request_id == row.request_id)
    then some (
      "operation_request_changed",
      ("scheduled_request_id", Json.number row.request_id)
          ∷ ("observed_request_id", Json.number op.request_id)
          ∷ [],
    )
    else if not (op.current_revision == row.operation_revision)
    then some (
      "stale_operation_revision",
      ("scheduled_revision", Json.number row.operation_revision)
          ∷ ("observed_revision", Json.number op.current_revision)
          ∷ [],
    )
    else if not (idempotency_key op == row.idempotency_key)
    then some (
      "idempotency_key_mismatch",
      ("scheduled_key", Json.key row.idempotency_key)
          ∷ ("observed_key", Json.key (idempotency_key op))
          ∷ [],
    )
    else if not (op.status == OperationStatus.ready_for_validation)
    then some ("operation_not_ready", ("observed_status", Json.status op.status) ∷ [])
    else if not op.execution_eligible
    then some ("operation_not_execution_eligible", [])
    else if not (op.final_decision == some FinalDecision.auto_execute)
    then some (
      "operation_decision_not_auto_execute",
      ("observed_decision", Json.decision op.final_decision) ∷ [],
    )
    else none

unfoldable pub cancel_claimed :
    String → List (String × Json) → ℕ → ScheduledExecution → ScheduledExecution
cancel_claimed reason details now row = record row {
  status = ScheduledExecutionStatus.cancelled;
  cancellation_reason = some reason;
  cancellation_data = ("reason", Json.text reason) ∷ details;
  cancelled_at = some now;
  updated_at = now;
}

-- `execution_id` is unique among the scheduled executions, which is not checked here: two rows that
-- name one execution are not told apart from a valid table.
unfoldable pub dispatched_row : ℕ → ℕ → ScheduledExecution → ScheduledExecution
dispatched_row execution_id now row = record row {
  status = ScheduledExecutionStatus.dispatched;
  execution_id = some execution_id;
  dispatched_at = some now;
  updated_at = now;
}

unfoldable pub failed_row : String → ℕ → ScheduledExecution → ScheduledExecution
failed_row error now row = record row {
  status = ScheduledExecutionStatus.failed;
  last_error = some error;
  updated_at = now;
}

-- `_finish_cancelled` and `_finish_failed`: only a row that is still dispatching is changed.
unfoldable pub finish : ℕ → (ScheduledExecution → ScheduledExecution) → Db → Db
finish scheduled_id f db = elim (get_scheduled scheduled_id db) [
  | none ↦ db
  | some row ↦
      if row.status == ScheduledExecutionStatus.dispatching
      then edit_scheduled scheduled_id f db
      else db
]

-- A precondition that changed under the claim cancels the row.
unfoldable pub dispatch_precondition :
    Service → ℕ → ℕ → Error → World → ScheduledDispatchOutcome × World
dispatch_precondition svc scheduled_id now e w =
    let detail = truncate 2000 (svc.describe e) in
    let details : List (String × Json) = ("error", Json.text detail) ∷ [] in
    (
      dispatch_outcome scheduled_id ScheduledExecutionStatus.cancelled detail none,
      record w {
        db = finish scheduled_id (cancel_claimed "dispatch_precondition_changed" details now) w.db;
      },
    )

-- The `except` clauses round `execute`.
unfoldable pub dispatch_raised : Service → ℕ → ℕ → Error → World → ScheduledDispatchOutcome × World
dispatch_raised svc scheduled_id now Error.lookup_error w =
    dispatch_precondition svc scheduled_id now Error.lookup_error w
dispatch_raised svc scheduled_id now Error.unsafe_execution w =
    dispatch_precondition svc scheduled_id now Error.unsafe_execution w
dispatch_raised svc scheduled_id now e w =
    let detail = truncate 2000 (svc.describe e) in
    (
      dispatch_outcome scheduled_id ScheduledExecutionStatus.failed detail none,
      record w { db = finish scheduled_id (failed_row detail now) w.db },
    )

-- The transaction after `execute` returned.
unfoldable pub dispatch_executed :
    ℕ → ℕ → ExecutionOutcome → World → ScheduledDispatchOutcome × World
dispatch_executed scheduled_id now execution w = elim (get_scheduled scheduled_id w.db) [
  | none ↦ (
    dispatch_outcome scheduled_id ScheduledExecutionStatus.failed
        "schedule row disappeared after execution" (some execution),
    w,
  )
  | some row ↦
      if not (row.status == ScheduledExecutionStatus.dispatching)
      then (
        dispatch_outcome scheduled_id row.status "schedule state changed after execution"
            (some execution),
        w,
      )
      else (
        dispatch_outcome scheduled_id ScheduledExecutionStatus.dispatched
            "due operation revision was dispatched" (some execution),
        record w {
          db = edit_scheduled scheduled_id (dispatched_row execution.execution_id now) w.db;
        },
      )
]

-- `execute` under its `try`.
unfoldable pub dispatch_execution :
    Service → ScheduledExecution → ℕ → World → ScheduledDispatchOutcome × World
dispatch_execution svc row now w =
    let (result, w') =
      execute svc row.operation_id (some row.operation_revision) (some row.idempotency_key) w in
    elim result [
      | ok execution ↦ dispatch_executed row.id now execution w'
      | raise e ↦ dispatch_raised svc row.id now e w'
    ]

-- A claimed row whose key has no execution yet.
unfoldable pub dispatch_unrecorded :
    Service → ScheduledExecution → ℕ → World → ScheduledDispatchOutcome × World
dispatch_unrecorded svc row now w =
    elim (dispatch_blocker row (get_operation row.operation_id w.db)) [
      | some (reason, details) ↦ (
        dispatch_outcome row.id ScheduledExecutionStatus.cancelled reason none,
        record w { db = edit_scheduled row.id (cancel_claimed reason details now) w.db },
      )
      | none ↦ dispatch_execution svc row now w
    ]

unfoldable pub dispatch_row :
    Service → ScheduledExecution → ℕ → World → ScheduledDispatchOutcome × World
dispatch_row svc row now w = elim (by_idempotency_key row.idempotency_key w.db) [
  | some prior ↦ (
    dispatch_outcome row.id ScheduledExecutionStatus.dispatched
        "schedule reconciled with its existing execution record" (some (recorded_outcome prior)),
    record w { db = edit_scheduled row.id (dispatched_row prior.id now) w.db },
  )
  | none ↦ dispatch_unrecorded svc row now w
]

unfoldable pub dispatch_claimed : Service → ℕ → ℕ → World → ScheduledDispatchOutcome × World
dispatch_claimed svc scheduled_id now w =
    let vanished =
      dispatch_outcome scheduled_id ScheduledExecutionStatus.failed
        "claimed schedule row disappeared or changed state" none in
    elim (get_scheduled scheduled_id w.db) [
      | none ↦ (vanished, w)
      | some row ↦
          if not (row.status == ScheduledExecutionStatus.dispatching)
          then (vanished, w)
          else dispatch_row svc row now w
    ]

-- `ORDER BY not_before, created_at`
abbrev due_before : ScheduledExecution → ScheduledExecution → Bool
due_before a b =
    ltb a.not_before b.not_before || (a.not_before == b.not_before && leb a.created_at b.created_at)

unfoldable pub candidate_ids : ℕ → ℕ → Db → List ℕ
candidate_ids now limit db = take limit (
    map (λ (row : ScheduledExecution). row.id)
      (sort_by due_before (keep (is_due now) db.scheduled)))

-- The loop over the candidates.
unfoldable pub dispatch_all : Service → ℕ → List ℕ → World → List ScheduledDispatchOutcome × World
dispatch_all svc now [] w = ([], w)
dispatch_all svc now (id ∷ ids) w =
    let (claimed, db) = claim id now w.db in
    let later : List ScheduledDispatchOutcome × World =
      dispatch_all svc now ids (record w { db = db }) in
    let first : List ScheduledDispatchOutcome × World =
      let (outcome, w') = dispatch_claimed svc id now (record w { db = db }) in
      let (outcomes, w'') = dispatch_all svc now ids w' in (outcome ∷ outcomes, w'') in
    if claimed then first else later

unfoldable pub dispatch_due :
    Service → ℕ → ℕ → World → Result (List ScheduledDispatchOutcome) × World
dispatch_due svc now limit w =
    if ltb limit 1
    then (raise value_error, w)
    else let (outcomes, w') = dispatch_all svc now (candidate_ids now limit w.db) w in
      (ok outcomes, w')
