-- ===== src/Execution/Schedule.antt =====
-- `ExecutionService.schedule` of workflow/execution_service.py. Another session may commit between
-- the reads and the flush: `concurrent` is the database that it leaves, if it does.
use snoc_automation_agent.Prelude.{
  ℕ, ◌+◌, Bool, not, ◌&&◌, ◌||◌, Option, none, some, [], ◌∷◌, ◌++◌, String, ◌==◌, Eq-ℕ, Eq-Option,
  if◌then◌else◌, find, is_some,
}
use snoc_automation_agent.Domain.Enums.{
  OperationStatus, FinalDecision, ScheduledExecutionStatus, Eq-OperationStatus, Eq-FinalDecision,
}
use snoc_automation_agent.Domain.Errors.{
  Result, Error, ok, raise, lookup_error, unsafe_execution, integrity_error,
}
use snoc_automation_agent.Db.Models.{
  Operation, ScheduledExecution, IdempotencyKey, Eq-IdempotencyKey,
}
use snoc_automation_agent.Db.Session.{
  Db, Tx, session_scope, get_operation, get_email, get_request, by_idempotency_key,
}
use snoc_automation_agent.Execution.Clock.{Timestamp, aware_utc}
use snoc_automation_agent.Execution.Prepare.{idempotency_key}

pub record SchedulingOutcome : Type 0 where
  pub scheduled_execution_id : ℕ
  pub status : ScheduledExecutionStatus
  pub idempotency_key : IdempotencyKey
  pub not_before : ℕ
  pub detail : String

unfoldable pub scheduled_by_key : IdempotencyKey → Db → Option ScheduledExecution
scheduled_by_key key db = find (λ (r : ScheduledExecution). r.idempotency_key == key) db.scheduled

unfoldable pub scheduling_outcome : ScheduledExecution → String → SchedulingOutcome
scheduling_outcome row detail = record {
  scheduled_execution_id = row.id;
  status = row.status;
  idempotency_key = row.idempotency_key;
  not_before = row.not_before;
  detail = detail;
}

unfoldable pub assert_schedulable : Operation → Result (Unit {0})
assert_schedulable op =
    if not (op.status == OperationStatus.ready_for_validation)
    then raise unsafe_execution
    else if not op.execution_eligible
    then raise unsafe_execution
    else if not (op.final_decision == some FinalDecision.auto_execute)
    then raise unsafe_execution
    else ok tt

-- The email of the correction window and the operation must share their conversation.
unfoldable pub assert_source : ℕ → Operation → Db → Result (Unit {0})
assert_source source_email_id op db = elim (get_email source_email_id db) [
  | none ↦ raise lookup_error
  | some email ↦ elim (get_request op.request_id db) [
    | none ↦ raise lookup_error
    | some request ↦
        if not (email.conversation_id == some request.conversation_id)
        then raise unsafe_execution
        else ok tt
  ]
]

unfoldable pub scheduled_row : Operation → ℕ → ℕ → ℕ → ℕ → ScheduledExecution
scheduled_row op id source_email_id not_before now = record {
  id = id;
  operation_id = op.id;
  request_id = op.request_id;
  operation_revision = op.current_revision;
  idempotency_key = idempotency_key op;
  source_email_id = source_email_id;
  not_before = not_before;
  status = ScheduledExecutionStatus.scheduled;
  cancellation_reason = none;
  cancellation_source_email_id = none;
  cancellation_data = [];
  claimed_at = none;
  dispatched_at = none;
  cancelled_at = none;
  execution_id = none;
  last_error = none;
  created_at = now;
  updated_at = now;
}

-- The columns that a unique constraint covers; the pair of operation and revision is the key.
unfoldable pub scheduled_clash : ScheduledExecution → Db → Bool
scheduled_clash row db =
    is_some (scheduled_by_key row.idempotency_key db)
    || is_some (
        find
          (λ (r : ScheduledExecution).
            r.operation_id == row.operation_id && r.operation_revision == row.operation_revision)
          db.scheduled)

abbrev pub seen_by_flush : Option Db → Db → Db
seen_by_flush none db = db
seen_by_flush (some other) db = other

unfoldable pub insert_scheduled : Option Db → ScheduledExecution → Tx ScheduledExecution
insert_scheduled concurrent row db =
    let base = seen_by_flush concurrent db in
    if scheduled_clash row base
    then raise integrity_error
    else ok
        (row, record base { scheduled = base.scheduled ++ row ∷ []; next_id = base.next_id + 1 })

-- A revision that is not scheduled yet.
unfoldable pub schedule_new : Option Db → Operation → ℕ → ℕ → ℕ → Tx SchedulingOutcome
schedule_new concurrent op source_email_id not_before now db =
    elim (by_idempotency_key (idempotency_key op) db) [
      | some prior ↦ raise unsafe_execution
      | none ↦ elim (assert_schedulable op) [
        | raise e ↦ raise e
        | ok _ ↦ elim (assert_source source_email_id op db) [
          | raise e ↦ raise e
          | ok _ ↦
              elim (insert_scheduled concurrent
                (scheduled_row op (seen_by_flush concurrent db).next_id source_email_id not_before
                  now)
                db) [
                  | raise e ↦ raise e
                  | ok (row, db') ↦ ok (
                    scheduling_outcome row "operation revision scheduled for grace-period dispatch",
                    db',
                  )
                ]
        ]
      ]
    ]

unfoldable pub schedule_once : Option Db → ℕ → ℕ → ℕ → ℕ → Tx SchedulingOutcome
schedule_once concurrent operation_id source_email_id not_before now db =
    elim (get_operation operation_id db) [
      | none ↦ raise lookup_error
      | some op ↦ elim (scheduled_by_key (idempotency_key op) db) [
        | some row ↦
            ok (scheduling_outcome row "identical operation revision was already scheduled", db)
        | none ↦ schedule_new concurrent op source_email_id not_before now db
      ]
    ]

-- After the rollback of a lost race: only the winner's row for this very revision is returned.
unfoldable pub schedule_lost : ℕ → Tx SchedulingOutcome
schedule_lost operation_id db = elim (get_operation operation_id db) [
  | none ↦ raise integrity_error
  | some op ↦ elim (scheduled_by_key (idempotency_key op) db) [
    | none ↦ raise integrity_error
    | some row ↦
        ok (scheduling_outcome row "identical operation revision was concurrently scheduled", db)
  ]
]

-- The `except IntegrityError` clause.
unfoldable pub schedule_handler :
    Option Db → ℕ → Db → Result (SchedulingOutcome × Db) → Result SchedulingOutcome × Db
schedule_handler concurrent operation_id db (ok (outcome, db')) = (ok outcome, db')
schedule_handler concurrent operation_id db (raise Error.integrity_error) =
    session_scope (schedule_lost operation_id) (seen_by_flush concurrent db)
schedule_handler concurrent operation_id db (raise e) = (raise e, db)

unfoldable pub schedule : Option Db → ℕ → ℕ → Timestamp → ℕ → Db → Result SchedulingOutcome × Db
schedule concurrent operation_id source_email_id not_before now db = elim (aware_utc not_before) [
  | raise e ↦ (raise e, db)
  | ok instant ↦
      schedule_handler concurrent operation_id db
        (schedule_once concurrent operation_id source_email_id instant now db)
]
