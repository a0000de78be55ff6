-- ===== src/Execution/Scheduling.antt =====
-- What `ExecutionService.schedule` of workflow/execution_service.py promises: one row for a
-- revision, whoever creates it, and only for a cleared operation.
use snoc_automation_agent.Prelude.{
  ℕ, ◌+◌, ◌++◌, ◌≡◌, ◌≢◌, ◌∙◌, ap, true, Option, none, some, [], ◌∷◌, String, arith, ◌⊎◌, ◌==◌,
  Eq-ℕ, Eq-Option, inl, inr, Option-cases, find,
}
use snoc_automation_agent.Prelude.Tables.{find-append}
use snoc_automation_agent.Domain.Enums.{
  OperationStatus, FinalDecision, Eq-OperationStatus, Eq-FinalDecision,
}
use snoc_automation_agent.Domain.Errors.{Error, Result, Result-cases, ok, raise}
use snoc_automation_agent.Db.Models.{Operation, ScheduledExecution, Eq-IdempotencyKey}
use snoc_automation_agent.Db.Session.{Db, session_scope, get_operation, by_idempotency_key}
use snoc_automation_agent.Execution.Clock.{Timestamp, aware_utc}
use snoc_automation_agent.Execution.Prepare.{idempotency_key}
use snoc_automation_agent.Execution.Schedule.{
  SchedulingOutcome, schedule, schedule_once, schedule_new, schedule_lost, schedule_handler,
  insert_scheduled, scheduled_by_key, scheduled_clash, scheduled_row, scheduling_outcome,
  assert_schedulable, assert_source,
}

-- A revision that has a row keeps it: the call returns that row and changes nothing.
pub schedule-existing :
    (concurrent : Option Db) (i source t now : ℕ) (db : Db) (op : Operation)
    (row : ScheduledExecution)
    → get_operation i db ≡ some op
    → scheduled_by_key (idempotency_key op) db ≡ some row
    → schedule concurrent i source (Timestamp.aware t) now db
      ≡ (ok (scheduling_outcome row "identical operation revision was already scheduled"), db)
unfolding schedule schedule_once schedule_handler aware_utc
schedule-existing concurrent i source t now db op row found has = ground arith

schedule_new-ok :
    (op : Operation) (source t now : ℕ) (db db' : Db) (o : SchedulingOutcome)
    → schedule_new none op source t now db ≡ ok (o, db')
    → scheduled_by_key (idempotency_key op) db ≡ none
    → (by_idempotency_key (idempotency_key op) db ≡ none)
      × (assert_source source op db ≡ ok tt)
      × (op.status ≡ OperationStatus.ready_for_validation)
      × (op.execution_eligible ≡ true)
      × (op.final_decision ≡ some FinalDecision.auto_execute)
      × (scheduled_by_key (idempotency_key op) db'
          ≡ some (scheduled_row op db.next_id source t now))
      × (o
          ≡ scheduling_outcome
              (scheduled_row op db.next_id source t now)
              "operation revision scheduled for grace-period dispatch")
      × (db' ≡ record db {
        scheduled = db.scheduled ++ scheduled_row op db.next_id source t now ∷ [];
        next_id = db.next_id + 1;
      })
unfolding schedule_new insert_scheduled assert_schedulable scheduled_by_key find scheduled_row
schedule_new-ok op source t now db db' o h absent =
    elim (Result-cases (assert_source source op db)) [
      | inl (u, linked) ↦ ground (
        arith,
        find-append (λ (r : ScheduledExecution). r.idempotency_key == idempotency_key op)
            db.scheduled (scheduled_row op db.next_id source t now ∷ []),
      )
      | inr (e, unlinked) ↦ absurd (ground (arith, unlinked))
    ]

-- How a call that returns got its row, without a rival.
pub data IsScheduled (i source t now : ℕ) (db db' : Db) (o : SchedulingOutcome) (op : Operation)
    : Type 0 where
  before :
      (row : ScheduledExecution)
      → scheduled_by_key (idempotency_key op) db ≡ some row
      → db' ≡ db
      → o ≡ scheduling_outcome row "identical operation revision was already scheduled"
      → IsScheduled i source t now db db' o op
  created :
      by_idempotency_key (idempotency_key op) db ≡ none
      → assert_source source op db ≡ ok tt
      → op.status ≡ OperationStatus.ready_for_validation
      → op.execution_eligible ≡ true
      → op.final_decision ≡ some FinalDecision.auto_execute
      → scheduled_by_key (idempotency_key op) db' ≡ some (scheduled_row op db.next_id source t now)
      → o
        ≡ scheduling_outcome
            (scheduled_row op db.next_id source t now)
            "operation revision scheduled for grace-period dispatch"
      → db' ≡ record db {
        scheduled = db.scheduled ++ scheduled_row op db.next_id source t now ∷ [];
        next_id = db.next_id + 1;
      }
      → IsScheduled i source t now db db' o op

schedule_once-ok :
    (i source t now : ℕ) (db db' : Db) (o : SchedulingOutcome)
    → schedule_once none i source t now db ≡ ok (o, db')
    → (op : Operation) × (get_operation i db ≡ some op) × IsScheduled i source t now db db' o op
unfolding schedule_once
schedule_once-ok i source t now db db' o h = elim (Option-cases (get_operation i db)) [
  | inl absent ↦ absurd (ground arith)
  | inr (op, found) ↦ elim (Option-cases (scheduled_by_key (idempotency_key op) db)) [
    | inr (row, has) ↦ (op, found, IsScheduled.before row has (ground arith) (ground arith))
    | inl fresh ↦
        let (unrecorded, linked, ready, eligible, automatic, has, made, stored) =
          schedule_new-ok op source t now db db' o (ground arith) fresh in
        (op, found, IsScheduled.created unrecorded linked ready eligible automatic has made stored)
  ]
]

-- No unique constraint can be violated where no rival commits, so nothing is lost.
schedule_handler-none :
    (i : ℕ) (db db' : Db) (r : Result (SchedulingOutcome × Db)) (o : SchedulingOutcome)
    → schedule_handler none i db r ≡ (ok o, db')
    → (r ≡ ok (o, db')) ⊎ ((schedule_lost i db ≡ ok (o, db')) × (r ≡ raise Error.integrity_error))
unfolding schedule_handler session_scope
schedule_handler-none i db db' (ok (a, d)) o h = inl (ground arith)
schedule_handler-none i db db' (raise Error.integrity_error) o h = inr (ground arith)
schedule_handler-none i db db' (raise _) o h = absurd (ground arith)

lost-raise :
    (i source t now : ℕ) (db db' : Db) (o : SchedulingOutcome)
    → schedule_lost i db ≡ ok (o, db')
    → schedule_once none i source t now db ≢ raise Error.integrity_error
unfolding schedule_lost schedule_once
lost-raise i source t now db db' o h e = elim (Option-cases (get_operation i db)) [
  | inl absent ↦ ground arith
  | inr (op, found) ↦ elim (Option-cases (scheduled_by_key (idempotency_key op) db)) [
    | inl fresh ↦ ground arith
    | inr (row, has) ↦ ground arith
  ]
]

schedule-ok :
    (i source t now : ℕ) (db db' : Db) (o : SchedulingOutcome)
    → schedule none i source (Timestamp.aware t) now db ≡ (ok o, db')
    → schedule_once none i source t now db ≡ ok (o, db')
unfolding schedule aware_utc
schedule-ok i source t now db db' o h =
    elim (schedule_handler-none i db db' (schedule_once none i source t now db) o h) [
      | inl done ↦ done
      | inr (lost, failed) ↦ absurd (lost-raise i source t now db db' o lost failed)
    ]

-- A call that returns, where no other session commits meanwhile, either found the row of the
-- revision and changed nothing, or created it: then the operation is ready, eligible, decided
-- AUTO_EXECUTE and not executed yet, the email belongs to its conversation, and the database gains
-- exactly one row, in the status scheduled, for the revision, the due time and the email given.
pub schedule-IsScheduled :
    (i source t now : ℕ) (db db' : Db) (o : SchedulingOutcome)
    → schedule none i source (Timestamp.aware t) now db ≡ (ok o, db')
    → (op : Operation) × (get_operation i db ≡ some op) × IsScheduled i source t now db db' o op
schedule-IsScheduled i source t now db db' o h =
    schedule_once-ok i source t now db db' o (schedule-ok i source t now db db' o h)

get_operation_ext :
    (i : ℕ) (db db' : Db)
    → db'.operations ≡ db.operations
    → get_operation i db' ≡ get_operation i db
unfolding get_operation
get_operation_ext i db db' e = rw e

with_detail :
    (row : ScheduledExecution) (o : SchedulingOutcome) (detail detail' : String)
    → o ≡ scheduling_outcome row detail
    → scheduling_outcome row detail' ≡ record o { detail = detail' }
unfolding scheduling_outcome
with_detail row o detail detail' e = ground arith

schedule_again :
    (i source source' t t' now now' : ℕ) (db db' : Db) (o : SchedulingOutcome) (op : Operation)
    → get_operation i db ≡ some op
    → IsScheduled i source t now db db' o op
    → schedule none i source' (Timestamp.aware t') now' db'
      ≡ (ok (record o { detail = "identical operation revision was already scheduled" }), db')
schedule_again i source source' t t' now now' db db' o op found
      (IsScheduled.before row has same made) =
    schedule-existing none i source' t' now' db' op row (ap (get_operation i) same ∙ found)
      (ap (scheduled_by_key (idempotency_key op)) same ∙ has)
    ∙ ap (λ x. (ok x, db')) (with_detail row o _ _ made)
schedule_again i source source' t t' now now' db db' o op found
      (IsScheduled.created unrecorded linked ready eligible automatic has made stored) =
    schedule-existing none i source' t' now' db' op (scheduled_row op db.next_id source t now)
      (get_operation_ext i db db' (ap (λ (d : Db). d.operations) stored) ∙ found) has
    ∙ ap (λ x. (ok x, db')) (with_detail (scheduled_row op db.next_id source t now) o _ _ made)

-- Where no other session commits meanwhile, scheduling again changes nothing: after a call that returned, another for the same operation
-- returns the same row, with its first due time, whatever time and email it names.
pub schedule_idem :
    (i source source' t t' now now' : ℕ) (db db' : Db) (o : SchedulingOutcome)
    → schedule none i source (Timestamp.aware t) now db ≡ (ok o, db')
    → schedule none i source' (Timestamp.aware t') now' db'
      ≡ (ok (record o { detail = "identical operation revision was already scheduled" }), db')
schedule_idem i source source' t t' now now' db db' o h =
    let (op, found, how) = schedule-IsScheduled i source t now db db' o h in
    schedule_again i source source' t t' now now' db db' o op found how

-- The loser of a race returns the winner's row, and its own writes are gone.
pub schedule_race :
    (i source t now : ℕ) (db other : Db) (op rival : Operation) (row : ScheduledExecution)
    → get_operation i db ≡ some op
    → scheduled_by_key (idempotency_key op) db ≡ none
    → by_idempotency_key (idempotency_key op) db ≡ none
    → assert_schedulable op ≡ ok tt
    → assert_source source op db ≡ ok tt
    → get_operation i other ≡ some rival
    → idempotency_key rival ≡ idempotency_key op
    → scheduled_by_key (idempotency_key op) other ≡ some row
    → schedule (some other) i source (Timestamp.aware t) now db ≡ (
      ok (scheduling_outcome row "identical operation revision was concurrently scheduled"),
      other,
    )
unfolding schedule schedule_once schedule_new schedule_handler schedule_lost insert_scheduled
    scheduled_clash scheduled_row aware_utc session_scope
schedule_race i source t now db other op rival row found fresh unrecorded clear linked there same
      has =
    ground arith
