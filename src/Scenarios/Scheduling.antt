-- ===== src/Scenarios/Scheduling.antt =====
-- One operation through the queue of workflow/execution_service.py.
use snoc_automation_agent.Prelude.{
  ℕ, ◌≡◌, ◌≤◌, ◌⊎◌, refl, arith, none, some, [], ◌∷◌, true, false, find, count_where, all, keep,
  strip, not, ◌==◌, Eq-ℕ,
}
use snoc_automation_agent.Domain.Enums.{ScheduledExecutionStatus}
use snoc_automation_agent.Domain.Errors.{ok}
use snoc_automation_agent.Db.Models.{Operation, ScheduledExecution}
use snoc_automation_agent.Db.Session.{
  Db, get_operation, get_scheduled, by_idempotency_key, session_scope, get_email, get_request,
}
use snoc_automation_agent.Execution.Api.{World}
use snoc_automation_agent.Execution.Clock.{Timestamp, aware_utc}
use snoc_automation_agent.Execution.Prepare.{idempotency_key}
use snoc_automation_agent.Execution.Schedule.{
  schedule, schedule_once, schedule_new, schedule_handler, scheduled_by_key, scheduling_outcome,
  scheduled_row, assert_schedulable, assert_source, insert_scheduled, scheduled_clash,
  SchedulingOutcome,
}
use snoc_automation_agent.Execution.Cancel.{
  cancel_scheduled_for_request, is_waiting_for, cancel_rows, assert_cancellation_source,
}
use snoc_automation_agent.Execution.Dispatch.{claim, dispatch_claimed, is_due}
use snoc_automation_agent.Execution.Gate.{IsDispatchable, dispatch_claimed-gate}
use snoc_automation_agent.Execution.Ends.{IsEnded, dispatch_claimed-IsEnded}
use snoc_automation_agent.Execution.Queue.{
  rows_with, claim_once, cancel_scheduled_for_request-clears,
}
use snoc_automation_agent.Execution.Scheduling.{
  schedule-IsScheduled, schedule_idem, schedule_race, IsScheduled,
}
use snoc_automation_agent.Scenarios.{ascii, dry_run, unblock, key, db, waiting, claimed}

abbrev queued : Db
queued = record db { scheduled = waiting ∷ [] }

abbrev taken : World
taken = record { db = record db { scheduled = claimed ∷ [] }; calls = [] }

read_claimed : get_scheduled 5 taken.db ≡ some claimed
unfolding get_scheduled find
read_claimed = refl

dispatch_claimed-IsEnded_example :
    IsEnded 5 (dispatch_claimed dry_run 5 60 taken).0 (dispatch_claimed dry_run 5 60 taken).1
dispatch_claimed-IsEnded_example =
    dispatch_claimed-IsEnded dry_run 5 60 taken claimed read_claimed refl

dispatch_claimed-gate_example :
    ((dispatch_claimed dry_run 5 60 taken).1.calls ≡ []) ⊎ IsDispatchable 5 taken
dispatch_claimed-gate_example = dispatch_claimed-gate dry_run 5 60 taken

unique_row : rows_with 5 queued.scheduled ≤ 1
unfolding count_where
unique_row = omega arith

claim_wins : (claim 5 60 queued).0 ≡ true
unfolding claim count_where is_due
claim_wins = refl

claim_once_example : (claim 5 61 (claim 5 60 queued).1).0 ≡ false
claim_once_example = claim_once 5 60 61 queued unique_row claim_wins

abbrev slot : SchedulingOutcome
slot = record {
  scheduled_execution_id = 10;
  status = ScheduledExecutionStatus.scheduled;
  idempotency_key = key;
  not_before = 60;
  detail = "operation revision scheduled for grace-period dispatch";
}

abbrev scheduled_db : Db
scheduled_db = record db { scheduled = scheduled_row unblock 10 4 60 0 ∷ []; next_id = 11 }

schedule_unblock : schedule none 1 4 (Timestamp.aware 60) 0 db ≡ (ok slot, scheduled_db)
unfolding schedule schedule_once schedule_new schedule_handler get_operation find aware_utc
    scheduled_by_key by_idempotency_key assert_schedulable assert_source get_email get_request
    insert_scheduled scheduled_clash scheduling_outcome scheduled_row idempotency_key session_scope
schedule_unblock = refl

schedule_idem_example : schedule none 1 4 (Timestamp.aware 90) 5 scheduled_db ≡ (
  ok (record slot { detail = "identical operation revision was already scheduled" }),
  scheduled_db,
)
schedule_idem_example = schedule_idem 1 4 4 60 90 0 5 db scheduled_db slot schedule_unblock

schedule-IsScheduled_example :
    (op : Operation) × (get_operation 1 db ≡ some op) × IsScheduled 1 4 60 0 db scheduled_db slot op
schedule-IsScheduled_example = schedule-IsScheduled 1 4 60 0 db scheduled_db slot schedule_unblock

found_unblock : get_operation 1 db ≡ some unblock
unfolding get_operation find
found_unblock = refl

found_queued : get_operation 1 queued ≡ some unblock
unfolding get_operation find
found_queued = refl

not_queued : scheduled_by_key (idempotency_key unblock) db ≡ none
unfolding scheduled_by_key find
not_queued = refl

not_recorded : by_idempotency_key (idempotency_key unblock) db ≡ none
unfolding by_idempotency_key find
not_recorded = refl

schedulable : assert_schedulable unblock ≡ ok tt
unfolding assert_schedulable
schedulable = refl

same_conversation : assert_source 4 unblock db ≡ ok tt
unfolding assert_source get_email get_request find
same_conversation = refl

queued_row : scheduled_by_key (idempotency_key unblock) queued ≡ some waiting
unfolding scheduled_by_key find idempotency_key
queued_row = refl

schedule_race_example : schedule (some queued) 1 4 (Timestamp.aware 60) 0 db ≡ (
  ok (scheduling_outcome waiting "identical operation revision was concurrently scheduled"),
  queued,
)
schedule_race_example =
    schedule_race 1 4 60 0 db queued unblock unblock waiting found_unblock not_queued not_recorded
      schedulable same_conversation found_queued refl queued_row

abbrev cleared : Db
cleared = (cancel_scheduled_for_request ascii 2 "correction" none 30 queued).1

cancel_queued : cancel_scheduled_for_request ascii 2 "correction" none 30 queued ≡ (ok 1, cleared)
unfolding cancel_scheduled_for_request session_scope count_where strip cancel_rows get_request find
    assert_cancellation_source is_waiting_for
cancel_queued = refl

cancel_scheduled_for_request-clears_example :
    (1 ≡ count_where (is_waiting_for 2) queued.scheduled)
    × (count_where (is_waiting_for 2) cleared.scheduled ≡ 0)
    × ((t : ℕ)
        → all
            (λ (r : ScheduledExecution). not (r.request_id == 2))
            (keep (is_due t) cleared.scheduled)
          ≡ true)
cancel_scheduled_for_request-clears_example =
    cancel_scheduled_for_request-clears ascii 2 "correction" none 30 1 queued cleared cancel_queued
