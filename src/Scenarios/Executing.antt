-- ===== src/Scenarios/Executing.antt =====
-- One operation through workflow/execution_service.py.
use snoc_automation_agent.Prelude.{
  ◌≡◌, ◌≤◌, refl, false, none, some, [], ◌∷◌, find, update_where, contains, strip, drop_while,
  drop_end, dict_keys, dict_merge, dict_set, insert_by, keep, sort_by, join, join_from, truncate,
}
use snoc_automation_agent.Domain.Enums.{ExecutionStatus, OperationStatus}
use snoc_automation_agent.Domain.Errors.{ok}
use snoc_automation_agent.Domain.StateMachine.{assert_operation_transition, operation_transitions}
use snoc_automation_agent.Domain.ValueObjects.{
  canonical_action, action_of_normalized, legacy_action_mapping, action_of_value,
}
use snoc_automation_agent.Db.Session.{
  Db, get_operation, get_execution, by_idempotency_key, add_execution, edit_operation,
  session_scope, edit_execution,
}
use snoc_automation_agent.Execution.Api.{World, ApiCall}
use snoc_automation_agent.Execution.Prepare.{
  prepare, recorded_outcome, prepare_operation, prepare_new, start_execution, preflight_error,
  Prepared, execution_row, pending_call, idempotency_key, ExecutionOutcome, escalate_operation,
  reject_preflight, request_payload,
}
use snoc_automation_agent.Execution.Execute.{
  execute, invoke, execute_prepared, complete, record_reply, call_of, complete_operation,
  exception_status, record_exception, record_result, result_outcome, settle_operation,
  stored_exception, stored_result,
}
use snoc_automation_agent.Execution.AtMostOnce.{
  System, Step, Reach, idle, calls_with, calls_at_most_once,
}
use snoc_automation_agent.Execution.Outcomes.{execute_settles, IsExecuted}
use snoc_automation_agent.Execution.Replayed.{execute_again, IsReplayed}
use snoc_automation_agent.Execution.Untouched.{execute-scheduled}
use snoc_automation_agent.Scenarios.{dry_run, unblock, key, db, world}

abbrev started : Db
started = record db {
  operations = record unblock { status = OperationStatus.executing } ∷ [];
  executions = execution_row unblock 10 "pending:account_unblock" [] ExecutionStatus.pending ∷ [];
  next_id = 11;
}

unblock_ready : preflight_error dry_run unblock ≡ none
unfolding preflight_error canonical_action action_of_normalized legacy_action_mapping
    action_of_value strip drop_while drop_end
unblock_ready = refl

prepare-unblock :
    prepare dry_run 1 none none db
    ≡ ok (Prepared.calling (pending_call dry_run unblock 10), started)
unfolding prepare prepare_operation prepare_new start_execution preflight_error get_operation find
    by_idempotency_key add_execution edit_operation update_where assert_operation_transition
    operation_transitions contains canonical_action action_of_normalized legacy_action_mapping
    action_of_value strip drop_while drop_end execution_row
prepare-unblock = refl

abbrev begun : System
begun = record {
  db = started;
  ready = pending_call dry_run unblock 10 ∷ [];
  awaiting = [];
  calls = [];
}

abbrev called : System
called = record begun {
  ready = [];
  awaiting =
      (
        pending_call dry_run unblock 10,
        (invoke dry_run (pending_call dry_run unblock 10) "12345678" []).0,
      )
      ∷ [];
  calls = (invoke dry_run (pending_call dry_run unblock 10) "12345678" []).1;
}

Reach-called : Reach dry_run (idle db) called
unfolding pending_call
Reach-called =
    Reach.next
      (Reach.next Reach.here
        (Step.begin 1 none none (pending_call dry_run unblock 10) started prepare-unblock))
      (Step.call [] [] (pending_call dry_run unblock 10) "12345678" refl refl)

calls_at_most_once_example : calls_with key called.calls ≤ 1
calls_at_most_once_example = calls_at_most_once dry_run db called key Reach-called

execute-scheduled_example : (execute dry_run 1 none none world).1.db.scheduled ≡ []
execute-scheduled_example = execute-scheduled dry_run 1 none none world

found : get_operation 1 db ≡ some unblock
unfolding get_operation find
found = refl

fresh : by_idempotency_key (idempotency_key unblock) db ≡ none
unfolding by_idempotency_key find
fresh = refl

unused : get_execution 10 db ≡ none
unfolding get_execution find
unused = refl

execute_settles_example :
    (o : ExecutionOutcome) × (w : World) × (execute dry_run 1 (some 1) (some key) world ≡ (ok o, w))
    × IsExecuted unblock world w o
unfolding idempotency_key
execute_settles_example =
    execute_settles dry_run 1 (some 1) (some key) world unblock found refl refl refl unblock_ready
      fresh unused

abbrev accepted : ExecutionOutcome
accepted = record {
  execution_id = 10;
  status = ExecutionStatus.succeeded;
  detail = "business API accepted operation";
}

abbrev after_run : World
after_run = record {
  db = record started {
    operations =
        record unblock { status = OperationStatus.completed; execution_eligible = false } ∷ [];
    executions =
        record (execution_row unblock 10 "/unlock-account/12345678" [] ExecutionStatus.succeeded) {
          attempt_count = 1;
        }
        ∷ [];
  };
  calls = ApiCall.unlock_account "12345678" key ∷ [];
}

completed_run : execute dry_run 1 none none world ≡ (ok accepted, after_run)
unfolding execute prepare session_scope get_operation find prepare_operation by_idempotency_key
    prepare_new preflight_error canonical_action strip start_execution assert_operation_transition
    add_execution edit_operation execute_prepared complete pending_call record_reply edit_execution
    get_execution operation_transitions action_of_normalized action_of_value legacy_action_mapping
    call_of complete_operation exception_status invoke record_exception record_result result_outcome
    settle_operation stored_exception stored_result escalate_operation execution_row idempotency_key
    recorded_outcome reject_preflight request_payload contains dict_keys dict_merge dict_set
    insert_by keep sort_by update_where drop_end drop_while join join_from truncate
completed_run = refl

execute_again_example : IsReplayed dry_run 1 none none accepted after_run
execute_again_example =
    execute_again dry_run 1 none none world after_run accepted unused completed_run
