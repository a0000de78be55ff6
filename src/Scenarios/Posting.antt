-- ===== src/Scenarios/Posting.antt =====
-- Runs of the HTTP adapter against a business API that is busy once and then confirms.

use snoc_automation_agent.Prelude.{
  ◌≡◌, ◌≤◌, ◌+◌, refl, none, some, [], ◌∷◌, List, true, false, length, contains, strip, drop_while,
  drop_end, any_char, find, update_where,
}
use snoc_automation_agent.Domain.Enums.{ExecutionStatus}
use snoc_automation_agent.Domain.Errors.{ok}
use snoc_automation_agent.Execution.Api.{BusinessApiResult, ApiCall, ApiReply, Service}
use snoc_automation_agent.Execution.Prepare.{
  ExecutionOutcome, prepare, prepare_operation, prepare_new, preflight_error, start_execution,
  execution_row, pending_call,
}
use snoc_automation_agent.Execution.Execute.{
  execute, execute_prepared, complete, call_of, complete_operation, invoke, record_reply,
  record_result, result_outcome, settle_operation, stored_result,
}
use snoc_automation_agent.HttpApi.{
  Settings, Remote, Wire, HttpRequest, HttpReply, HttpResponse, configure, call_http, post,
  post_call, attempt_from, allowed_attempts, end_round, exchange, backoff, conclude,
}
use snoc_automation_agent.HttpApi.Texts.{rstrip_slash}
use snoc_automation_agent.HttpApi.Attempts.{IsAttempted, post-IsAttempted, call_http_bounded}
use snoc_automation_agent.HttpApi.Confirmed.{IsConfirmed, call_http-IsConfirmed}
use snoc_automation_agent.HttpApi.Executed.{
  http_service, IsExplained, execute-IsExplained, wire_after,
}
use snoc_automation_agent.HttpApi.Commands.{
  pdv_only_command, business_command, valid_idempotency_key, reject_header_controls,
}
use snoc_automation_agent.Db.Session.{
  session_scope, get_operation, by_idempotency_key, add_execution, edit_operation, edit_execution,
  get_execution,
}
use snoc_automation_agent.Domain.ValueObjects.{
  canonical_action, action_of_normalized, action_of_value, legacy_action_mapping,
}
use snoc_automation_agent.Domain.StateMachine.{assert_operation_transition, operation_transitions}
use snoc_automation_agent.Scenarios.{ascii, world, key}

abbrev given : Settings
given = record {
  base_url = "https://api.example.com/";
  token = "secret";
  timeout_seconds = 5;
  max_retries = 2;
  idempotency_guaranteed = true;
  backoff_seconds = 1;
  max_response_bytes = 1000;
}

abbrev settings : Settings
settings = record given { base_url = "https://api.example.com" }

abbrev busy : HttpResponse
busy = record { status_code = 503; content_length = 0; payload = none }

abbrev confirming : HttpResponse
confirming = record {
  status_code = 200;
  content_length = 20;
  payload = some (record { success = true; dump = [] });
}

abbrev respond : List HttpRequest → HttpResponse
respond [] = busy
respond (request ∷ sent) = confirming

abbrev remote : Remote
remote = record {
  python = ascii;
  endpoints = record {
    vpn_access = "/create-account";
    otp_number_change = λ pdv phone. "/update-otp";
    account_unblock = λ pdv. "/unlock-account";
    password_reset = λ pdv. "/reset-password";
  };
  key_text = λ k. "operation-1-revision-1";
  answer = λ sent request. HttpReply.responded (respond sent);
}

abbrev wire : Wire
wire = record { exchanges = []; sleeps = [] }

accepted : configure ascii given ≡ ok settings
unfolding configure rstrip_slash strip drop_end
accepted = refl

post-IsAttempted_example :
    IsAttempted settings wire (post remote settings "/unlock-account" [] "key" wire)
post-IsAttempted_example = post-IsAttempted remote settings "/unlock-account" [] "key" wire

call_http_bounded_example :
    length (call_http remote settings (ApiCall.unlock_account "12345678" key) wire).1.exchanges
    ≤ 6 + 0
call_http_bounded_example =
    call_http_bounded remote given settings (ApiCall.unlock_account "12345678" key) wire accepted

abbrev unlocked : BusinessApiResult
unlocked = record {
  success = true;
  dry_run = false;
  endpoint = "/unlock-account";
  status_code = some 200;
  response_body = [];
  attempts = 2;
}

answered :
    (call_http remote settings (ApiCall.unlock_account "12345678" key) wire).0
    ≡ ApiReply.returned unlocked
unfolding call_http post_call pdv_only_command business_command strip valid_idempotency_key
    reject_header_controls any_char post attempt_from allowed_attempts end_round exchange contains
    backoff conclude
answered = refl

call_http-IsConfirmed_example :
    IsConfirmed settings unlocked
      (call_http remote settings (ApiCall.unlock_account "12345678" key) wire).1
call_http-IsConfirmed_example =
    call_http-IsConfirmed remote settings (ApiCall.unlock_account "12345678" key) wire unlocked
      answered

abbrev over_http : Service
over_http = http_service remote settings [] (λ e. "error")

abbrev outcome : ExecutionOutcome
outcome = record {
  execution_id = 10;
  status = ExecutionStatus.succeeded;
  detail = "business API accepted operation";
}

ran : execute over_http 1 none none world ≡ (ok outcome, (execute over_http 1 none none world).1)
unfolding execute session_scope prepare get_operation find prepare_operation by_idempotency_key
    prepare_new preflight_error canonical_action http_service strip start_execution
    assert_operation_transition add_execution edit_operation execute_prepared complete
    edit_execution get_execution operation_transitions action_of_normalized action_of_value
    legacy_action_mapping call_of complete_operation invoke record_reply record_result
    result_outcome settle_operation stored_result execution_row pending_call business_command
    pdv_only_command reject_header_controls valid_idempotency_key wire_after allowed_attempts
    attempt_from backoff call_http conclude end_round exchange post post_call contains update_where
    any_char drop_end drop_while
ran = refl

execute-IsExplained_example :
    IsExplained remote settings 1 world (execute over_http 1 none none world).1 outcome
execute-IsExplained_example =
    execute-IsExplained remote settings [] (λ e. "error") 1 none none world _ outcome ran refl
