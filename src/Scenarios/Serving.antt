-- ===== src/Scenarios/Serving.antt =====
-- Runs of the mock API, the outbox and the operation services.
use snoc_automation_agent.Prelude.{
  ◌≡◌, ◌↔◌, ◌≤◌, ◌+◌, refl, none, some, [], ◌∷◌, List, String, true, false, count_where, length,
  keep, all, any, dict_get, ◌==◌, Eq-String,
}
use snoc_automation_agent.Db.Session.{Db}
use snoc_automation_agent.MockApi.{
  Client, Command, MockBusinessApi, Reply, MockResult, record_call, record_new, perform,
  perform_all, fresh,
}
use snoc_automation_agent.MockApi.Replay.{perform_replays, perform_all_once, with_key}
use snoc_automation_agent.Domain.Enums.{OperationAction, OutboxStatus}
use snoc_automation_agent.Domain.Errors.{ok}
use snoc_automation_agent.Domain.StateMachine.{assert_request_transition, derive_request_status}
use snoc_automation_agent.Domain.ValueObjects.{canonical_action}
use snoc_automation_agent.Db.Models.{OutboxMessage, BusinessRequest}
use snoc_automation_agent.Decision.Schemas.{ProposedOperation}
use snoc_automation_agent.Outbox.{OutboxService}
use snoc_automation_agent.Outbox.Runs.{send_often}
use snoc_automation_agent.Outbox.Once.{send_often_once, accepted_for}
use snoc_automation_agent.Outbox.Attempts.{attempt_for, send_often_attempts}
use Prim.Native.Nat.{max}
use snoc_automation_agent.Operations.{Cause, Edited, apply_proposal_fields, refresh_request_status}
use snoc_automation_agent.Operations.Fields.{
  apply_proposal_fields-counts, apply_proposal_fields_idem, apply_proposal_fields-IsPresent_iff,
  IsPresent,
}
use snoc_automation_agent.Operations.Status.{refresh_request_status_idem}
use snoc_automation_agent.Scenarios.{ascii, unblock, request, db}

abbrev client : Client
client = record {
  endpoints = record {
    vpn_access = "/create-account";
    otp_number_change = λ pdv phone. "/update-otp";
    account_unblock = λ pdv. "/unlock-account";
    password_reset = λ pdv. "/reset-password";
  };
  dumps = λ action endpoint payload. endpoint;
}

abbrev twice : List (Command × String)
twice =
    (Command.account_unblock "12345678", "1:1")
    ∷ (Command.account_unblock "12345678", "1:1")
    ∷ (Command.password_reset "12345678", "1:1")
    ∷ []

perform_all_once_example : count_where (with_key "1:1") (perform_all client twice fresh).calls ≤ 1
perform_all_once_example = perform_all_once client twice "1:1"

abbrev after_unblock : MockBusinessApi
after_unblock = (perform client (Command.account_unblock "12345678") "1:1" fresh).1

abbrev unblock_result : MockResult
unblock_result = record {
  action = OperationAction.account_unblock;
  idempotency_key = "1:1";
  endpoint = "/unlock-account";
}

performed :
    perform client (Command.account_unblock "12345678") "1:1" fresh
    ≡ (Reply.returned unblock_result, after_unblock)
unfolding perform record_call record_new dict_get
performed = refl

perform_replays_example :
    perform client (Command.account_unblock "12345678") "1:1" after_unblock
    ≡ (Reply.returned unblock_result, after_unblock)
perform_replays_example =
    perform_replays client (Command.account_unblock "12345678") "1:1" fresh after_unblock
      unblock_result performed

abbrev reply : OutboxMessage
reply = record {
  id = 6;
  related_request_id = some 2;
  related_clarification_id = none;
  outbound_email_id = 4;
  recipient = "agent@example.com";
  subject = "Re: unblock";
  body = "done";
  headers = [];
  status = OutboxStatus.pending;
  retry_count = 0;
  last_error = none;
  created_at = 0;
  sent_at = none;
}

abbrev smtp : OutboxService
smtp = record {
  sender = "snoc@example.com";
  max_retries = 3;
  same_header = λ a b. a == b;
  as_bytes = λ headers body. body;
  send = λ log envelope. ok (record { accepted = true; transient_failure = false; detail = "" });
}

abbrev mailing : Db
mailing = record db { outbox = reply ∷ [] }

send_often_once_example :
    count_where
      (accepted_for 6)
      (send_often smtp ((10, 100) ∷ (20, 100) ∷ []) (record { db = mailing; log = [] })).log
    ≤ 1
send_often_once_example = send_often_once smtp ((10, 100) ∷ (20, 100) ∷ []) mailing 6

abbrev refusing : OutboxService
refusing = record smtp {
  send =
      λ log envelope. ok (record { accepted = false; transient_failure = true; detail = "busy" });
}

send_often_attempts_example :
    count_where
      (attempt_for 6)
      (send_often refusing ((10, 100) ∷ (20, 100) ∷ []) (record { db = mailing; log = [] })).log
    ≤ max 1 3
send_often_attempts_example = send_often_attempts refusing ((10, 100) ∷ (20, 100) ∷ []) mailing 6

abbrev cause : Cause
cause = record { source_email_id = 4; model_run_id = none; reason = "clarification" }

abbrev answer : ProposedOperation
answer = record {
  local_operation_id = "op-1";
  action = "account_unblock";
  pdv_code = some " 87654321";
  phone = some "+216 123";
  additional_fields = [];
  missing_fields = [];
  evidence = [];
  ambiguity_reasons = [];
  raw_action_confidence = none;
}

abbrev edited : Edited
edited = record { operation = unblock; revisions = []; next_id = 10 }

apply_proposal_fields-counts_example :
    (apply_proposal_fields ascii cause answer edited).operation.current_revision
    ≡ 1 + length (apply_proposal_fields ascii cause answer edited).revisions
apply_proposal_fields-counts_example = apply_proposal_fields-counts ascii cause answer unblock 10

apply_proposal_fields_idem_example :
    apply_proposal_fields ascii cause answer (apply_proposal_fields ascii cause answer edited)
    ≡ apply_proposal_fields ascii cause answer edited
apply_proposal_fields_idem_example = apply_proposal_fields_idem ascii cause cause answer edited

apply_proposal_fields-IsPresent_iff_example :
    let op = (apply_proposal_fields ascii cause answer edited).operation in
    (op.missing_fields ≡ []) ↔ IsPresent (canonical_action ascii op.action) op.pdv_code op.phone
apply_proposal_fields-IsPresent_iff_example =
    apply_proposal_fields-IsPresent_iff ascii cause answer edited

abbrev refreshed : BusinessRequest
refreshed = record request { last_active_at = 7 }

refreshes : refresh_request_status db 7 request ≡ ok refreshed
unfolding refresh_request_status assert_request_transition derive_request_status keep all any
refreshes = refl

refresh_request_status_idem_example :
    refresh_request_status db 8 refreshed ≡ ok (record refreshed { last_active_at = 8 })
refresh_request_status_idem_example = refresh_request_status_idem db 7 8 request refreshed refreshes
