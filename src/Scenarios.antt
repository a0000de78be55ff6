-- ===== src/Scenarios.antt =====
-- Concrete rows, services and messages for the scenarios. The text operations are those of ASCII.
pub mod Executing
pub mod Scheduling
pub mod Deciding
pub mod Serving
pub mod Statuses
pub mod Posting
pub mod Replying
pub mod Correlating
pub mod Authorizing
use Prim.Native.Char.{code}
use Prim.Native.String.{String}
use snoc_automation_agent.Prelude.{
  ℕ, true, false, ◌&&◌, none, some, [], ◌∷◌, ◌==◌, Eq-ℕ, leb, Python,
}
use snoc_automation_agent.Domain.Enums.{
  OperationStatus, FinalDecision, RequestStatus, ProcessingStatus, ScheduledExecutionStatus,
  ExecutionStatus, Direction,
}
use snoc_automation_agent.Db.Models.{
  Operation, BusinessRequest, EmailMessage, ScheduledExecution, Execution, IdempotencyKey,
}
use snoc_automation_agent.Db.Session.{Db}
use snoc_automation_agent.Execution.Api.{ApiReply, Service, World}

abbrev pub ascii : Python
ascii = record {
  is_space = λ c. code c == 32;
  is_digit = λ c. leb 48 (code c) && leb (code c) 57;
  casefold = λ s. s;
  fullmatch = λ pattern s. true;
}

abbrev pub dry_run : Service
dry_run = record {
  vpn_allowed_additional_fields = [];
  python = ascii;
  describe = λ e. "error";
  business_api = λ calls call. ApiReply.returned (record {
    success = true;
    dry_run = true;
    endpoint = "/unlock-account/12345678";
    status_code = none;
    response_body = [];
    attempts = 1;
  });
}

abbrev pub unblock : Operation
unblock = record {
  id = 1;
  request_id = 2;
  sequence_number = 1;
  action = "account_unblock";
  status = OperationStatus.ready_for_validation;
  pdv_code = some "12345678";
  phone = none;
  additional_payload = [];
  missing_fields = [];
  current_revision = 1;
  execution_eligible = true;
  final_decision = some FinalDecision.auto_execute;
}

abbrev pub key : IdempotencyKey
key = record { operation_id = 1; revision = 1 }

abbrev pub request : BusinessRequest
request = record {
  id = 2;
  public_reference = "SNOC-REQ-0123456789AB";
  conversation_id = 3;
  initiating_email_id = 4;
  status = RequestStatus.ready_for_validation;
  last_active_at = 0;
  latest_completion_marker = none;
  version = 1;
}

abbrev pub email : EmailMessage
email = record {
  id = 4;
  conversation_id = some 3;
  direction = Direction.inbound;
  rfc_message_id = some "<question@example.com>";
  normalized_message_id = some "<question@example.com>";
  in_reply_to = none;
  references_json = [];
  sender = "agent@example.com";
  recipients_json = [];
  subject = "unblock";
  normalized_subject = "unblock";
  raw_text = "unblock 12345678";
  latest_user_message = "unblock 12345678";
  raw_eml_blob = some "raw";
  processing_status = ProcessingStatus.processed;
}

abbrev pub db : Db
db = record {
  conversations = [];
  emails = email ∷ [];
  requests = request ∷ [];
  operations = unblock ∷ [];
  revisions = [];
  clarifications = [];
  executions = [];
  scheduled = [];
  outbox = [];
  next_id = 10;
}

abbrev pub world : World
world = record { db = db; calls = [] }

abbrev pub execution : Execution
execution = record {
  id = 9;
  operation_id = 1;
  operation_revision = 1;
  idempotency_key = key;
  endpoint = "/unlock-account/12345678";
  request_payload = [];
  response_status = none;
  response_body = [];
  dry_run = true;
  attempt_count = 1;
  status = ExecutionStatus.succeeded;
}

abbrev pub executed : World
executed = record { db = record db { executions = execution ∷ [] }; calls = [] }

abbrev pub waiting : ScheduledExecution
waiting = record {
  id = 5;
  operation_id = 1;
  request_id = 2;
  operation_revision = 1;
  idempotency_key = key;
  source_email_id = 4;
  not_before = 60;
  status = ScheduledExecutionStatus.scheduled;
  cancellation_reason = none;
  cancellation_source_email_id = none;
  cancellation_data = [];
  claimed_at = none;
  dispatched_at = none;
  cancelled_at = none;
  execution_id = none;
  last_error = none;
  created_at = 0;
  updated_at = 0;
}

abbrev pub claimed : ScheduledExecution
claimed = record waiting { status = ScheduledExecutionStatus.dispatching; claimed_at = some 60 }
