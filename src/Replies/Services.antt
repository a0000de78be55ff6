-- ===== src/Replies/Services.antt =====
-- workflow/clarification_service.py, reply_summary_service.py and pending_execution_service.py, which
-- write to a customer about a request. The request is the row as the session has loaded it.

use snoc_automation_agent.Prelude.{
  ℕ, ◌+◌, Bool, true, false, not, ◌&&◌, ◌||◌, Option, none, some, List, [], ◌∷◌, String, ◌==◌, Eq-ℕ,
  Eq-String, Eq-Option, if◌then◌else◌, is_empty, any, all, keep, head, map, length, contains,
  dict_get,
}
use snoc_automation_agent.Domain.Enums.{
  ClarificationStatus, OperationStatus, Eq-ClarificationStatus, Eq-OperationStatus,
}
use snoc_automation_agent.Domain.Errors.{ok, ◌>>=◌}
use snoc_automation_agent.Db.Models.{
  EmailMessage, BusinessRequest, Clarification, Operation, OutboxMessage,
}
use snoc_automation_agent.Db.Session.{Db, Tx}
use snoc_automation_agent.Outbox.{edit_outbox}
use snoc_automation_agent.Mail.{MailLib}
use snoc_automation_agent.Mail.Headers.{completion_marker}
use snoc_automation_agent.Mail.Templates.{
  OperationMailView, clarification_email, completion_email, pending_execution_email,
}
use snoc_automation_agent.Replies.Messages.{
  add_clarification, edit_clarification, edit_request, create_outbound_message,
}

-- What the three services are given besides the request.
pub record Reply : Type 0 where
  pub source_email : EmailMessage
  pub operations : List Operation
  pub sender_address : String
  pub recipient : String
  pub now : ℕ

-- ClarificationRepository.open_for_request
abbrev pub is_open_for : ℕ → Clarification → Bool
is_open_for request_id c =
    c.request_id == request_id
    && (c.status == ClarificationStatus.pending_send || c.status == ClarificationStatus.opened)

unfoldable pub open_for_request : ℕ → Db → List Clarification
open_for_request request_id db = keep (is_open_for request_id) db.clarifications

abbrev pub view : (Operation → List String) → (Operation → String) → Operation → OperationMailView
view missing status operation = record {
  sequence_number = operation.sequence_number;
  action = operation.action;
  pdv_code = operation.pdv_code;
  missing_fields = missing operation;
  status_label = status operation;
}

unfoldable pub clarification_row : BusinessRequest → Reply → String → Db → Clarification
clarification_row request reply body db = record {
  id = db.next_id;
  request_id = request.id;
  outbound_email_id = none;
  source_inbound_email_id = reply.source_email.id;
  target_operation_ids = map (λ (o : Operation). o.id) reply.operations;
  requested_fields = map (λ (o : Operation). (o.id, o.missing_fields)) reply.operations;
  question_text = body;
  status = ClarificationStatus.pending_send;
  round_number =
      length (keep (λ (c : Clarification). c.request_id == request.id) db.clarifications) + 1;
}

-- The last assignments: the clarification names its email, and the row of the outbox the clarification.
unfoldable pub link_clarification : Clarification → EmailMessage × OutboxMessage → Tx Clarification
link_clarification clarification stored db = ok (
  record clarification { outbound_email_id = some stored.0.id },
  edit_outbox stored.1.id (λ o. record o { related_clarification_id = some clarification.id })
      (edit_clarification clarification.id (λ c. record c { outbound_email_id = some stored.0.id })
        db),
)

unfoldable pub new_clarification : MailLib → BusinessRequest → Reply → Tx Clarification
new_clarification lib request reply db =
    let (subject, body) =
      clarification_email lib request.public_reference
        (map (view (λ o. o.missing_fields) (λ o. "")) reply.operations) in
    add_clarification (clarification_row request reply body db) db >>= λ asked.
    create_outbound_message lib request reply.source_email reply.sender_address reply.recipient
      subject body (("X-SNOC-Reply-Type", "clarification") ∷ []) (some asked.0.id) reply.now asked.1
    >>= λ stored. link_clarification asked.0 stored.0 stored.1

unfoldable pub ensure_clarification : MailLib → BusinessRequest → Reply → Tx Clarification
ensure_clarification lib request reply db = elim (head (open_for_request request.id db)) [
  | some clarification ↦ ok (clarification, db)
  | none ↦ new_clarification lib request reply db
]

-- STATUS_LABELS, with the text of the status for the others.
abbrev pub status_label : OperationStatus → String
status_label OperationStatus.completed = "traitée avec succès"
status_label OperationStatus.escalated = "transmise à un conseiller pour vérification"
status_label OperationStatus.failed = "non finalisée automatiquement et transmise à un conseiller"
status_label OperationStatus.cancelled = "annulée"
status_label OperationStatus.needs_information = "en attente d'informations complémentaires"
status_label OperationStatus.new = "NEW"
status_label OperationStatus.ready_for_validation = "READY_FOR_VALIDATION"
status_label OperationStatus.executing = "EXECUTING"

abbrev pub is_terminal : OperationStatus → Bool
is_terminal status = contains status (
    OperationStatus.completed ∷ OperationStatus.escalated ∷ OperationStatus.failed
    ∷ OperationStatus.cancelled ∷ [])

-- The truth of an optional text.
abbrev pub truthy : Option String → Bool
truthy none = false
truthy (some s) = not (is_empty s)

unfoldable pub new_summary : MailLib → BusinessRequest → Reply → Tx Bool
new_summary lib request reply db =
    let (subject, body) =
      completion_email lib request.public_reference
        (map (view (λ o. []) (λ o. status_label o.status)) reply.operations) in
    create_outbound_message lib request reply.source_email reply.sender_address reply.recipient
      subject body (("X-SNOC-Reply-Type", "completion") ∷ []) none reply.now db
    >>= λ stored. completion_marker lib request.public_reference >>= λ marker. ok (
      true,
      edit_request request.id (λ r. record r { latest_completion_marker = some marker }) stored.1,
    )

unfoldable pub ensure_terminal_summary : MailLib → BusinessRequest → Reply → Tx Bool
ensure_terminal_summary lib request reply db =
    if truthy request.latest_completion_marker
    then ok (false, db)
    else if not (all (λ (o : Operation). is_terminal o.status) reply.operations)
        || length reply.operations == 0
    then ok (false, db)
    else new_summary lib request reply db

abbrev pub is_acknowledgement : ℕ → OutboxMessage → Bool
is_acknowledgement request_id o =
    o.related_request_id == some request_id
    && dict_get "X-SNOC-Pending-Execution" o.headers == some "true"

unfoldable pub new_acknowledgement : MailLib → BusinessRequest → Reply → ℕ → Tx Bool
new_acknowledgement lib request reply grace_seconds db =
    let (subject, body) =
      pending_execution_email lib request.public_reference
        (map (view (λ o. []) (λ o. "")) reply.operations) grace_seconds in
    create_outbound_message lib request reply.source_email reply.sender_address reply.recipient
      subject body
      (("X-SNOC-Pending-Execution", "true") ∷ ("X-SNOC-Reply-Type", "acknowledgement") ∷ []) none
      reply.now db
    >>= λ stored. ok (true, stored.1)

unfoldable pub ensure_pending_execution_acknowledgement :
    MailLib → BusinessRequest → Reply → ℕ → Tx Bool
ensure_pending_execution_acknowledgement lib request reply grace_seconds db =
    if any (is_acknowledgement request.id) db.outbox
    then ok (false, db)
    else new_acknowledgement lib request reply grace_seconds db
