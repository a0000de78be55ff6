-- ===== src/Replies/Messages.antt =====
-- workflow/reply_service.py: an outbound email with its headers and its row of the outbox.

use snoc_automation_agent.Prelude.{
  or_blank, ℕ, ◌+◌, Option, none, some, [], ◌∷◌, ◌++◌, String, ◌==◌, Eq-ℕ, Eq-String, Eq-Option,
  if◌then◌else◌, is_empty, any, join, update_where, dict_merge, dict_get,
}
use snoc_automation_agent.Domain.Enums.{
  Direction, ProcessingStatus, OutboxStatus, Eq-ClarificationStatus, Eq-OperationStatus,
}
use snoc_automation_agent.Domain.Errors.{Result, ok, raise, integrity_error, ◌>>=◌}
use snoc_automation_agent.Domain.ValueObjects.{reject_header_injection}
use snoc_automation_agent.Db.Models.{EmailMessage, BusinessRequest, Clarification, OutboxMessage}
use snoc_automation_agent.Db.Session.{Db, Tx}
use snoc_automation_agent.Outbox.{Headers}
use snoc_automation_agent.Mail.{MailLib}
use snoc_automation_agent.Mail.Headers.{
  normalize_message_id, wire_message_id, build_wire_references, normalize_subject, reply_subject,
  domain_of,
}

-- `add` and `flush`. The column `outbound_email_id` of the outbox is unique.
unfoldable pub add_email : EmailMessage → Tx EmailMessage
add_email row db = ok (row, record db { emails = db.emails ++ row ∷ []; next_id = db.next_id + 1 })

unfoldable pub add_outbox : OutboxMessage → Tx OutboxMessage
add_outbox row db =
    if any (λ (o : OutboxMessage). o.outbound_email_id == row.outbound_email_id) db.outbox
    then raise integrity_error
    else ok (row, record db { outbox = db.outbox ++ row ∷ []; next_id = db.next_id + 1 })

unfoldable pub add_clarification : Clarification → Tx Clarification
add_clarification row db =
    ok (row, record db { clarifications = db.clarifications ++ row ∷ []; next_id = db.next_id + 1 })

unfoldable pub edit_clarification : ℕ → (Clarification → Clarification) → Db → Db
edit_clarification i f db = record db {
  clarifications = update_where (λ (c : Clarification). c.id == i) f db.clarifications;
}

unfoldable pub edit_request : ℕ → (BusinessRequest → BusinessRequest) → Db → Db
edit_request i f db = record db {
  requests = update_where (λ (r : BusinessRequest). r.id == i) f db.requests;
}

-- `{name: reject_header_injection(value) for name, value in extra_headers.items()}`
unfoldable pub reject_values : Headers → Result Headers
reject_values [] = ok []
reject_values ((name, value) ∷ rest) = reject_header_injection value >>= λ checked.
    reject_values rest >>= λ others. ok ((name, checked) ∷ others)

-- What was checked of a message before anything is stored.
pub record Draft : Type 0 where
  pub sender : String
  pub recipient : String
  pub subject : String
  pub extra_headers : Headers

unfoldable pub check_draft :
    MailLib → EmailMessage → String → String → String → Headers → Result Draft
check_draft lib source_email sender recipient subject extra_headers =
    reject_header_injection sender >>= λ checked_sender.
    reject_header_injection recipient >>= λ checked_recipient.
    reject_header_injection subject >>= λ fallback_subject.
    reject_header_injection (reply_subject lib (some source_email.subject) fallback_subject)
    >>= λ checked_subject. reject_values extra_headers >>= λ extra. ok (record {
      sender = checked_sender;
      recipient = checked_recipient;
      subject = checked_subject;
      extra_headers = extra;
    })

abbrev pub unless_blank : String → Option String
unless_blank s = if is_empty s then none else some s

abbrev pub standard_headers : String → String → String → String → Headers
standard_headers message_id in_reply_to references reference =
    ("Message-ID", message_id)
    ∷ ("In-Reply-To", in_reply_to)
    ∷ ("References", references)
    ∷ ("X-SNOC-Agent-Generated", "true")
    ∷ ("X-SNOC-Request-ID", reference)
    ∷ []

-- `headers` has the name "In-Reply-To", from `standard_headers`.
unfoldable pub outbound_email :
    MailLib → BusinessRequest → EmailMessage → Draft → String → Headers → ℕ → String → EmailMessage
outbound_email lib request source_email draft body headers id message_id = record {
  id = id;
  conversation_id = some request.conversation_id;
  direction = Direction.outbound;
  rfc_message_id = some message_id;
  normalized_message_id = normalize_message_id lib (some message_id);
  in_reply_to = unless_blank (or_blank (dict_get "In-Reply-To" headers));
  references_json =
      build_wire_references lib source_email.references_json source_email.rfc_message_id;
  sender = draft.sender;
  recipients_json = draft.recipient ∷ [];
  subject = draft.subject;
  normalized_subject = normalize_subject lib (some draft.subject);
  raw_text = body;
  latest_user_message = body;
  raw_eml_blob = none;
  processing_status = ProcessingStatus.stored;
}

unfoldable pub outbox_row :
    BusinessRequest → Draft → String → Headers → Option ℕ → ℕ → ℕ → ℕ → OutboxMessage
outbox_row request draft body headers clarification_id now id outbound_email_id = record {
  id = id;
  related_request_id = some request.id;
  related_clarification_id = clarification_id;
  outbound_email_id = outbound_email_id;
  recipient = draft.recipient;
  subject = draft.subject;
  body = body;
  headers = headers;
  status = OutboxStatus.pending;
  retry_count = 0;
  last_error = none;
  created_at = now;
  sent_at = none;
}

unfoldable pub reply_headers : MailLib → BusinessRequest → EmailMessage → Draft → String → Headers
reply_headers lib request source_email draft message_id =
    dict_merge
      (standard_headers message_id (or_blank (wire_message_id lib source_email.rfc_message_id))
        (join " "
          (build_wire_references lib source_email.references_json source_email.rfc_message_id))
        request.public_reference)
      draft.extra_headers

unfoldable pub store_draft :
    MailLib
    → BusinessRequest
    → EmailMessage
    → Draft
    → String
    → Option ℕ
    → ℕ
    → Tx (EmailMessage × OutboxMessage)
store_draft lib request source_email draft body clarification_id now db =
    let message_id = lib.make_msgid (domain_of draft.sender) db.next_id in
    let headers = reply_headers lib request source_email draft message_id in
    let outbound =
      outbound_email lib request source_email draft body headers db.next_id message_id in
    (add_email outbound db) >>= λ stored.
    let row =
      outbox_row request draft body headers clarification_id now stored.1.next_id outbound.id in
    add_outbox row stored.1 >>= λ queued. ok ((outbound, queued.0), queued.1)

unfoldable pub create_outbound_message :
    MailLib
    → BusinessRequest
    → EmailMessage
    → String
    → String
    → String
    → String
    → Headers
    → Option ℕ
    → ℕ
    → Tx (EmailMessage × OutboxMessage)
create_outbound_message lib request source_email sender recipient subject body extra_headers
      clarification_id now db =
    check_draft lib source_email sender recipient subject extra_headers >>= λ draft.
    store_draft lib request source_email draft body clarification_id now db
