-- ===== src/Correlation/Queries.antt =====
-- The queries of mail/correlation.py: those of db/repositories/ and `_request_for_message`.
use snoc_automation_agent.Prelude.{
  ℕ, Bool, false, ◌&&◌, ◌||◌, Option, none, some, List, [], ◌∷◌, String, ◌==◌, Eq-ℕ, Eq-String,
  Eq-Option, if◌then◌else◌, is_empty, any, keep, find, map, contains, sort_by, leb, or_blank,
}
use snoc_automation_agent.Domain.Enums.{
  RequestStatus, ClarificationStatus, Eq-RequestStatus, Eq-ClarificationStatus,
}
use snoc_automation_agent.Db.Models.{
  Conversation, EmailMessage, BusinessRequest, Clarification, OutboxMessage,
}
use snoc_automation_agent.Db.Session.{Db, get_request}

-- EmailRepository.by_any_rfc_id
unfoldable pub by_any_rfc_id : List String → Db → List EmailMessage
by_any_rfc_id ids db =
    keep (λ (m : EmailMessage). contains m.normalized_message_id (map some ids)) db.emails

abbrev pub has_message_id : Db → String → Option ℕ → Bool
has_message_id db message_id none = false
has_message_id db message_id (some i) =
    any (λ (m : EmailMessage). m.id == i && m.normalized_message_id == some message_id) db.emails

-- ClarificationRepository.by_outbound_rfc_id
unfoldable pub by_outbound_rfc_id : String → Db → Option Clarification
by_outbound_rfc_id message_id db =
    find
      (λ (c : Clarification).
        has_message_id db message_id c.outbound_email_id
        && (c.status == ClarificationStatus.pending_send || c.status == ClarificationStatus.opened))
      db.clarifications

-- RequestRepository.open_for_conversation
abbrev pub is_open_request : RequestStatus → Bool
is_open_request status = contains status (
    RequestStatus.new ∷ RequestStatus.analyzing ∷ RequestStatus.active
    ∷ RequestStatus.partially_completed ∷ RequestStatus.needs_information
    ∷ RequestStatus.ready_for_validation ∷ [])

unfoldable pub open_for_conversation : ℕ → Db → List BusinessRequest
open_for_conversation conversation_id db =
    sort_by (λ (a : BusinessRequest) (b : BusinessRequest). leb b.last_active_at a.last_active_at)
      (keep
        (λ (r : BusinessRequest). r.conversation_id == conversation_id && is_open_request r.status)
        db.requests)

-- RequestRepository.by_public_reference
unfoldable pub by_public_reference : String → Db → Option BusinessRequest
by_public_reference reference db =
    find (λ (r : BusinessRequest). r.public_reference == reference) db.requests

-- ConversationRepository.subject_candidates
unfoldable pub subject_candidates : String → String → Db → List Conversation
subject_candidates normalized_subject sender db =
    if is_empty normalized_subject
    then []
    else sort_by (λ (a : Conversation) (b : Conversation). leb b.last_message_at a.last_message_at)
        (keep
          (λ (c : Conversation).
            c.normalized_subject == normalized_subject && c.primary_sender == some sender)
          db.conversations)

-- The only element of a list.
abbrev pub only : List BusinessRequest → Option BusinessRequest
only (r ∷ []) = some r
only _ = none

abbrev pub or_next {ℓ} : {A : Type ℓ} → Option A → Option A → Option A
or_next none b = b
or_next (some a) b = some a

unfoldable pub request_of_conversation : Option ℕ → Db → Option BusinessRequest
request_of_conversation none db = none
request_of_conversation (some conversation_id) db =
    or_next (only (open_for_conversation conversation_id db))
      (only (keep (λ (r : BusinessRequest). r.conversation_id == conversation_id) db.requests))

abbrev pub related_request : Option OutboxMessage → Option ℕ
related_request none = none
related_request (some o) = o.related_request_id

-- `_request_for_message`
unfoldable pub request_for_message : Db → EmailMessage → Option BusinessRequest
request_for_message db message =
    elim (by_outbound_rfc_id (or_blank message.normalized_message_id) db) [
      | some clarification ↦ get_request clarification.request_id db
      | none ↦
          let outbox = find (λ (o : OutboxMessage). o.outbound_email_id == message.id) db.outbox in
          elim (related_request outbox) [
            | some related_request_id ↦ get_request related_request_id db
            | none ↦
                or_next
                  (find (λ (r : BusinessRequest). r.initiating_email_id == message.id) db.requests)
                  (request_of_conversation message.conversation_id db)
          ]
    ]
