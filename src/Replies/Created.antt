-- ===== src/Replies/Created.antt =====
-- What `create_outbound_message` of workflow/reply_service.py stores.
use snoc_automation_agent.Prelude.{
  or_blank, ℕ, ◌+◌, ◌≡◌, Option, some, [], ◌∷◌, ◌++◌, String, Eq-String, dict_merge, join, arith,
  inl, inr,
}
use mathlib.Core.Path.{subst}
use snoc_automation_agent.Domain.Enums.{OutboxStatus}
use snoc_automation_agent.Domain.Errors.{ok, Result-cases}
use snoc_automation_agent.Domain.ValueObjects.{reject_header_injection}
use snoc_automation_agent.Db.Models.{EmailMessage, BusinessRequest, OutboxMessage}
use snoc_automation_agent.Db.Session.{Db}
use snoc_automation_agent.Mail.{MailLib}
use snoc_automation_agent.Mail.Headers.{domain_of, wire_message_id, build_wire_references}
use snoc_automation_agent.Outbox.{Headers}
use snoc_automation_agent.Replies.Messages.{
  Draft, add_email, add_outbox, reject_values, check_draft, standard_headers, outbox_row,
  outbound_email, reply_headers, store_draft, create_outbound_message,
}

reject_same :
    (value checked : String) → reject_header_injection value ≡ ok checked → checked ≡ value
unfolding reject_header_injection
reject_same value checked h = ground arith

reject_values_same : (extra checked : Headers) → reject_values extra ≡ ok checked → checked ≡ extra
unfolding reject_values
reject_values_same [] checked h = ground arith
reject_values_same ((name, value) ∷ rest) checked h =
    elim (Result-cases (reject_header_injection value)) [
      | inr (e, r) ↦ absurd (ground (arith, r, h))
      | inl (v, r) ↦ elim (Result-cases (reject_values rest)) [
        | inr (e, q) ↦ absurd (ground (arith, r, q, h))
        | inl (others, q) ↦
            ground (arith, r, q, h, reject_same value v r, reject_values_same rest others q)
      ]
    ]

check_draft-extra :
    (lib : MailLib) (source_email : EmailMessage) (sender recipient subject : String)
    (extra : Headers) (draft : Draft)
    → check_draft lib source_email sender recipient subject extra ≡ ok draft
    → draft.extra_headers ≡ extra
unfolding check_draft
check_draft-extra lib source_email sender recipient subject extra draft h =
    elim (Result-cases (reject_values extra)) [
      | inr (e, q) ↦ absurd (ground (arith, q, h))
      | inl (others, q) ↦ ground (arith, q, h, reject_values_same extra others q)
    ]

-- A new email and a new row of the outbox, which delivers it, and nothing else.
pub record IsCreated (request : BusinessRequest) (extra : Headers) (clarification_id : Option ℕ)
    (db : Db) (outbound : EmailMessage) (row : OutboxMessage) (after : Db) : Type 0 where
  pub stored : after ≡ record db {
    emails = db.emails ++ outbound ∷ [];
    outbox = db.outbox ++ row ∷ [];
    next_id = db.next_id + 1 + 1;
  }
  pub fresh : row.id ≡ db.next_id + 1
  pub related : row.related_request_id ≡ some request.id
  pub asks : row.related_clarification_id ≡ clarification_id
  pub delivers : row.outbound_email_id ≡ outbound.id
  pub pending : row.status ≡ OutboxStatus.pending
  pub message_id : String
  pub in_reply_to : String
  pub references : String
  pub headers :
      row.headers
      ≡ dict_merge
          (standard_headers message_id in_reply_to references request.public_reference)
          extra

store_draft-IsCreated :
    (lib : MailLib) (request : BusinessRequest) (source_email : EmailMessage) (draft : Draft)
    (body : String) (clarification_id : Option ℕ) (now : ℕ) (db : Db) (outbound : EmailMessage)
    (row : OutboxMessage) (after : Db)
    → store_draft lib request source_email draft body clarification_id now db
      ≡ ok ((outbound, row), after)
    → IsCreated request draft.extra_headers clarification_id db outbound row after
unfolding store_draft add_email add_outbox outbox_row outbound_email reply_headers
store_draft-IsCreated lib request source_email draft body clarification_id now db outbound row after
      h =
    record {
      stored = ground (arith, h);
      fresh = ground (arith, h);
      related = ground (arith, h);
      asks = ground (arith, h);
      delivers = ground (arith, h);
      pending = ground (arith, h);
      message_id = lib.make_msgid (domain_of draft.sender) db.next_id;
      in_reply_to = or_blank (wire_message_id lib source_email.rfc_message_id);
      references =
          join " "
            (build_wire_references lib source_email.references_json source_email.rfc_message_id);
      headers = ground (arith, h);
    }

pub create-IsCreated :
    (lib : MailLib) (request : BusinessRequest) (source_email : EmailMessage)
    (sender recipient subject body : String) (extra : Headers) (clarification_id : Option ℕ)
    (now : ℕ) (db : Db) (outbound : EmailMessage) (row : OutboxMessage) (after : Db)
    → create_outbound_message lib request source_email sender recipient subject body extra
        clarification_id now db
      ≡ ok ((outbound, row), after)
    → IsCreated request extra clarification_id db outbound row after
unfolding create_outbound_message
create-IsCreated lib request source_email sender recipient subject body extra clarification_id now
      db outbound row after h =
    elim (Result-cases (check_draft lib source_email sender recipient subject extra)) [
      | inr (e, q) ↦ absurd (ground (arith, q, h))
      | inl (draft, q) ↦
          let same = check_draft-extra lib source_email sender recipient subject extra draft q in
          subst (λ x. IsCreated request x clarification_id db outbound row after) same
            (store_draft-IsCreated lib request source_email draft body clarification_id now db
              outbound row after (ground (arith, q, h)))
    ]
