-- ===== src/Outbox.antt =====
-- workflow/outbox_service.py: the delivery of stored messages. The SMTP transport (mail/interfaces.py),
-- the comparison of header names and the rendering of a MIME message are parameters; the transport
-- answers with a `SendResult`, as its protocol says, or raises, which may depend on what went out
-- before; the log holds what it did, the latest first. An exception of the transport rolls the
-- transaction of its message back and ends the run.
pub mod Rows
pub mod Runs
pub mod Once
pub mod Attempts
use snoc_automation_agent.Prelude.{
  ℕ, ◌+◌, Bool, true, false, not, ◌&&◌, ◌||◌, Option, none, some, List, [], ◌∷◌, ◌++◌, String, ◌==◌,
  Eq-ℕ, any, if◌then◌else◌, keep, map, take, sort_by, update_where, leb, is_empty,
}
use snoc_automation_agent.Domain.Enums.{
  OutboxStatus, ProcessingStatus, ClarificationStatus, Eq-OutboxStatus,
}
use snoc_automation_agent.Domain.Errors.{Result, ok, raise, ◌>>=◌}
use snoc_automation_agent.Domain.ValueObjects.{reject_header_injection}
use snoc_automation_agent.Db.Models.{OutboxMessage, EmailMessage, Clarification}
use snoc_automation_agent.Db.Session.{Db, get_outbox, get_email}

pub record OutboundEnvelope : Type 0 where
  pub sender : String
  pub recipient : String
  pub raw_message : String
  pub message_id : String
  pub outbox_id : ℕ

pub record SendResult : Type 0 where
  pub accepted : Bool
  pub transient_failure : Bool
  pub detail : String

pub record Delivery : Type 0 where
  pub envelope : OutboundEnvelope
  pub answer : Result SendResult

abbrev pub Headers : Type 0
Headers = List (String × String)

pub record OutboxService : Type 0 where
  pub sender : String
  pub max_retries : ℕ
  pub same_header : String → String → Bool
  pub as_bytes : Headers → String → String
  pub send : List Delivery → OutboundEnvelope → Result SendResult

-- The database with the log of the transport.
pub record Post : Type 0 where
  pub db : Db
  pub log : List Delivery

pub data Progress : Type 0 where
  skipped sent failed : Progress

-- The loop over `outbox.headers`; the headers so far are those of `message`.
unfoldable pub add_headers : OutboxService → Headers → Headers → Result Headers
add_headers service message [] = ok message
add_headers service message ((name, value) ∷ rest) =
    if not (is_empty value)
      && not (any (λ (h : String × String). service.same_header h.0 name) message)
    then (reject_header_injection value >>= λ v.
        add_headers service (message ++ (name, v) ∷ []) rest)
    else add_headers service message rest

unfoldable pub raw_message : OutboxService → OutboxMessage → EmailMessage → Result String
raw_message service outbox outbound = elim outbound.raw_eml_blob [
  | some raw ↦ ok raw
  | none ↦ reject_header_injection outbox.recipient >>= λ recipient.
      reject_header_injection outbox.subject >>= λ subject.
      add_headers service (("From", service.sender) ∷ ("To", recipient) ∷ ("Subject", subject) ∷ [])
        outbox.headers
      >>= λ headers. ok (service.as_bytes headers outbox.body)
]

abbrev pub text_or_empty : Option String → String
text_or_empty none = ""
text_or_empty (some s) = s

abbrev pub envelope : OutboxService → OutboxMessage → EmailMessage → String → OutboundEnvelope
envelope service outbox outbound raw = record {
  sender = service.sender;
  recipient = outbox.recipient;
  raw_message = raw;
  message_id = text_or_empty outbound.rfc_message_id;
  outbox_id = outbox.id;
}

unfoldable pub edit_outbox : ℕ → (OutboxMessage → OutboxMessage) → Db → Db
edit_outbox i f db = record db {
  outbox = update_where (λ (o : OutboxMessage). o.id == i) f db.outbox;
}

unfoldable pub edit_email : ℕ → (EmailMessage → EmailMessage) → Db → Db
edit_email i f db = record db {
  emails = update_where (λ (m : EmailMessage). m.id == i) f db.emails;
}

-- `session.get(Clarification, …)` and its new status, where there is one.
unfoldable pub open_clarification : Option ℕ → Db → Db
open_clarification none db = db
open_clarification (some i) db = record db {
  clarifications =
      update_where (λ (c : Clarification). c.id == i)
        (λ c. record c { status = ClarificationStatus.opened }) db.clarifications;
}

abbrev pub missing_outbound : OutboxMessage → OutboxMessage
missing_outbound outbox = record outbox {
  status = OutboxStatus.failed;
  last_error = some "outbound email record is missing";
}

abbrev pub sent_row : ℕ → OutboxMessage → OutboxMessage
sent_row now outbox = record outbox { status = OutboxStatus.sent; sent_at = some now }

abbrev pub failed_attempt : OutboxService → SendResult → OutboxMessage → OutboxMessage
failed_attempt service result outbox = record outbox {
  retry_count = outbox.retry_count + 1;
  last_error = some result.detail;
  status =
      if not result.transient_failure || leb service.max_retries (outbox.retry_count + 1)
      then OutboxStatus.failed
      else outbox.status;
}

-- The branches after `transport.send`.
unfoldable pub record_delivery :
    OutboxService → ℕ → OutboxMessage → EmailMessage → SendResult → Db → Progress × Db
record_delivery service now outbox outbound result db =
    if result.accepted
    then (
      Progress.sent,
      open_clarification outbox.related_clarification_id (
          edit_email outbound.id (λ m. record m { processing_status = ProcessingStatus.processed })
            (edit_outbox outbox.id (sent_row now) db)),
    )
    else (Progress.failed, edit_outbox outbox.id (failed_attempt service result) db)

-- The envelope goes to the transport, and the answer to the row; an exception leaves the row.
unfoldable pub transmit :
    OutboxService → ℕ → OutboxMessage → EmailMessage → String → Post → Result Progress × Post
transmit service now outbox outbound raw post =
    let out = envelope service outbox outbound raw in
    let answer = service.send post.log out in
    let log = record { envelope = out; answer = answer } ∷ post.log in
    elim answer [
      | raise e ↦ (raise e, record post { log = log })
      | ok result ↦
          let (progress, db) = record_delivery service now outbox outbound result post.db in
          (ok progress, record { db = db; log = log })
    ]

unfoldable pub send_row : OutboxService → ℕ → OutboxMessage → Post → Result Progress × Post
send_row service now outbox post = elim (get_email outbox.outbound_email_id post.db) [
  | none ↦ (ok Progress.failed, record post { db = edit_outbox outbox.id missing_outbound post.db })
  | some outbound ↦ elim (raw_message service outbox outbound) [
    | raise e ↦ (raise e, post)
    | ok raw ↦ transmit service now outbox outbound raw post
  ]
]

-- The body of the loop, for one row, at the time `now`.
unfoldable pub send_one : OutboxService → ℕ → ℕ → Post → Result Progress × Post
send_one service now outbox_id post = elim (get_outbox outbox_id post.db) [
  | none ↦ (ok Progress.skipped, post)
  | some outbox ↦
      if outbox.status == OutboxStatus.pending
      then send_row service now outbox post
      else (ok Progress.skipped, post)
]

-- OutboxRepository.pending
unfoldable pub pending : ℕ → Db → List OutboxMessage
pending limit db = take limit (
    sort_by (λ (a b : OutboxMessage). leb a.created_at b.created_at)
      (keep (λ (o : OutboxMessage). o.status == OutboxStatus.pending) db.outbox))

abbrev pub tally : Progress → ℕ × ℕ → ℕ × ℕ
tally Progress.skipped counts = counts
tally Progress.sent counts = (counts.0 + 1, counts.1)
tally Progress.failed counts = (counts.0, counts.1 + 1)

-- The loop over the ids; an exception ends it.
unfoldable pub send_ids : OutboxService → ℕ → List ℕ → ℕ × ℕ → Post → Result (ℕ × ℕ) × Post
send_ids service now [] counts post = (ok counts, post)
send_ids service now (id ∷ ids) counts post =
    let (progress, after) = send_one service now id post in
    elim progress [
      | raise e ↦ (raise e, after)
      | ok p ↦ send_ids service now ids (tally p counts) after
    ]

unfoldable pub send_once : OutboxService → ℕ → ℕ → Post → Result (ℕ × ℕ) × Post
send_once service now limit post =
    send_ids service now (map (λ (o : OutboxMessage). o.id) (pending limit post.db)) (0, 0) post
