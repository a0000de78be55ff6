-- ===== src/Outbox/Once.antt =====
-- What a delivery of workflow/outbox_service.py does once.
use snoc_automation_agent.Prelude.{
  ℕ, ◌≡◌, ◌≤◌, refl, Bool, false, ◌&&◌, Option, none, some, List, [], String, ◌==◌, Eq-ℕ,
  if◌then◌else◌, count_where, arith,
}
use snoc_automation_agent.Domain.Enums.{OutboxStatus, Eq-OutboxStatus}
use snoc_automation_agent.Domain.Errors.{Result, ok, raise}
use snoc_automation_agent.Db.Models.{OutboxMessage, EmailMessage}
use snoc_automation_agent.Db.Session.{Db, get_outbox}
use snoc_automation_agent.Outbox.{
  SendResult, OutboxService, Delivery, Post, edit_outbox, missing_outbound, transmit,
}
use snoc_automation_agent.Outbox.Rows.{edit-Edited, transmit-log, transmit-Edited}
use snoc_automation_agent.Outbox.Runs.{send_often, send_often_keeps}

abbrev pub is_accepted : Result SendResult → Bool
is_accepted (ok result) = result.accepted
is_accepted (raise e) = false

abbrev pub accepted_for : ℕ → Delivery → Bool
accepted_for i d = d.envelope.outbox_id == i && is_accepted d.answer

abbrev status_is_sent : Option OutboxMessage → Bool
status_is_sent none = false
status_is_sent (some o) = o.status == OutboxStatus.sent

-- A message that the transport accepted is marked as sent, and was accepted once.
abbrev IsCounted : ℕ → Post → Type 0
IsCounted i post =
    count_where (accepted_for i) post.log ≤ (if status_is_sent (get_outbox i post.db) then 1 else 0)

transmit-IsCounted :
    (service : OutboxService) (i now : ℕ) (outbox : OutboxMessage) (outbound : EmailMessage)
    (raw : String) (post : Post)
    → get_outbox outbox.id post.db ≡ some outbox
    → outbox.status ≡ OutboxStatus.pending
    → IsCounted i post
    → IsCounted i (transmit service now outbox outbound raw post).1
unfolding count_where
transmit-IsCounted service i now outbox outbound raw post found waiting h = ground (
  arith,
  transmit-log service now outbox outbound raw post,
  transmit-Edited service now outbox outbound raw i post found,
)

missing-IsCounted :
    (i : ℕ) (outbox : OutboxMessage) (post : Post)
    → get_outbox outbox.id post.db ≡ some outbox
    → outbox.status ≡ OutboxStatus.pending
    → IsCounted i post
    → IsCounted i (record post { db = edit_outbox outbox.id missing_outbound post.db })
missing-IsCounted i outbox post found waiting h =
    ground (arith, edit-Edited outbox i missing_outbound post.db (λ o. refl) found)

none_accepted : (i : ℕ) (db : Db) → IsCounted i (record { db = db; log = [] })
unfolding count_where
none_accepted i db = omega arith

-- However often the outbox is sent, one run after the other, from an empty log and with whatever
-- transport, no message is accepted by the transport more than once, where every commit succeeds.
pub send_often_once :
    (service : OutboxService) (runs : List (ℕ × ℕ)) (db : Db) (i : ℕ)
    → count_where (accepted_for i) (send_often service runs (record { db = db; log = [] })).log ≤ 1
send_often_once service runs db i = ground (
  arith,
  send_often_keeps service (IsCounted i) (transmit-IsCounted service i) (missing-IsCounted i) runs
      (record { db = db; log = [] }) (none_accepted i db),
)
