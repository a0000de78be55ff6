-- ===== src/Outbox/Attempts.antt =====
-- How often workflow/outbox_service.py tries to deliver a message.
use Prim.Native.Nat.{max}
use mathlib.Core.Path.{subst}
use snoc_automation_agent.Prelude.{
  if◌then◌else◌, ◌+◌, inr, ℕ, ◌≡◌, ◌≤◌, refl, ◌<◌, ◌⊎◌, Bool, Option, none, some, List, [], String,
  ◌==◌, Eq-ℕ, count_where, arith, true, false, ◌&&◌,
}
use snoc_automation_agent.Domain.Enums.{OutboxStatus}
use snoc_automation_agent.Domain.Errors.{Result, ok, raise}
use snoc_automation_agent.Db.Models.{OutboxMessage, EmailMessage}
use snoc_automation_agent.Db.Session.{Db, get_outbox}
use snoc_automation_agent.Outbox.{
  SendResult, envelope, OutboxService, Delivery, Post, edit_outbox, missing_outbound, transmit,
}
use snoc_automation_agent.Outbox.Rows.{Edited, answered, edit-Edited, transmit-log, transmit-Edited}
use snoc_automation_agent.Outbox.Runs.{send_often, send_often_keeps}

abbrev pub is_answered : Result SendResult → Bool
is_answered (ok result) = true
is_answered (raise e) = false

abbrev pub attempt_for : ℕ → Delivery → Bool
attempt_for i d = d.envelope.outbox_id == i && is_answered d.answer

abbrev counted : Result SendResult → ℕ
counted answer = if is_answered answer then 1 else 0

-- A pending row has as many attempts left as its count of retries leaves.
abbrev IsRetryable : OutboxService → ℕ → Option OutboxMessage → Type 0
IsRetryable service n none = Unit
IsRetryable service n (some o) =
    o.status ≡ OutboxStatus.pending
    → (n ≤ o.retry_count) × ((o.retry_count < service.max_retries) ⊎ (n ≡ 0))

abbrev IsBounded : OutboxService → ℕ → Option OutboxMessage → Type 0
IsBounded service n row = (n ≤ max 1 service.max_retries) × IsRetryable service n row

answered-IsBounded :
    (service : OutboxService) (n now : ℕ) (answer : Result SendResult) (outbox : OutboxMessage)
    → outbox.status ≡ OutboxStatus.pending
    → IsBounded service n (some outbox)
    → IsBounded service (counted answer + n) (some (answered service now answer outbox))
answered-IsBounded service n now (ok result) outbox waiting h = ground arith
answered-IsBounded service n now (raise e) outbox waiting h = ground arith

missing-IsBounded :
    (service : OutboxService) (n : ℕ) (outbox : OutboxMessage)
    → IsBounded service n (some outbox)
    → IsBounded service n (some (missing_outbound outbox))
missing-IsBounded service n outbox h = ground arith

abbrev IsCounted : OutboxService → ℕ → Post → Type 0
IsCounted service i post =
    IsBounded service (count_where (attempt_for i) post.log) (get_outbox i post.db)

transmit-count :
    (service : OutboxService) (i now : ℕ) (outbox : OutboxMessage) (outbound : EmailMessage)
    (raw : String) (post : Post)
    → count_where (attempt_for i) (transmit service now outbox outbound raw post).1.log
      ≡ (if outbox.id == i
            && is_answered (service.send post.log (envelope service outbox outbound raw))
          then 1
          else 0)
        + count_where (attempt_for i) post.log
unfolding count_where
transmit-count service i now outbox outbound raw post =
    rw (transmit-log service now outbox outbound raw post) refl

transmit-IsCounted :
    (service : OutboxService) (i now : ℕ) (outbox : OutboxMessage) (outbound : EmailMessage)
    (raw : String) (post : Post)
    → get_outbox outbox.id post.db ≡ some outbox
    → outbox.status ≡ OutboxStatus.pending
    → IsCounted service i post
    → IsCounted service i (transmit service now outbox outbound raw post).1
transmit-IsCounted service i now outbox outbound raw post found waiting h =
    let count = transmit-count service i now outbox outbound raw post in
    let n = count_where (attempt_for i) post.log in
    let answer = service.send post.log (envelope service outbox outbound raw) in
    elim (transmit-Edited service now outbox outbound raw i post found) [
      | Edited.itself same before after ↦
          let more : count_where (attempt_for i)
                (transmit service now outbox outbound raw post).1.log
              ≡ counted answer + n =
            ground (arith, count, same) in
          rw (more, after)
            (answered-IsBounded service n now answer outbox waiting
              (subst (IsBounded service n) before h))
      | Edited.another other kept ↦
          let no_more : count_where (attempt_for i)
                (transmit service now outbox outbound raw post).1.log
              ≡ n =
            ground (arith, count, other) in
          rw (no_more, kept) h
    ]

missing-IsCounted :
    (service : OutboxService) (i : ℕ) (outbox : OutboxMessage) (post : Post)
    → get_outbox outbox.id post.db ≡ some outbox
    → outbox.status ≡ OutboxStatus.pending
    → IsCounted service i post
    → IsCounted service i (record post { db = edit_outbox outbox.id missing_outbound post.db })
missing-IsCounted service i outbox post found waiting h =
    elim (edit-Edited outbox i missing_outbound post.db (λ o. refl) found) [
      | Edited.itself same before after ↦ rw after (
          missing-IsBounded service _ outbox
            (subst (IsBounded service (count_where (attempt_for i) post.log)) before h))
      | Edited.another other kept ↦ rw kept h
    ]

fresh-IsRetryable : (service : OutboxService) (o : Option OutboxMessage) → IsRetryable service 0 o
fresh-IsRetryable service none = tt
fresh-IsRetryable service (some o) = λ _. (omega arith, inr refl)

none_tried :
    (service : OutboxService) (i : ℕ) (db : Db) → IsCounted service i (record { db = db; log = [] })
unfolding count_where
none_tried service i db = (omega arith, fresh-IsRetryable service _)

-- However often the outbox is sent, from an empty log, the transport answers for a message at most
-- as often as the configuration allows retries, and once where it allows none; an attempt in which
-- the transport raises is not counted.
pub send_often_attempts :
    (service : OutboxService) (runs : List (ℕ × ℕ)) (db : Db) (i : ℕ)
    → count_where (attempt_for i) (send_often service runs (record { db = db; log = [] })).log
      ≤ max 1 service.max_retries
send_often_attempts service runs db i =
    (send_often_keeps service (IsCounted service i) (transmit-IsCounted service i)
      (missing-IsCounted service i) runs (record { db = db; log = [] }) (none_tried service i db)).0
