-- ===== src/Outbox/Runs.antt =====
-- A property of the outbox that one delivery of workflow/outbox_service.py keeps holds after any
-- number of runs of `send_once`.
use snoc_automation_agent.Prelude.{
  map, ℕ, ◌≡◌, ◌∙◌, ap, String, some, List, [], ◌∷◌, ◌==◌, arith, Option-cases, Bool-cases, inl,
  inr,
}
use snoc_automation_agent.Domain.Enums.{OutboxStatus, Eq-OutboxStatus}
use snoc_automation_agent.Domain.Errors.{Result-cases}
use snoc_automation_agent.Db.Models.{OutboxMessage, EmailMessage}
use snoc_automation_agent.Db.Session.{get_outbox, get_email}
use snoc_automation_agent.Outbox.{
  OutboxService, Post, edit_outbox, missing_outbound, transmit, raw_message, send_row, send_one,
  send_ids, send_once, tally, pending,
}
use snoc_automation_agent.Outbox.Rows.{get_outbox_id}

-- Runs of `send_once`, each at a time and with a limit; one that raises ends, and the next starts
-- with what it left.
unfoldable pub send_often : OutboxService → List (ℕ × ℕ) → Post → Post
send_often service [] post = post
send_often service ((now, limit) ∷ runs) post =
    send_often service runs (send_once service now limit post).1

module _ (service : OutboxService) (P : Post → Type 0)
    (transmits : (now : ℕ) (outbox : OutboxMessage) (outbound : EmailMessage) (raw : String)
        (post : Post)
      → get_outbox outbox.id post.db ≡ some outbox
      → outbox.status ≡ OutboxStatus.pending
      → P post
      → P (transmit service now outbox outbound raw post).1)
    (gives_up : (outbox : OutboxMessage) (post : Post)
      → get_outbox outbox.id post.db ≡ some outbox
      → outbox.status ≡ OutboxStatus.pending
      → P post
      → P (record post { db = edit_outbox outbox.id missing_outbound post.db })) where
  send_row_keeps :
      (now : ℕ) (outbox : OutboxMessage) (post : Post)
      → get_outbox outbox.id post.db ≡ some outbox
      → outbox.status ≡ OutboxStatus.pending
      → P post
      → P (send_row service now outbox post).1
  unfolding send_row
  send_row_keeps now outbox post found waiting h =
      elim (Option-cases (get_email outbox.outbound_email_id post.db)) [
        | inl e ↦ ground (arith, e, gives_up outbox post found waiting h)
        | inr (outbound, e) ↦ elim (Result-cases (raw_message service outbox outbound)) [
          | inl (raw, r) ↦
              ground (arith, e, r, transmits now outbox outbound raw post found waiting h)
          | inr (error, r) ↦ ground (arith, e, r, h)
        ]
      ]

  send_one_keeps : (now id : ℕ) (post : Post) → P post → P (send_one service now id post).1
  unfolding send_one
  send_one_keeps now id post h = elim (Option-cases (get_outbox id post.db)) [
    | inl e ↦ ground (arith, e, h)
    | inr (outbox, e) ↦ elim (Bool-cases (outbox.status == OutboxStatus.pending)) [
      | inl waiting ↦ ground (
        arith,
        e,
        waiting,
        send_row_keeps now outbox post
            (ap (λ n. get_outbox n post.db) (get_outbox_id id post.db outbox e) ∙ e)
            (ground (arith, waiting)) h,
      )
      | inr other ↦ ground (arith, e, other, h)
    ]
  ]

  send_ids_keeps :
      (now : ℕ) (ids : List ℕ) (counts : ℕ × ℕ) (post : Post)
      → P post
      → P (send_ids service now ids counts post).1
  unfolding send_ids
  send_ids_keeps now [] counts post h = h
  send_ids_keeps now (id ∷ ids) counts post h =
      let kept = send_one_keeps now id post h in
      elim (Result-cases (send_one service now id post).0) [
        | inl (p, e) ↦ ground (
          arith,
          e,
          send_ids_keeps now ids (tally p counts) (send_one service now id post).1 kept,
        )
        | inr (error, e) ↦ ground (arith, e, kept)
      ]

  pub send_often_keeps :
      (runs : List (ℕ × ℕ)) (post : Post) → P post → P (send_often service runs post)
  unfolding send_often send_once
  send_often_keeps [] post h = h
  send_often_keeps ((now, limit) ∷ runs) post h =
      send_often_keeps runs _ (
        send_ids_keeps now (map (λ (o : OutboxMessage). o.id) (pending limit post.db)) (0, 0) post
          h)
