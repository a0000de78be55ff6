-- ===== src/Outbox/Rows.antt =====
-- Rows of the outbox after the edits of workflow/outbox_service.py.
use snoc_automation_agent.Prelude.{
  ℕ, ◌≡◌, ◌∙◌, ◌≢◌, ap, String, refl, Option, none, some, ◌∷◌, ◌==◌, Eq-ℕ, nat_eq_iff,
  if◌then◌else◌, arith, Option-cases, Bool-cases, inl, inr,
}
use snoc_automation_agent.Prelude.Tables.{find-update_where, opt_map, find_holds}
use snoc_automation_agent.Domain.Enums.{ProcessingStatus, Eq-OutboxStatus}
use snoc_automation_agent.Domain.Errors.{Result, ok, raise, Result-cases}
use snoc_automation_agent.Db.Models.{OutboxMessage, EmailMessage}
use snoc_automation_agent.Db.Session.{Db, get_outbox}
use snoc_automation_agent.Outbox.{
  SendResult, OutboxService, Post, envelope, edit_outbox, edit_email, open_clarification, sent_row,
  failed_attempt, record_delivery, transmit,
}

pub get_outbox-edit :
    (i j : ℕ) (f : OutboxMessage → OutboxMessage) (db : Db)
    → ((o : OutboxMessage) → (f o).id ≡ o.id)
    → get_outbox i (edit_outbox j f db)
      ≡ opt_map (λ o. if o.id == j then f o else o) (get_outbox i db)
unfolding get_outbox edit_outbox
get_outbox-edit i j f db keeps =
    find-update_where (λ (o : OutboxMessage). o.id == i) (λ (o : OutboxMessage). o.id == j) f
      db.outbox (λ o. ap (λ n. n == i) (keeps o))

pub get_outbox-rest :
    (i k : ℕ) (f : EmailMessage → EmailMessage) (clarification : Option ℕ) (db : Db)
    → get_outbox i (open_clarification clarification (edit_email k f db)) ≡ get_outbox i db
unfolding get_outbox open_clarification edit_email
get_outbox-rest i k f none db = refl
get_outbox-rest i k f (some c) db = refl

pub get_outbox_id : (i : ℕ) (db : Db) (o : OutboxMessage) → get_outbox i db ≡ some o → o.id ≡ i
unfolding get_outbox
get_outbox_id i db o h =
    (nat_eq_iff o.id i).0 (find_holds (λ (r : OutboxMessage). r.id == i) db.outbox o h)

-- Another row is found as before, and the row itself as edited.
pub get_outbox-edit_other :
    (i j : ℕ) (f : OutboxMessage → OutboxMessage) (db : Db)
    → ((o : OutboxMessage) → (f o).id ≡ o.id)
    → i ≢ j
    → get_outbox i (edit_outbox j f db) ≡ get_outbox i db
get_outbox-edit_other i j f db keeps other = elim (Option-cases (get_outbox i db)) [
  | inl e ↦ ground (arith, get_outbox-edit i j f db keeps)
  | inr (o, e) ↦
      ground (arith, get_outbox-edit i j f db keeps, nat_eq_iff o.id j, get_outbox_id i db o e)
]

pub get_outbox-edit_same :
    (o : OutboxMessage) (f : OutboxMessage → OutboxMessage) (db : Db)
    → ((r : OutboxMessage) → (f r).id ≡ r.id)
    → get_outbox o.id db ≡ some o
    → get_outbox o.id (edit_outbox o.id f db) ≡ some (f o)
get_outbox-edit_same o f db keeps found =
    ground (arith, get_outbox-edit o.id o.id f db keeps, nat_eq_iff o.id o.id)

-- What becomes of row `i` when the pending row `outbox` is edited.
pub data Edited (outbox : OutboxMessage) (f : OutboxMessage → OutboxMessage) (i : ℕ) (db after : Db)
    : Type 0 where
  itself :
      i ≡ outbox.id
      → get_outbox i db ≡ some outbox
      → get_outbox i after ≡ some (f outbox)
      → Edited outbox f i db after
  another : i ≢ outbox.id → get_outbox i after ≡ get_outbox i db → Edited outbox f i db after

pub edit-Edited :
    (outbox : OutboxMessage) (i : ℕ) (f : OutboxMessage → OutboxMessage) (db : Db)
    → ((r : OutboxMessage) → (f r).id ≡ r.id)
    → get_outbox outbox.id db ≡ some outbox
    → Edited outbox f i db (edit_outbox outbox.id f db)
edit-Edited outbox i f db keeps found = elim (Bool-cases (i == outbox.id)) [
  | inl same ↦
      let e = (nat_eq_iff i outbox.id).0 same in
      Edited.itself e (ap (λ n. get_outbox n db) e ∙ found) (
        ap (λ n. get_outbox n (edit_outbox outbox.id f db)) e
        ∙ get_outbox-edit_same outbox f db keeps found)
  | inr other ↦
      let ne : i ≢ outbox.id = λ e. ground (arith, e, other) in
      Edited.another ne (get_outbox-edit_other i outbox.id f db keeps ne)
]

-- How the answer of the transport edits the row; an exception leaves it.
abbrev pub answered : OutboxService → ℕ → Result SendResult → OutboxMessage → OutboxMessage
answered service now (ok result) =
    if result.accepted then sent_row now else failed_attempt service result
answered service now (raise e) = λ o. o

-- One message goes out, whatever the transport does.
pub transmit-log :
    (service : OutboxService) (now : ℕ) (outbox : OutboxMessage) (outbound : EmailMessage)
    (raw : String) (post : Post)
    → let out = envelope service outbox outbound raw in
      (transmit service now outbox outbound raw post).1.log
      ≡ record { envelope = out; answer = service.send post.log out } ∷ post.log
unfolding transmit
transmit-log service now outbox outbound raw post =
    elim (Result-cases (service.send post.log (envelope service outbox outbound raw))) [
      | inl (result, e) ↦ ground (arith, e)
      | inr (error, e) ↦ ground (arith, e)
    ]

answered-id :
    (service : OutboxService) (now : ℕ) (result : SendResult) (o : OutboxMessage)
    → (answered service now (ok result) o).id ≡ o.id
answered-id service now result o = ground arith

record_delivery-found :
    (service : OutboxService) (now : ℕ) (outbox : OutboxMessage) (outbound : EmailMessage)
    (result : SendResult) (i : ℕ) (db : Db)
    → get_outbox i (record_delivery service now outbox outbound result db).1
      ≡ get_outbox i (edit_outbox outbox.id (answered service now (ok result)) db)
unfolding record_delivery
record_delivery-found service now outbox outbound result i db = ground (
  arith,
  get_outbox-rest i outbound.id (λ m. record m { processing_status = ProcessingStatus.processed })
      outbox.related_clarification_id (edit_outbox outbox.id (sent_row now) db),
)

Edited-found :
    (outbox : OutboxMessage) (f : OutboxMessage → OutboxMessage) (i : ℕ) (db after after' : Db)
    → get_outbox i after' ≡ get_outbox i after
    → Edited outbox f i db after
    → Edited outbox f i db after'
Edited-found outbox f i db after after' same (Edited.itself e before found) =
    Edited.itself e before (same ∙ found)
Edited-found outbox f i db after after' same (Edited.another e kept) =
    Edited.another e (same ∙ kept)

untouched-Edited :
    (outbox : OutboxMessage) (i : ℕ) (db : Db)
    → get_outbox outbox.id db ≡ some outbox
    → Edited outbox (λ o. o) i db db
untouched-Edited outbox i db found = elim (Bool-cases (i == outbox.id)) [
  | inl same ↦
      let e = (nat_eq_iff i outbox.id).0 same in
      let here = ap (λ n. get_outbox n db) e ∙ found in Edited.itself e here here
  | inr other ↦ Edited.another (λ e. ground (arith, e, other)) refl
]

record_delivery-Edited :
    (service : OutboxService) (now : ℕ) (outbox : OutboxMessage) (outbound : EmailMessage)
    (result : SendResult) (i : ℕ) (db : Db)
    → get_outbox outbox.id db ≡ some outbox
    → Edited outbox
        (answered service now (ok result))
        i
        db
        (record_delivery service now outbox outbound result db).1
record_delivery-Edited service now outbox outbound result i db found =
    let edit = answered service now (ok result) in
    Edited-found outbox edit i db (edit_outbox outbox.id edit db) _
      (record_delivery-found service now outbox outbound result i db)
      (edit-Edited outbox i edit db (answered-id service now result) found)

pub transmit-Edited :
    (service : OutboxService) (now : ℕ) (outbox : OutboxMessage) (outbound : EmailMessage)
    (raw : String) (i : ℕ) (post : Post)
    → get_outbox outbox.id post.db ≡ some outbox
    → let answer = service.send post.log (envelope service outbox outbound raw) in
      Edited outbox
        (answered service now answer)
        i
        post.db
        (transmit service now outbox outbound raw post).1.db
unfolding transmit
transmit-Edited service now outbox outbound raw i post found =
    elim (Result-cases (service.send post.log (envelope service outbox outbound raw))) [
      | inl (result, e) ↦
          let kept : (transmit service now outbox outbound raw post).1.db
              ≡ (record_delivery service now outbox outbound result post.db).1 =
            ground (arith, e) in
          rw (e, kept) (record_delivery-Edited service now outbox outbound result i post.db found)
      | inr (error, e) ↦
          let kept : (transmit service now outbox outbound raw post).1.db ≡ post.db =
            ground (arith, e) in
          rw (e, kept) (untouched-Edited outbox i post.db found)
    ]
