-- ===== src/Replies/Asking.antt =====
-- Clarifications (workflow/clarification_service.py) are not repeated.
use snoc_automation_agent.Prelude.{
  ℕ, ◌+◌, ◌≡◌, ◌∙◌, refl, ap, Bool, some, [], ◌∷◌, ◌++◌, String, ◌==◌, Eq-ℕ, if◌then◌else◌, head,
  map, count_where, arith, Option-cases, inl, inr,
}
use mathlib.Core.Path.{subst}
use snoc_automation_agent.Prelude.Tables.{count-append, count-keep, count-update, head-none}
use snoc_automation_agent.Domain.Errors.{ok, Result-cases}
use snoc_automation_agent.Db.Models.{EmailMessage, BusinessRequest, OutboxMessage, Clarification}
use snoc_automation_agent.Db.Session.{Db, get_request}
use snoc_automation_agent.Mail.{MailLib}
use snoc_automation_agent.Mail.Templates.{clarification_email}
use snoc_automation_agent.Outbox.{edit_outbox}
use snoc_automation_agent.Replies.Messages.{
  create_outbound_message, edit_clarification, add_clarification,
}
use snoc_automation_agent.Replies.Services.{
  Reply, is_open_for, open_for_request, is_acknowledgement, ensure_clarification, new_clarification,
  view, clarification_row, link_clarification,
}
use snoc_automation_agent.Replies.Created.{IsCreated, create-IsCreated}
use snoc_automation_agent.Replies.Counts.{
  is_completion, asking_headers, created-count, asking-acknowledgement, asking-completion,
}
use snoc_automation_agent.Replies.Sparing.{IsSparing, first, kept-clarifications, kept-get_request}

-- A clarification is stored where the request had no open one.
module _ (request : BusinessRequest) (reply : Reply) (body : String) (db stored : Db)
    (outbound : EmailMessage) (row : OutboxMessage) where
  abbrev asked : Clarification
  asked = clarification_row request reply body db

  abbrev asking : Db
  asking = record db { clarifications = db.clarifications ++ asked ∷ []; next_id = db.next_id + 1 }

  is_open_for-asked : (r : ℕ) → is_open_for r asked ≡ (request.id == r)
  unfolding clarification_row
  is_open_for-asked r = ground arith

  abbrev email_of : Clarification → Clarification
  email_of c = record c { outbound_email_id = some outbound.id }

  abbrev asks_of : OutboxMessage → OutboxMessage
  asks_of o = record o { related_clarification_id = some asked.id }

  abbrev linked : Db
  linked = edit_outbox row.id asks_of (edit_clarification asked.id email_of stored)

  link-linked :
      (c : Clarification) (after : Db)
      → link_clarification asked (outbound, row) stored ≡ ok (c, after)
      → linked ≡ after
  unfolding link_clarification
  link-linked c after h = ground (arith, h)

  linked-clarifications :
      (r : ℕ)
      → IsCreated request asking_headers (some asked.id) asking outbound row stored
      → count_where (is_open_for r) linked.clarifications
        ≡ count_where (is_open_for r) db.clarifications + (if request.id == r then 1 else 0)
  unfolding edit_clarification edit_outbox count_where
  linked-clarifications r created =
      let stays =
        count-update (is_open_for r) (λ c. c.id == asked.id) email_of stored.clarifications
          (λ c. refl) in
      let here =
        kept-clarifications request asking_headers (some asked.id) asking stored outbound row
          created in
      let added = count-append (is_open_for r) db.clarifications (asked ∷ []) in
      let its = is_open_for-asked r in
      stays ∙ ap (λ xs. count_where (is_open_for r) xs) here ∙ added ∙ (rw its (omega arith))

  linked-outbox :
      (p : OutboxMessage → Bool)
      → ((o : OutboxMessage) → p (asks_of o) ≡ p o)
      → count_where p linked.outbox ≡ count_where p stored.outbox
  unfolding edit_clarification edit_outbox
  linked-outbox p keeps = count-update p (λ o. o.id == row.id) asks_of stored.outbox keeps

  linked-get_request : (r : ℕ) → get_request r linked ≡ get_request r stored
  unfolding edit_clarification edit_outbox get_request
  linked-get_request r = refl

  asking-get_request : (r : ℕ) → get_request r asking ≡ get_request r db
  unfolding get_request
  asking-get_request r = refl

  linked-IsSparing :
      (r : ℕ)
      → IsCreated request asking_headers (some asked.id) asking outbound row stored
      → open_for_request request.id db ≡ []
      → IsSparing r db
      → IsSparing r linked
  unfolding open_for_request
  linked-IsSparing r created closed sparing =
      let acks =
        created-count request (some asked.id) asking stored outbound row _ (is_acknowledgement r)
          created in
      let ends =
        created-count request (some asked.id) asking stored outbound row _ (is_completion r)
          created in
      let no_ack =
        asking-acknowledgement request (some asked.id) asking stored outbound row r created in
      let no_end = asking-completion request (some asked.id) asking stored outbound row r created in
      let same =
        kept-get_request request asking_headers (some asked.id) asking stored outbound row created
          r in
      record {
        acknowledged =
            rw (linked-outbox (is_acknowledgement r) (λ o. refl))
              (ground (arith, acks, no_ack, sparing.acknowledged));
        summarized =
            rw
              (
                linked-outbox (is_completion r) (λ o. refl),
                linked-get_request r,
                same,
                asking-get_request r,
              )
              (ground (arith, ends, no_end, sparing.summarized));
        asked =
            first r request.id (request.id == r) _ _ (linked-clarifications r created) refl
              (λ e.
                subst (λ n. count_where (is_open_for n) db.clarifications ≡ 0) e
                  (count-keep (is_open_for request.id) db.clarifications closed))
              sparing.asked;
      }

pub clarify-IsSparing :
    (lib : MailLib) (request : BusinessRequest) (reply : Reply) (db : Db) (r : ℕ)
    (c : Clarification) (after : Db)
    → ensure_clarification lib request reply db ≡ ok (c, after)
    → IsSparing r db
    → IsSparing r after
unfolding ensure_clarification new_clarification add_clarification
clarify-IsSparing lib request reply db r c after h sparing =
    elim (Option-cases (head (open_for_request request.id db))) [
      | inr (found, e) ↦ subst (IsSparing r) (ground (arith, e, h)) sparing
      | inl e ↦
          let (subject, body) =
            clarification_email lib request.public_reference
              (map (view (λ o. o.missing_fields) (λ o. "")) reply.operations) in
          let question = clarification_row request reply body db in
          let begun = record db {
            clarifications = db.clarifications ++ question ∷ [];
            next_id = db.next_id + 1;
          } in
          elim (Result-cases (
            create_outbound_message lib request reply.source_email reply.sender_address
              reply.recipient subject body asking_headers (some question.id) reply.now begun)) [
                | inr (x, q) ↦ absurd (ground (arith, e, q, h))
                | inl (((outbound, row), stored), q) ↦
                    let created =
                      create-IsCreated lib request reply.source_email reply.sender_address
                        reply.recipient subject body _ (some question.id) reply.now begun outbound
                        row stored q in
                    subst (IsSparing r)
                      (link-linked request reply body db stored outbound row c after
                        (ground (arith, e, q, h)))
                      (linked-IsSparing request reply body db stored outbound row r created
                        (head-none _ e) sparing)
              ]
    ]
