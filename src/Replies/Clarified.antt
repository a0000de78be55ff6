-- ===== src/Replies/Clarified.antt =====
-- What `ensure_clarification` of workflow/clarification_service.py returns and stores.
use snoc_automation_agent.Prelude.{
  ℕ, ◌+◌, ◌<◌, ◌≡◌, ◌∙◌, refl, ap, sym, true, false, Option, some, List, [], ◌∷◌, ◌++◌, ◌==◌, Eq-ℕ,
  nat_eq_iff, map, keep, head, All, arith, Option-cases, inl, inr, String, update_where,
}
use mathlib.Core.Path.{subst}
use snoc_automation_agent.Prelude.Tables.{keep-append, head-none, update-append, All_map}
use snoc_automation_agent.Domain.Enums.{OutboxStatus}
use snoc_automation_agent.Domain.Errors.{ok, Result-cases}
use snoc_automation_agent.Db.Models.{
  EmailMessage, BusinessRequest, OutboxMessage, Clarification, Operation,
}
use snoc_automation_agent.Db.Session.{Db}
use snoc_automation_agent.Outbox.{edit_outbox}
use snoc_automation_agent.Mail.{MailLib}
use snoc_automation_agent.Mail.Templates.{clarification_email}
use snoc_automation_agent.Outbox.{Headers}
use snoc_automation_agent.Replies.Messages.{
  add_clarification, edit_clarification, create_outbound_message,
}
use snoc_automation_agent.Replies.Services.{
  Reply, view, is_open_for, open_for_request, clarification_row, link_clarification,
  new_clarification, ensure_clarification,
}
use snoc_automation_agent.Replies.Created.{IsCreated, create-IsCreated}

-- The numbers of the rows are below the next one.
pub record IsNumbered (db : Db) : Type 0 where
  pub clarifications : All (λ (c : Clarification). c.id < db.next_id) db.clarifications
  pub outbox : All (λ (o : OutboxMessage). o.id < db.next_id) db.outbox

-- An open clarification about the operations, an email that asks, and a pending row that delivers it.
pub record IsAskedNow (request : BusinessRequest) (reply : Reply) (db : Db) (c : Clarification)
    (after : Db) : Type 0 where
  pub outbound : EmailMessage
  pub row : OutboxMessage
  pub emails : after.emails ≡ db.emails ++ outbound ∷ []
  pub clarifications : after.clarifications ≡ db.clarifications ++ c ∷ []
  pub outbox : after.outbox ≡ db.outbox ++ row ∷ []
  pub opened : is_open_for request.id c ≡ true
  pub targets : c.target_operation_ids ≡ map (λ (o : Operation). o.id) reply.operations
  pub asked_by : c.outbound_email_id ≡ some outbound.id
  pub delivers : row.outbound_email_id ≡ outbound.id
  pub asks : row.related_clarification_id ≡ some c.id
  pub related : row.related_request_id ≡ some request.id
  pub pending : row.status ≡ OutboxStatus.pending

pub data IsAsked (request : BusinessRequest) (reply : Reply) (db : Db) (c : Clarification)
    (after : Db) : Type 0 where
  before :
      head (open_for_request request.id db) ≡ some c → after ≡ db → IsAsked request reply db c after
  now :
      open_for_request request.id db ≡ []
      → IsAskedNow request reply db c after
      → IsAsked request reply db c after

below_other : (i n : ℕ) → i < n → (i == n) ≡ false
below_other i n h = ground (arith, h)

-- The rows that the last assignments rewrite are the new ones.
clarifications_linked :
    (db : Db) (asked : Clarification) (f : Clarification → Clarification)
    → IsNumbered db
    → asked.id ≡ db.next_id
    → update_where (λ (c : Clarification). c.id == asked.id) f (db.clarifications ++ asked ∷ [])
      ≡ db.clarifications ++ f asked ∷ []
clarifications_linked db asked f numbered e =
    update-append (λ (c : Clarification). c.id == asked.id) f db.clarifications asked
      (All_map db.clarifications (λ c less. below_other c.id asked.id (omega (arith, less, e)))
        numbered.clarifications)
      ((nat_eq_iff asked.id asked.id).1 refl)

outbox_linked :
    (db : Db) (row : OutboxMessage) (f : OutboxMessage → OutboxMessage)
    → IsNumbered db
    → row.id ≡ db.next_id + 1 + 1
    → update_where (λ (o : OutboxMessage). o.id == row.id) f (db.outbox ++ row ∷ [])
      ≡ db.outbox ++ f row ∷ []
outbox_linked db row f numbered e =
    update-append (λ (o : OutboxMessage). o.id == row.id) f db.outbox row
      (All_map db.outbox (λ o less. below_other o.id row.id (omega (arith, less, e)))
        numbered.outbox)
      ((nat_eq_iff row.id row.id).1 refl)

module _ (request : BusinessRequest) (reply : Reply) (body : String) (db : Db)
    (numbered : IsNumbered db) where
  abbrev asked : Clarification
  asked = clarification_row request reply body db

  abbrev asking : Db
  asking = record db { clarifications = db.clarifications ++ asked ∷ []; next_id = db.next_id + 1 }

  abbrev extra : Headers
  extra = ("X-SNOC-Reply-Type", "clarification") ∷ []

  asked-id : asked.id ≡ db.next_id
  unfolding clarification_row
  asked-id = refl

  asked-targets : asked.target_operation_ids ≡ map (λ (o : Operation). o.id) reply.operations
  unfolding clarification_row
  asked-targets = refl

  asked_opened :
      (email : Option ℕ)
      → is_open_for request.id (record asked { outbound_email_id = email }) ≡ true
  unfolding clarification_row
  asked_opened email = ground (arith, nat_eq_iff request.id request.id)

  linked-IsAskedNow :
      (outbound : EmailMessage) (row : OutboxMessage) (stored : Db) (c : Clarification) (after : Db)
      → IsCreated request extra (some asked.id) asking outbound row stored
      → link_clarification asked (outbound, row) stored ≡ ok (c, after)
      → IsAskedNow request reply db c after
  unfolding link_clarification edit_outbox edit_clarification
  linked-IsAskedNow outbound row stored c after created h =
      let same : record asked { outbound_email_id = some outbound.id } ≡ c = ground (arith, h) in
      let one =
        clarifications_linked db asked (λ c. record c { outbound_email_id = some outbound.id })
          numbered asked-id in
      let two =
        outbox_linked db row (λ o. record o { related_clarification_id = some asked.id }) numbered
          created.fresh in
      record {
        outbound = outbound;
        row = record row { related_clarification_id = some asked.id };
        emails = ground (arith, h, created.stored);
        clarifications = ground (arith, h, created.stored, one);
        outbox = ground (arith, h, created.stored, two);
        opened =
            subst (λ x. is_open_for request.id x ≡ true) same (asked_opened (some outbound.id));
        targets = ap (λ (x : Clarification). x.target_operation_ids) (sym same) ∙ asked-targets;
        asked_by = ground (arith, h);
        delivers = created.delivers;
        asks = ground (arith, h);
        related = created.related;
        pending = created.pending;
      }

new_clarification-IsAskedNow :
    (lib : MailLib) (request : BusinessRequest) (reply : Reply) (db : Db) (c : Clarification)
    (after : Db)
    → IsNumbered db
    → new_clarification lib request reply db ≡ ok (c, after)
    → IsAskedNow request reply db c after
unfolding new_clarification add_clarification
new_clarification-IsAskedNow lib request reply db c after numbered h =
    let (subject, body) =
      clarification_email lib request.public_reference
        (map (view (λ o. o.missing_fields) (λ o. "")) reply.operations) in
    let asked = clarification_row request reply body db in
    let asking = record db {
      clarifications = db.clarifications ++ asked ∷ [];
      next_id = db.next_id + 1;
    } in
    elim (Result-cases (
      create_outbound_message lib request reply.source_email reply.sender_address reply.recipient
        subject body (("X-SNOC-Reply-Type", "clarification") ∷ []) (some asked.id) reply.now
        asking)) [
          | inr (e, q) ↦ absurd (ground (arith, q, h))
          | inl (((outbound, row), stored), q) ↦
              linked-IsAskedNow request reply body db numbered outbound row stored c after
                (create-IsCreated lib request reply.source_email reply.sender_address
                  reply.recipient subject body _ (some asked.id) reply.now asking outbound row
                  stored q)
                (ground (arith, q, h))
        ]

head-keep :
    (request_id : ℕ) (xs : List Clarification) (c : Clarification)
    → is_open_for request_id c ≡ true
    → keep (is_open_for request_id) xs ≡ []
    → head (keep (is_open_for request_id) (xs ++ c ∷ [])) ≡ some c
unfolding keep head
head-keep request_id xs c opened none_open =
    rw (keep-append (is_open_for request_id) xs (c ∷ []), none_open, opened) refl

-- The clarification is the first open one afterwards.
IsAsked-head :
    (request : BusinessRequest) (reply : Reply) (db : Db) (c : Clarification) (after : Db)
    → IsAsked request reply db c after
    → head (open_for_request request.id after) ≡ some c
unfolding open_for_request
IsAsked-head request reply db c after (IsAsked.before found same) = rw same found
IsAsked-head request reply db c after (IsAsked.now closed asked) =
    rw asked.clarifications (head-keep request.id db.clarifications c asked.opened closed)

ensure-IsAsked :
    (lib : MailLib) (request : BusinessRequest) (reply : Reply) (db : Db) (c : Clarification)
    (after : Db)
    → IsNumbered db
    → ensure_clarification lib request reply db ≡ ok (c, after)
    → IsAsked request reply db c after
unfolding ensure_clarification
ensure-IsAsked lib request reply db c after numbered h =
    elim (Option-cases (head (open_for_request request.id db))) [
      | inl e ↦ IsAsked.now (head-none _ e) (
          new_clarification-IsAskedNow lib request reply db c after numbered (ground (arith, e, h)))
      | inr (found, e) ↦ IsAsked.before (ground (arith, e, h)) (ground (arith, e, h))
    ]

ensure_again :
    (lib : MailLib) (request : BusinessRequest) (reply : Reply) (db : Db) (c : Clarification)
    → head (open_for_request request.id db) ≡ some c
    → ensure_clarification lib request reply db ≡ ok (c, db)
unfolding ensure_clarification
ensure_again lib request reply db c h = ground (arith, h)

-- A clarification that is ensured is the open one of the request, and then nothing changed, or
-- there was none and it is stored now with an email that asks for it and a pending row of the outbox;
-- in either case whoever ensures it again, with whatever message, gets it and changes nothing.
pub ensure_clarification-IsAsked :
    (lib : MailLib) (request : BusinessRequest) (reply again : Reply) (db : Db) (c : Clarification)
    (after : Db)
    → IsNumbered db
    → ensure_clarification lib request reply db ≡ ok (c, after)
    → IsAsked request reply db c after
      × (ensure_clarification lib request again after ≡ ok (c, after))
ensure_clarification-IsAsked lib request reply again db c after numbered h =
    let asked = ensure-IsAsked lib request reply db c after numbered h in
    (asked, ensure_again lib request again after c (IsAsked-head request reply db c after asked))
