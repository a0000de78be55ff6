-- ===== src/Replies/Summaries.antt =====
-- Summaries (workflow/reply_summary_service.py) and acknowledgements (pending_execution_service.py) are
-- not repeated.
use snoc_automation_agent.Prelude.{
  ℕ, ◌+◌, ◌≤◌, ◌≡◌, ◌∙◌, refl, ap, sym, Bool, true, false, not, ◌||◌, Option, none, some, [],
  String, ◌==◌, Eq-ℕ, nat_eq_iff, if◌then◌else◌, any, all, is_empty, length, map, count_where,
  arith, Bool-cases, inl, inr,
}
use Prim.Native.String.{◌++◌ as str_append}
use Prim.Native.String.append
use mathlib.Core.Path.{subst}
use snoc_automation_agent.Prelude.Tables.{count-any, find-update_where, opt_map}
use snoc_automation_agent.Domain.Errors.{ok, Result-cases}
use snoc_automation_agent.Db.Models.{EmailMessage, BusinessRequest, OutboxMessage, Operation}
use snoc_automation_agent.Db.Session.{Db, get_request}
use snoc_automation_agent.Mail.{MailLib}
use snoc_automation_agent.Mail.Headers.{completion_marker}
use snoc_automation_agent.Mail.Templates.{pending_execution_email, completion_email}
use snoc_automation_agent.Replies.Messages.{create_outbound_message, edit_request}
use snoc_automation_agent.Replies.Services.{
  Reply, is_acknowledgement, truthy, ensure_terminal_summary,
  ensure_pending_execution_acknowledgement, new_summary, new_acknowledgement, view, status_label,
  is_terminal,
}
use snoc_automation_agent.Replies.Created.{IsCreated, create-IsCreated}
use snoc_automation_agent.Replies.Counts.{
  is_completion, summary_headers, acknowledgement_headers, created-count, summary-acknowledgement,
  summary-completion, acknowledgement-completion, acknowledgement-acknowledgement,
}
use snoc_automation_agent.Replies.Sparing.{
  IsSparing, is_marked, first, kept-clarifications, kept-requests, kept-get_request,
}

-- An acknowledgement is stored where the request had none.
acknowledged-IsSparing :
    (request : BusinessRequest) (db stored : Db) (outbound : EmailMessage) (row : OutboxMessage)
    (r : ℕ)
    → IsCreated request acknowledgement_headers none db outbound row stored
    → any (is_acknowledgement request.id) db.outbox ≡ false
    → IsSparing r db
    → IsSparing r stored
acknowledged-IsSparing request db stored outbound row r created unused sparing =
    let acks = created-count request none db stored outbound row _ (is_acknowledgement r) created in
    let ends = created-count request none db stored outbound row _ (is_completion r) created in
    let its = acknowledgement-acknowledgement request none db stored outbound row r created in
    let other = acknowledgement-completion request none db stored outbound row r created in
    let same = kept-get_request request _ none db stored outbound row created r in
    record {
      acknowledged =
          first r request.id (is_acknowledgement r row) _ _ acks its
            (λ e.
              subst (λ n. count_where (is_acknowledgement n) db.outbox ≡ 0) e
                (count-any (is_acknowledgement request.id) db.outbox unused))
            sparing.acknowledged;
      summarized = rw same (ground (arith, ends, other, sparing.summarized));
      asked = rw (kept-clarifications request _ none db stored outbound row created) sparing.asked;
    }

closed_full : (t : String) → is_empty (str_append "[[SNOC_REQUEST_CLOSED:" t) ≡ false
closed_full t = ap is_empty (append.cons "[" "[SNOC_REQUEST_CLOSED:" t)

completion_marker-truthy :
    (lib : MailLib) (reference marker : String)
    → completion_marker lib reference ≡ ok marker
    → truthy (some marker) ≡ true
unfolding completion_marker
completion_marker-truthy lib reference marker h =
    ground (arith, h, closed_full (str_append (lib.upper reference) "]]"))

abbrev mark : String → BusinessRequest → BusinessRequest
mark marker r = record r { latest_completion_marker = some marker }

is_marked-edit :
    (marker : String) (test : BusinessRequest → Bool) (found : Option BusinessRequest)
    → truthy (some marker) ≡ true
    → is_marked found ≡ true
    → is_marked (opt_map (λ x. if test x then mark marker x else x) found) ≡ true
is_marked-edit marker test none h old = absurd (ground (arith, old))
is_marked-edit marker test (some x) h old = ground (arith, h, old)

module _ (request : BusinessRequest) (db stored : Db) (outbound : EmailMessage)
    (row : OutboxMessage) (marker : String)
    (created : IsCreated request summary_headers none db outbound row stored)
    (marks : truthy (some marker) ≡ true) where
  abbrev marked : Db
  marked = edit_request request.id (mark marker) stored

  get_request-marked :
      (r : ℕ)
      → get_request r marked
        ≡ opt_map (λ x. if x.id == request.id then mark marker x else x) (get_request r db)
  unfolding get_request edit_request
  get_request-marked r = rw (kept-requests request _ none db stored outbound row created) (
      find-update_where (λ (x : BusinessRequest). x.id == r) (λ x. x.id == request.id) (mark marker)
        db.requests (λ x. refl))

  is_marked-this :
      (r : ℕ) → get_request r db ≡ some request → is_marked (get_request r marked) ≡ true
  is_marked-this r found =
      rw (get_request-marked r, found) (ground (arith, marks, nat_eq_iff request.id request.id))

  is_marked-other :
      (r : ℕ) → is_marked (get_request r db) ≡ true → is_marked (get_request r marked) ≡ true
  is_marked-other r old =
      rw (get_request-marked r)
        (is_marked-edit marker (λ x. x.id == request.id) (get_request r db) marks old)

  marked_once :
      (r : ℕ)
      → get_request request.id db ≡ some request
      → truthy request.latest_completion_marker ≡ false
      → count_where (is_completion r) stored.outbox
        ≡ count_where (is_completion r) db.outbox + (if request.id == r then 1 else 0)
      → count_where (is_completion r) db.outbox ≤ (if is_marked (get_request r db) then 1 else 0)
      → count_where (is_completion r) stored.outbox
        ≤ (if is_marked (get_request r marked) then 1 else 0)
  marked_once r found unmarked ends old = elim (Bool-cases (request.id == r)) [
    | inl e ↦
        let here : get_request r db ≡ some request =
          ap (λ n. get_request n db) (sym ((nat_eq_iff request.id r).0 e)) ∙ found in
        ground (arith, e, ends, old, here, unmarked, is_marked-this r here)
    | inr e ↦ ground (arith, e, ends, old, is_marked-other r)
  ]

  summarized-IsSparing :
      (r : ℕ)
      → get_request request.id db ≡ some request
      → truthy request.latest_completion_marker ≡ false
      → IsSparing r db
      → IsSparing r marked
  unfolding edit_request
  summarized-IsSparing r found unmarked sparing =
      let acks =
        created-count request none db stored outbound row _ (is_acknowledgement r) created in
      let ends = created-count request none db stored outbound row _ (is_completion r) created in
      let none_more = summary-acknowledgement request none db stored outbound row r created in
      let its = summary-completion request none db stored outbound row r created in
      record {
        acknowledged = ground (arith, acks, none_more, sparing.acknowledged);
        summarized = marked_once r found unmarked (rw (sym its) ends) sparing.summarized;
        asked =
            rw (kept-clarifications request _ none db stored outbound row created) sparing.asked;
      }

new_summary-IsSparing :
    (lib : MailLib) (request : BusinessRequest) (reply : Reply) (db : Db) (r : ℕ) (done : Bool)
    (after : Db)
    → get_request request.id db ≡ some request
    → truthy request.latest_completion_marker ≡ false
    → new_summary lib request reply db ≡ ok (done, after)
    → IsSparing r db
    → IsSparing r after
unfolding new_summary
new_summary-IsSparing lib request reply db r done after found unmarked h sparing =
    let (subject, body) =
      completion_email lib request.public_reference
        (map (view (λ o. []) (λ o. status_label o.status)) reply.operations) in
    elim (Result-cases (
      create_outbound_message lib request reply.source_email reply.sender_address reply.recipient
        subject body summary_headers none reply.now db)) [
          | inr (x, q) ↦ absurd (ground (arith, q, h))
          | inl (((outbound, row), stored), q) ↦
              elim (Result-cases (completion_marker lib request.public_reference)) [
                | inr (x, m) ↦ absurd (ground (arith, q, m, h))
                | inl (marker, m) ↦
                    let created =
                      create-IsCreated lib request reply.source_email reply.sender_address
                        reply.recipient subject body _ none reply.now db outbound row stored q in
                    subst (IsSparing r) (ground (arith, q, m, h)) (
                      summarized-IsSparing request db stored outbound row marker created
                        (completion_marker-truthy lib request.public_reference marker m) r found
                        unmarked sparing)
              ]
        ]

pub summarize-IsSparing :
    (lib : MailLib) (request : BusinessRequest) (reply : Reply) (db : Db) (r : ℕ) (done : Bool)
    (after : Db)
    → get_request request.id db ≡ some request
    → ensure_terminal_summary lib request reply db ≡ ok (done, after)
    → IsSparing r db
    → IsSparing r after
unfolding ensure_terminal_summary
summarize-IsSparing lib request reply db r done after found h sparing =
    let unready =
      not (all (λ (o : Operation). is_terminal o.status) reply.operations)
      || length reply.operations == 0 in
    elim (Bool-cases (truthy request.latest_completion_marker)) [
      | inl e ↦ subst (IsSparing r) (ground (arith, e, h)) sparing
      | inr e ↦ elim (Bool-cases unready) [
        | inl u ↦ subst (IsSparing r) (ground (arith, e, u, h)) sparing
        | inr u ↦
            new_summary-IsSparing lib request reply db r done after found e
              (ground (arith, e, u, h)) sparing
      ]
    ]

pub acknowledge-IsSparing :
    (lib : MailLib) (request : BusinessRequest) (reply : Reply) (grace : ℕ) (db : Db) (r : ℕ)
    (done : Bool) (after : Db)
    → ensure_pending_execution_acknowledgement lib request reply grace db ≡ ok (done, after)
    → IsSparing r db
    → IsSparing r after
unfolding ensure_pending_execution_acknowledgement new_acknowledgement
acknowledge-IsSparing lib request reply grace db r done after h sparing =
    elim (Bool-cases (any (is_acknowledgement request.id) db.outbox)) [
      | inl e ↦ subst (IsSparing r) (ground (arith, e, h)) sparing
      | inr e ↦
          let (subject, body) =
            pending_execution_email lib request.public_reference
              (map (view (λ o. []) (λ o. "")) reply.operations) grace in
          elim (Result-cases (
            create_outbound_message lib request reply.source_email reply.sender_address
              reply.recipient subject body acknowledgement_headers none reply.now db)) [
                | inr (x, q) ↦ absurd (ground (arith, e, q, h))
                | inl (((outbound, row), stored), q) ↦
                    let created =
                      create-IsCreated lib request reply.source_email reply.sender_address
                        reply.recipient subject body _ none reply.now db outbound row stored q in
                    subst (IsSparing r) (ground (arith, e, q, h))
                      (acknowledged-IsSparing request db stored outbound row r created e sparing)
              ]
    ]
