-- ===== src/Replies/Sparing.antt =====
-- What it means that a request's customer is not written to twice, and what a stored message keeps of it.
use snoc_automation_agent.Prelude.{
  ℕ, ◌+◌, ◌≤◌, ◌≡◌, refl, ap, Bool, false, Option, none, some, ◌==◌, Eq-ℕ, nat_eq_iff,
  if◌then◌else◌, count_where, arith, Bool-cases, inl, inr,
}
use snoc_automation_agent.Db.Models.{EmailMessage, BusinessRequest, OutboxMessage}
use snoc_automation_agent.Db.Session.{Db, get_request}
use snoc_automation_agent.Outbox.{Headers}
use snoc_automation_agent.Replies.Services.{is_open_for, is_acknowledgement, truthy}
use snoc_automation_agent.Replies.Created.{IsCreated}
use snoc_automation_agent.Replies.Counts.{is_completion}

abbrev pub is_marked : Option BusinessRequest → Bool
is_marked none = false
is_marked (some r) = truthy r.latest_completion_marker

-- At most one acknowledgement, one summary, which the marker shows, and one open clarification.
pub record IsSparing (request_id : ℕ) (db : Db) : Type 0 where
  pub acknowledged : count_where (is_acknowledgement request_id) db.outbox ≤ 1
  pub summarized :
      count_where (is_completion request_id) db.outbox
      ≤ (if is_marked (get_request request_id db) then 1 else 0)
  pub asked : count_where (is_open_for request_id) db.clarifications ≤ 1

-- A stored message touches neither the clarifications nor the requests.
module _ (request : BusinessRequest) (extra : Headers) (cid : Option ℕ) (db stored : Db)
    (outbound : EmailMessage) (row : OutboxMessage)
    (created : IsCreated request extra cid db outbound row stored) where
  pub kept-clarifications : stored.clarifications ≡ db.clarifications
  kept-clarifications = ap (λ (x : Db). x.clarifications) created.stored

  pub kept-requests : stored.requests ≡ db.requests
  kept-requests = ap (λ (x : Db). x.requests) created.stored

  pub kept-get_request : (r : ℕ) → get_request r stored ≡ get_request r db
  unfolding get_request
  kept-get_request r = rw kept-requests refl

-- The first of its kind for its request, and none for another.
pub first :
    (r i : ℕ) (counts : Bool) (before after : ℕ)
    → after ≡ before + (if counts then 1 else 0)
    → counts ≡ (i == r)
    → (i ≡ r → before ≡ 0)
    → before ≤ 1
    → after ≤ 1
first r i counts before after h its fresh old = elim (Bool-cases (i == r)) [
  | inl e ↦ ground (arith, h, its, e, fresh ((nat_eq_iff i r).0 e))
  | inr e ↦ ground (arith, h, its, e, old)
]
