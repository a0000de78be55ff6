-- ===== src/Operations/Status.antt =====
-- The status of a request through `refresh_request_status` of workflow/request_service.py.
use snoc_automation_agent.Prelude.{ℕ, ◌≡◌, arith, keep, map, ◌==◌, Eq-ℕ}
use snoc_automation_agent.Domain.Enums.{RequestStatus, Eq-RequestStatus, request_status_eq_iff}
use snoc_automation_agent.Domain.Errors.{ok}
use snoc_automation_agent.Domain.StateMachine.{assert_request_transition, derive_request_status}
use snoc_automation_agent.Db.Models.{Operation, BusinessRequest}
use snoc_automation_agent.Db.Session.{Db}
use snoc_automation_agent.Operations.{refresh_request_status}

assert_same : (s : RequestStatus) → assert_request_transition s s ≡ ok tt
unfolding assert_request_transition
assert_same s = ground (arith, request_status_eq_iff s s)

-- The derived status of the operations of a request.
abbrev derived : Db → ℕ → RequestStatus
derived db id =
    derive_request_status (
      map (λ (o : Operation). o.status)
        (keep (λ (o : Operation). o.request_id == id) db.operations))

refresh-derived :
    (db : Db) (now : ℕ) (request after : BusinessRequest)
    → refresh_request_status db now request ≡ ok after
    → (after.status ≡ derived db request.id) × (after.id ≡ request.id)
unfolding refresh_request_status
refresh-derived db now request after h =
    ground (arith, request_status_eq_iff (derived db request.id) request.status)

refresh_settled :
    (db : Db) (now : ℕ) (request : BusinessRequest)
    → request.status ≡ derived db request.id
    → refresh_request_status db now request ≡ ok (record request { last_active_at = now })
unfolding refresh_request_status
refresh_settled db now request h = ground (
  arith,
  assert_same (derived db request.id),
  request_status_eq_iff (derived db request.id) request.status,
)

-- After a refresh that succeeds, one more refresh of the same operations succeeds and moves
-- nothing but the time of the last activity: the version is not raised again.
pub refresh_request_status_idem :
    (db : Db) (now later : ℕ) (request after : BusinessRequest)
    → refresh_request_status db now request ≡ ok after
    → refresh_request_status db later after ≡ ok (record after { last_active_at = later })
refresh_request_status_idem db now later request after h =
    let (status, same) = refresh-derived db now request after h in
    refresh_settled db later after (ground (arith, status, same))
