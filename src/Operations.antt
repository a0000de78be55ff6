-- ===== src/Operations.antt =====
-- workflow/operation_service.py and workflow/request_service.py: the status and the fields of an
-- operation, and the status of a request.
pub mod Fields
pub mod Status
use snoc_automation_agent.Prelude.{
  ℕ, ◌+◌, Bool, true, false, not, Option, none, some, List, [], ◌∷◌, ◌++◌, String, ◌==◌, Eq-String,
  Eq-Option, if◌then◌else◌, keep, map, Python, find, update_where, Eq-ℕ,
}
use snoc_automation_agent.Domain.Enums.{OperationStatus, RequestStatus, Eq-RequestStatus}
use snoc_automation_agent.Domain.Errors.{Result, ok, raise, ◌>>◌}
use snoc_automation_agent.Domain.StateMachine.{
  assert_operation_transition, assert_request_transition, derive_request_status,
}
use snoc_automation_agent.Domain.ValueObjects.{
  canonical_action, required_fields, truthy, field_value, normalize_numeric,
}
use snoc_automation_agent.Db.Models.{Operation, FieldRevision, BusinessRequest}
use snoc_automation_agent.Db.Session.{Db}
use snoc_automation_agent.Decision.Schemas.{ProposedOperation}

unfoldable pub set_operation_status : Operation → OperationStatus → Result Operation
set_operation_status operation target =
    assert_operation_transition operation.status target >> ok (record operation { status = target })

unfoldable pub effective_missing_fields : Python → Operation → List String
effective_missing_fields py operation =
    keep (λ (f : String). not (truthy (field_value operation.pdv_code operation.phone f)))
      (required_fields (canonical_action py operation.action))

-- Who asks for a change, and why.
pub record Cause : Type 0 where
  pub source_email_id : ℕ
  pub model_run_id : Option ℕ
  pub reason : String

-- The operation with the revisions added to the session; `next_id` numbers them.
pub record Edited : Type 0 where
  pub operation : Operation
  pub revisions : List FieldRevision
  pub next_id : ℕ

pub data Field : Type 0 where
  pdv_code phone : Field

abbrev pub field_name : Field → String
field_name Field.pdv_code = "pdv_code"
field_name Field.phone = "phone"

-- `getattr` and `setattr`, with the increment of the revision.
abbrev pub get_field : Field → Operation → Option String
get_field Field.pdv_code op = op.pdv_code
get_field Field.phone op = op.phone

abbrev pub set_field : Field → String → Operation → Operation
set_field Field.pdv_code value op = record op {
  pdv_code = some value;
  current_revision = op.current_revision + 1;
}
set_field Field.phone value op = record op {
  phone = some value;
  current_revision = op.current_revision + 1;
}

abbrev pub revision : Cause → Field → String → Edited → FieldRevision
revision cause field value e = record {
  id = e.next_id;
  operation_id = e.operation.id;
  field_name = field_name field;
  old_value = get_field field e.operation;
  new_value = some value;
  source_email_id = cause.source_email_id;
  model_run_id = cause.model_run_id;
  reason = cause.reason;
}

abbrev pub revise : Cause → Field → String → Edited → Edited
revise cause field value e = record {
  operation = set_field field value e.operation;
  revisions = e.revisions ++ revision cause field value e ∷ [];
  next_id = e.next_id + 1;
}

-- One round of the loop over `updates`.
unfoldable pub apply_update : Cause → Field → Option String → Edited → Edited
apply_update cause field none e = e
apply_update cause field (some value) e =
    if get_field field e.operation == some value then e else revise cause field value e

unfoldable pub apply_updates : Python → Cause → ProposedOperation → Edited → Edited
apply_updates py cause proposal e =
    apply_update cause Field.phone (normalize_numeric py true proposal.phone)
      (apply_update cause Field.pdv_code (normalize_numeric py false proposal.pdv_code) e)

unfoldable pub refresh_missing : Python → Edited → Edited
refresh_missing py e = record e {
  operation = record e.operation { missing_fields = effective_missing_fields py e.operation };
}

unfoldable pub apply_proposal_fields : Python → Cause → ProposedOperation → Edited → Edited
apply_proposal_fields py cause proposal e = refresh_missing py (apply_updates py cause proposal e)

-- The assignments once the transition is allowed.
abbrev pub touch_request : ℕ → RequestStatus → BusinessRequest → BusinessRequest
touch_request now status request =
    if status == request.status
    then record request { last_active_at = now }
    else record request { last_active_at = now; status = status; version = request.version + 1 }

-- `refresh_request_status`: the request afterwards, whose status is the result.
unfoldable pub refresh_request_status : Db → ℕ → BusinessRequest → Result BusinessRequest
refresh_request_status db now request =
    let operations : List Operation =
      keep (λ (o : Operation). o.request_id == request.id) db.operations in
    let status : RequestStatus =
      derive_request_status (map (λ (o : Operation). o.status) operations) in
    assert_request_transition request.status status >> ok (touch_request now status request)
