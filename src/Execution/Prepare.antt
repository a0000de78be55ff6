-- ===== src/Execution/Prepare.antt =====
-- The first transaction of `ExecutionService.execute` in workflow/execution_service.py: guards,
-- the replay of a recorded revision, preflight, and the pending execution row.
pub mod Inversion
use Prim.Native.Nat.{Ordering}
use Prim.Native.String.{compare, ◌++◌ as str_append}
use snoc_automation_agent.Prelude.{
  ℕ, Bool, true, false, not, ◌&&◌, ◌||◌, Option, none, some, List, [], ◌∷◌, String, ◌==◌, Eq-ℕ,
  Eq-String, if◌then◌else◌, keep, contains, sort_by, join, dict_merge, dict_keys, is_none,
}
use snoc_automation_agent.Domain.Enums.{
  OperationAction, OperationStatus, ExecutionStatus, Eq-OperationStatus, Eq-OperationAction,
}
use snoc_automation_agent.Domain.Errors.{ok, raise, lookup_error, unsafe_execution}
use snoc_automation_agent.Domain.StateMachine.{assert_operation_transition}
use snoc_automation_agent.Domain.ValueObjects.{canonical_action}
use snoc_automation_agent.Db.Models.{Operation, Execution, IdempotencyKey, Eq-IdempotencyKey}
use snoc_automation_agent.Db.Session.{
  Tx, get_operation, edit_operation, by_idempotency_key, add_execution,
}
use snoc_automation_agent.Execution.Api.{Service}

pub record ExecutionOutcome : Type 0 where
  pub execution_id : ℕ
  pub status : ExecutionStatus
  pub detail : String

-- What the code after the transaction still needs.
pub record PendingCall : Type 0 where
  pub execution_id : ℕ
  pub operation_id : ℕ
  pub key : IdempotencyKey
  pub action : OperationAction
  pub pdv_code : Option String
  pub phone : Option String
  pub additional : List (String × Option String)

pub data Prepared : Type 0 where
  finished : ExecutionOutcome → Prepared
  calling : PendingCall → Prepared

unfoldable pub idempotency_key : Operation → IdempotencyKey
idempotency_key op = record { operation_id = op.id; revision = op.current_revision }

-- Python orders texts by code points.
text_before : String → String → Bool
text_before a b = elim (compare a b) [ Ordering.gt ↦ false | _ ↦ true ]

unexpected_fields : Service → OperationAction → List (String × Option String) → List String
unexpected_fields svc action additional =
    let allowed =
      if action == OperationAction.vpn_access then svc.vpn_allowed_additional_fields else [] in
    keep (λ f. not (contains f allowed)) (dict_keys additional)

unexpected_error : List String → Option String
unexpected_error [] = none
unexpected_error (f ∷ fs) = some (
    str_append "operation contains unapproved additional fields: "
      (join ", " (sort_by text_before (f ∷ fs))))

unfoldable pub preflight_error : Service → Operation → Option String
unfolding unexpected_fields unexpected_error text_before keep contains dict_keys
preflight_error svc op =
    let action = canonical_action svc.python op.action in
    if is_none op.pdv_code
    then some "PDV is absent after validation"
    else if (action == OperationAction.vpn_access || action == OperationAction.otp_number_change)
        && is_none op.phone
    then some "phone is absent after validation"
    else if action == OperationAction.unknown
    then some "operation action is unsupported"
    else unexpected_error (unexpected_fields svc action op.additional_payload)

-- `{"pdv_code": …, "phone": …, **additional}`
unfoldable pub request_payload : Operation → List (String × Option String)
request_payload op =
    dict_merge (("pdv_code", op.pdv_code) ∷ ("phone", op.phone) ∷ []) op.additional_payload

-- The new row; a rejected one carries its error as the response.
unfoldable pub execution_row :
    Operation → ℕ → String → List (String × String) → ExecutionStatus → Execution
execution_row op id endpoint response status = record {
  id = id;
  operation_id = op.id;
  operation_revision = op.current_revision;
  idempotency_key = idempotency_key op;
  endpoint = endpoint;
  request_payload = request_payload op;
  response_status = none;
  response_body = response;
  dry_run = true;
  attempt_count = 0;
  status = status;
}

unfoldable pub escalate_operation : Operation → Operation
escalate_operation op = record op { status = OperationStatus.escalated; execution_eligible = false }

unfoldable pub reject_preflight : Operation → String → Tx Prepared
reject_preflight op error db =
    elim (add_execution
      (execution_row op db.next_id (str_append "rejected_preflight:" op.action)
        (("error", error) ∷ []) ExecutionStatus.failed)
      db) [
        | raise e ↦ raise e
        | ok (execution, db') ↦ ok (
          Prepared.finished (record {
            execution_id = execution.id;
            status = ExecutionStatus.failed;
            detail = error;
          }),
          edit_operation op.id escalate_operation db',
        )
      ]

unfoldable pub pending_call : Service → Operation → ℕ → PendingCall
pending_call svc op execution_id = record {
  execution_id = execution_id;
  operation_id = op.id;
  key = idempotency_key op;
  action = canonical_action svc.python op.action;
  pdv_code = op.pdv_code;
  phone = op.phone;
  additional = op.additional_payload;
}

unfoldable pub start_execution : Service → Operation → Tx Prepared
start_execution svc op db = elim (assert_operation_transition op.status OperationStatus.executing) [
  | raise e ↦ raise e
  | ok _ ↦
      elim (add_execution
        (execution_row op db.next_id (str_append "pending:" op.action) [] ExecutionStatus.pending)
        (edit_operation op.id (λ o. record o { status = OperationStatus.executing }) db)) [
          | raise e ↦ raise e
          | ok (execution, db') ↦ ok (Prepared.calling (pending_call svc op execution.id), db')
        ]
]

-- A revision without a record: it must be ready, and pass preflight.
unfoldable pub prepare_new : Service → Operation → Tx Prepared
prepare_new svc op db =
    if not (op.status == OperationStatus.ready_for_validation)
    then raise unsafe_execution
    else elim (preflight_error svc op) [
      | some error ↦ reject_preflight op error db
      | none ↦ start_execution svc op db
    ]

-- An expectation that is given and not met.
abbrev pub changed_revision : Option ℕ → Operation → Bool
changed_revision none op = false
changed_revision (some revision) op = not (op.current_revision == revision)

abbrev pub changed_key : Option IdempotencyKey → Operation → Bool
changed_key none op = false
changed_key (some key) op = not (idempotency_key op == key)

unfoldable pub recorded_outcome : Execution → ExecutionOutcome
recorded_outcome prior = record {
  execution_id = prior.id;
  status = prior.status;
  detail = "identical operation revision was already recorded";
}

unfoldable pub prepare_operation :
    Service → Operation → Option ℕ → Option IdempotencyKey → Tx Prepared
prepare_operation svc op expected_revision expected_key db =
    if changed_revision expected_revision op
    then raise unsafe_execution
    else if changed_key expected_key op
    then raise unsafe_execution
    else elim (by_idempotency_key (idempotency_key op) db) [
      | some prior ↦ ok (Prepared.finished (recorded_outcome prior), db)
      | none ↦ prepare_new svc op db
    ]

unfoldable pub prepare : Service → ℕ → Option ℕ → Option IdempotencyKey → Tx Prepared
prepare svc operation_id expected_revision expected_key db = elim (get_operation operation_id db) [
  | none ↦ raise lookup_error
  | some op ↦ prepare_operation svc op expected_revision expected_key db
]
