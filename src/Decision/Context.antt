-- ===== src/Decision/Context.antt =====
-- DecisionContext and DecisionResult of workflow/decision_engine.py. A frozen set is the list of its
-- members.
use snoc_automation_agent.Prelude.{ℕ, Bool, Option, List, String}
use snoc_automation_agent.Domain.Enums.{
  CorrelationStrength, FinalDecision, OperationAction, OperationStatus,
}

pub record DecisionContext : Type 0 where
  pub authorized_sender : Bool
  pub correlation_strength : CorrelationStrength
  pub correlation_conflict : Bool
  pub structured_output_valid : Bool
  pub operation_previously_executed : Bool
  pub operation_status : OperationStatus
  pub api_available : Bool
  pub execution_explicitly_enabled_or_dry_run : Bool
  pub pdv_pattern : String
  pub phone_pattern : String
  pub current_candidate_values : List String
  pub stored_field_values : List String
  pub enforce_evidence_provenance : Bool
  pub analyzer_min_raw_confidence : Option ℕ
  pub verifier_min_raw_confidence : Option ℕ
  pub vpn_allowed_additional_fields : List String
  pub expected_existing_action : Option OperationAction
  pub latest_user_message : String
  pub stored_additional_field_values : List (String × String)
  pub input_context_complete : Bool
  pub request_level_ambiguity : Bool
  pub request_safety_reasons : List String

pub record DecisionResult : Type 0 where
  pub decision : FinalDecision
  pub reasons : List String
  pub hard_invariants : List (String × Bool)
  pub analyzer_verifier_agreement : Bool
