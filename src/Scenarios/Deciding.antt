-- ===== src/Scenarios/Deciding.antt =====
-- One message through the policy of workflow/decision_engine.py.
use snoc_automation_agent.Prelude.{
  ◌≡◌, ◌⊎◌, refl, none, some, [], ◌∷◌, true, false, contains, Eq-String, any, strip, all,
  keep_chars, dict_get, dict_keys, keep, sort_by, str_contains,
}
use snoc_automation_agent.Domain.Enums.{CorrelationStrength, FinalDecision, OperationStatus}
use snoc_automation_agent.Decision.Schemas.{
  EvidenceSource, Support, MessageKind, Answer, ProposedOperation, EmailAnalysis,
  SemanticVerification,
}
use snoc_automation_agent.Decision.Context.{DecisionContext}
use snoc_automation_agent.Decision.Assessment.{
  assess, is_missing_any, allowed_additional_fields, contradiction_found, is_ambiguous,
  is_unexpected_new_request, proposal_matches_stored_action, semantic_fields_supported,
  semantic_safety_reasons, unexpected_additional_fields,
}
use snoc_automation_agent.Decision.Engine.{
  decide, choose, incomplete_decision, only_missing, is_correction, can_execute, hard_invariants,
}
use snoc_automation_agent.Decision.Safety.{IsSafe, decide-IsSafe}
use snoc_automation_agent.Decision.Policy.{IsAnswerable, decide-IsAnswerable, decide_unauthorized}
use snoc_automation_agent.Decision.Evidence.{
  forbidden_history, present_required_evidence_allowed, proposal_value, evidence_allowed,
  additional_field_supported, additional_fields_evidence_supported, additional_support,
  confidence_passed, evidence_fits, has_evidence, required_evidence_complete,
}
use snoc_automation_agent.Domain.ValueObjects.{
  validate_operation_fields, canonical_action, normalize_numeric,
}
use snoc_automation_agent.Scenarios.{ascii}

abbrev proposal : ProposedOperation
proposal = record {
  local_operation_id = "op-1";
  action = "account_unblock";
  pdv_code = some "12345678";
  phone = none;
  additional_fields = [];
  missing_fields = [];
  evidence =
      record {
        field_name = "pdv_code";
        value = some "12345678";
        source = EvidenceSource.latest_user_message;
        support = Support.supported;
      }
      ∷ [];
  ambiguity_reasons = [];
  raw_action_confidence = none;
}

abbrev analysis : EmailAnalysis
analysis = record {
  message_kind = MessageKind.new_request;
  operations = proposal ∷ [];
  contradiction_with_stored_state = false;
  unresolved_ambiguities = [];
}

abbrev verification : SemanticVerification
verification = record {
  action_supported = Answer.affirmed;
  pdv_supported = Answer.affirmed;
  phone_supported = Answer.not_required;
  stored_state_compatible = Answer.affirmed;
  contradiction_present = false;
  contradiction_type = none;
  missing_fields = [];
  additional_fields_supported = [];
  correction_detected = false;
  new_request_detected = true;
  raw_confidence = none;
  ambiguity_detected = false;
  direct_current_instruction = Answer.affirmed;
  hypothetical_or_conditional = false;
  subject_body_conflict = false;
  evidence_sources_valid = true;
  candidate_mapping_explicit = none;
}

abbrev context : DecisionContext
context = record {
  authorized_sender = true;
  correlation_strength = CorrelationStrength.new;
  correlation_conflict = false;
  structured_output_valid = true;
  operation_previously_executed = false;
  operation_status = OperationStatus.new;
  api_available = true;
  execution_explicitly_enabled_or_dry_run = true;
  pdv_pattern = "^\\d{8}$";
  phone_pattern = "^\\+?\\d{9,15}$";
  current_candidate_values = "12345678" ∷ [];
  stored_field_values = [];
  enforce_evidence_provenance = true;
  analyzer_min_raw_confidence = none;
  verifier_min_raw_confidence = none;
  vpn_allowed_additional_fields = [];
  expected_existing_action = none;
  latest_user_message = "please unblock 12345678";
  stored_additional_field_values = [];
  input_context_complete = true;
  request_level_ambiguity = false;
  request_safety_reasons = [];
}

executes :
    (decide ascii analysis proposal verification context).decision ≡ FinalDecision.auto_execute
unfolding decide choose assess is_missing_any allowed_additional_fields contradiction_found
    is_ambiguous is_unexpected_new_request proposal_matches_stored_action semantic_fields_supported
    semantic_safety_reasons unexpected_additional_fields incomplete_decision only_missing
    is_correction can_execute hard_invariants forbidden_history present_required_evidence_allowed
    proposal_value evidence_allowed additional_field_supported additional_fields_evidence_supported
    additional_support confidence_passed evidence_fits has_evidence required_evidence_complete
    validate_operation_fields canonical_action normalize_numeric any strip all keep_chars dict_get
    dict_keys keep sort_by str_contains contains
executes = refl

decide-IsSafe_example : IsSafe ascii analysis proposal verification context
decide-IsSafe_example = decide-IsSafe ascii analysis proposal verification context executes

abbrev unfinished : ProposedOperation
unfinished = record proposal { pdv_code = none; evidence = []; missing_fields = "pdv_code" ∷ [] }

asks :
    (decide ascii analysis unfinished verification context).decision
    ≡ FinalDecision.ask_for_information
unfolding decide choose assess is_missing_any any proposal_value normalize_numeric
    incomplete_decision only_missing all validate_operation_fields canonical_action strip
    is_correction
asks = refl

decide-IsAnswerable_example :
    IsAnswerable analysis context (assess ascii analysis unfinished verification context)
decide-IsAnswerable_example =
    decide-IsAnswerable ascii analysis unfinished verification context asks

abbrev stranger : DecisionContext
stranger = record context { authorized_sender = false }

decide_unauthorized_example :
    let result = decide ascii analysis proposal verification stranger in
    ((result.decision ≡ FinalDecision.ignore)
      ⊎ ((result.decision ≡ FinalDecision.escalate)
          ⊎ (result.decision ≡ FinalDecision.review_correction)))
    × (contains "unauthorized_sender" result.reasons ≡ true)
decide_unauthorized_example = decide_unauthorized ascii analysis proposal verification stranger refl
