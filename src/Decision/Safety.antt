-- ===== src/Decision/Safety.antt =====
-- When `HybridDecisionEngine.decide` of workflow/decision_engine.py chooses to execute without a
-- person.
use snoc_automation_agent.Decision.Provenance.{HasSource, sources_of_required}
use snoc_automation_agent.Prelude.{
  ◌≡◌, ◌≢◌, ◌⊎◌, true, false, [], Python, some, All, Eq-String, Eq-Option,
}
use snoc_automation_agent.Domain.Enums.{
  CorrelationStrength, FinalDecision, OperationStatus, Eq-OperationStatus,
}
use snoc_automation_agent.Domain.ValueObjects.{canonical_action, required_fields}
use snoc_automation_agent.Domain.ValueObjects.Fields.{IsComplete, validate-passed_iff}
use snoc_automation_agent.Decision.Schemas.{
  MessageKind, Answer, ProposedOperation, EmailAnalysis, SemanticVerification,
}
use snoc_automation_agent.Decision.Context.{DecisionContext}
use snoc_automation_agent.Decision.Assessment.{
  assess, phone_is_required, proposal_matches_stored_action, unexpected_additional_fields,
}
use snoc_automation_agent.Decision.Evidence.{
  additional_fields_evidence_supported, confidence_passed, forbidden_history,
  required_evidence_complete,
}
use snoc_automation_agent.Decision.Engine.{decide}
use snoc_automation_agent.Decision.Clearance.{
  choose-auto_execute, can_execute-IsCleared, none_of, consistent-compatible, unambiguous_proposal,
  expected_request, no_reasons-IsSound, agreed-verified,
}

-- Why an operation may be executed without a person.
pub record IsSafe (py : Python) (analysis : EmailAnalysis) (proposal : ProposedOperation)
    (verification : SemanticVerification) (context : DecisionContext) : Type 0 where
  pub authorized : context.authorized_sender ≡ true
  pub structured : context.structured_output_valid ≡ true
  pub complete :
      IsComplete py
        (canonical_action py proposal.action)
        proposal.pdv_code
        proposal.phone
        context.pdv_pattern
        context.phone_pattern
  pub correlated :
      (context.correlation_strength ≡ CorrelationStrength.new)
      ⊎ (context.correlation_strength ≡ CorrelationStrength.strong)
  pub no_conflict : context.correlation_conflict ≡ false
  pub not_executed : context.operation_previously_executed ≡ false
  pub not_completed : context.operation_status ≢ OperationStatus.completed
  pub not_cancelled : context.operation_status ≢ OperationStatus.cancelled
  pub action_verified : verification.action_supported ≡ Answer.affirmed
  pub pdv_verified : verification.pdv_supported ≡ Answer.affirmed
  pub compatible :
      (verification.stored_state_compatible ≢ Answer.denied)
      ⊎ (context.correlation_strength ≡ CorrelationStrength.new)
  pub no_contradiction : analysis.contradiction_with_stored_state ≡ false
  pub actionable : analysis.message_kind ≢ MessageKind.irrelevant
  pub not_automated : analysis.message_kind ≢ MessageKind.automated
  pub unambiguous : proposal.ambiguity_reasons ≡ []
  pub not_hypothetical : verification.hypothetical_or_conditional ≡ false
  pub no_safety_reasons : context.request_safety_reasons ≡ []
  pub api_available : context.api_available ≡ true
  pub mode_configured : context.execution_explicitly_enabled_or_dry_run ≡ true
  pub phone_verified :
      (phone_is_required (canonical_action py proposal.action) ≡ false)
      ⊎ (verification.phone_supported ≡ Answer.affirmed)
  pub type_consistent :
      (verification.contradiction_present ≡ false)
      ⊎ (verification.contradiction_type ≡ some "missing_field")
      ⊎ (verification.contradiction_type ≡ some "missing_required_field")
  pub no_unexpected_request :
      (verification.new_request_detected ≡ false)
      ⊎ (analysis.message_kind ≡ MessageKind.new_request)
      ⊎ (analysis.message_kind ≡ MessageKind.mixed)
  pub unambiguous_message : analysis.message_kind ≢ MessageKind.ambiguous
  pub unambiguous_request : context.request_level_ambiguity ≡ false
  pub instructed : verification.direct_current_instruction ≢ Answer.denied
  pub no_subject_conflict : verification.subject_body_conflict ≡ false
  pub no_ambiguity : verification.ambiguity_detected ≡ false
  pub valid_sources : verification.evidence_sources_valid ≡ true
  pub mapping_explicit : verification.candidate_mapping_explicit ≢ some false
  pub no_history : forbidden_history proposal ≡ false
  pub analyzer_confident :
      confidence_passed context.analyzer_min_raw_confidence proposal.raw_action_confidence ≡ true
  pub verifier_confident :
      confidence_passed context.verifier_min_raw_confidence verification.raw_confidence ≡ true
  pub no_unexpected_fields :
      unexpected_additional_fields context (canonical_action py proposal.action) proposal ≡ []
  pub additional_supported :
      additional_fields_evidence_supported py context proposal verification ≡ true
  pub same_action :
      proposal_matches_stored_action context (canonical_action py proposal.action) ≡ true
  pub input_complete : context.input_context_complete ≡ true
  pub evidenced :
      required_evidence_complete context proposal
        (required_fields (canonical_action py proposal.action))
      ≡ true
  pub sources :
      context.enforce_evidence_provenance ≡ true
      → All (HasSource py context proposal) (required_fields (canonical_action py proposal.action))

-- An operation that the policy executes without a person is safe: the sender is authorized, the
-- fields are complete and well formed for a known action, the request is new or strongly
-- correlated, nothing executed, completed or cancelled the operation before, the verifier affirms
-- the action, the PDV and a required phone and finds no conflict, ambiguity, condition, invalid
-- source or contradiction but a missing field, both confidences pass, message, proposal and
-- request are unambiguous, no additional field is unexpected or unsupported, and, where
-- provenance is enforced, every required value stands in evidence from the latest message or the
-- stored state.
pub decide-IsSafe :
    (py : Python) (analysis : EmailAnalysis) (proposal : ProposedOperation)
    (verification : SemanticVerification) (context : DecisionContext)
    → (decide py analysis proposal verification context).decision ≡ FinalDecision.auto_execute
    → IsSafe py analysis proposal verification context
unfolding decide assess
decide-IsSafe py analysis proposal verification context h =
    let a = assess py analysis proposal verification context in
    let (chosen, _, relevant, person) = choose-auto_execute analysis verification context a h in
    let c = can_execute-IsCleared context a chosen in
    let (action, pdv, phone) = agreed-verified py analysis proposal verification context c.agreed in
    let (stored, compatible, of_type) =
      consistent-compatible analysis verification context c.consistent in
    let (clear, of_message, of_request) =
      unambiguous_proposal py analysis proposal context c.unambiguous in
    let sound = no_reasons-IsSound verification c.semantic in
    record {
      authorized = c.authorized;
      structured = c.structured;
      complete = (validate-passed_iff py _ _ _ _ _).0 c.checked;
      correlated = c.correlated;
      no_conflict = c.no_conflict;
      not_executed = c.not_executed;
      not_completed = c.not_completed;
      not_cancelled = c.not_cancelled;
      action_verified = action;
      pdv_verified = pdv;
      compatible = compatible;
      no_contradiction = stored;
      actionable = relevant;
      not_automated = person;
      unambiguous = clear;
      not_hypothetical = sound.not_hypothetical;
      no_safety_reasons = none_of _ c.requested;
      api_available = c.api_available;
      mode_configured = c.mode_configured;
      phone_verified = phone;
      type_consistent = of_type;
      no_unexpected_request = expected_request analysis verification c.expected;
      unambiguous_message = of_message;
      unambiguous_request = of_request;
      instructed = sound.instructed;
      no_subject_conflict = sound.no_subject_conflict;
      no_ambiguity = sound.no_ambiguity;
      valid_sources = sound.valid_sources;
      mapping_explicit = sound.mapping_explicit;
      no_history = c.no_history;
      analyzer_confident = c.analyzer_confident;
      verifier_confident = c.verifier_confident;
      no_unexpected_fields = none_of _ c.no_unexpected_fields;
      additional_supported = c.additional_supported;
      same_action = c.same_action;
      input_complete = c.input_complete;
      evidenced = c.evidenced;
      sources = λ enforced. sources_of_required py context proposal _ enforced c.allowed_context;
    }
