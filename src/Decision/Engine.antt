-- ===== src/Decision/Engine.antt =====
-- `HybridDecisionEngine.decide` of workflow/decision_engine.py: the hard invariants, the reasons, and
-- the choice of the decision from the assessment.
use text.Mathlib.Text.{starts_with}
use Prim.Native.String.{◌++◌ as str_append}
use snoc_automation_agent.Prelude.{
  Bool, not, ◌&&◌, ◌||◌, List, [], ◌∷◌, ◌++◌, String, ◌==◌, Eq-ℕ, Eq-String, if◌then◌else◌, all,
  is_none, Python, join, dedup_from,
}
use snoc_automation_agent.Domain.Enums.{
  CorrelationStrength, FinalDecision, OperationAction, OperationStatus, Eq-CorrelationStrength,
  Eq-OperationAction, Eq-OperationStatus,
}
use snoc_automation_agent.Domain.ValueObjects.{no_reasons}
use snoc_automation_agent.Decision.Schemas.{
  MessageKind, ProposedOperation, EmailAnalysis, SemanticVerification, Eq-MessageKind,
}
use snoc_automation_agent.Decision.Context.{DecisionContext, DecisionResult}
use snoc_automation_agent.Decision.Assessment.{Assessment, assess, reason_if}

unfoldable pub hard_invariants : DecisionContext → Assessment → List (String × Bool)
hard_invariants context a =
    ("authorized_sender", context.authorized_sender)
    ∷ ("structured_output_valid", context.structured_output_valid)
    ∷ ("known_action", not (a.action == OperationAction.unknown))
    ∷ ("field_formats_and_completeness", a.field_check.passed)
    ∷ ("no_correlation_conflict", not context.correlation_conflict)
    ∷ ("no_previous_execution", not context.operation_previously_executed)
    ∷ (
      "operation_open",
      not (
          context.operation_status == OperationStatus.completed
          || context.operation_status == OperationStatus.cancelled),
    )
    ∷ ("no_closed_history_field_source", not a.history_forbidden)
    ∷ ("required_evidence_from_allowed_context", a.evidence_allowed_context)
    ∷ (
      "configured_confidence_thresholds",
      a.analyzer_confidence_passed && a.verifier_confidence_passed,
    )
    ∷ ("additional_fields_allowlisted", no_reasons a.unexpected_fields)
    ∷ ("additional_fields_evidence_supported", a.additional_fields_supported)
    ∷ ("proposal_matches_stored_action", a.matches_stored_action)
    ∷ ("execution_mode_configured", context.execution_explicitly_enabled_or_dry_run)
    ∷ ("input_context_complete", context.input_context_complete)
    ∷ (
      "request_safety_checks_passed",
      no_reasons context.request_safety_reasons && no_reasons a.safety_reasons,
    )
    ∷ []

unfoldable pub decision_reasons : DecisionContext → Assessment → List String
decision_reasons context a =
    a.field_check.reasons
    ++ (context.request_safety_reasons
        ++ (a.safety_reasons
            ++ (reason_if (not context.authorized_sender) "unauthorized_sender"
                ++ (reason_if context.correlation_conflict "correlation_conflict"
                    ++ (reason_if context.operation_previously_executed
                          "operation_revision_already_executed"
                        ++ (reason_if (context.operation_status == OperationStatus.completed)
                              "operation_already_completed"
                            ++ (reason_if a.history_forbidden
                                  "required_value_only_in_closed_history"
                                ++ (reason_if a.contradiction "semantic_contradiction"
                                    ++ (reason_if a.ambiguous "ambiguous_operation_or_attribution"
                                        ++ (reason_if (not a.agreement)
                                              "analyzer_verifier_disagreement"
                                            ++ (reason_if (not a.evidence_complete)
                                                  "required_field_evidence_incomplete"
                                                ++ (reason_if (not a.evidence_allowed_context)
                                                      "required_field_evidence_not_in_allowed_context"
                                                    ++ (reason_if (not a.analyzer_confidence_passed)
                                                          "analyzer_confidence_below_configured_threshold"
                                                        ++ (reason_if
                                                            (not a.verifier_confidence_passed)
                                                            "verifier_confidence_below_configured_threshold"
                                                            ++ (reason_if
                                                            (not (no_reasons a.unexpected_fields))
                                                            (str_append
                                                            "unapproved_additional_fields:"
                                                            (join "," a.unexpected_fields))
                                                            ++ (reason_if
                                                            (not a.additional_fields_supported)
                                                            "additional_field_evidence_or_verifier_support_missing"
                                                            ++ (reason_if
                                                            (not a.matches_stored_action)
                                                            "proposal_action_differs_from_stored_operation"
                                                            ++ (reason_if
                                                            (context.correlation_strength
                                                            == CorrelationStrength.weak)
                                                            "weak_request_correlation"
                                                            ++ (reason_if a.unexpected_new_request
                                                            "unexpected_new_request_detected"
                                                            ++ (if context.input_context_complete
                                                            then []
                                                            else "context_truncated"
                                                            ∷ "safety_context_incomplete"
                                                            ∷ "model_context_limit"
                                                            ∷ "email_or_model_context_limit_exceeded"
                                                            ∷ []))))))))))))))))))))

abbrev pub is_sufficiently_correlated : DecisionContext → Bool
is_sufficiently_correlated context =
    context.correlation_strength == CorrelationStrength.new
    || context.correlation_strength == CorrelationStrength.strong

-- `correction_signal and not unsupported_new_correction`
unfoldable pub is_correction : EmailAnalysis → SemanticVerification → DecisionContext → Bool
is_correction analysis verification context =
    let signal : Bool =
      verification.correction_detected || analysis.message_kind == MessageKind.correction in
    signal
    && not (
        signal
        && (context.correlation_strength == CorrelationStrength.new
            && is_none context.expected_existing_action))

unfoldable pub only_missing : Assessment → Bool
only_missing a =
    all (λ (reason : String). starts_with reason "missing_required_field:") a.field_check.reasons

-- The branch for missing or badly formed fields.
unfoldable pub incomplete_decision : DecisionContext → Assessment → Bool → FinalDecision
incomplete_decision context a correction =
    if only_missing a
      && (is_sufficiently_correlated context && (context.authorized_sender && not correction))
    then FinalDecision.ask_for_information
    else if correction
    then FinalDecision.review_correction
    else FinalDecision.escalate

unfoldable pub can_execute : DecisionContext → Assessment → Bool
can_execute context a =
    all (λ (i : String × Bool). i.1) (hard_invariants context a)
    && (is_sufficiently_correlated context
        && (a.agreement
            && (a.evidence_complete
                && (not a.contradiction
                    && (not a.ambiguous
                        && (not a.unexpected_new_request && context.api_available))))))

abbrev pub is_irrelevant : EmailAnalysis → Bool
is_irrelevant analysis =
    analysis.message_kind == MessageKind.irrelevant
    || analysis.message_kind == MessageKind.automated

unfoldable pub choose :
    EmailAnalysis → SemanticVerification → DecisionContext → Assessment → FinalDecision
choose analysis verification context a =
    if is_irrelevant analysis
    then FinalDecision.ignore
    else if context.operation_status == OperationStatus.completed
    then FinalDecision.review_correction
    else if a.missing || not a.field_check.passed
    then incomplete_decision context a (is_correction analysis verification context)
    else if is_correction analysis verification context
    then FinalDecision.review_correction
    else if can_execute context a
    then FinalDecision.auto_execute
    else FinalDecision.escalate

-- The reasons as the branch of each return passes them on: repeated or not, and with the last
-- one for an interface that is not available.
unfoldable pub chosen_reasons :
    EmailAnalysis → SemanticVerification → DecisionContext → Assessment → List String
chosen_reasons analysis verification context a =
    let reasons = decision_reasons context a in
    if is_irrelevant analysis || context.operation_status == OperationStatus.completed
    then reasons
    else if a.missing || not a.field_check.passed
    then dedup_from [] reasons
    else if is_correction analysis verification context
    then reasons
    else if can_execute context a
    then dedup_from [] reasons
    else dedup_from [] (reasons ++ reason_if (not context.api_available) "business_api_unavailable")

unfoldable pub decide :
    Python
    → EmailAnalysis
    → ProposedOperation
    → SemanticVerification
    → DecisionContext
    → DecisionResult
decide py analysis proposal verification context =
    let a = assess py analysis proposal verification context in
    record {
      decision = choose analysis verification context a;
      reasons = chosen_reasons analysis verification context a;
      hard_invariants = hard_invariants context a;
      analyzer_verifier_agreement = a.agreement;
    }
