-- ===== src/Decision/Assessment.antt =====
-- The tests that `HybridDecisionEngine.decide` in workflow/decision_engine.py makes before it chooses
-- a decision: its local names up to `hard_invariants`, one field or function each.
use Prim.Native.Char.{code}
use Prim.Native.String.{[] as empty, ◌∷◌ as char_cons}
use snoc_automation_agent.Prelude.{
  Bool, Option, true, false, not, ◌&&◌, ◌||◌, none, some, List, [], ◌∷◌, ◌++◌, String, ◌==◌, Eq-ℕ,
  Eq-String, Eq-Option, if◌then◌else◌, any, keep, map, contains, is_none, str_contains, Python,
  dict_keys, ltb, sort_by,
}
use snoc_automation_agent.Domain.Enums.{
  CorrelationStrength, OperationAction, Eq-CorrelationStrength, Eq-OperationAction,
  Eq-OperationStatus,
}
use snoc_automation_agent.Domain.ValueObjects.{
  canonical_action, required_fields, validate_operation_fields, InvariantResult, no_reasons,
}
use snoc_automation_agent.Decision.Schemas.{
  MessageKind, Answer, ProposedOperation, EmailAnalysis, SemanticVerification, Eq-MessageKind,
  Eq-Answer,
}
use snoc_automation_agent.Decision.Context.{DecisionContext}
use snoc_automation_agent.Decision.Evidence.{
  forbidden_history, required_evidence_complete, present_required_evidence_allowed, proposal_value,
  confidence_passed, additional_fields_evidence_supported, is_phone_field,
}

-- The order of `sorted` on texts: by code points.
unfoldable str_before : String → String → Bool
str_before empty t = true
str_before (char_cons c s) empty = false
str_before (char_cons c s) (char_cons d t) =
    ltb (code c) (code d) || (code c == code d && str_before s t)

unfoldable pub allowed_additional_fields : DecisionContext → OperationAction → List String
allowed_additional_fields context OperationAction.vpn_access = context.vpn_allowed_additional_fields
allowed_additional_fields context _ = []

unfoldable pub unexpected_additional_fields :
    DecisionContext → OperationAction → ProposedOperation → List String
unfolding str_before
unexpected_additional_fields context action proposal = sort_by str_before (
    keep (λ (f : String). not (contains f (allowed_additional_fields context action)))
      (dict_keys proposal.additional_fields))

unfoldable pub proposal_matches_stored_action : DecisionContext → OperationAction → Bool
proposal_matches_stored_action context action = elim context.expected_existing_action [
  | none ↦ true
  | some expected ↦ action == expected
]

abbrev pub phone_is_required : OperationAction → Bool
phone_is_required action =
    action == OperationAction.vpn_access || action == OperationAction.otp_number_change

unfoldable pub semantic_fields_supported : OperationAction → SemanticVerification → Bool
semantic_fields_supported action verification =
    verification.pdv_supported == Answer.affirmed
    && (if phone_is_required action then verification.phone_supported == Answer.affirmed else true)

unfoldable pub contradiction_found : EmailAnalysis → SemanticVerification → DecisionContext → Bool
contradiction_found analysis verification context =
    analysis.contradiction_with_stored_state
    || ((verification.contradiction_present
          && not (
              verification.contradiction_type == some "missing_field"
              || verification.contradiction_type == some "missing_required_field"))
        || (verification.stored_state_compatible == Answer.denied
            && not (context.correlation_strength == CorrelationStrength.new)))

unfoldable pub is_unexpected_new_request : EmailAnalysis → SemanticVerification → Bool
is_unexpected_new_request analysis verification =
    verification.new_request_detected
    && not (
        analysis.message_kind == MessageKind.new_request
        || analysis.message_kind == MessageKind.mixed)

unfoldable pub is_ambiguous : Python → EmailAnalysis → ProposedOperation → DecisionContext → Bool
is_ambiguous py analysis proposal context =
    let names_one_of : String → String → Bool = λ reason id. str_contains id (py.casefold reason) in
    let local_operation_ids : List String =
      map (λ (o : ProposedOperation). py.casefold o.local_operation_id) analysis.operations in
    let scoped : Bool =
      any (λ (reason : String). names_one_of reason (py.casefold proposal.local_operation_id))
        analysis.unresolved_ambiguities in
    let unscoped : Bool =
      any (λ (reason : String). not (any (names_one_of reason) local_operation_ids))
        analysis.unresolved_ambiguities in
    not (no_reasons proposal.ambiguity_reasons)
    || (scoped
        || ((analysis.message_kind == MessageKind.ambiguous || unscoped)
            || context.request_level_ambiguity))

-- `if test: reasons.append(reason)`
abbrev pub reason_if : Bool → String → List String
reason_if test reason = if test then reason ∷ [] else []

-- `answer is False`, where an absent answer is `None`.
abbrev is_denied : Option Bool → Bool
is_denied none = false
is_denied (some answer) = not answer

unfoldable pub semantic_safety_reasons : SemanticVerification → List String
semantic_safety_reasons v =
    reason_if v.hypothetical_or_conditional "verifier_hypothetical_or_conditional"
    ++ (reason_if (v.direct_current_instruction == Answer.denied)
          "verifier_no_direct_current_instruction"
        ++ (reason_if v.subject_body_conflict "verifier_subject_body_conflict"
            ++ (reason_if v.ambiguity_detected "verifier_ambiguity_detected"
                ++ (reason_if (not v.evidence_sources_valid) "verifier_evidence_source_invalid"
                    ++ reason_if (is_denied v.candidate_mapping_explicit)
                        "verifier_identifier_mapping_not_explicit"))))

-- Whether the set `missing` has an element.
unfoldable pub is_missing_any : Python → ProposedOperation → SemanticVerification → Bool
is_missing_any py proposal verification =
    any
      (λ (field : String).
        not (field == "pdv_code" || is_phone_field field)
        || is_none (proposal_value py proposal field))
      (proposal.missing_fields ++ verification.missing_fields)

pub record Assessment : Type 0 where
  pub action : OperationAction
  pub field_check : InvariantResult
  pub history_forbidden : Bool
  pub evidence_complete : Bool
  pub evidence_allowed_context : Bool
  pub analyzer_confidence_passed : Bool
  pub verifier_confidence_passed : Bool
  pub unexpected_fields : List String
  pub additional_fields_supported : Bool
  pub matches_stored_action : Bool
  pub agreement : Bool
  pub contradiction : Bool
  pub unexpected_new_request : Bool
  pub ambiguous : Bool
  pub safety_reasons : List String
  pub missing : Bool

unfoldable pub assess :
    Python → EmailAnalysis → ProposedOperation → SemanticVerification → DecisionContext → Assessment
assess py analysis proposal verification context =
    let action = canonical_action py proposal.action in
    let required = required_fields action in
    let complete = required_evidence_complete context proposal required in
    let allowed = present_required_evidence_allowed py context proposal required in
    record {
      action = action;
      field_check =
          validate_operation_fields py action proposal.pdv_code proposal.phone context.pdv_pattern
            context.phone_pattern;
      history_forbidden = forbidden_history proposal;
      evidence_complete = complete;
      evidence_allowed_context = allowed;
      analyzer_confidence_passed =
          confidence_passed context.analyzer_min_raw_confidence proposal.raw_action_confidence;
      verifier_confidence_passed =
          confidence_passed context.verifier_min_raw_confidence verification.raw_confidence;
      unexpected_fields = unexpected_additional_fields context action proposal;
      additional_fields_supported =
          additional_fields_evidence_supported py context proposal verification;
      matches_stored_action = proposal_matches_stored_action context action;
      agreement =
          verification.action_supported == Answer.affirmed
          && (semantic_fields_supported action verification && (complete && allowed));
      contradiction = contradiction_found analysis verification context;
      unexpected_new_request = is_unexpected_new_request analysis verification;
      ambiguous = is_ambiguous py analysis proposal context;
      safety_reasons = semantic_safety_reasons verification;
      missing = is_missing_any py proposal verification;
    }
