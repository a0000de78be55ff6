-- ===== src/Decision/Evidence.antt =====
-- The provenance checks of `HybridDecisionEngine.decide` in workflow/decision_engine.py.
use snoc_automation_agent.Prelude.{
  ℕ, Bool, true, false, not, ◌&&◌, ◌||◌, Option, none, some, List, String, ◌==◌, Eq-ℕ, Eq-String,
  Eq-Option, Eq-×, if◌then◌else◌, all, any, contains, is_some, is_none, is_empty, strip,
  str_contains, Python, dict_get, leb,
}
use snoc_automation_agent.Prelude.Tables.{opt_map}
use snoc_automation_agent.Domain.Enums.{CorrelationStrength, Eq-CorrelationStrength}
use snoc_automation_agent.Domain.ValueObjects.{normalize_numeric}
use snoc_automation_agent.Decision.Schemas.{
  EvidenceSource, Support, Answer, FieldEvidence, ProposedOperation, SemanticVerification,
  Eq-EvidenceSource, Eq-Support, Eq-Answer,
}
use snoc_automation_agent.Decision.Context.{DecisionContext}

abbrev pub is_phone_field : String → Bool
is_phone_field field = field == "phone" || field == "new_phone"

-- `field in evidence_by_field`
unfoldable pub has_evidence : ProposedOperation → String → Bool
has_evidence proposal field =
    any
      (λ (e : FieldEvidence).
        e.field_name == field && (is_some e.value && e.support == Support.supported))
      proposal.evidence

unfoldable pub forbidden_history : ProposedOperation → Bool
forbidden_history proposal =
    any
      (λ (e : FieldEvidence).
        e.source == EvidenceSource.quoted_closed_history
        && ((e.field_name == "pdv_code" || is_phone_field e.field_name) && is_some e.value))
      proposal.evidence

unfoldable pub required_evidence_complete : DecisionContext → ProposedOperation → List String → Bool
required_evidence_complete context proposal required =
    not context.enforce_evidence_provenance
    || all
        (λ (field : String).
          has_evidence proposal field || (field == "new_phone" && has_evidence proposal "phone"))
        required

unfoldable pub proposal_value : Python → ProposedOperation → String → Option String
proposal_value py proposal field =
    normalize_numeric py (is_phone_field field)
      (if is_phone_field field then proposal.phone else proposal.pdv_code)

-- One round of the loop in `evidence_allowed`, for the expected value.
unfoldable pub evidence_fits : Python → DecisionContext → String → String → FieldEvidence → Bool
evidence_fits py context field expected e =
    (e.field_name == field || (field == "new_phone" && e.field_name == "phone"))
    && (e.support == Support.supported
        && (normalize_numeric py (is_phone_field field) e.value == some expected
            && ((e.source == EvidenceSource.latest_user_message
                  && contains expected context.current_candidate_values)
                || (e.source == EvidenceSource.stored_request_state
                    && (context.correlation_strength == CorrelationStrength.strong
                        && contains expected context.stored_field_values)))))

unfoldable pub evidence_allowed : Python → DecisionContext → ProposedOperation → String → Bool
evidence_allowed py context proposal field = elim (proposal_value py proposal field) [
  | none ↦ true
  | some expected ↦ any (evidence_fits py context field expected) proposal.evidence
]

unfoldable pub present_required_evidence_allowed :
    Python → DecisionContext → ProposedOperation → List String → Bool
present_required_evidence_allowed py context proposal required =
    not context.enforce_evidence_provenance
    || all
        (λ (field : String).
          is_none (proposal_value py proposal field) || evidence_allowed py context proposal field)
        required

-- `value is not None and value >= minimum`, where a minimum is configured.
unfoldable pub confidence_passed : Option ℕ → Option ℕ → Bool
confidence_passed none value = true
confidence_passed (some minimum) none = false
confidence_passed (some minimum) (some value) = leb minimum value

-- One piece of evidence for an additional field with its normalized value.
unfoldable pub additional_support :
    Python → DecisionContext → String → String → FieldEvidence → Bool
additional_support py context name value e =
    (e.field_name == name
      && (opt_map (λ s. py.casefold (strip py s)) e.value == some value
          && e.support == Support.supported))
    && ((e.source == EvidenceSource.latest_user_message
          && str_contains value (py.casefold context.latest_user_message))
        || (e.source == EvidenceSource.stored_request_state
            && (context.correlation_strength == CorrelationStrength.strong
                && contains (name, value) context.stored_additional_field_values)))

-- One additional field; the loop stops at the first that fails.
unfoldable pub additional_field_supported :
    Python
    → DecisionContext
    → ProposedOperation
    → SemanticVerification
    → String × Option String
    → Bool
additional_field_supported py context proposal verification (name, none) = false
additional_field_supported py context proposal verification (name, some raw) =
    not (is_empty (strip py raw))
    && (any (additional_support py context name (py.casefold (strip py raw))) proposal.evidence
        && dict_get name verification.additional_fields_supported == some Answer.affirmed)

unfoldable pub additional_fields_evidence_supported :
    Python → DecisionContext → ProposedOperation → SemanticVerification → Bool
additional_fields_evidence_supported py context proposal verification =
    all (additional_field_supported py context proposal verification) proposal.additional_fields
