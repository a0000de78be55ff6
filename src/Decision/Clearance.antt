-- ===== src/Decision/Clearance.antt =====
-- What the tests of `HybridDecisionEngine.decide` in workflow/decision_engine.py say where they pass.
use snoc_automation_agent.Decision.Provenance.{all-All}
use snoc_automation_agent.Prelude.{
  ◌≡◌, ◌≢◌, ◌⊎◌, Bool, true, false, List, [], String, arith, Python, Option, some, not, ◌&&◌, ◌==◌,
  ◌||◌, All, Eq-String, Eq-Option, opt_eq_iff,
}
use snoc_automation_agent.Domain.Enums.{
  CorrelationStrength, FinalDecision, OperationStatus, Eq-OperationStatus,
}
use snoc_automation_agent.Domain.ValueObjects.{no_reasons, canonical_action}
use snoc_automation_agent.Decision.Schemas.{
  MessageKind, Answer, ProposedOperation, EmailAnalysis, SemanticVerification,
}
use snoc_automation_agent.Decision.Context.{DecisionContext}
use snoc_automation_agent.Decision.Assessment.{
  Assessment, assess, contradiction_found, is_ambiguous, is_unexpected_new_request,
  phone_is_required, semantic_safety_reasons, semantic_fields_supported,
}
use snoc_automation_agent.Decision.Engine.{
  choose, incomplete_decision, can_execute, hard_invariants,
}

pub choose-auto_execute :
    (analysis : EmailAnalysis) (verification : SemanticVerification) (context : DecisionContext)
    (a : Assessment)
    → choose analysis verification context a ≡ FinalDecision.auto_execute
    → (can_execute context a ≡ true)
      × (a.missing ≡ false)
      × (analysis.message_kind ≢ MessageKind.irrelevant)
      × (analysis.message_kind ≢ MessageKind.automated)
unfolding choose incomplete_decision
choose-auto_execute analysis verification context a h = ground arith

-- What the hard invariants and the rest of `can_execute` say, in the fields of an assessment.
pub record IsCleared (context : DecisionContext) (a : Assessment) : Type 0 where
  pub authorized : context.authorized_sender ≡ true
  pub structured : context.structured_output_valid ≡ true
  pub checked : a.field_check.passed ≡ true
  pub no_conflict : context.correlation_conflict ≡ false
  pub not_executed : context.operation_previously_executed ≡ false
  pub not_completed : context.operation_status ≢ OperationStatus.completed
  pub not_cancelled : context.operation_status ≢ OperationStatus.cancelled
  pub allowed_context : a.evidence_allowed_context ≡ true
  pub mode_configured : context.execution_explicitly_enabled_or_dry_run ≡ true
  pub requested : no_reasons context.request_safety_reasons ≡ true
  pub semantic : no_reasons a.safety_reasons ≡ true
  pub correlated :
      (context.correlation_strength ≡ CorrelationStrength.new)
      ⊎ (context.correlation_strength ≡ CorrelationStrength.strong)
  pub agreed : a.agreement ≡ true
  pub consistent : a.contradiction ≡ false
  pub unambiguous : a.ambiguous ≡ false
  pub api_available : context.api_available ≡ true
  pub expected : a.unexpected_new_request ≡ false
  pub evidenced : a.evidence_complete ≡ true
  pub no_history : a.history_forbidden ≡ false
  pub analyzer_confident : a.analyzer_confidence_passed ≡ true
  pub verifier_confident : a.verifier_confidence_passed ≡ true
  pub no_unexpected_fields : no_reasons a.unexpected_fields ≡ true
  pub additional_supported : a.additional_fields_supported ≡ true
  pub same_action : a.matches_stored_action ≡ true
  pub input_complete : context.input_context_complete ≡ true

-- The part of `can_execute` beside the hard invariants.
record IsAgreed (context : DecisionContext) (a : Assessment) : Type 0 where
  pub correlated :
      (context.correlation_strength ≡ CorrelationStrength.new)
      ⊎ (context.correlation_strength ≡ CorrelationStrength.strong)
  pub agreed : a.agreement ≡ true
  pub consistent : a.contradiction ≡ false
  pub unambiguous : a.ambiguous ≡ false
  pub api_available : context.api_available ≡ true
  pub expected : a.unexpected_new_request ≡ false
  pub evidenced : a.evidence_complete ≡ true

can_execute-IsAgreed :
    (context : DecisionContext) (a : Assessment)
    → can_execute context a ≡ true
    → All (λ (i : String × Bool). i.1 ≡ true) (hard_invariants context a) × IsAgreed context a
unfolding can_execute
can_execute-IsAgreed context a h =
    (all-All (λ (i : String × Bool). i.1) (hard_invariants context a) (ground arith), ground arith)

eq_false_of_not : (b : Bool) → not b ≡ true → b ≡ false
eq_false_of_not b h = ground arith

is_open :
    (context : DecisionContext)
    → not (
        context.operation_status == OperationStatus.completed
        || context.operation_status == OperationStatus.cancelled)
      ≡ true
    → (context.operation_status ≢ OperationStatus.completed)
      × (context.operation_status ≢ OperationStatus.cancelled)
is_open context h = ground arith

both : (a b : Bool) → a && b ≡ true → (a ≡ true) × (b ≡ true)
both a b h = ground arith

pub can_execute-IsCleared :
    (context : DecisionContext) (a : Assessment)
    → can_execute context a ≡ true
    → IsCleared context a
unfolding hard_invariants
can_execute-IsCleared context a h =
    let (i, g) = can_execute-IsAgreed context a h in
    let (not_completed, not_cancelled) = is_open context i.1.1.1.1.1.1.0 in
    let (analyzer, verifier) = both _ _ i.1.1.1.1.1.1.1.1.1.0 in
    let (requested, semantic) = both _ _ i.1.1.1.1.1.1.1.1.1.1.1.1.1.1.1.0 in
    record {
      authorized = i.0;
      structured = i.1.0;
      checked = i.1.1.1.0;
      no_conflict = eq_false_of_not _ i.1.1.1.1.0;
      not_executed = eq_false_of_not _ i.1.1.1.1.1.0;
      not_completed = not_completed;
      not_cancelled = not_cancelled;
      allowed_context = i.1.1.1.1.1.1.1.1.0;
      mode_configured = i.1.1.1.1.1.1.1.1.1.1.1.1.1.0;
      requested = requested;
      semantic = semantic;
      correlated = g.correlated;
      agreed = g.agreed;
      consistent = g.consistent;
      unambiguous = g.unambiguous;
      api_available = g.api_available;
      expected = g.expected;
      evidenced = g.evidenced;
      no_history = eq_false_of_not _ i.1.1.1.1.1.1.1.0;
      analyzer_confident = analyzer;
      verifier_confident = verifier;
      no_unexpected_fields = i.1.1.1.1.1.1.1.1.1.1.0;
      additional_supported = i.1.1.1.1.1.1.1.1.1.1.1.0;
      same_action = i.1.1.1.1.1.1.1.1.1.1.1.1.0;
      input_complete = i.1.1.1.1.1.1.1.1.1.1.1.1.1.1.0;
    }

pub none_of : (rs : List String) → no_reasons rs ≡ true → rs ≡ []
none_of rs h = ground arith

of_missing_field :
    (present : Bool) (type : Option String)
    → present && not (type == some "missing_field" || type == some "missing_required_field") ≡ false
    → (present ≡ false) ⊎ (type ≡ some "missing_field") ⊎ (type ≡ some "missing_required_field")
of_missing_field present type h =
    ground (
      arith,
      opt_eq_iff type (some "missing_field"),
      opt_eq_iff type (some "missing_required_field"),
    )

pub consistent-compatible :
    (analysis : EmailAnalysis) (verification : SemanticVerification) (context : DecisionContext)
    → contradiction_found analysis verification context ≡ false
    → (analysis.contradiction_with_stored_state ≡ false)
      × ((verification.stored_state_compatible ≢ Answer.denied)
          ⊎ (context.correlation_strength ≡ CorrelationStrength.new))
      × ((verification.contradiction_present ≡ false)
          ⊎ (verification.contradiction_type ≡ some "missing_field")
          ⊎ (verification.contradiction_type ≡ some "missing_required_field"))
unfolding contradiction_found
consistent-compatible analysis verification context h = (
  ground arith,
  ground arith,
  of_missing_field verification.contradiction_present verification.contradiction_type
      (ground arith),
)

pub unambiguous_proposal :
    (py : Python) (analysis : EmailAnalysis) (proposal : ProposedOperation)
    (context : DecisionContext)
    → is_ambiguous py analysis proposal context ≡ false
    → (proposal.ambiguity_reasons ≡ [])
      × (analysis.message_kind ≢ MessageKind.ambiguous)
      × (context.request_level_ambiguity ≡ false)
unfolding is_ambiguous
unambiguous_proposal py analysis proposal context h =
    (none_of _ (ground arith), ground arith, ground arith)

pub expected_request :
    (analysis : EmailAnalysis) (verification : SemanticVerification)
    → is_unexpected_new_request analysis verification ≡ false
    → (verification.new_request_detected ≡ false)
      ⊎ (analysis.message_kind ≡ MessageKind.new_request)
      ⊎ (analysis.message_kind ≡ MessageKind.mixed)
unfolding is_unexpected_new_request
expected_request analysis verification h = ground arith

-- What an empty list of safety reasons says of the answers of the verifier.
pub record IsSound (verification : SemanticVerification) : Type 0 where
  pub not_hypothetical : verification.hypothetical_or_conditional ≡ false
  pub instructed : verification.direct_current_instruction ≢ Answer.denied
  pub no_subject_conflict : verification.subject_body_conflict ≡ false
  pub no_ambiguity : verification.ambiguity_detected ≡ false
  pub valid_sources : verification.evidence_sources_valid ≡ true
  pub mapping_explicit : verification.candidate_mapping_explicit ≢ some false

pub no_reasons-IsSound :
    (verification : SemanticVerification)
    → no_reasons (semantic_safety_reasons verification) ≡ true
    → IsSound verification
unfolding semantic_safety_reasons
no_reasons-IsSound verification h = ground arith

pub agreed-verified :
    (py : Python) (analysis : EmailAnalysis) (proposal : ProposedOperation)
    (verification : SemanticVerification) (context : DecisionContext)
    → (assess py analysis proposal verification context).agreement ≡ true
    → (verification.action_supported ≡ Answer.affirmed)
      × (verification.pdv_supported ≡ Answer.affirmed)
      × ((phone_is_required (canonical_action py proposal.action) ≡ false)
          ⊎ (verification.phone_supported ≡ Answer.affirmed))
unfolding assess semantic_fields_supported
agreed-verified py analysis proposal verification context h = ground arith
