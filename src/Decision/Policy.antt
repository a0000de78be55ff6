-- ===== src/Decision/Policy.antt =====
-- What `HybridDecisionEngine.decide` of workflow/decision_engine.py chooses short of execution, and the
-- reasons it gives.
use snoc_automation_agent.Prelude.{
  ◌==◌, ◌||◌, ◌≡◌, ◌≢◌, ◌⊎◌, Bool, true, false, List, [], ◌∷◌, ◌++◌, String, arith, eq_iff, refl,
  Python, all, contains, Eq-String, dedup_from, not,
}
use snoc_automation_agent.Domain.Enums.{
  CorrelationStrength, FinalDecision, OperationStatus, Eq-OperationStatus,
}
use snoc_automation_agent.Decision.Schemas.{
  ProposedOperation, EmailAnalysis, SemanticVerification, MessageKind,
}
use snoc_automation_agent.Decision.Context.{DecisionContext}
use snoc_automation_agent.Decision.Assessment.{Assessment, assess, reason_if}
use snoc_automation_agent.Decision.Engine.{
  decide, choose, chosen_reasons, decision_reasons, incomplete_decision, is_sufficiently_correlated,
  is_correction, is_irrelevant, can_execute, hard_invariants, only_missing,
}

-- When the sender may be asked for more.
pub record IsAnswerable (analysis : EmailAnalysis) (context : DecisionContext) (a : Assessment)
    : Type 0 where
  pub authorized : context.authorized_sender ≡ true
  pub correlated :
      (context.correlation_strength ≡ CorrelationStrength.new)
      ⊎ (context.correlation_strength ≡ CorrelationStrength.strong)
  pub not_completed : context.operation_status ≢ OperationStatus.completed
  pub incomplete : (a.missing ≡ true) ⊎ (a.field_check.passed ≡ false)
  pub only : only_missing a ≡ true
  pub relevant : analysis.message_kind ≢ MessageKind.irrelevant
  pub not_automated : analysis.message_kind ≢ MessageKind.automated

incomplete_decision_asks :
    (context : DecisionContext) (a : Assessment) (correction : Bool)
    → incomplete_decision context a correction ≡ FinalDecision.ask_for_information
    → (only_missing a ≡ true)
      × (is_sufficiently_correlated context ≡ true)
      × (context.authorized_sender ≡ true)
unfolding incomplete_decision
incomplete_decision_asks context a correction h = ground arith

choose_asks :
    (analysis : EmailAnalysis) (verification : SemanticVerification) (context : DecisionContext)
    (a : Assessment)
    → choose analysis verification context a ≡ FinalDecision.ask_for_information
    → (is_irrelevant analysis ≡ false)
      × (context.operation_status == OperationStatus.completed ≡ false)
      × (a.missing || not a.field_check.passed ≡ true)
      × (incomplete_decision context a (is_correction analysis verification context)
          ≡ FinalDecision.ask_for_information)
unfolding choose
choose_asks analysis verification context a h = ground arith

correlated_well :
    (context : DecisionContext)
    → is_sufficiently_correlated context ≡ true
    → (context.correlation_strength ≡ CorrelationStrength.new)
      ⊎ (context.correlation_strength ≡ CorrelationStrength.strong)
correlated_well context h = ground arith

relevant_kind :
    (analysis : EmailAnalysis)
    → is_irrelevant analysis ≡ false
    → (analysis.message_kind ≢ MessageKind.irrelevant)
      × (analysis.message_kind ≢ MessageKind.automated)
relevant_kind analysis h = ground arith

not_completed :
    (status : OperationStatus)
    → status == OperationStatus.completed ≡ false
    → status ≢ OperationStatus.completed
not_completed status h = ground arith

something_missing : (a b : Bool) → a || not b ≡ true → (a ≡ true) ⊎ (b ≡ false)
something_missing a b h = ground arith

-- The policy asks for information only an authorized sender, about an operation that is not
-- completed in a new or strongly correlated request, when a field is missing and the field check
-- has no other complaint, and never about an irrelevant or automated message.
pub decide-IsAnswerable :
    (py : Python) (analysis : EmailAnalysis) (proposal : ProposedOperation)
    (verification : SemanticVerification) (context : DecisionContext)
    → (decide py analysis proposal verification context).decision
      ≡ FinalDecision.ask_for_information
    → IsAnswerable analysis context (assess py analysis proposal verification context)
unfolding decide
decide-IsAnswerable py analysis proposal verification context h =
    let a = assess py analysis proposal verification context in
    let (relevant, open_status, missing, asks) = choose_asks analysis verification context a h in
    let (only, correlated, authorized) =
      incomplete_decision_asks context a (is_correction analysis verification context) asks in
    let (kind, person) = relevant_kind analysis relevant in
    record {
      authorized = authorized;
      correlated = correlated_well context correlated;
      not_completed = not_completed context.operation_status open_status;
      incomplete = something_missing a.missing a.field_check.passed missing;
      only = only;
      relevant = kind;
      not_automated = person;
    }

contains-append :
    (r : String) (xs ys : List String) → contains r ys ≡ true → contains r (xs ++ ys) ≡ true
unfolding contains
contains-append r [] ys h = h
contains-append r (x ∷ xs) ys h = ground (arith, contains-append r xs ys h)

contains-append_left :
    (r : String) (xs ys : List String) → contains r xs ≡ true → contains r (xs ++ ys) ≡ true
unfolding contains
contains-append_left r [] ys h = absurd (ground arith)
contains-append_left r (x ∷ xs) ys h = ground (arith, contains-append_left r xs ys)

contains-dedup_from :
    (r : String) (seen xs : List String)
    → contains r seen ≡ false
    → contains r xs ≡ true
    → contains r (dedup_from seen xs) ≡ true
unfolding contains dedup_from
contains-dedup_from r seen [] fresh h = absurd (ground arith)
contains-dedup_from r seen (x ∷ xs) fresh h =
    ground (arith, eq_iff x r, contains-dedup_from r seen xs, contains-dedup_from r (x ∷ seen) xs)

contains-nothing : (r : String) → contains r [] ≡ false
unfolding contains
contains-nothing r = refl

reason_if-holds : (test : Bool) (r : String) → test ≡ true → contains r (reason_if test r) ≡ true
unfolding contains
reason_if-holds test r h = ground (arith, eq_iff r r)

can_execute_unauthorized :
    (context : DecisionContext) (a : Assessment)
    → context.authorized_sender ≡ false
    → can_execute context a ≡ false
unfolding can_execute hard_invariants all
can_execute_unauthorized context a h = rw h

unauthorized_reason :
    (context : DecisionContext) (a : Assessment)
    → context.authorized_sender ≡ false
    → contains "unauthorized_sender" (decision_reasons context a) ≡ true
unfolding decision_reasons
unauthorized_reason context a h = contains-append _ a.field_check.reasons _ (
    contains-append _ context.request_safety_reasons _ (
      contains-append _ a.safety_reasons _ (
        contains-append_left _ (reason_if (not context.authorized_sender) "unauthorized_sender") _
          (reason_if-holds _ "unauthorized_sender" (ground arith)))))

-- Whatever is chosen, the reasons are those found, with no reason lost.
chosen_reasons-contains :
    (analysis : EmailAnalysis) (verification : SemanticVerification) (context : DecisionContext)
    (a : Assessment) (r : String)
    → contains r (decision_reasons context a) ≡ true
    → contains r (chosen_reasons analysis verification context a) ≡ true
unfolding chosen_reasons
chosen_reasons-contains analysis verification context a r h = ground (
  arith,
  contains-dedup_from r [] (decision_reasons context a),
  contains-dedup_from r [] (
      decision_reasons context a
      ++ reason_if (not context.api_available) "business_api_unavailable"),
  contains-append_left r (decision_reasons context a)
      (reason_if (not context.api_available) "business_api_unavailable"),
  contains-nothing r,
)

incomplete_unauthorized :
    (context : DecisionContext) (a : Assessment) (correction : Bool)
    → context.authorized_sender ≡ false
    → (incomplete_decision context a correction ≡ FinalDecision.escalate)
      ⊎ (incomplete_decision context a correction ≡ FinalDecision.review_correction)
unfolding incomplete_decision
incomplete_unauthorized context a correction h = ground arith

choose_unauthorized :
    (analysis : EmailAnalysis) (verification : SemanticVerification) (context : DecisionContext)
    (a : Assessment)
    → context.authorized_sender ≡ false
    → (choose analysis verification context a ≡ FinalDecision.ignore)
      ⊎ ((choose analysis verification context a ≡ FinalDecision.escalate)
          ⊎ (choose analysis verification context a ≡ FinalDecision.review_correction))
unfolding choose
choose_unauthorized analysis verification context a h = ground (
  arith,
  can_execute_unauthorized context a h,
  incomplete_unauthorized context a (is_correction analysis verification context) h,
)

-- A message of an unauthorized sender is ignored, escalated or given to a person as a correction:
-- it is never executed and never answered with a question, and the reasons name the sender.
pub decide_unauthorized :
    (py : Python) (analysis : EmailAnalysis) (proposal : ProposedOperation)
    (verification : SemanticVerification) (context : DecisionContext)
    → context.authorized_sender ≡ false
    → let result = decide py analysis proposal verification context in
      ((result.decision ≡ FinalDecision.ignore)
        ⊎ ((result.decision ≡ FinalDecision.escalate)
            ⊎ (result.decision ≡ FinalDecision.review_correction)))
      × (contains "unauthorized_sender" result.reasons ≡ true)
unfolding decide
decide_unauthorized py analysis proposal verification context h =
    let a = assess py analysis proposal verification context in
    (
      choose_unauthorized analysis verification context a h,
      chosen_reasons-contains analysis verification context a "unauthorized_sender"
          (unauthorized_reason context a h),
    )
