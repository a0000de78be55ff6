-- ===== src/Decision/Provenance.antt =====
-- Where the values of a proposal come from: the provenance checks of `decide` in
-- workflow/decision_engine.py.
use mathlib.Core.List.{Memᴰ}
use snoc_automation_agent.Prelude.{
  ◌≡◌, ◌⊎◌, inl, inr, Bool, true, some, List, [], ◌∷◌, String, arith, Python, eq_iff, opt_eq_iff,
  any, is_none, ◌||◌, refl, all, All, contains, Bool-cases, Eq-String,
}
use snoc_automation_agent.Domain.Enums.{CorrelationStrength, Eq-OperationStatus}
use snoc_automation_agent.Domain.ValueObjects.{normalize_numeric}
use snoc_automation_agent.Decision.Schemas.{
  EvidenceSource, Support, FieldEvidence, ProposedOperation,
}
use snoc_automation_agent.Decision.Context.{DecisionContext}
use snoc_automation_agent.Decision.Evidence.{
  proposal_value, evidence_allowed, evidence_fits, present_required_evidence_allowed,
  is_phone_field,
}

-- The source of a value: the latest message, or the stored state of a strongly correlated request.
abbrev pub IsAllowedSource : DecisionContext → String → EvidenceSource → Type 0
IsAllowedSource context value source =
    ((source ≡ EvidenceSource.latest_user_message)
      × (contains value context.current_candidate_values ≡ true))
    ⊎ ((source ≡ EvidenceSource.stored_request_state)
        × (context.correlation_strength ≡ CorrelationStrength.strong)
        × (contains value context.stored_field_values ≡ true))

pub record Supports (py : Python) (context : DecisionContext) (field value : String)
    (e : FieldEvidence) : Type 0 where
  pub about : (e.field_name ≡ field) ⊎ ((field ≡ "new_phone") × (e.field_name ≡ "phone"))
  pub supported : e.support ≡ Support.supported
  pub same_value : normalize_numeric py (is_phone_field field) e.value ≡ some value
  pub allowed : IsAllowedSource context value e.source

-- A field of the proposal that has a value has evidence for it.
abbrev pub HasSource : Python → DecisionContext → ProposedOperation → String → Type 0
HasSource py context proposal field =
    (value : String)
    → proposal_value py proposal field ≡ some value
    → (e : FieldEvidence) × Memᴰ e proposal.evidence × Supports py context field value e

evidence_fits-Supports :
    (py : Python) (context : DecisionContext) (field value : String) (e : FieldEvidence)
    → evidence_fits py context field value e ≡ true
    → Supports py context field value e
unfolding evidence_fits
evidence_fits-Supports py context field value e h = ground (
  arith,
  eq_iff e.field_name field,
  eq_iff e.field_name "phone",
  eq_iff field "new_phone",
  opt_eq_iff (normalize_numeric py (is_phone_field field) e.value) (some value),
)

any-Memᴰ {ℓ} :
    {A : Type ℓ} (p : A → Bool) (xs : List A) → any p xs ≡ true → (x : A) × Memᴰ x xs × (p x ≡ true)
unfolding any
any-Memᴰ p [] h = absurd (ground arith)
any-Memᴰ p (x ∷ xs) h = elim (Bool-cases (p x)) [
  | inl e ↦ (x, Memᴰ.head refl, e)
  | inr e ↦ let (y, m, q) = any-Memᴰ p xs (ground arith) in (y, Memᴰ.tail m, q)
]

pub all-All {ℓ} :
    {A : Type ℓ} (p : A → Bool) (xs : List A) → all p xs ≡ true → All (λ x. p x ≡ true) xs
unfolding all
all-All p [] h = ground arith
all-All p (x ∷ xs) h = (ground arith, all-All p xs (ground arith))

All-map {ℓ κ μ} :
    {A : Type ℓ} {P : A → Type κ} {Q : A → Type μ} (xs : List A)
    → ((x : A) → P x → Q x)
    → All P xs
    → All Q xs
All-map [] f h = ground arith
All-map (x ∷ xs) f h = (f x h.0, All-map xs f h.1)

evidence_allowed-HasSource :
    (py : Python) (context : DecisionContext) (proposal : ProposedOperation) (field : String)
    → is_none (proposal_value py proposal field) || evidence_allowed py context proposal field
      ≡ true
    → HasSource py context proposal field
unfolding evidence_allowed
evidence_allowed-HasSource py context proposal field h value found =
    let (e, m, fits) =
      any-Memᴰ (evidence_fits py context field value) proposal.evidence (ground arith) in
    (e, m, evidence_fits-Supports py context field value e fits)

pub sources_of_required :
    (py : Python) (context : DecisionContext) (proposal : ProposedOperation)
    (required : List String)
    → context.enforce_evidence_provenance ≡ true
    → present_required_evidence_allowed py context proposal required ≡ true
    → All (HasSource py context proposal) required
unfolding present_required_evidence_allowed
sources_of_required py context proposal required enforced h =
    All-map required (evidence_allowed-HasSource py context proposal)
      (all-All _ required (ground arith))
