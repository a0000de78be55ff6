-- ===== src/Decision/Schemas.antt =====
-- ai/schemas.py: the model output that the decision policy reads. A confidence is a number in a
-- fixed unit, since the policy only compares it; the answers "yes" and "no" are `affirmed` and
-- `denied`. The fields that no modelled code reads are left out.
use snoc_automation_agent.Prelude.{ℕ, ◌≡◌, ◌↔◌, Bool, true, arith, nat_eq, Eq, Option, List, String}

pub data EvidenceSource : Type 0 where
  subject latest_user_message current_visible_html stored_request_state previous_agent_question
        relevant_thread_context quoted_closed_history forwarded_block signature attachment header
        workflow_marker unknown :
      EvidenceSource

abbrev evidence_source_index : EvidenceSource → ℕ
evidence_source_index EvidenceSource.subject = 0
evidence_source_index EvidenceSource.latest_user_message = 1
evidence_source_index EvidenceSource.current_visible_html = 2
evidence_source_index EvidenceSource.stored_request_state = 3
evidence_source_index EvidenceSource.previous_agent_question = 4
evidence_source_index EvidenceSource.relevant_thread_context = 5
evidence_source_index EvidenceSource.quoted_closed_history = 6
evidence_source_index EvidenceSource.forwarded_block = 7
evidence_source_index EvidenceSource.signature = 8
evidence_source_index EvidenceSource.attachment = 9
evidence_source_index EvidenceSource.header = 10
evidence_source_index EvidenceSource.workflow_marker = 11
evidence_source_index EvidenceSource.unknown = 12

abbrev evidence_source_eq : EvidenceSource → EvidenceSource → Bool
evidence_source_eq a b = nat_eq (evidence_source_index a) (evidence_source_index b)

pub evidence_source_eq_iff : (a b : EvidenceSource) → (evidence_source_eq a b ≡ true) ↔ (a ≡ b)
evidence_source_eq_iff a b = ground arith

instance abbrev pub Eq-EvidenceSource : Eq EvidenceSource
Eq-EvidenceSource = record { same = evidence_source_eq; same_iff = evidence_source_eq_iff }

pub data Support : Type 0 where
  supported unsupported unclear : Support

abbrev support_index : Support → ℕ
support_index Support.supported = 0
support_index Support.unsupported = 1
support_index Support.unclear = 2

abbrev support_eq : Support → Support → Bool
support_eq a b = nat_eq (support_index a) (support_index b)

pub support_eq_iff : (a b : Support) → (support_eq a b ≡ true) ↔ (a ≡ b)
support_eq_iff a b = ground arith

instance abbrev pub Eq-Support : Eq Support
Eq-Support = record { same = support_eq; same_iff = support_eq_iff }

pub data MessageKind : Type 0 where
  new_request clarification_reply correction cancellation mixed irrelevant forwarded_request
        hypothetical_or_question reporting_or_example ambiguous automated :
      MessageKind

abbrev message_kind_index : MessageKind → ℕ
message_kind_index MessageKind.new_request = 0
message_kind_index MessageKind.clarification_reply = 1
message_kind_index MessageKind.correction = 2
message_kind_index MessageKind.cancellation = 3
message_kind_index MessageKind.mixed = 4
message_kind_index MessageKind.irrelevant = 5
message_kind_index MessageKind.forwarded_request = 6
message_kind_index MessageKind.hypothetical_or_question = 7
message_kind_index MessageKind.reporting_or_example = 8
message_kind_index MessageKind.ambiguous = 9
message_kind_index MessageKind.automated = 10

abbrev message_kind_eq : MessageKind → MessageKind → Bool
message_kind_eq a b = nat_eq (message_kind_index a) (message_kind_index b)

pub message_kind_eq_iff : (a b : MessageKind) → (message_kind_eq a b ≡ true) ↔ (a ≡ b)
message_kind_eq_iff a b = ground arith

instance abbrev pub Eq-MessageKind : Eq MessageKind
Eq-MessageKind = record { same = message_kind_eq; same_iff = message_kind_eq_iff }

pub data Answer : Type 0 where
  affirmed denied unclear not_required : Answer

abbrev answer_index : Answer → ℕ
answer_index Answer.affirmed = 0
answer_index Answer.denied = 1
answer_index Answer.unclear = 2
answer_index Answer.not_required = 3

abbrev answer_eq : Answer → Answer → Bool
answer_eq a b = nat_eq (answer_index a) (answer_index b)

pub answer_eq_iff : (a b : Answer) → (answer_eq a b ≡ true) ↔ (a ≡ b)
answer_eq_iff a b = ground arith

instance abbrev pub Eq-Answer : Eq Answer
Eq-Answer = record { same = answer_eq; same_iff = answer_eq_iff }

pub record FieldEvidence : Type 0 where
  pub field_name : String
  pub value : Option String
  pub source : EvidenceSource
  pub support : Support

pub record ProposedOperation : Type 0 where
  pub local_operation_id : String
  pub action : String
  pub pdv_code : Option String
  pub phone : Option String
  pub additional_fields : List (String × Option String)
  pub missing_fields : List String
  pub evidence : List FieldEvidence
  pub ambiguity_reasons : List String
  pub raw_action_confidence : Option ℕ

pub record EmailAnalysis : Type 0 where
  pub message_kind : MessageKind
  pub operations : List ProposedOperation
  pub contradiction_with_stored_state : Bool
  pub unresolved_ambiguities : List String

pub record SemanticVerification : Type 0 where
  pub action_supported : Answer
  pub pdv_supported : Answer
  pub phone_supported : Answer
  pub stored_state_compatible : Answer
  pub contradiction_present : Bool
  pub contradiction_type : Option String
  pub missing_fields : List String
  pub additional_fields_supported : List (String × Answer)
  pub correction_detected : Bool
  pub new_request_detected : Bool
  pub raw_confidence : Option ℕ
  pub ambiguity_detected : Bool
  pub direct_current_instruction : Answer
  pub hypothetical_or_conditional : Bool
  pub subject_body_conflict : Bool
  pub evidence_sources_valid : Bool
  pub candidate_mapping_explicit : Option Bool
