-- ===== src/Correlation.antt =====
-- mail/correlation.py: which conversation and request an incoming mail belongs to, with the queries of
-- db/repositories/ that it makes (Queries). The matches of REQUEST_REFERENCE_RE are a parameter, and so is the
-- element that `next(iter(…))` takes from a set; a set is a list, in which repetitions do not count.
pub mod Queries
pub mod Sets
pub mod Strong
pub mod Agreement
use snoc_automation_agent.Prelude.{
  ℕ, Bool, true, false, not, ◌&&◌, ◌||◌, Option, none, some, List, [], ◌∷◌, ◌++◌, String, ◌==◌,
  Eq-ℕ, Eq-String, Eq-Option, if◌then◌else◌, is_empty, is_some, any, all, keep, find, head, map,
  length, contains, dedup_from, sort_by, leb, ltb, or_blank, Python,
}
use snoc_automation_agent.Domain.Enums.{
  RequestStatus, ClarificationStatus, CorrelationStrength, Eq-RequestStatus, Eq-ClarificationStatus,
}
use snoc_automation_agent.Db.Models.{
  Conversation, EmailMessage, BusinessRequest, Clarification, OutboxMessage,
}
use snoc_automation_agent.Db.Session.{Db, get_email, get_request}
use snoc_automation_agent.Correlation.Queries.{
  by_any_rfc_id, by_outbound_rfc_id, open_for_conversation, by_public_reference, subject_candidates,
  only, request_for_message,
}

pub record CorrelationResult : Type 0 where
  pub conversation_id : Option ℕ
  pub request_id : Option ℕ
  pub clarification_id : Option ℕ
  pub strength : CorrelationStrength
  pub matched_by : String
  pub conflicts : List String

-- The fields of ParsedEmail that are read.
pub record ParsedEmail : Type 0 where
  pub in_reply_to : Option String
  pub references : List String
  pub subject : String
  pub normalized_subject : String
  pub sender_address : String
  pub latest_message_candidate : String

pub record CorrelationLib : Type 0 where
  pub python : Python
  pub upper : String → String
  pub find_references : String → List String
  pub pick : List ℕ → Option ℕ

abbrev pub kept {ℓ} : {A : Type ℓ} → Option A → List A → List A
kept none xs = xs
kept (some a) xs = a ∷ xs

abbrev pub options {ℓ} : {A : Type ℓ} → List (Option A) → List A
options [] = []
options (o ∷ xs) = kept o (options xs)

unfoldable pub found_references : CorrelationLib → List String → List String
found_references lib [] = []
found_references lib (value ∷ values) =
    (if is_empty value then [] else map lib.upper (lib.find_references value))
    ++ found_references lib values

-- `parse_request_references` of mail/markers.py
abbrev parse_request_references : CorrelationLib → List String → List String
parse_request_references lib values = dedup_from [] (found_references lib values)

-- The local names of `correlate_email`.
pub record Signals : Type 0 where
  pub direct : Bool
  pub header_matches : List EmailMessage
  pub header_conversations : List ℕ
  pub header_requests : List ℕ
  pub clarification_ids : List ℕ
  pub marker_requests : List BusinessRequest
  pub marker_request_ids : List ℕ
  pub marker_conversations : List ℕ

abbrev pub direct_ids : Option String → List String
direct_ids in_reply_to = let id = or_blank in_reply_to in if is_empty id then [] else id ∷ []

abbrev pub request_ids : List BusinessRequest → List ℕ
request_ids requests = map (λ (r : BusinessRequest). r.id) requests

unfoldable pub gather :
    CorrelationLib → ParsedEmail → Db → Bool → List String → List EmailMessage → Signals
gather lib parsed db direct header_ids header_matches =
    let marker_requests = options (
      map (λ (reference : String). by_public_reference reference db)
        (parse_request_references lib (parsed.subject ∷ parsed.latest_message_candidate ∷ []))) in
    record {
      direct = direct;
      header_matches = header_matches;
      header_conversations = options (map (λ (m : EmailMessage). m.conversation_id) header_matches);
      header_requests = request_ids (options (map (request_for_message db) header_matches));
      clarification_ids =
          map (λ (c : Clarification). c.id)
            (options (map (λ (id : String). by_outbound_rfc_id id db) header_ids));
      marker_requests = marker_requests;
      marker_request_ids = request_ids marker_requests;
      marker_conversations = map (λ (r : BusinessRequest). r.conversation_id) marker_requests;
    }

unfoldable pub signals_of : CorrelationLib → ParsedEmail → Db → Signals
signals_of lib parsed db =
    let direct_matches = by_any_rfc_id (direct_ids parsed.in_reply_to) db in
    if length direct_matches == 0
    then gather lib parsed db false parsed.references (by_any_rfc_id parsed.references db)
    else gather lib parsed db true (direct_ids parsed.in_reply_to) direct_matches

-- `len(s) > 1`, the truth of a set, and `s != t`.
unfoldable pub several : List ℕ → Bool
several s = ltb 1 (length (dedup_from [] s))

abbrev pub nonempty {ℓ} : {A : Type ℓ} → List A → Bool
nonempty [] = false
nonempty (x ∷ xs) = true

unfoldable pub differ : List ℕ → List ℕ → Bool
differ s t = not (all (λ x. contains x t) s && all (λ x. contains x s) t)

abbrev sender_of : ℕ → Db → Option String
sender_of conversation_id db =
    elim (find (λ (c : Conversation). c.id == conversation_id) db.conversations) [
      | none ↦ none
      | some conversation ↦ conversation.primary_sender
    ]

abbrev other_sender : CorrelationLib → ParsedEmail → Option String → Bool
other_sender lib parsed none = false
other_sender lib parsed (some s) =
    not (is_empty s) && not (lib.python.casefold s == parsed.sender_address)

-- The conversation has a sender, who is not that of the mail.
unfoldable pub sender_mismatch : CorrelationLib → ParsedEmail → Db → Option ℕ → Bool
sender_mismatch lib parsed db none = false
sender_mismatch lib parsed db (some conversation_id) =
    other_sender lib parsed (sender_of conversation_id db)

abbrev report : Bool → String → List String
report test text = if test then text ∷ [] else []

unfoldable pub conflicts_of : CorrelationLib → ParsedEmail → Db → Signals → List String
conflicts_of lib parsed db s =
    report (several s.header_conversations) "headers_reference_multiple_conversations"
    ++ report (several s.header_requests) "headers_reference_multiple_requests"
    ++ report (several s.marker_request_ids) "multiple_visible_request_markers"
    ++ report
        (nonempty s.header_requests
          && (nonempty s.marker_request_ids && differ s.header_requests s.marker_request_ids))
        "header_marker_request_conflict"
    ++ report
        (nonempty s.header_conversations
          && (nonempty s.marker_conversations
              && differ s.header_conversations s.marker_conversations))
        "header_marker_conversation_conflict"
    ++ report
        (any (λ (r : BusinessRequest). sender_mismatch lib parsed db (some r.conversation_id))
          s.marker_requests)
        "marker_sender_mismatch"
    ++ report
        (any (λ (m : EmailMessage). sender_mismatch lib parsed db m.conversation_id)
          s.header_matches)
        "header_sender_mismatch"

abbrev either_set : List ℕ → List ℕ → List ℕ
either_set s t = if nonempty s then s else t

unfoldable pub conflicting : CorrelationLib → Signals → List String → CorrelationResult
conflicting lib s conflicts = record {
  conversation_id = lib.pick (either_set s.header_conversations s.marker_conversations);
  request_id = lib.pick (either_set s.header_requests s.marker_request_ids);
  clarification_id = lib.pick s.clarification_ids;
  strength = CorrelationStrength.conflict;
  matched_by = "conflicting_signals";
  conflicts = conflicts;
}

unfoldable pub by_headers : CorrelationLib → Signals → CorrelationResult
by_headers lib s = record {
  conversation_id = lib.pick s.header_conversations;
  request_id = lib.pick s.header_requests;
  clarification_id = lib.pick s.clarification_ids;
  strength = CorrelationStrength.strong;
  matched_by = if s.direct then "in_reply_to" else "references";
  conflicts = [];
}

unfoldable pub by_marker : BusinessRequest → CorrelationResult
by_marker request = record {
  conversation_id = some request.conversation_id;
  request_id = some request.id;
  clarification_id = none;
  strength = CorrelationStrength.strong;
  matched_by = "visible_request_marker";
  conflicts = [];
}

abbrev weak : Option ℕ → Option ℕ → List String → CorrelationResult
weak conversation_id request_id conflicts = record {
  conversation_id = conversation_id;
  request_id = request_id;
  clarification_id = none;
  strength = CorrelationStrength.weak;
  matched_by = "normalized_subject";
  conflicts = conflicts;
}

unfoldable pub by_subject : Db → List Conversation → CorrelationResult
by_subject db [] = record {
  conversation_id = none;
  request_id = none;
  clarification_id = none;
  strength = CorrelationStrength.new;
  matched_by = "new_conversation";
  conflicts = [];
}
by_subject db (candidate ∷ []) =
    let open_requests = open_for_conversation candidate.id db in
    weak (some candidate.id) (elim (only open_requests) [ none ↦ none | some r ↦ some r.id ])
      (report (ltb 1 (length open_requests)) "multiple_open_requests")
by_subject db (candidate ∷ other ∷ rest) =
    weak none none ("subject_matches_multiple_conversations" ∷ [])

unfoldable pub correlate_signals :
    CorrelationLib → ParsedEmail → Db → Signals → List String → CorrelationResult
correlate_signals lib parsed db s (conflict ∷ conflicts) = conflicting lib s (conflict ∷ conflicts)
correlate_signals lib parsed db s [] =
    if nonempty s.header_matches then by_headers lib s else elim (head s.marker_requests) [
      | some request ↦ by_marker request
      | none ↦ by_subject db (subject_candidates parsed.normalized_subject parsed.sender_address db)
    ]

unfoldable pub correlate_email : CorrelationLib → ParsedEmail → Db → CorrelationResult
correlate_email lib parsed db =
    let s = signals_of lib parsed db in
    correlate_signals lib parsed db s (conflicts_of lib parsed db s)
