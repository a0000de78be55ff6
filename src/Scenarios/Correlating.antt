-- ===== src/Scenarios/Correlating.antt =====
-- A mail that answers a stored one.
use mathlib.Core.List.{Memᴰ}
use snoc_automation_agent.Prelude.{
  ◌≡◌, refl, ℕ, true, false, some, [], ◌∷◌, List, contains, head, Eq-ℕ, nat_eq_iff, arith, find,
  dedup_from, keep, any, all, insert_by, sort_by,
}
use snoc_automation_agent.Domain.Enums.{CorrelationStrength}
use snoc_automation_agent.Db.Session.{get_request}
use snoc_automation_agent.Correlation.{
  CorrelationLib, ParsedEmail, correlate_email, signals_of, gather, sender_mismatch,
  correlate_signals, conflicts_of, several, found_references, by_headers, by_marker, by_subject,
  conflicting, differ,
}
use snoc_automation_agent.Correlation.Queries.{
  by_any_rfc_id, request_for_message, by_outbound_rfc_id, by_public_reference,
  open_for_conversation, request_of_conversation, subject_candidates,
}
use snoc_automation_agent.Correlation.Strong.{request_id, IsSignal, Agrees}
use snoc_automation_agent.Correlation.Agreement.{IsKeyed, correlate_email-Agrees}
use snoc_automation_agent.Scenarios.{ascii, email, db}

abbrev lib : CorrelationLib
lib = record { python = ascii; upper = λ s. s; find_references = λ s. []; pick = head }

abbrev answer : ParsedEmail
answer = record {
  in_reply_to = some "<question@example.com>";
  references = [];
  subject = "Re: unblock";
  normalized_subject = "unblock";
  sender_address = "agent@example.com";
  latest_message_candidate = "87654321";
}

picks : (xs : List ℕ) (x : ℕ) → head xs ≡ some x → contains x xs ≡ true
unfolding head contains
picks [] x h = absurd (ground (arith, h))
picks (y ∷ xs) x h = ground (arith, h, nat_eq_iff y x)

keyed : IsKeyed db
unfolding get_request find
keyed r (Memᴰ.head e) = rw e refl
keyed r (Memᴰ.tail m) = elim m [ ]

strong : (correlate_email lib answer db).strength ≡ CorrelationStrength.strong
unfolding correlate_email correlate_signals conflicts_of several dedup_from signals_of by_any_rfc_id
    keep contains gather request_for_message by_outbound_rfc_id find found_references any
    sender_mismatch by_headers
strong = refl

signal :
    IsSignal db
      (signals_of lib answer db)
      email.conversation_id
      (request_id (request_for_message db email))
unfolding signals_of gather by_any_rfc_id keep contains
signal = IsSignal.header email (Memᴰ.head refl)

correlate_email-Agrees_example :
    Agrees (correlate_email lib answer db).conversation_id email.conversation_id
    × Agrees (correlate_email lib answer db).request_id (request_id (request_for_message db email))
    × (sender_mismatch lib answer db email.conversation_id ≡ false)
correlate_email-Agrees_example =
    correlate_email-Agrees lib answer db email.conversation_id
      (request_id (request_for_message db email)) picks keyed strong signal

named : (correlate_email lib answer db).request_id ≡ some 2
unfolding correlate_email correlate_signals conflicts_of several dedup_from signals_of by_any_rfc_id
    keep contains gather request_for_message by_outbound_rfc_id find found_references any
    sender_mismatch by_headers head by_marker by_public_reference by_subject conflicting differ
    open_for_conversation request_of_conversation subject_candidates get_request all insert_by
    sort_by
named = refl
