-- ===== src/Correlation/Strong.antt =====
-- Where mail/correlation.py answers with a strong correlation, and that it reports no conflict then.
use mathlib.Core.List.{Memᴰ}
use snoc_automation_agent.Prelude.{
  ℕ, ◌≡◌, ◌∙◌, ap, refl, ◌⊎◌, inl, inr, true, false, ◌&&◌, Option, none, some, List, [], ◌∷◌,
  String, Eq-ℕ, any, head, contains, arith, Bool-cases, Option-cases,
}
use snoc_automation_agent.Domain.Enums.{CorrelationStrength}
use snoc_automation_agent.Db.Models.{EmailMessage, BusinessRequest, Conversation}
use snoc_automation_agent.Db.Session.{Db}
use snoc_automation_agent.Correlation.{
  CorrelationLib, CorrelationResult, ParsedEmail, Signals, several, differ, nonempty,
  sender_mismatch, conflicts_of, conflicting, by_headers, by_marker, by_subject, correlate_signals,
}
use snoc_automation_agent.Correlation.Queries.{request_for_message, subject_candidates}
use snoc_automation_agent.Correlation.Sets.{several_same, differ-contains, contains-nonempty}

-- The id of a request that was found.
abbrev pub request_id : Option BusinessRequest → Option ℕ
request_id none = none
request_id (some r) = some r.id

-- What the correlation reads to find a conversation and a request: a stored message that In-Reply-To
-- names or, where no stored message has that name, one that References names, or a request whose
-- reference is visible. Once In-Reply-To names a stored message, References are not read.
pub data IsSignal (db : Db) (s : Signals) : Option ℕ → Option ℕ → Type 0 where
  header :
      (m : EmailMessage)
      → Memᴰ m s.header_matches
      → IsSignal db s m.conversation_id (request_id (request_for_message db m))
  marker :
      (r : BusinessRequest)
      → Memᴰ r s.marker_requests
      → IsSignal db s (some r.conversation_id) (some r.id)

-- One of them is absent, or they are the same.
abbrev pub Agrees : Option ℕ → Option ℕ → Type 0
Agrees a b = (a ≡ none) ⊎ ((b ≡ none) ⊎ (a ≡ b))

-- No test for a conflict is positive.
pub record IsCalm (lib : CorrelationLib) (parsed : ParsedEmail) (db : Db) (s : Signals)
    : Type 0 where
  pub one_conversation : several s.header_conversations ≡ false
  pub one_request : several s.header_requests ≡ false
  pub one_marker : several s.marker_request_ids ≡ false
  pub same_request :
      nonempty s.header_requests
        && (nonempty s.marker_request_ids && differ s.header_requests s.marker_request_ids)
      ≡ false
  pub same_conversation :
      nonempty s.header_conversations
        && (nonempty s.marker_conversations && differ s.header_conversations s.marker_conversations)
      ≡ false
  pub marker_senders :
      any
        (λ (r : BusinessRequest). sender_mismatch lib parsed db (some r.conversation_id))
        s.marker_requests
      ≡ false
  pub header_senders :
      any (λ (m : EmailMessage). sender_mismatch lib parsed db m.conversation_id) s.header_matches
      ≡ false

pub conflicts-IsCalm :
    (lib : CorrelationLib) (parsed : ParsedEmail) (db : Db) (s : Signals)
    → conflicts_of lib parsed db s ≡ []
    → IsCalm lib parsed db s
unfolding conflicts_of
conflicts-IsCalm lib parsed db s h = record {
  one_conversation = ground (arith, h);
  one_request = ground (arith, h);
  one_marker = ground (arith, h);
  same_request = ground (arith, h);
  same_conversation = ground (arith, h);
  marker_senders = ground (arith, h);
  header_senders = ground (arith, h);
}

pub data IsStrong (lib : CorrelationLib) (s : Signals) (result : CorrelationResult) : Type 0 where
  headers : result ≡ by_headers lib s → IsStrong lib s result
  visible :
      (request : BusinessRequest)
      → s.header_matches ≡ []
      → head s.marker_requests ≡ some request
      → result ≡ by_marker request
      → IsStrong lib s result

by_subject-ne-strong :
    (db : Db) (candidates : List Conversation)
    → (by_subject db candidates).strength ≡ CorrelationStrength.strong
    → ⊥
unfolding by_subject
by_subject-ne-strong db [] h = ground (arith, h)
by_subject-ne-strong db (c ∷ []) h = ground (arith, h)
by_subject-ne-strong db (c ∷ d ∷ rest) h = ground (arith, h)

empty_matches : (ms : List EmailMessage) → nonempty ms ≡ false → ms ≡ []
empty_matches [] h = refl
empty_matches (m ∷ ms) h = absurd (ground (arith, h))

pub correlate_signals-IsStrong :
    (lib : CorrelationLib) (parsed : ParsedEmail) (db : Db) (s : Signals) (conflicts : List String)
    → (correlate_signals lib parsed db s conflicts).strength ≡ CorrelationStrength.strong
    → (conflicts ≡ []) × IsStrong lib s (correlate_signals lib parsed db s conflicts)
unfolding correlate_signals conflicting
correlate_signals-IsStrong lib parsed db s (c ∷ cs) h = absurd (ground (arith, h))
correlate_signals-IsStrong lib parsed db s [] h = elim (Bool-cases (nonempty s.header_matches)) [
  | inl e ↦ (refl, IsStrong.headers (rw e refl))
  | inr e ↦ elim (Option-cases (head s.marker_requests)) [
    | inl none_visible ↦ absurd (
        by_subject-ne-strong db
          (subject_candidates parsed.normalized_subject parsed.sender_address db)
          (ground (arith, e, none_visible, h)))
    | inr (request, found) ↦ (
      refl,
      IsStrong.visible request (empty_matches s.header_matches e) found (rw (e, found) refl),
    )
  ]
]

module _ (lib : CorrelationLib)
    (law : (xs : List ℕ) (x : ℕ) → lib.pick xs ≡ some x → contains x xs ≡ true) where
  pub pick-Agrees :
      (xs : List ℕ) (y : ℕ)
      → several xs ≡ false
      → contains y xs ≡ true
      → Agrees (lib.pick xs) (some y)
  pick-Agrees xs y alone m = elim (Option-cases (lib.pick xs)) [
    | inl e ↦ inl e
    | inr (p, e) ↦ inr (inr (e ∙ ap some (several_same p y xs alone (law xs p e) m)))
  ]

  -- The sets of the headers and of the markers do not differ where both have elements.
  pub pick-Agrees_other :
      (xs ys : List ℕ) (y : ℕ)
      → several xs ≡ false
      → nonempty xs && (nonempty ys && differ xs ys) ≡ false
      → contains y ys ≡ true
      → Agrees (lib.pick xs) (some y)
  pick-Agrees_other xs ys y alone same m = elim (Option-cases (lib.pick xs)) [
    | inl e ↦ inl e
    | inr (p, e) ↦
        let here = law xs p e in
        let both : differ xs ys ≡ false =
          ground (arith, same, contains-nonempty p xs here, contains-nonempty y ys m) in
        pick-Agrees xs y alone (differ-contains xs ys y both m)
  ]
