-- ===== src/Correlation/Agreement.antt =====
-- What a strong result of mail/correlation.py means for the signals of a mail.
use mathlib.Core.List.{Memᴰ}
use mathlib.Core.Path.{subst}
use snoc_automation_agent.Prelude.{
  ℕ, ◌≡◌, ◌∙◌, sym, ap, refl, inl, inr, Bool, true, false, Option, some, List, [], ◌∷◌, String,
  ◌==◌, Eq-ℕ, head, length, contains, arith, Bool-cases, Option-cases,
}
use snoc_automation_agent.Domain.Enums.{CorrelationStrength}
use snoc_automation_agent.Db.Models.{EmailMessage, BusinessRequest}
use snoc_automation_agent.Db.Session.{Db, get_request}
use snoc_automation_agent.Correlation.{
  CorrelationLib, CorrelationResult, ParsedEmail, Signals, gather, signals_of, sender_mismatch,
  conflicts_of, by_headers, by_marker, correlate_signals, correlate_email, direct_ids,
}
use snoc_automation_agent.Correlation.Queries.{
  by_public_reference, request_for_message, by_any_rfc_id,
}
use snoc_automation_agent.Correlation.Sets.{
  several_same, any-false, contains-map, options-Mem, Mem-options, find-Mem, Mem-contains,
}
use snoc_automation_agent.Correlation.Strong.{
  request_id, IsSignal, Agrees, IsCalm, conflicts-IsCalm, IsStrong, correlate_signals-IsStrong,
  pick-Agrees, pick-Agrees_other,
}

some_same : {a b : BusinessRequest} → some a ≡ some b → a ≡ b
some_same h = ground (arith, h)

head-Mem : (xs : List BusinessRequest) (r : BusinessRequest) → head xs ≡ some r → Memᴰ r xs
unfolding head
head-Mem [] r h = absurd (ground (arith, h))
head-Mem (x ∷ xs) r h = Memᴰ.head (sym (some_same h))

-- Primary keys: a row is the one that its key finds.
abbrev pub IsKeyed : Db → Type 0
IsKeyed db = (r : BusinessRequest) → Memᴰ r db.requests → get_request r.id db ≡ some r

module _ (lib : CorrelationLib)
    (law : (xs : List ℕ) (x : ℕ) → lib.pick xs ≡ some x → contains x xs ≡ true)
    (parsed : ParsedEmail) (db : Db) (direct : Bool) (header_ids : List String)
    (matches : List EmailMessage) where
  abbrev signals : Signals
  signals = gather lib parsed db direct header_ids matches

  abbrev IsAgreed : CorrelationResult → Option ℕ → Option ℕ → Type 0
  IsAgreed result c q =
      Agrees result.conversation_id c
      × Agrees result.request_id q
      × (sender_mismatch lib parsed db c ≡ false)

  conversation_signal :
      (m : EmailMessage) (c : ℕ)
      → Memᴰ m matches
      → m.conversation_id ≡ some c
      → contains c signals.header_conversations ≡ true
  unfolding gather
  conversation_signal m c at e =
      Mem-contains c _ (options-Mem (λ (x : EmailMessage). x.conversation_id) m c matches at e)

  request_signal :
      (m : EmailMessage) (r : BusinessRequest)
      → Memᴰ m matches
      → request_for_message db m ≡ some r
      → contains r.id signals.header_requests ≡ true
  unfolding gather
  request_signal m r at e =
      contains-map (λ (x : BusinessRequest). x.id) r _
        (options-Mem (request_for_message db) m r matches at e)

  header-IsAgreed :
      (m : EmailMessage)
      → IsCalm lib parsed db signals
      → Memᴰ m signals.header_matches
      → IsAgreed (by_headers lib signals) m.conversation_id (request_id (request_for_message db m))
  unfolding gather by_headers
  header-IsAgreed m calm at = (
    elim (Option-cases m.conversation_id) [
      | inl e ↦ inr (inl e)
      | inr (c, e) ↦
          rw e (pick-Agrees lib law _ c calm.one_conversation (conversation_signal m c at e))
    ],
    elim (Option-cases (request_for_message db m)) [
      | inl e ↦ rw e (inr (inl refl))
      | inr (r, e) ↦ rw e (pick-Agrees lib law _ r.id calm.one_request (request_signal m r at e))
    ],
    any-false (λ (x : EmailMessage). sender_mismatch lib parsed db x.conversation_id) m matches
        calm.header_senders at,
  )

  marker-IsAgreed :
      (r : BusinessRequest)
      → IsCalm lib parsed db signals
      → Memᴰ r signals.marker_requests
      → IsAgreed (by_headers lib signals) (some r.conversation_id) (some r.id)
  unfolding gather by_headers
  marker-IsAgreed r calm at = (
    pick-Agrees_other lib law _ _ r.conversation_id calm.one_conversation calm.same_conversation
        (contains-map (λ (x : BusinessRequest). x.conversation_id) r _ at),
    pick-Agrees_other lib law _ _ r.id calm.one_request calm.same_request
        (contains-map (λ (x : BusinessRequest). x.id) r _ at),
    any-false (λ (x : BusinessRequest). sender_mismatch lib parsed db (some x.conversation_id)) r _
        calm.marker_senders at,
  )

  -- A visible request is the row that its id finds.
  marker-keyed :
      (r : BusinessRequest)
      → IsKeyed db
      → Memᴰ r signals.marker_requests
      → get_request r.id db ≡ some r
  unfolding gather by_public_reference
  marker-keyed r keyed at =
      let (reference, found) = Mem-options (λ (x : String). by_public_reference x db) r _ at in
      keyed r (find-Mem _ db.requests r found)

  visible-IsAgreed :
      (request r : BusinessRequest)
      → IsKeyed db
      → IsCalm lib parsed db signals
      → Memᴰ request signals.marker_requests
      → Memᴰ r signals.marker_requests
      → IsAgreed (by_marker request) (some r.conversation_id) (some r.id)
  unfolding gather by_marker
  visible-IsAgreed request r keyed calm first at =
      let ids : request.id ≡ r.id =
        several_same request.id r.id signals.marker_request_ids calm.one_marker
          (contains-map (λ (x : BusinessRequest). x.id) request _ first)
          (contains-map (λ (x : BusinessRequest). x.id) r _ at) in
      let same : request ≡ r = some_same (
        sym (marker-keyed request keyed first)
        ∙ ap (λ n. get_request n db) ids
        ∙ marker-keyed r keyed at) in
      (
        inr (inr (ap (λ (x : BusinessRequest). some x.conversation_id) same)),
        inr (inr (ap some ids)),
        any-false (λ (x : BusinessRequest). sender_mismatch lib parsed db (some x.conversation_id))
            r _ calm.marker_senders at,
      )

  no_header : (m : EmailMessage) → signals.header_matches ≡ [] → Memᴰ m signals.header_matches → ⊥
  no_header m none_matched at = elim (subst (Memᴰ m) none_matched at) [ ]

  strong-IsAgreed :
      (result : CorrelationResult) (c q : Option ℕ)
      → IsKeyed db
      → IsCalm lib parsed db signals
      → IsStrong lib signals result
      → IsSignal db signals c q
      → IsAgreed result c q
  strong-IsAgreed result c q keyed calm (IsStrong.headers e) (IsSignal.header m at) =
      rw e (header-IsAgreed m calm at)
  strong-IsAgreed result c q keyed calm (IsStrong.headers e) (IsSignal.marker r at) =
      rw e (marker-IsAgreed r calm at)
  strong-IsAgreed result c q keyed calm (IsStrong.visible request unmatched first e)
        (IsSignal.header m at) =
      absurd (no_header m unmatched at)
  strong-IsAgreed result c q keyed calm (IsStrong.visible request unmatched first e)
        (IsSignal.marker r at) =
      rw e (visible-IsAgreed request r keyed calm (head-Mem _ request first) at)

  gathered-IsAgreed :
      (c q : Option ℕ)
      → IsKeyed db
      → let result = correlate_signals lib parsed db signals (conflicts_of lib parsed db signals) in
        result.strength ≡ CorrelationStrength.strong → IsSignal db signals c q → IsAgreed result c q
  gathered-IsAgreed c q keyed h signal =
      let (calm, strong) =
        correlate_signals-IsStrong lib parsed db signals (conflicts_of lib parsed db signals) h in
      strong-IsAgreed _ c q keyed (conflicts-IsCalm lib parsed db signals calm) strong signal

signals_of-cases :
    (lib : CorrelationLib) (parsed : ParsedEmail) (db : Db)
    → (direct : Bool) × (ids : List String) × (matches : List EmailMessage) × (signals_of lib parsed
          db
        ≡ gather lib parsed db direct ids matches)
unfolding signals_of
signals_of-cases lib parsed db =
    let direct_matches = by_any_rfc_id (direct_ids parsed.in_reply_to) db in
    elim (Bool-cases (length direct_matches == 0)) [
      | inl e ↦ (false, parsed.references, by_any_rfc_id parsed.references db, rw e refl)
      | inr e ↦ (true, direct_ids parsed.in_reply_to, direct_matches, rw e refl)
    ]

-- A strong correlation contradicts no signal that the correlation reads, whatever element is picked
-- from the sets: of a stored message that In-Reply-To names, or, where it names none, that
-- References names, and of a request whose reference is visible, it names the conversation and the
-- request, or none, and the sender is that of their conversation, where it has one.
pub correlate_email-Agrees :
    (lib : CorrelationLib) (parsed : ParsedEmail) (db : Db) (c q : Option ℕ)
    → ((xs : List ℕ) (x : ℕ) → lib.pick xs ≡ some x → contains x xs ≡ true)
    → IsKeyed db
    → (correlate_email lib parsed db).strength ≡ CorrelationStrength.strong
    → IsSignal db (signals_of lib parsed db) c q
    → Agrees (correlate_email lib parsed db).conversation_id c
      × Agrees (correlate_email lib parsed db).request_id q
      × (sender_mismatch lib parsed db c ≡ false)
unfolding correlate_email
correlate_email-Agrees lib parsed db c q law keyed h signal =
    let (direct, ids, matches, e) = signals_of-cases lib parsed db in
    let agreed : Signals → Type 0 = λ s.
      let result = correlate_signals lib parsed db s (conflicts_of lib parsed db s) in
      Agrees result.conversation_id c
      × Agrees result.request_id q
      × (sender_mismatch lib parsed db c ≡ false) in
    subst agreed (sym e) (
      gathered-IsAgreed lib law parsed db direct ids matches c q keyed
        (subst
          (λ s.
            (correlate_signals lib parsed db s (conflicts_of lib parsed db s)).strength
            ≡ CorrelationStrength.strong)
          e h)
        (subst (λ s. IsSignal db s c q) e signal))
