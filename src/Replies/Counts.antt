-- ===== src/Replies/Counts.antt =====
-- What a stored message of workflow/reply_service.py adds to the counts of a request's messages.
use snoc_automation_agent.Prelude.{
  ℕ, ◌+◌, ◌≡◌, ◌∙◌, ap, Bool, false, ◌&&◌, Option, some, [], ◌∷◌, ◌==◌, Eq-ℕ, Eq-String, Eq-Option,
  if◌then◌else◌, count_where, dict_get, dict_set, dict_merge, arith,
}
use snoc_automation_agent.Prelude.Tables.{count-append}
use snoc_automation_agent.Db.Models.{EmailMessage, BusinessRequest, OutboxMessage}
use snoc_automation_agent.Db.Session.{Db}
use snoc_automation_agent.Outbox.{Headers}
use snoc_automation_agent.Replies.Services.{is_acknowledgement}
use snoc_automation_agent.Replies.Created.{IsCreated}

abbrev pub is_completion : ℕ → OutboxMessage → Bool
is_completion request_id o =
    o.related_request_id == some request_id
    && dict_get "X-SNOC-Reply-Type" o.headers == some "completion"

-- The headers that the services add.
abbrev pub asking_headers : Headers
asking_headers = ("X-SNOC-Reply-Type", "clarification") ∷ []

abbrev pub summary_headers : Headers
summary_headers = ("X-SNOC-Reply-Type", "completion") ∷ []

abbrev pub acknowledgement_headers : Headers
acknowledgement_headers =
    ("X-SNOC-Pending-Execution", "true") ∷ ("X-SNOC-Reply-Type", "acknowledgement") ∷ []

module _ (request : BusinessRequest) (cid : Option ℕ) (db stored : Db) (outbound : EmailMessage)
    (row : OutboxMessage) where
  pub created-count :
      (extra : Headers) (p : OutboxMessage → Bool)
      → IsCreated request extra cid db outbound row stored
      → count_where p stored.outbox ≡ count_where p db.outbox + (if p row then 1 else 0)
  unfolding count_where
  created-count extra p created =
      let both = count-append p db.outbox (row ∷ []) in
      ap (λ (x : Db). count_where p x.outbox) created.stored ∙ both ∙ omega arith

  pub asking-acknowledgement :
      (r : ℕ)
      → IsCreated request asking_headers cid db outbound row stored
      → is_acknowledgement r row ≡ false
  unfolding dict_get dict_merge dict_set
  asking-acknowledgement r created = ground (arith, created.headers)

  pub asking-completion :
      (r : ℕ)
      → IsCreated request asking_headers cid db outbound row stored
      → is_completion r row ≡ false
  unfolding dict_get dict_merge dict_set
  asking-completion r created = ground (arith, created.headers)

  pub summary-acknowledgement :
      (r : ℕ)
      → IsCreated request summary_headers cid db outbound row stored
      → is_acknowledgement r row ≡ false
  unfolding dict_get dict_merge dict_set
  summary-acknowledgement r created = ground (arith, created.headers)

  pub summary-completion :
      (r : ℕ)
      → IsCreated request summary_headers cid db outbound row stored
      → is_completion r row ≡ (request.id == r)
  unfolding dict_get dict_merge dict_set
  summary-completion r created = ground (arith, created.headers, created.related)

  pub acknowledgement-completion :
      (r : ℕ)
      → IsCreated request acknowledgement_headers cid db outbound row stored
      → is_completion r row ≡ false
  unfolding dict_get dict_merge dict_set
  acknowledgement-completion r created = ground (arith, created.headers)

  pub acknowledgement-acknowledgement :
      (r : ℕ)
      → IsCreated request acknowledgement_headers cid db outbound row stored
      → is_acknowledgement r row ≡ (request.id == r)
  unfolding dict_get dict_merge dict_set
  acknowledgement-acknowledgement r created = ground (arith, created.headers, created.related)
