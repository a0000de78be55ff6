-- ===== src/Replies/Once.antt =====
-- How often the reply services of workflow/ write to a customer about a request.
use snoc_automation_agent.Prelude.{
  ℕ, ◌≡◌, ◌∙◌, ap, Bool, true, none, some, List, [], ◌∷◌, ◌==◌, Eq-ℕ, nat_eq_iff, arith,
  Option-cases, inl, inr,
}
use snoc_automation_agent.Prelude.Tables.{find_holds}
use snoc_automation_agent.Domain.Errors.{ok, raise, lookup_error, Result-cases}
use snoc_automation_agent.Db.Models.{BusinessRequest}
use snoc_automation_agent.Db.Session.{Db, Tx, commit_scope, session_scope, get_request}
use snoc_automation_agent.Mail.{MailLib}
use snoc_automation_agent.Replies.Services.{
  Reply, ensure_clarification, ensure_terminal_summary, ensure_pending_execution_acknowledgement,
}
use snoc_automation_agent.Replies.Sparing.{IsSparing}
use snoc_automation_agent.Replies.Asking.{clarify-IsSparing}
use snoc_automation_agent.Replies.Summaries.{summarize-IsSparing, acknowledge-IsSparing}

pub data Task : Type 0 where
  clarify summarize : Task
  acknowledge : ℕ → Task

-- One of the services in a transaction that loads the request.
abbrev pub serve : MailLib → ℕ → Task → Reply → BusinessRequest → Tx Bool
serve lib request_id Task.clarify reply request db =
    elim (ensure_clarification lib request reply db) [
      | ok (c, after) ↦ ok (true, after)
      | raise e ↦ raise e
    ]
serve lib request_id Task.summarize reply request db = ensure_terminal_summary lib request reply db
serve lib request_id (Task.acknowledge grace) reply request db =
    ensure_pending_execution_acknowledgement lib request reply grace db

abbrev pub body : MailLib → ℕ → Task → Reply → Tx Bool
body lib request_id task reply db = elim (get_request request_id db) [
  | none ↦ raise lookup_error
  | some request ↦ serve lib request_id task reply request db
]

-- Any of the services, for any requests, one transaction after the other.
unfoldable pub serve_all : MailLib → List (ℕ × Task × Reply) → Db → Db
serve_all lib [] db = db
serve_all lib ((request_id, task, reply) ∷ rest) db =
    serve_all lib rest (session_scope (body lib request_id task reply) db).1

request_id_of :
    (i : ℕ) (db : Db) (request : BusinessRequest) → get_request i db ≡ some request → request.id ≡ i
unfolding get_request
request_id_of i db request h =
    (nat_eq_iff request.id i).0
      (find_holds (λ (x : BusinessRequest). x.id == i) db.requests request h)

serve-IsSparing :
    (lib : MailLib) (i : ℕ) (task : Task) (reply : Reply) (request : BusinessRequest) (db : Db)
    (r : ℕ) (done : Bool) (after : Db)
    → get_request i db ≡ some request
    → serve lib i task reply request db ≡ ok (done, after)
    → IsSparing r db
    → IsSparing r after
serve-IsSparing lib i Task.clarify reply request db r done after found h sparing =
    elim (Result-cases (ensure_clarification lib request reply db)) [
      | inl ((c, x), e) ↦
          clarify-IsSparing lib request reply db r c after (ground (arith, e, h)) sparing
      | inr (x, e) ↦ absurd (ground (arith, e, h))
    ]
serve-IsSparing lib i Task.summarize reply request db r done after found h sparing =
    summarize-IsSparing lib request reply db r done after
      (ap (λ n. get_request n db) (request_id_of i db request found) ∙ found) h sparing
serve-IsSparing lib i (Task.acknowledge grace) reply request db r done after found h sparing =
    acknowledge-IsSparing lib request reply grace db r done after h sparing

-- A transaction keeps what its body keeps.
scope-IsSparing :
    (tx : Tx Bool) (db : Db) (r : ℕ)
    → ((done : Bool) (after : Db) → tx db ≡ ok (done, after) → IsSparing r after)
    → IsSparing r db
    → IsSparing r (session_scope tx db).1
unfolding session_scope
scope-IsSparing tx db r keeps sparing = elim (Result-cases (tx db)) [
  | inl ((done, after), e) ↦ rw (session_scope, commit_scope, e) (keeps done after e)
  | inr (x, e) ↦ rw (session_scope, commit_scope, e) sparing
]

turn-IsSparing :
    (lib : MailLib) (i : ℕ) (task : Task) (reply : Reply) (db : Db) (r : ℕ)
    → IsSparing r db
    → IsSparing r (session_scope (body lib i task reply) db).1
turn-IsSparing lib i task reply db r sparing =
    scope-IsSparing (body lib i task reply) db r
      (λ done after h. elim (Option-cases (get_request i db)) [
        | inl e ↦ absurd (ground (arith, e, h))
        | inr (request, e) ↦
            serve-IsSparing lib i task reply request db r done after e (ground (arith, e, h))
              sparing
      ])
      sparing

-- However often the services write about requests, in any order and with any messages, no request
-- gets a second acknowledgement or a second summary, and none has two open clarifications, where that held before.
pub serve_all-IsSparing :
    (lib : MailLib) (tasks : List (ℕ × Task × Reply)) (db : Db) (r : ℕ)
    → IsSparing r db
    → IsSparing r (serve_all lib tasks db)
unfolding serve_all
serve_all-IsSparing lib [] db r sparing = sparing
serve_all-IsSparing lib ((i, task, reply) ∷ rest) db r sparing =
    serve_all-IsSparing lib rest _ r (turn-IsSparing lib i task reply db r sparing)
