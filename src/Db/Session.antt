-- ===== src/Db/Session.antt =====
-- db/session.py: the tables, and `session_scope`, which commits what its body did, or nothing.
use snoc_automation_agent.Prelude.{
  ℕ, ◌+◌, Option, none, some, List, [], ◌∷◌, ◌++◌, ◌==◌, Eq-ℕ, find, update_where,
}
use snoc_automation_agent.Domain.Errors.{Error, Result, ok, raise, integrity_error}
use snoc_automation_agent.Db.Models.{
  Conversation, EmailMessage, BusinessRequest, Operation, FieldRevision, Clarification, Execution,
  ScheduledExecution, OutboxMessage, IdempotencyKey, Eq-IdempotencyKey,
}

-- `next_id` stands for `uuid.uuid4`: each new row takes a number that no row had.
pub record Db : Type 0 where
  pub conversations : List Conversation
  pub emails : List EmailMessage
  pub requests : List BusinessRequest
  pub operations : List Operation
  pub revisions : List FieldRevision
  pub clarifications : List Clarification
  pub executions : List Execution
  pub scheduled : List ScheduledExecution
  pub outbox : List OutboxMessage
  pub next_id : ℕ

-- The body of a transaction: it raises, or returns with the database that it would commit.
abbrev pub Tx : Type 0 → Type 0
Tx A = Db → Result (A × Db)

infixl 5 ◌>>=◌ ◌>>◌
abbrev pub ◌>>=◌ : {A B : Type 0} → Tx A → (A → Tx B) → Tx B
◌>>=◌ m f db = elim (m db) [ ok (a, db') ↦ f a db' | raise e ↦ raise e ]

abbrev pub ◌>>◌ : {A B : Type 0} → Tx A → Tx B → Tx B
m >> n = m >>= λ _. n

abbrev pub return : {A : Type 0} → A → Tx A
return a db = ok (a, db)

-- `session_scope` where the commit may raise `failure`: on an exception of the body or of the
-- commit the session is rolled back and the exception goes on.
abbrev pub commit_scope : {A : Type 0} → Option Error → Tx A → Db → Result A × Db
commit_scope none body db = elim (body db) [ ok (a, db') ↦ (ok a, db') | raise e ↦ (raise e, db) ]
commit_scope (some failure) body db = elim (body db) [
  | ok (a, db') ↦ (raise failure, db)
  | raise e ↦ (raise e, db)
]

-- The services are modelled with a commit that succeeds: constraints are checked at the flush.
unfoldable pub session_scope : {A : Type 0} → Tx A → Db → Result A × Db
session_scope body db = commit_scope none body db

-- `session.get(Model, id)`
unfoldable pub get_email : ℕ → Db → Option EmailMessage
get_email i db = find (λ (r : EmailMessage). r.id == i) db.emails

unfoldable pub get_request : ℕ → Db → Option BusinessRequest
get_request i db = find (λ (r : BusinessRequest). r.id == i) db.requests

unfoldable pub get_operation : ℕ → Db → Option Operation
get_operation i db = find (λ (r : Operation). r.id == i) db.operations

unfoldable pub get_clarification : ℕ → Db → Option Clarification
get_clarification i db = find (λ (r : Clarification). r.id == i) db.clarifications

unfoldable pub get_execution : ℕ → Db → Option Execution
get_execution i db = find (λ (r : Execution). r.id == i) db.executions

unfoldable pub get_scheduled : ℕ → Db → Option ScheduledExecution
get_scheduled i db = find (λ (r : ScheduledExecution). r.id == i) db.scheduled

unfoldable pub get_outbox : ℕ → Db → Option OutboxMessage
get_outbox i db = find (λ (r : OutboxMessage). r.id == i) db.outbox

-- Assignments to the attributes of a loaded row, by its primary key.
unfoldable pub edit_operation : ℕ → (Operation → Operation) → Db → Db
edit_operation i f db = record db { operations = update_where (λ r. r.id == i) f db.operations }

unfoldable pub edit_execution : ℕ → (Execution → Execution) → Db → Db
edit_execution i f db = record db { executions = update_where (λ r. r.id == i) f db.executions }

unfoldable pub edit_scheduled : ℕ → (ScheduledExecution → ScheduledExecution) → Db → Db
edit_scheduled i f db = record db { scheduled = update_where (λ r. r.id == i) f db.scheduled }

-- ExecutionRepository
unfoldable pub by_idempotency_key : IdempotencyKey → Db → Option Execution
by_idempotency_key key db = find (λ (e : Execution). e.idempotency_key == key) db.executions

-- `add` and `flush`; the column `idempotency_key` is unique.
unfoldable pub add_execution : Execution → Tx Execution
unfolding by_idempotency_key
add_execution e db = elim (by_idempotency_key e.idempotency_key db) [
  | some clash ↦ raise integrity_error
  | none ↦ ok (e, record db { executions = db.executions ++ e ∷ []; next_id = db.next_id + 1 })
]
