-- ===== src/Lib.antt =====
-- The workflow of the SNOC agent, which turns support emails into operations of a business API.
-- The part modelled here is the deterministic core in src/snoc_agent/: what is decided about a
-- proposed operation, and how an operation is scheduled, executed once and answered.
--
-- - Domain: domain/enums.py, errors.py, state_machine.py and value_objects.py. The life of an
--   operation's status also has the unguarded assignments of workflow/execution_service.py,
--   workflow/inbound_processor.py and api/app.py.
-- - Db: the rows of db/models.py that the services read and write, and db/session.py. A database
--   is a record of tables; a transaction is a function that raises or returns with the database
--   to commit.
-- - Decision: `HybridDecisionEngine.decide` of workflow/decision_engine.py over ai/schemas.py.
--   The local names of the method are the fields of an assessment.
-- - Execution: workflow/execution_service.py. `execute` is two transactions with a call of the
--   API between them (Prepare, Execute); Schedule, Cancel and Dispatch are the queue of
--   scheduled executions, which ends in `execute`.
-- - Operations: workflow/operation_service.py and workflow/request_service.py.
-- - MockApi: business_api/mock_client.py on validated commands.
-- - HttpApi: business_api/http_client.py, with the commands of business_api/schemas.py. The log
--   of requests and replies is explicit, and the remote side answers as it likes.
-- - Outbox: workflow/outbox_service.py.
-- - Authorizer: workflow/authorizer.py.
-- - Correlation: mail/correlation.py with the queries of db/repositories/. The sets are lists,
--   and the element that Python takes from a set is a parameter.
-- - Replies: the services that write to a customer (workflow/reply_service.py,
--   clarification_service.py, reply_summary_service.py, pending_execution_service.py), over
--   Mail: mail/headers.py, mail/templates.py and the completion marker of mail/markers.py. They
--   fill the outbox.
-- - Prelude: Boolean tests, lists as tables, Python's texts. Scenarios: runs at concrete inputs.
--
-- Loops are structural recursions on lists, or on the rounds left of a bounded loop. Only the
-- loop that takes the prefixes off a subject has fuel, its length and one round more: every
-- round but the last shortens the subject. A UUID is a number, a timestamp an instant in UTC,
-- and the clock an argument. Python's Unicode tables, case folding and regular expressions, the
-- decoding of mail headers, the adapter of the business API in Execution, the HTTP client, the
-- SMTP transport, MIME rendering and `json.dumps` are parameters. A unique column is checked
-- where its row is flushed, except `execution_id` of a scheduled row. A commit is taken to
-- succeed (`session_scope` is `commit_scope` without a failure); the exceptions of a body, of the
-- API and of the SMTP transport are modelled.
--
-- Not modelled: the reading of mail (the rest of mail/), the inbound processor that calls these
-- services (workflow/inbound_processor.py), the model backends (ai/), the rest of api/, the
-- command line (cli/), the agent graph (graph/) and the evaluation tools (evaluation/).
pub mod Prelude
pub mod Domain
pub mod Db
pub mod Execution
pub mod Decision
pub mod Operations
pub mod MockApi
pub mod HttpApi
pub mod Outbox
pub mod Mail
pub mod Replies
pub mod Correlation
pub mod Authorizer
pub mod Scenarios
