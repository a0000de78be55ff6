-- ===== src/Execution/Queue.antt =====
-- The rows of the grace queue under `_claim` and `cancel_scheduled_for_request` of
-- workflow/execution_service.py.
use snoc_automation_agent.Prelude.{
  ℕ, ◌≤◌, ◌≡◌, refl, Bool, true, false, not, ◌&&◌, Option, List, [], ◌∷◌, String, arith, ◌==◌, Eq-ℕ,
  Eq-Option, update_where, count_where, keep, all, Python, strip,
}
use snoc_automation_agent.Domain.Enums.{Eq-ScheduledExecutionStatus}
use snoc_automation_agent.Domain.Errors.{Error, ok, raise}
use snoc_automation_agent.Db.Models.{ScheduledExecution}
use snoc_automation_agent.Db.Session.{Db, session_scope}
use snoc_automation_agent.Execution.Dispatch.{claim, claimed_row, is_due}
use snoc_automation_agent.Execution.Cancel.{
  cancel_scheduled_for_request, cancel_rows, cancelled_row, is_waiting_for,
}

-- The rows with one primary key.
abbrev pub rows_with : ℕ → List ScheduledExecution → ℕ
rows_with id rows = count_where (λ (r : ScheduledExecution). r.id == id) rows

abbrev claimable : ℕ → ℕ → ScheduledExecution → Bool
claimable id now row = row.id == id && is_due now row

module _ (id now now' : ℕ) where
  claimed_none :
      (rows : List ScheduledExecution)
      → rows_with id rows ≡ 0
      → count_where (claimable id now') (update_where (claimable id now) (claimed_row now) rows) ≡ 0
  unfolding count_where update_where claimed_row is_due
  claimed_none [] h = refl
  claimed_none (r ∷ rows) h = ground (arith, claimed_none rows)

  claimable-le :
      (rows : List ScheduledExecution) → count_where (claimable id now) rows ≤ rows_with id rows
  unfolding count_where
  claimable-le [] = omega arith
  claimable-le (r ∷ rows) = ground (arith, claimable-le rows)

  claimed_once :
      (rows : List ScheduledExecution)
      → rows_with id rows ≤ 1
      → count_where (claimable id now) rows ≡ 1
      → count_where (claimable id now') (update_where (claimable id now) (claimed_row now) rows) ≡ 0
  unfolding count_where update_where claimed_row is_due
  claimed_once [] h one = ground arith
  claimed_once (r ∷ rows) h one =
      ground (arith, claimed_none rows, claimed_once rows, claimable-le rows)

-- A row is claimed by one worker only: after a successful claim every later one fails, at any time.
pub claim_once :
    (id now now' : ℕ) (db : Db)
    → rows_with id db.scheduled ≤ 1
    → (claim id now db).0 ≡ true
    → (claim id now' (claim id now db).1).0 ≡ false
unfolding claim
claim_once id now now' db unique won = ground (arith, claimed_once id now now' db.scheduled)

-- The other rows of the queue are as they were, and the row count is exact.
cancelled_waiting :
    (q : ℕ) (reason : String) (source : Option ℕ) (now : ℕ) (rows : List ScheduledExecution)
    → count_where
        (is_waiting_for q)
        (update_where (is_waiting_for q) (cancelled_row reason source now) rows)
      ≡ 0
unfolding count_where update_where cancelled_row is_waiting_for
cancelled_waiting q reason source now [] = refl
cancelled_waiting q reason source now (r ∷ rows) =
    ground (arith, cancelled_waiting q reason source now rows)

cancelled_due :
    (q : ℕ) (reason : String) (source : Option ℕ) (now t : ℕ) (rows : List ScheduledExecution)
    → all
        (λ (r : ScheduledExecution). not (r.request_id == q))
        (keep (is_due t) (update_where (is_waiting_for q) (cancelled_row reason source now) rows))
      ≡ true
unfolding update_where cancelled_row is_waiting_for keep all is_due
cancelled_due q reason source now t [] = refl
cancelled_due q reason source now t (r ∷ rows) =
    ground (arith, cancelled_due q reason source now t rows)

cancel_rows-ok :
    (q : ℕ) (reason : String) (source : Option ℕ) (now n : ℕ) (db db' : Db)
    → cancel_rows q reason source now db ≡ ok (n, db')
    → (n ≡ count_where (is_waiting_for q) db.scheduled)
      × (db'.scheduled
          ≡ update_where (is_waiting_for q) (cancelled_row reason source now) db.scheduled)
unfolding cancel_rows
cancel_rows-ok q reason source now n db db' h = ground arith

-- A cancellation that returns has cancelled every waiting row of the request: it returns their
-- number, none of them waits any more, and no later dispatch, at any time, finds a due row of the
-- request.
pub cancel_scheduled_for_request-clears :
    (py : Python) (q : ℕ) (reason : String) (source : Option ℕ) (now n : ℕ) (db db' : Db)
    → cancel_scheduled_for_request py q reason source now db ≡ (ok n, db')
    → (n ≡ count_where (is_waiting_for q) db.scheduled)
      × (count_where (is_waiting_for q) db'.scheduled ≡ 0)
      × ((t : ℕ)
          → all
              (λ (r : ScheduledExecution). not (r.request_id == q))
              (keep (is_due t) db'.scheduled)
            ≡ true)
unfolding cancel_scheduled_for_request session_scope
cancel_scheduled_for_request-clears py q reason source now n db db' h =
    let text = strip py reason in
    let (counted, rows) = cancel_rows-ok q text source now n db db' (ground arith) in
    (
      counted,
      rw rows (cancelled_waiting q text source now db.scheduled),
      λ t. rw rows (cancelled_due q text source now t db.scheduled),
    )

-- A cancellation that raises changes nothing.
pub cancel_scheduled_for_request-raise :
    (py : Python) (q : ℕ) (reason : String) (source : Option ℕ) (now : ℕ) (db : Db) {e : Error}
    → (cancel_scheduled_for_request py q reason source now db).0 ≡ raise e
    → (cancel_scheduled_for_request py q reason source now db).1 ≡ db
unfolding cancel_scheduled_for_request session_scope
cancel_scheduled_for_request-raise py q reason source now db h = ground arith
