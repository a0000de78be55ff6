-- ===== src/Db/Rows.antt =====
-- Reading rows by primary key or idempotency key after assignments to a row.
use snoc_automation_agent.Prelude.{ℕ, ◌≡◌, refl, some, arith, ◌==◌, Eq-ℕ}
use snoc_automation_agent.Prelude.Tables.{find-update_where, find_holds}
use snoc_automation_agent.Db.Models.{
  Operation, Execution, ScheduledExecution, IdempotencyKey, Eq-IdempotencyKey,
}
use snoc_automation_agent.Db.Session.{
  Db, get_operation, get_scheduled, edit_operation, edit_execution, edit_scheduled,
  by_idempotency_key,
}

pub operation_id_of : (i : ℕ) (db : Db) (op : Operation) → get_operation i db ≡ some op → op.id ≡ i
unfolding get_operation
operation_id_of i db op h =
    ground (arith, find_holds (λ (r : Operation). r.id == i) db.operations op)

pub scheduled_id_of :
    (i : ℕ) (db : Db) (row : ScheduledExecution) → get_scheduled i db ≡ some row → row.id ≡ i
unfolding get_scheduled
scheduled_id_of i db row h =
    ground (arith, find_holds (λ (r : ScheduledExecution). r.id == i) db.scheduled row)

pub get-edit_operation :
    (i : ℕ) (f : Operation → Operation) (db : Db) (op : Operation)
    → ((x : Operation) → (f x).id ≡ x.id)
    → get_operation i db ≡ some op
    → get_operation i (edit_operation i f db) ≡ some (f op)
unfolding get_operation edit_operation
get-edit_operation i f db op keeps h = ground (
  arith,
  find-update_where (λ (r : Operation). r.id == i) (λ r. r.id == i) f db.operations
      (λ x. rw (keeps x)),
  find_holds (λ (r : Operation). r.id == i) db.operations op,
)

pub get-edit_scheduled :
    (i : ℕ) (f : ScheduledExecution → ScheduledExecution) (db : Db) (row : ScheduledExecution)
    → ((x : ScheduledExecution) → (f x).id ≡ x.id)
    → get_scheduled i db ≡ some row
    → get_scheduled i (edit_scheduled i f db) ≡ some (f row)
unfolding get_scheduled edit_scheduled
get-edit_scheduled i f db row keeps h = ground (
  arith,
  find-update_where (λ (r : ScheduledExecution). r.id == i) (λ r. r.id == i) f db.scheduled
      (λ x. rw (keeps x)),
  find_holds (λ (r : ScheduledExecution). r.id == i) db.scheduled row,
)

pub get_operation-edit_execution :
    (i j : ℕ) (g : Execution → Execution) (db : Db)
    → get_operation i (edit_execution j g db) ≡ get_operation i db
unfolding get_operation edit_execution
get_operation-edit_execution i j g db = refl

pub by_key-edit_operation :
    (k : IdempotencyKey) (j : ℕ) (f : Operation → Operation) (db : Db)
    → by_idempotency_key k (edit_operation j f db) ≡ by_idempotency_key k db
unfolding by_idempotency_key edit_operation
by_key-edit_operation k j f db = refl

pub by_key-edit_execution :
    (k : IdempotencyKey) (g : Execution → Execution) (db : Db) (e : Execution)
    → ((x : Execution) → (g x).idempotency_key ≡ x.idempotency_key)
    → by_idempotency_key k db ≡ some e
    → by_idempotency_key k (edit_execution e.id g db) ≡ some (g e)
unfolding by_idempotency_key edit_execution
by_key-edit_execution k g db e keeps h = ground (
  arith,
  find-update_where (λ (x : Execution). x.idempotency_key == k) (λ x. x.id == e.id) g db.executions
      (λ x. rw (keeps x)),
)
