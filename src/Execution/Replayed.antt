-- ===== src/Execution/Replayed.antt =====
-- What a second `execute` of workflow/execution_service.py does after one that returned.

use snoc_automation_agent.Prelude.{
  ℕ, ◌≡◌, refl, ◌∙◌, sym, ap, false, Option, none, some, arith, inl, inr, Eq-ℕ,
}
use mathlib.Core.Path.{subst}
use snoc_automation_agent.Domain.Errors.{ok, Result-cases}
use snoc_automation_agent.Db.Models.{Operation, IdempotencyKey, Eq-IdempotencyKey}
use snoc_automation_agent.Db.Session.{Db, get_operation, get_execution, by_idempotency_key}
use snoc_automation_agent.Db.Rows.{operation_id_of}
use snoc_automation_agent.Execution.Api.{Service, World}
use snoc_automation_agent.Execution.Prepare.{
  PendingCall, Prepared, ExecutionOutcome, prepare, prepare_operation, idempotency_key,
  recorded_outcome, changed_revision, changed_key,
}
use snoc_automation_agent.Execution.Prepare.Inversion.{
  IsFinished, prepare-calling, prepare-finished,
}
use snoc_automation_agent.Execution.Execute.{execute}
use snoc_automation_agent.Execution.Execute.Steps.{execute-finished, execute-raise}
use snoc_automation_agent.Execution.Outcomes.{execute_replays, execute_settles}
use snoc_automation_agent.Execution.Kept.{
  IsRecorded, reject_preflight-IsRecorded, IsExecuted-IsRecorded,
}

-- A second run returns the outcome that the first one recorded, and does nothing.
pub record IsReplayed (svc : Service) (i : ℕ) (r : Option ℕ) (key : Option IdempotencyKey)
    (o : ExecutionOutcome) (w : World) : Type 0 where
  pub again : ExecutionOutcome
  pub ran : execute svc i r key w ≡ (ok again, w)
  pub same_execution : again.execution_id ≡ o.execution_id
  pub same_status : again.status ≡ o.status

same_key :
    (a b : Operation)
    → a.id ≡ b.id
    → a.current_revision ≡ b.current_revision
    → idempotency_key a ≡ idempotency_key b
unfolding idempotency_key
same_key a b e f = rw (e, f) refl

same_changed_revision :
    (r : Option ℕ) (a b : Operation)
    → a.current_revision ≡ b.current_revision
    → changed_revision r a ≡ changed_revision r b
same_changed_revision none a b e = refl
same_changed_revision (some n) a b e = rw e refl

same_changed_key :
    (key : Option IdempotencyKey) (a b : Operation)
    → idempotency_key a ≡ idempotency_key b
    → changed_key key a ≡ changed_key key b
same_changed_key none a b e = refl
same_changed_key (some k) a b e = rw e refl

module _ (svc : Service) (i : ℕ) (r : Option ℕ) (key : Option IdempotencyKey) where
  IsRecorded-IsReplayed :
      (op : Operation) (o : ExecutionOutcome) (w : World)
      → changed_revision r op ≡ false
      → changed_key key op ≡ false
      → IsRecorded i op o w.db
      → IsReplayed svc i r key o w
  unfolding recorded_outcome
  IsRecorded-IsReplayed op o w kept same d =
      let k = same_key d.operation op d.same_id d.same_revision in
      record {
        again = recorded_outcome d.execution;
        ran =
            execute_replays svc i r key w d.operation d.operation_read d.execution
              (same_changed_revision r d.operation op d.same_revision ∙ kept)
              (same_changed_key key d.operation op k ∙ same)
              (ap (λ x. by_idempotency_key x w.db) k ∙ d.execution_read);
        same_execution = d.execution_id;
        same_status = d.execution_status;
      }

  -- A transaction that ends well found what the caller expects.
  prepare-expected :
      (op : Operation) (p : Prepared) (db db' : Db)
      → get_operation i db ≡ some op
      → prepare svc i r key db ≡ ok (p, db')
      → (changed_revision r op ≡ false) × (changed_key key op ≡ false)
  unfolding prepare prepare_operation
  prepare-expected op p db db' found h = ground arith

module _ (svc : Service) (i : ℕ) (r : Option ℕ) (key : Option IdempotencyKey) (w w' : World)
    (o : ExecutionOutcome) (unused : get_execution w.db.next_id w.db ≡ none)
    (ran : execute svc i r key w ≡ (ok o, w')) where
  from_record :
      (op : Operation)
      → get_operation i w.db ≡ some op
      → changed_revision r op ≡ false
      → changed_key key op ≡ false
      → IsRecorded op.id op o w'.db
      → IsReplayed svc i r key o w'
  from_record op found kept same d =
      IsRecorded-IsReplayed svc i r key op o w' kept same
        (subst (λ j. IsRecorded j op o w'.db) (operation_id_of i w.db op found) d)

  finished-IsReplayed :
      (op : Operation) (o' : ExecutionOutcome) (db' : Db)
      → get_operation i w.db ≡ some op
      → prepare svc i r key w.db ≡ ok (Prepared.finished o', db')
      → IsFinished svc op o' w.db db'
      → IsReplayed svc i r key o w'
  finished-IsReplayed op o' db' found h how =
      let e = sym (execute-finished svc i r key w db' o' h) ∙ ran in
      let same_outcome : o' ≡ o = ground (arith, e) in
      let same_world : record w { db = db' } ≡ w' = ground (arith, e) in
      let (kept, same) = prepare-expected svc i r key op _ w.db db' found h in
      let found' : get_operation op.id w.db ≡ some op =
        subst (λ j. get_operation j w.db ≡ some op) (sym (operation_id_of i w.db op found)) found in
      elim how [
        | IsFinished.replayed prior recorded is same_db ↦
            let unmoved : w ≡ w' = ap (λ d. record w { db = d }) (sym same_db) ∙ same_world in
            record {
              again = o;
              ran =
                  subst (λ x. execute svc i r key x ≡ (ok o, x)) unmoved
                    (ran ∙ ap (λ x. (ok o, x)) (sym unmoved));
              same_execution = refl;
              same_status = refl;
            }
        | IsFinished.rejected error fresh bad stored ↦ from_record op found kept same (
            subst (λ x. IsRecorded op.id op x w'.db) same_outcome
              (subst (λ x. IsRecorded op.id op o' x.db) same_world
                (reject_preflight-IsRecorded op error o' w.db db' found' fresh stored)))
      ]

  calling-IsReplayed :
      (p : PendingCall) (db' : Db)
      → prepare svc i r key w.db ≡ ok (Prepared.calling p, db')
      → IsReplayed svc i r key o w'
  calling-IsReplayed p db' h =
      let (op, found, c) = prepare-calling svc i r key p w.db db' h in
      let (o', w1, ran', done) =
        execute_settles svc i r key w op found c.revision_kept c.key_kept c.ready c.accepted
          c.unrecorded unused in
      let e = sym ran' ∙ ran in
      let same_outcome : o' ≡ o = ground (arith, e) in
      let same_world : w1 ≡ w' = ground (arith, e) in
      from_record op found c.revision_kept c.key_kept (
        subst (λ x. IsRecorded op.id op x w'.db) same_outcome
          (subst (λ x. IsRecorded op.id op o' x.db) same_world
            (IsExecuted-IsRecorded op w w1 o' done)))

-- A run that returned is not repeated: where the next row number was not taken, a second run with
-- the same arguments makes no call and changes nothing, and returns the same execution with the
-- same status, whether the first one called the API, was rejected by preflight or found a record.
pub execute_again :
    (svc : Service) (i : ℕ) (r : Option ℕ) (key : Option IdempotencyKey) (w w' : World)
    (o : ExecutionOutcome)
    → get_execution w.db.next_id w.db ≡ none
    → execute svc i r key w ≡ (ok o, w')
    → IsReplayed svc i r key o w'
execute_again svc i r key w w' o unused ran = elim (Result-cases (prepare svc i r key w.db)) [
  | inr (e, failed) ↦
      let clash = sym (execute-raise svc i r key w e failed) ∙ ran in absurd (ground (arith, clash))
  | inl ((Prepared.finished o', db'), h) ↦
      let (op, found, how) = prepare-finished svc i r key o' w.db db' h in
      finished-IsReplayed svc i r key w w' o unused ran op o' db' found h how
  | inl ((Prepared.calling p, db'), h) ↦ calling-IsReplayed svc i r key w w' o unused ran p db' h
]
