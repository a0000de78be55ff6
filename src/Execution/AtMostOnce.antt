-- ===== src/Execution/AtMostOnce.antt =====
-- Several workers run `execute` at once, each transaction being atomic, while other services
-- change the rest of the database and workers may die between their transactions.

use snoc_automation_agent.Prelude.{
  ℕ, ◌+◌, ◌≤◌, ◌≡◌, Option, some, List, [], ◌∷◌, ◌++◌, String, arith, ◌==◌, Eq-ℕ, if◌then◌else◌,
  count_where,
}
use snoc_automation_agent.Prelude.Tables.{count-append}
use snoc_automation_agent.Domain.Errors.{ok}
use snoc_automation_agent.Db.Models.{IdempotencyKey, Eq-IdempotencyKey}
use snoc_automation_agent.Db.Session.{Db, by_idempotency_key}
use snoc_automation_agent.Execution.Api.{ApiCall, ApiReply, Service, call_key}
use snoc_automation_agent.Execution.Prepare.{PendingCall, Prepared, ExecutionOutcome, prepare}
use snoc_automation_agent.Execution.Execute.{call_of, invoke, record_reply}
use snoc_automation_agent.Execution.Recorded.{
  recorded, prepare-recorded, prepare_finished-recorded, record_reply-recorded,
}

-- Workers between their first transaction and the call, and between the call and the last one.
pub record System : Type 0 where
  pub db : Db
  pub ready : List PendingCall
  pub awaiting : List (PendingCall × ApiReply)
  pub calls : List ApiCall

pub data Step (svc : Service) (s : System) : System → Type 0 where
  begin :
      (i : ℕ) (revision : Option ℕ) (key : Option IdempotencyKey) (p : PendingCall) (db : Db)
      → prepare svc i revision key s.db ≡ ok (Prepared.calling p, db)
      → Step svc s (record s { db = db; ready = p ∷ s.ready })
  finish_early :
      (i : ℕ) (revision : Option ℕ) (key : Option IdempotencyKey) (o : ExecutionOutcome) (db : Db)
      → prepare svc i revision key s.db ≡ ok (Prepared.finished o, db)
      → Step svc s (record s { db = db })
  call :
      (before after : List PendingCall) (p : PendingCall) (pdv : String)
      → s.ready ≡ before ++ p ∷ after
      → p.pdv_code ≡ some pdv
      → Step svc s (record s {
        ready = before ++ after;
        awaiting = (p, (invoke svc p pdv s.calls).0) ∷ s.awaiting;
        calls = (invoke svc p pdv s.calls).1;
      })
  settle :
      (before after : List (PendingCall × ApiReply)) (p : PendingCall) (reply : ApiReply)
      (o : ExecutionOutcome) (db : Db)
      → s.awaiting ≡ before ++ (p, reply) ∷ after
      → record_reply p reply s.db ≡ ok (o, db)
      → Step svc s (record s { db = db; awaiting = before ++ after })
  die_ready :
      (before after : List PendingCall) (p : PendingCall)
      → s.ready ≡ before ++ p ∷ after
      → Step svc s (record s { ready = before ++ after })
  die_awaiting :
      (before after : List (PendingCall × ApiReply)) (x : PendingCall × ApiReply)
      → s.awaiting ≡ before ++ x ∷ after
      → Step svc s (record s { awaiting = before ++ after })
  other_service : (db : Db) → db.executions ≡ s.db.executions → Step svc s (record s { db = db })

pub data Reach (svc : Service) (s : System) : System → Type 0 where
  here : Reach svc s s
  next : {t u : System} → Reach svc s t → Step svc t u → Reach svc s u

abbrev pub calls_with : IdempotencyKey → List ApiCall → ℕ
calls_with k calls = count_where (λ c. call_key c == k) calls

abbrev ready_with : IdempotencyKey → List PendingCall → ℕ
ready_with k ready = count_where (λ (p : PendingCall). p.key == k) ready

-- A key that has been called, or is about to be, has its execution row.
pub record IsGuarded (s : System) : Type 0 where
  pub bound : (k : IdempotencyKey) → calls_with k s.calls + ready_with k s.ready ≤ recorded k s.db

module _ (k : IdempotencyKey) where
  invoke-calls :
      (svc : Service) (p : PendingCall) (pdv : String) (calls : List ApiCall)
      → calls_with k (invoke svc p pdv calls).1 ≤ calls_with k calls + (if p.key == k then 1 else 0)
  unfolding invoke call_of count_where
  invoke-calls svc p pdv calls = ground arith

  ready-split :
      (before after : List PendingCall) (p : PendingCall) (ready : List PendingCall)
      → ready ≡ before ++ p ∷ after
      → ready_with k ready ≡ ready_with k (before ++ after) + (if p.key == k then 1 else 0)
  unfolding count_where
  ready-split before after p ready at = rw at (
      omega (
        arith,
        count-append (λ (q : PendingCall). q.key == k) before (p ∷ after),
        count-append (λ (q : PendingCall). q.key == k) before after,
      ))

module _ {svc : Service} where
  Step-IsGuarded : {s t : System} → Step svc s t → IsGuarded s → IsGuarded t
  unfolding count_where by_idempotency_key
  Step-IsGuarded {s} (begin i r key p db h) g = record {
    bound = λ k. omega (arith, g.bound k, prepare-recorded k svc i r key p s.db db h);
  }
  Step-IsGuarded {s} (finish_early i r key o db h) g = record {
    bound = λ k. omega (arith, g.bound k, prepare_finished-recorded k svc i r key o s.db db h);
  }
  Step-IsGuarded {s} (call before after p pdv at has) g = record {
    bound = λ k. omega (
      arith,
      g.bound k,
      ready-split k before after p s.ready at,
      invoke-calls k svc p pdv s.calls,
    );
  }
  Step-IsGuarded {s} (settle before after p reply o db at h) g = record {
    bound = λ k. omega (arith, g.bound k, record_reply-recorded k p reply o s.db db h);
  }
  Step-IsGuarded {s} (die_ready before after p at) g = record {
    bound = λ k. omega (arith, g.bound k, ready-split k before after p s.ready at);
  }
  Step-IsGuarded (die_awaiting before after x at) g = record { bound = g.bound }
  Step-IsGuarded (other_service db kept) g = record { bound = λ k. rw kept (g.bound k) }

  Reach-IsGuarded : {s t : System} → Reach svc s t → IsGuarded s → IsGuarded t
  Reach-IsGuarded here g = g
  Reach-IsGuarded (next r step) g = Step-IsGuarded step (Reach-IsGuarded r g)

-- Any database with no worker under way and no call made.
abbrev pub idle : Db → System
idle db = record { db = db; ready = []; awaiting = []; calls = [] }

recorded-le_one : (k : IdempotencyKey) (db : Db) → recorded k db ≤ 1
recorded-le_one k db = ground arith

-- From any database, under every interleaving of workers, of crashes between their transactions,
-- and of changes by other services that leave the executions alone, the business API is called at
-- most once with an idempotency key, that is for one revision of an operation.
pub calls_at_most_once :
    (svc : Service) (db : Db) (s : System) (k : IdempotencyKey)
    → Reach svc (idle db) s
    → calls_with k s.calls ≤ 1
calls_at_most_once svc db s k r =
    let g = Reach-IsGuarded r (record { bound = λ j. unfold count_where in omega arith }) in
    omega (arith, g.bound k, recorded-le_one k s.db)
