-- ===== src/HttpApi/Executed.antt =====
-- workflow/execution_service.py over business_api/http_client.py: the service with this adapter.
use mathlib.Core.Path.{subst}
use snoc_automation_agent.Prelude.{
  true, ℕ, ◌≡◌, ◌≢◌, ◌⊎◌, sym, refl, ap, inl, inr, Option, some, List, [], ◌∷◌, String, arith, ◌∙◌,
  Option-cases,
}
use snoc_automation_agent.Domain.Enums.{ExecutionStatus}
use snoc_automation_agent.Domain.Errors.{Error, Result, ok, Result-cases}
use snoc_automation_agent.Db.Models.{IdempotencyKey, Execution, Operation}
use snoc_automation_agent.Db.Session.{Db, session_scope, get_operation, by_idempotency_key}
use snoc_automation_agent.Execution.Api.{ApiCall, ApiReply, BusinessApiResult, Service, World}
use snoc_automation_agent.Execution.Prepare.{
  ExecutionOutcome, PendingCall, Prepared, prepare, reject_preflight, recorded_outcome,
  idempotency_key,
}
use snoc_automation_agent.Execution.Prepare.Inversion.{IsFinished, prepare-finished}
use snoc_automation_agent.Execution.Execute.{
  call_of, invoke, record_reply, record_result, record_exception, result_outcome, exception_status,
  complete, execute,
}
use snoc_automation_agent.Execution.Execute.Steps.{execute-calling, execute-finished, execute-raise}
use snoc_automation_agent.HttpApi.{Remote, Settings, Wire, call_http}
use snoc_automation_agent.HttpApi.Confirmed.{IsConfirmed, call_http-IsConfirmed}

-- The wire after the calls so far, the latest first.
unfoldable pub wire_after : Remote → Settings → List ApiCall → Wire
wire_after remote s [] = record { exchanges = []; sleeps = [] }
wire_after remote s (call ∷ calls) = (call_http remote s call (wire_after remote s calls)).1

-- The execution service with the HTTP adapter.
unfoldable pub http_service : Remote → Settings → List String → (Error → String) → Service
http_service remote s allowed describe = record {
  vpn_allowed_additional_fields = allowed;
  python = remote.python;
  describe = describe;
  business_api = λ calls call. (call_http remote s call (wire_after remote s calls)).0;
}

-- Only a reply that reports success is recorded as one.
record_reply-success :
    (p : PendingCall) (reply : ApiReply) (o : ExecutionOutcome) (db db' : Db)
    → record_reply p reply db ≡ ok (o, db')
    → o.status ≡ ExecutionStatus.succeeded
    → (result : BusinessApiResult) × (reply ≡ ApiReply.returned result) × (result.success ≡ true)
unfolding record_reply record_result record_exception exception_status result_outcome
record_reply-success p (ApiReply.returned result) o db db' h e = (result, refl, ground arith)
record_reply-success p (ApiReply.raised x) o db db' h e = absurd (ground arith)

Sum-cases {ℓ κ} :
    {A : Type ℓ} {B : Type κ} (x : A ⊎ B) → ((a : A) × (x ≡ inl a)) ⊎ ((b : B) × (x ≡ inr b))
Sum-cases (inl a) = inl (a, refl)
Sum-cases (inr b) = inr (b, refl)

-- A reply that reports success was given to a call.
abbrev IsAnswered : Service → List ApiCall → List ApiCall → BusinessApiResult → Type 0
IsAnswered svc calls calls' result =
    (call : ApiCall) × (calls' ≡ call ∷ calls)
    × (svc.business_api calls call ≡ ApiReply.returned result)

invoke-success :
    (svc : Service) (p : PendingCall) (pdv : String) (calls : List ApiCall)
    (result : BusinessApiResult)
    → (invoke svc p pdv calls).0 ≡ ApiReply.returned result
    → IsAnswered svc calls (invoke svc p pdv calls).1 result
unfolding invoke
invoke-success svc p pdv calls result h = elim (Sum-cases (call_of p pdv p.action p.phone)) [
  | inl (call, e) ↦ (call, ground (arith, e), ground (arith, e, h))
  | inr (x, e) ↦ absurd (ground (arith, e, h))
]

-- A success of `complete` comes from a call whose reply reports it.
complete-success :
    (svc : Service) (p : PendingCall) (w w' : World) (o : ExecutionOutcome)
    → complete svc p w ≡ (ok o, w')
    → o.status ≡ ExecutionStatus.succeeded
    → (result : BusinessApiResult) × IsAnswered svc w.calls w'.calls result
unfolding complete session_scope
complete-success svc p w w' o h e = elim (Option-cases p.pdv_code) [
  | inl absent ↦ absurd (ground (arith, absent, h))
  | inr (pdv, present) ↦
      let out = invoke svc p pdv w.calls in
      elim (Result-cases (record_reply p out.0 w.db)) [
        | inl ((o', db'), r) ↦
            let (result, replied, _) =
              record_reply-success p out.0 o' w.db db' r (ground (arith, present, r, h, e)) in
            let (call, made, answered) = invoke-success svc p pdv w.calls result replied in
            (result, (call, ground (arith, present, r, h, made), answered))
        | inr (error, r) ↦ absurd (ground (arith, present, r, h))
      ]
]

reject_preflight-ne-success :
    (op : Operation) (error : String) (db db' : Db) (o : ExecutionOutcome)
    → reject_preflight op error db ≡ ok (Prepared.finished o, db')
    → o.status ≢ ExecutionStatus.succeeded
unfolding reject_preflight
reject_preflight-ne-success op error db db' o h e = ground (arith, h, e)

-- What stands behind a success: the record of the revision, or a confirmed call.
pub data IsExplained (remote : Remote) (s : Settings) (i : ℕ) (w w' : World) (o : ExecutionOutcome)
    : Type 0 where
  recorded :
      (op : Operation) (prior : Execution)
      → get_operation i w.db ≡ some op
      → by_idempotency_key (idempotency_key op) w.db ≡ some prior
      → o ≡ recorded_outcome prior
      → w' ≡ w
      → IsExplained remote s i w w' o
  confirmed :
      (call : ApiCall) (result : BusinessApiResult)
      → w'.calls ≡ call ∷ w.calls
      → IsConfirmed s result (wire_after remote s w'.calls)
      → IsExplained remote s i w w' o

answered-IsExplained :
    (remote : Remote) (s : Settings) (allowed : List String) (describe : Error → String) (i : ℕ)
    (w w' : World) (o : ExecutionOutcome) (result : BusinessApiResult)
    → IsAnswered (http_service remote s allowed describe) w.calls w'.calls result
    → IsExplained remote s i w w' o
unfolding http_service wire_after
answered-IsExplained remote s allowed describe i w w' o result (call, made, answered) =
    IsExplained.confirmed call result made (
      subst (λ calls. IsConfirmed s result (wire_after remote s calls)) (sym made)
        (call_http-IsConfirmed remote s call (wire_after remote s w.calls) result answered))

finished-IsExplained :
    (svc : Service) (remote : Remote) (s : Settings) (i : ℕ) (w : World) (o : ExecutionOutcome)
    (db' : Db) (op : Operation)
    → get_operation i w.db ≡ some op
    → o.status ≡ ExecutionStatus.succeeded
    → IsFinished svc op o w.db db'
    → IsExplained remote s i w (record w { db = db' }) o
finished-IsExplained svc remote s i w o db' op found e (IsFinished.replayed prior known same kept) =
    IsExplained.recorded op prior found known same (rw kept refl)
finished-IsExplained svc remote s i w o db' op found e
      (IsFinished.rejected error fresh bad rejection) =
    absurd (reject_preflight-ne-success op error w.db db' o rejection e)

-- With the HTTP adapter, `execute` reports success only for a revision that was recorded before,
-- where it changes nothing, or after a call whose latest response on the wire confirms it.
pub execute-IsExplained :
    (remote : Remote) (s : Settings) (allowed : List String) (describe : Error → String) (i : ℕ)
    (r : Option ℕ) (key : Option IdempotencyKey) (w w' : World) (o : ExecutionOutcome)
    → execute (http_service remote s allowed describe) i r key w ≡ (ok o, w')
    → o.status ≡ ExecutionStatus.succeeded
    → IsExplained remote s i w w' o
execute-IsExplained remote s allowed describe i r key w w' o h e =
    let svc = http_service remote s allowed describe in
    elim (Result-cases (prepare svc i r key w.db)) [
      | inr (error, p) ↦ absurd (ground (arith, execute-raise svc i r key w error p, h))
      | inl ((Prepared.calling call, db'), p) ↦
          let (result, answered) =
            complete-success svc call (record w { db = db' }) w' o
              (sym (execute-calling svc i r key w db' call p) ∙ h) e in
          answered-IsExplained remote s allowed describe i w w' o result answered
      | inl ((Prepared.finished o', db'), p) ↦
          let ran : (ok o', record w { db = db' }) ≡ (ok o, w') =
            sym (execute-finished svc i r key w db' o' p) ∙ h in
          let same : o' ≡ o = ground (arith, ran) in
          let (op, found, done) = prepare-finished svc i r key o' w.db db' p in
          rw (sym (ap (λ (x : Result ExecutionOutcome × World). x.1) ran), sym same)
            (finished-IsExplained svc remote s i w o' db' op found
              (ap (λ (x : ExecutionOutcome). x.status) same ∙ e) done)
    ]
