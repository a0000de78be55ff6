-- ===== src/HttpApi/Attempts.antt =====
-- How often `_post` of business_api/http_client.py sends a request.
use snoc_automation_agent.Prelude.{
  if◌then◌else◌, ℕ, zero, suc, ◌+◌, ◌-◌, ◌≡◌, ◌∙◌, ap, Python, ◌≤◌, refl, true, ◌&&◌, Option, some,
  List, String, length, ltb, arith, Bool-cases, inl, inr, head, ◌⊎◌,
}
use snoc_automation_agent.Domain.Errors.{Result, ok, raise}
use snoc_automation_agent.Execution.Api.{ApiReply, ApiCall}
use snoc_automation_agent.HttpApi.Commands.{Arguments}
use snoc_automation_agent.HttpApi.{
  configure, end_round, HttpRequest, HttpReply, HttpResponse, Settings, Remote, Wire, exchange,
  backoff, is_retryable, transport_error, escaped_error, response_error, conclude, attempt_from,
  allowed_attempts, post, post_call, call_http,
}

-- The number of attempts that a reply reports.
abbrev pub reported : ApiReply → Option ℕ
reported (ApiReply.returned result) = some result.attempts
reported (ApiReply.raised e) = e.attempts

-- The client raised what the loop does not catch, at the latest exchange.
abbrev pub HasEscaped : ApiReply × Wire → Type 0
HasEscaped out =
    (request : HttpRequest) × (message : String) × (type_name : String) × (head out.1.exchanges
      ≡ some (request, HttpReply.escaped message type_name))
    × (out.0 ≡ escaped_error message type_name)

-- From `attempt` on, `n` requests went out, and the reply says so.
record Took (attempt rounds : ℕ) (before : Wire) (out : ApiReply × Wire) : Type 0 where
  pub n : ℕ
  pub some_round : 1 ≤ n
  pub bounded : n ≤ rounds
  pub sent : length out.1.exchanges ≡ n + length before.exchanges
  pub reports : (reported out.0 ≡ some (attempt + n - 1)) ⊎ HasEscaped out

conclude-reported :
    (s : Settings) (endpoint : String) (attempt : ℕ) (r : HttpResponse)
    → reported (conclude s endpoint attempt r) ≡ some attempt
unfolding conclude response_error
conclude-reported s endpoint attempt r = ground arith

exchange-length :
    (remote : Remote) (request : HttpRequest) (wire : Wire)
    → length (exchange remote request wire).1.exchanges ≡ 1 + length wire.exchanges
unfolding exchange
exchange-length remote request wire = omega arith

pub exchange-latest :
    (remote : Remote) (request : HttpRequest) (wire : Wire)
    → head (exchange remote request wire).1.exchanges
      ≡ some (request, (exchange remote request wire).0)
unfolding exchange head
exchange-latest remote request wire = refl

backoff-length :
    (s : Settings) (n : ℕ) (wire : Wire)
    → length (backoff s n wire).exchanges ≡ length wire.exchanges
unfolding backoff
backoff-length s n wire = ground arith

-- One more round before the others.
Took-suc :
    (s : Settings) (remote : Remote) (request : HttpRequest) (attempt rounds : ℕ) (before : Wire)
    (out : ApiReply × Wire)
    → Took (attempt + 1) rounds (backoff s attempt (exchange remote request before).1) out
    → Took attempt (suc rounds) before out
Took-suc s remote request attempt rounds before out t =
    let first = exchange-length remote request before in
    let kept = backoff-length s attempt (exchange remote request before).1 in
    let same : attempt + 1 + t.n - 1 ≡ attempt + (t.n + 1) - 1 = omega arith in
    record {
      n = t.n + 1;
      some_round = omega arith;
      bounded = omega (arith, t.bounded);
      sent = omega (arith, t.sent, first, kept);
      reports = elim t.reports [ inl h ↦ inl (h ∙ ap some same) | inr h ↦ inr h ];
    }

Took-one :
    (remote : Remote) (request : HttpRequest) (attempt rounds : ℕ) (before : Wire)
    (reply : ApiReply)
    → (reported reply ≡ some attempt) ⊎ HasEscaped (reply, (exchange remote request before).1)
    → Took attempt (suc rounds) before (reply, (exchange remote request before).1)
Took-one remote request attempt rounds before reply h =
    let same : attempt ≡ attempt + 1 - 1 = omega arith in
    record {
      n = 1;
      some_round = omega arith;
      bounded = omega arith;
      sent = exchange-length remote request before;
      reports = elim h [ inl e ↦ inl (e ∙ ap some same) | inr e ↦ inr e ];
    }

end_round-Took :
    (s : Settings) (endpoint : String) (allowed attempt rounds : ℕ) (before after : Wire)
    (again : ApiReply × Wire) (request : HttpRequest)
    → (ltb attempt allowed ≡ true → Took attempt (suc rounds) before again)
    → ((reply : ApiReply)
        → (reported reply ≡ some attempt) ⊎ HasEscaped (reply, after)
        → Took attempt (suc rounds) before (reply, after))
    → (reply : HttpReply) → head after.exchanges ≡ some (request, reply)
    → Took attempt (suc rounds) before (end_round s endpoint allowed attempt after again reply)
unfolding end_round
end_round-Took s endpoint allowed attempt rounds before after again request more last
      HttpReply.http_error latest =
    elim (Bool-cases (ltb attempt allowed)) [
      | inl e ↦ rw e (more e)
      | inr e ↦ rw e (last (transport_error attempt) (inl (unfold transport_error in refl)))
    ]
end_round-Took s endpoint allowed attempt rounds before after again request more last
      (HttpReply.escaped message type_name) latest =
    last (escaped_error message type_name) (inr (request, message, type_name, latest, refl))
end_round-Took s endpoint allowed attempt rounds before after again request more last
      (HttpReply.responded r) latest =
    elim (Bool-cases (is_retryable r.status_code && ltb attempt allowed)) [
      | inl e ↦ rw e (more (ground (arith, e)))
      | inr e ↦
          rw e (last (conclude s endpoint attempt r) (inl (conclude-reported s endpoint attempt r)))
    ]

attempt_from-Took :
    (remote : Remote) (s : Settings) (endpoint : String) (request : HttpRequest)
    (allowed attempt rounds : ℕ) (wire : Wire)
    → attempt + rounds ≡ allowed + 1
    → 1 ≤ rounds
    → Took attempt rounds wire (attempt_from remote s endpoint request allowed attempt rounds wire)
unfolding attempt_from
attempt_from-Took remote s endpoint request allowed attempt zero wire e h =
    absurd (omega (arith, h))
attempt_from-Took remote s endpoint request allowed attempt (suc rounds) wire e h =
    let (reply, after) = exchange remote request wire in
    end_round-Took s endpoint allowed attempt rounds wire after _ request
      (λ less. Took-suc s remote request attempt rounds wire _ (
        attempt_from-Took remote s endpoint request allowed (attempt + 1) rounds
          (backoff s attempt after) (omega (arith, e)) (ground (arith, less, e))))
      (Took-one remote request attempt rounds wire) reply (exchange-latest remote request wire)

-- What a caller can count on: the loop ends after one attempt at least, and no more than the
-- configuration allows; as many requests went out, and the reply names their number, or is the
-- exception that the client raised beside its own errors.
pub record IsAttempted (s : Settings) (before : Wire) (out : ApiReply × Wire) : Type 0 where
  pub n : ℕ
  pub some_round : 1 ≤ n
  pub bounded : n ≤ allowed_attempts s
  pub sent : length out.1.exchanges ≡ n + length before.exchanges
  pub reports : (reported out.0 ≡ some n) ⊎ HasEscaped out

Took-IsAttempted :
    (s : Settings) (before : Wire) (out : ApiReply × Wire)
    → Took 1 (allowed_attempts s) before out
    → IsAttempted s before out
Took-IsAttempted s before out t =
    let same : 1 + t.n - 1 ≡ t.n = omega arith in
    record {
      n = t.n;
      some_round = t.some_round;
      bounded = t.bounded;
      sent = t.sent;
      reports = elim t.reports [ inl h ↦ inl (h ∙ ap some same) | inr h ↦ inr h ];
    }

allowed_attempts_pos : (s : Settings) → 1 ≤ allowed_attempts s
unfolding allowed_attempts
allowed_attempts_pos s = ground arith

-- A request is posted at least once and at most as often as the settings allow; the reply names
-- the number of attempts, or is an exception of the client that is not one of its HTTP errors, so
-- the loop never ends without one.
pub post-IsAttempted :
    (remote : Remote) (s : Settings) (endpoint : String) (payload : List (String × Option String))
    (key : String) (wire : Wire)
    → IsAttempted s wire (post remote s endpoint payload key wire)
unfolding post
post-IsAttempted remote s endpoint payload key wire = Took-IsAttempted s wire _ (
    attempt_from-Took remote s endpoint _ (allowed_attempts s) 1 (allowed_attempts s) wire
      (omega arith) (allowed_attempts_pos s))

configure-allowed :
    (py : Python) (given s : Settings)
    → configure py given ≡ ok s
    → allowed_attempts s ≤ (if given.idempotency_guaranteed then 6 else 1)
unfolding configure allowed_attempts
configure-allowed py given s h = ground arith

post_call-sent :
    (remote : Remote) (s : Settings) (endpoint : Arguments → String)
    (payload : Arguments → List (String × Option String)) (a : Result Arguments) (wire : Wire)
    → length (post_call remote s endpoint payload a wire).1.exchanges
      ≤ allowed_attempts s + length wire.exchanges
unfolding post_call
post_call-sent remote s endpoint payload (raise e) wire = omega arith
post_call-sent remote s endpoint payload (ok a) wire =
    let t = post-IsAttempted remote s (endpoint a) (payload a) a.idempotency_key wire in
    omega (arith, t.bounded, t.sent)

call_http-sent :
    (remote : Remote) (s : Settings) (call : ApiCall) (wire : Wire)
    → length (call_http remote s call wire).1.exchanges ≤ allowed_attempts s + length wire.exchanges
unfolding call_http
call_http-sent remote s (ApiCall.create_vpn_access p n k x) = post_call-sent remote s _ _ _
call_http-sent remote s (ApiCall.update_otp p n k) = post_call-sent remote s _ _ _
call_http-sent remote s (ApiCall.unlock_account p k) = post_call-sent remote s _ _ _
call_http-sent remote s (ApiCall.reset_password p k) = post_call-sent remote s _ _ _

-- Under settings that the adapter accepts, a call sends at most six requests, and at most one
-- where the remote side does not guarantee idempotency.
pub call_http_bounded :
    (remote : Remote) (given s : Settings) (call : ApiCall) (wire : Wire)
    → configure remote.python given ≡ ok s
    → length (call_http remote s call wire).1.exchanges
      ≤ (if given.idempotency_guaranteed then 6 else 1) + length wire.exchanges
call_http_bounded remote given s call wire h =
    omega (arith, call_http-sent remote s call wire, configure-allowed remote.python given s h)
