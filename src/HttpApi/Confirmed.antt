-- ===== src/HttpApi/Confirmed.antt =====
-- What stands behind a success that business_api/http_client.py reports.
use snoc_automation_agent.Prelude.{
  ℕ, zero, suc, ◌+◌, ◌≡◌, ◌≤◌, ◌<◌, Bool, true, false, ◌&&◌, Option, some, List, String,
  if◌then◌else◌, ltb, arith, Option-cases, inl, inr, head,
}
use snoc_automation_agent.Domain.Errors.{Result, ok, raise}
use snoc_automation_agent.Execution.Api.{ApiReply, ApiCall, BusinessApiResult}
use snoc_automation_agent.HttpApi.Commands.{Arguments}
use snoc_automation_agent.HttpApi.Attempts.{exchange-latest}
use snoc_automation_agent.HttpApi.{
  HttpRequest, HttpReply, HttpResponse, ResponsePayload, Settings, Remote, Wire, exchange,
  end_round, is_retryable, transport_error, escaped_error, response_error, unsuccessful_loop,
  conclude, attempt_from, backoff, allowed_attempts, post, post_call, call_http, invalid_command,
}

-- A response whose status is 2xx, which is small enough and says explicitly that it succeeded.
abbrev IsSuccess : Settings → HttpResponse → Type 0
IsSuccess s r =
    (200 ≤ r.status_code)
    × (r.status_code < 300)
    × (r.content_length ≤ s.max_response_bytes)
    × (parsed : ResponsePayload) × (r.payload ≡ some parsed)
    × (parsed.success ≡ true)

-- The latest reply on the wire is such a response, and the result carries its status.
pub record IsConfirmed (s : Settings) (result : BusinessApiResult) (wire : Wire) : Type 0 where
  pub request : HttpRequest
  pub response : HttpResponse
  pub latest : head wire.exchanges ≡ some (request, HttpReply.responded response)
  pub success : IsSuccess s response
  pub status : result.status_code ≡ some response.status_code
  pub real : result.dry_run ≡ false

-- A reply that reports success is confirmed.
abbrev IsHonest : Settings → ApiReply × Wire → Type 0
IsHonest s out =
    (result : BusinessApiResult) → out.0 ≡ ApiReply.returned result → IsConfirmed s result out.1

conclude-IsSuccess :
    (s : Settings) (endpoint : String) (attempt : ℕ) (r : HttpResponse) (result : BusinessApiResult)
    → conclude s endpoint attempt r ≡ ApiReply.returned result
    → IsSuccess s r × (result.status_code ≡ some r.status_code) × (result.dry_run ≡ false)
unfolding conclude response_error
conclude-IsSuccess s endpoint attempt r result h = elim (Option-cases r.payload) [
  | inl e ↦ absurd (ground (arith, e))
  | inr (parsed, e) ↦ ground (arith, e)
]

either-IsHonest :
    (s : Settings) (test : Bool) (x y : ApiReply × Wire)
    → IsHonest s x
    → IsHonest s y
    → IsHonest s (if test then x else y)
either-IsHonest s true x y hx hy = hx
either-IsHonest s false x y hx hy = hy

transport_error-IsHonest :
    (s : Settings) (n : ℕ) (wire : Wire) → IsHonest s (transport_error n, wire)
unfolding transport_error
transport_error-IsHonest s n wire result h = absurd (ground (arith, h))

loop-IsHonest : (s : Settings) (wire : Wire) → IsHonest s (unsuccessful_loop, wire)
unfolding unsuccessful_loop
loop-IsHonest s wire result h = absurd (ground (arith, h))

invalid-IsHonest : (s : Settings) (wire : Wire) → IsHonest s (invalid_command, wire)
unfolding invalid_command
invalid-IsHonest s wire result h = absurd (ground (arith, h))

conclude-IsHonest :
    (s : Settings) (endpoint : String) (attempt : ℕ) (request : HttpRequest) (r : HttpResponse)
    (wire : Wire)
    → head wire.exchanges ≡ some (request, HttpReply.responded r)
    → IsHonest s (conclude s endpoint attempt r, wire)
conclude-IsHonest s endpoint attempt request r wire latest result h =
    let (success, status, real) = conclude-IsSuccess s endpoint attempt r result h in
    record {
      request = request;
      response = r;
      latest = latest;
      success = success;
      status = status;
      real = real;
    }

escaped-IsHonest :
    (s : Settings) (message type_name : String) (wire : Wire)
    → IsHonest s (escaped_error message type_name, wire)
unfolding escaped_error
escaped-IsHonest s message type_name wire result e = absurd (ground arith)

end_round-IsHonest :
    (s : Settings) (endpoint : String) (allowed attempt : ℕ) (after : Wire)
    (again : ApiReply × Wire) (request : HttpRequest) (reply : HttpReply)
    → head after.exchanges ≡ some (request, reply)
    → IsHonest s again
    → IsHonest s (end_round s endpoint allowed attempt after again reply)
unfolding end_round
end_round-IsHonest s endpoint allowed attempt after again request HttpReply.http_error latest rest =
    either-IsHonest s (ltb attempt allowed) again _ rest (transport_error-IsHonest s attempt after)
end_round-IsHonest s endpoint allowed attempt after again request
      (HttpReply.escaped message type_name) latest rest =
    escaped-IsHonest s message type_name after
end_round-IsHonest s endpoint allowed attempt after again request (HttpReply.responded r) latest
      rest =
    either-IsHonest s (is_retryable r.status_code && ltb attempt allowed) again _ rest
      (conclude-IsHonest s endpoint attempt request r after latest)

attempt_from-IsHonest :
    (remote : Remote) (s : Settings) (endpoint : String) (request : HttpRequest)
    (allowed attempt rounds : ℕ) (wire : Wire)
    → IsHonest s (attempt_from remote s endpoint request allowed attempt rounds wire)
unfolding attempt_from
attempt_from-IsHonest remote s endpoint request allowed attempt zero wire = loop-IsHonest s wire
attempt_from-IsHonest remote s endpoint request allowed attempt (suc rounds) wire =
    let (reply, after) = exchange remote request wire in
    end_round-IsHonest s endpoint allowed attempt after _ request reply
      (exchange-latest remote request wire)
      (attempt_from-IsHonest remote s endpoint request allowed (attempt + 1) rounds
        (backoff s attempt after))

post_call-IsHonest :
    (remote : Remote) (s : Settings) (endpoint : Arguments → String)
    (payload : Arguments → List (String × Option String)) (a : Result Arguments) (wire : Wire)
    → IsHonest s (post_call remote s endpoint payload a wire)
unfolding post_call post
post_call-IsHonest remote s endpoint payload (raise e) wire = invalid-IsHonest s wire
post_call-IsHonest remote s endpoint payload (ok a) wire =
    attempt_from-IsHonest remote s (endpoint a) _ (allowed_attempts s) 1 (allowed_attempts s) wire

call_http-IsHonest :
    (remote : Remote) (s : Settings) (call : ApiCall) (wire : Wire)
    → IsHonest s (call_http remote s call wire)
unfolding call_http
call_http-IsHonest remote s (ApiCall.create_vpn_access p n k x) = post_call-IsHonest remote s _ _ _
call_http-IsHonest remote s (ApiCall.update_otp p n k) = post_call-IsHonest remote s _ _ _
call_http-IsHonest remote s (ApiCall.unlock_account p k) = post_call-IsHonest remote s _ _ _
call_http-IsHonest remote s (ApiCall.reset_password p k) = post_call-IsHonest remote s _ _ _

-- Whatever the remote side does, a call that reports success is confirmed: the latest reply on the
-- wire is a 2xx response within the size limit that says explicitly that the operation succeeded,
-- the result carries its status, and it is not a dry run.
pub call_http-IsConfirmed :
    (remote : Remote) (s : Settings) (call : ApiCall) (wire : Wire) (result : BusinessApiResult)
    → (call_http remote s call wire).0 ≡ ApiReply.returned result
    → IsConfirmed s result (call_http remote s call wire).1
call_http-IsConfirmed remote s call wire = call_http-IsHonest remote s call wire
