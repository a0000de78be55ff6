-- ===== src/HttpApi.antt =====
-- business_api/http_client.py: the adapter that calls the business API over HTTP. The HTTP client is a
-- parameter, as are `quote`, `str.format`, the text of an idempotency key and the validation of a
-- response's JSON. Sizes and times are natural numbers, so the checks of negative ones have no case.
pub mod Texts
pub mod Commands
pub mod Attempts
pub mod Confirmed
pub mod Executed
use Prim.Native.Nat.{◌^◌}
use Prim.Native.String.{◌++◌ as str_append}
use text.Mathlib.Text.{starts_with}
use snoc_automation_agent.Prelude.{
  or_blank, map, Eq-String, ℕ, zero, suc, ◌+◌, ◌-◌, ◌*◌, Bool, true, false, not, ◌&&◌, ◌||◌, Option,
  none, some, List, [], ◌∷◌, ◌++◌, String, ◌==◌, Eq-ℕ, if◌then◌else◌, is_empty, strip, contains,
  ltb, leb, Python, dict_set,
}
use snoc_automation_agent.Domain.Errors.{Result, ok, raise, value_error}
use snoc_automation_agent.Db.Models.{IdempotencyKey}
use snoc_automation_agent.Execution.Api.{
  ApiCall, ApiReply, ApiException, ApiErrorKind, BusinessApiResult,
}
use snoc_automation_agent.HttpApi.Texts.{rstrip_slash}
use snoc_automation_agent.HttpApi.Commands.{
  Arguments, vpn_access_command, otp_number_change_command, pdv_only_command,
}

pub record HttpRequest : Type 0 where
  pub url : String
  pub json : List (String × Option String)
  pub headers : List (String × String)

-- BusinessAPIResponsePayload, with the fields of `model_dump`.
pub record ResponsePayload : Type 0 where
  pub success : Bool
  pub dump : List (String × String)

-- `payload` is `none` where `json()` or the validation raises a ValueError.
pub record HttpResponse : Type 0 where
  pub status_code : ℕ
  pub content_length : ℕ
  pub payload : Option ResponsePayload

-- How `client.post` ends: with a response, an `httpx.HTTPError`, or another exception, of which the
-- caller reads the message and the name of its type.
pub data HttpReply : Type 0 where
  responded : HttpResponse → HttpReply
  http_error : HttpReply
  escaped : String → String → HttpReply

pub record EndpointPaths : Type 0 where
  pub vpn_access : String
  pub otp_number_change : String → String → String
  pub account_unblock : String → String
  pub password_reset : String → String

pub record Settings : Type 0 where
  pub base_url : String
  pub token : String
  pub timeout_seconds : ℕ
  pub max_retries : ℕ
  pub idempotency_guaranteed : Bool
  pub backoff_seconds : ℕ
  pub max_response_bytes : ℕ

-- What is not of this program: the endpoints with their formats, and the other side of the wire,
-- whose reply may depend on the requests that it has had, the latest first.
pub record Remote : Type 0 where
  pub python : Python
  pub endpoints : EndpointPaths
  pub key_text : IdempotencyKey → String
  pub answer : List HttpRequest → HttpRequest → HttpReply

-- The requests sent with their replies and the delays slept, the latest first.
pub record Wire : Type 0 where
  pub exchanges : List (HttpRequest × HttpReply)
  pub sleeps : List ℕ

-- `__init__`
unfoldable pub configure : Python → Settings → Result Settings
configure py s =
    let base_url = rstrip_slash (strip py s.base_url) in
    if not (starts_with base_url "http://" || starts_with base_url "https://")
    then raise value_error
    else if s.timeout_seconds == 0
    then raise value_error
    else if not (leb s.max_retries 5)
    then raise value_error
    else if s.max_response_bytes == 0
    then raise value_error
    else ok (record s { base_url = base_url; token = strip py s.token })

abbrev pub requests : Wire → List HttpRequest
requests wire = map (λ (x : HttpRequest × HttpReply). x.0) wire.exchanges

unfoldable pub exchange : Remote → HttpRequest → Wire → HttpReply × Wire
exchange remote request wire =
    let reply = remote.answer (requests wire) request in
    (reply, record wire { exchanges = (request, reply) ∷ wire.exchanges })

-- `_backoff`
unfoldable pub backoff : Settings → ℕ → Wire → Wire
backoff s completed_attempt wire =
    let delay = s.backoff_seconds * 2 ^ (completed_attempt - 1) in
    if delay == 0 then wire else record wire { sleeps = delay ∷ wire.sleeps }

abbrev pub is_retryable : ℕ → Bool
is_retryable code = contains code (408 ∷ 429 ∷ 502 ∷ 503 ∷ 504 ∷ [])

unfoldable pub transport_error : ℕ → ApiReply
transport_error attempt = ApiReply.raised (record {
  kind = ApiErrorKind.transport;
  message = "business API transport failed without an authoritative result";
  type_name = "BusinessAPITransportError";
  attempts = some attempt;
})

-- An exception that the loop does not catch has no number of attempts.
unfoldable pub escaped_error : String → String → ApiReply
escaped_error message type_name = ApiReply.raised (record {
  kind = ApiErrorKind.other;
  message = message;
  type_name = type_name;
  attempts = none;
})

unfoldable pub response_error : String → ℕ → ApiReply
response_error message attempt = ApiReply.raised (record {
  kind = ApiErrorKind.api;
  message = message;
  type_name = "BusinessAPIResponseError";
  attempts = some attempt;
})

unfoldable pub unsuccessful_loop : ApiReply
unsuccessful_loop = ApiReply.raised (record {
  kind = ApiErrorKind.other;
  message = "bounded attempt loop completed unexpectedly";
  type_name = "AssertionError";
  attempts = none;
})

-- The checks of a response that is not tried again.
unfoldable pub conclude : Settings → String → ℕ → HttpResponse → ApiReply
conclude s endpoint attempt r =
    if not (leb 200 r.status_code && ltb r.status_code 300)
    then response_error "business API returned a non-success HTTP status" attempt
    else if ltb s.max_response_bytes r.content_length
    then response_error "business API response exceeded the configured size limit" attempt
    else elim r.payload [
      | none ↦ response_error "business API returned an invalid response payload" attempt
      | some parsed ↦
          if not parsed.success
          then response_error "business API explicitly reported an unsuccessful operation" attempt
          else ApiReply.returned (record {
            success = true;
            dry_run = false;
            endpoint = endpoint;
            status_code = some r.status_code;
            response_body = parsed.dump;
            attempts = attempt;
          })
    ]

-- The end of a round: `continue` with the rounds that follow, or a reply.
unfoldable pub end_round :
    Settings → String → ℕ → ℕ → Wire → ApiReply × Wire → HttpReply → ApiReply × Wire
end_round s endpoint allowed attempt after again HttpReply.http_error =
    if ltb attempt allowed then again else (transport_error attempt, after)
end_round s endpoint allowed attempt after again (HttpReply.escaped message type_name) =
    (escaped_error message type_name, after)
end_round s endpoint allowed attempt after again (HttpReply.responded r) =
    if is_retryable r.status_code && ltb attempt allowed
    then again
    else (conclude s endpoint attempt r, after)

-- `range(1, allowed_attempts + 1)` from `attempt` on, with the number of rounds left.
unfoldable pub attempt_from :
    Remote → Settings → String → HttpRequest → ℕ → ℕ → ℕ → Wire → ApiReply × Wire
attempt_from remote s endpoint request allowed attempt zero wire = (unsuccessful_loop, wire)
attempt_from remote s endpoint request allowed attempt (suc rounds) wire =
    let (reply, after) = exchange remote request wire in
    let again =
      attempt_from remote s endpoint request allowed (attempt + 1) rounds
        (backoff s attempt after) in
    end_round s endpoint allowed attempt after again reply

unfoldable pub allowed_attempts : Settings → ℕ
allowed_attempts s = if s.idempotency_guaranteed then s.max_retries + 1 else 1

abbrev pub request_headers : Settings → String → List (String × String)
request_headers s key =
    ("Accept", "application/json")
    ∷ ("Content-Type", "application/json")
    ∷ ("Idempotency-Key", key)
    ∷ (if is_empty s.token then [] else ("Authorization", str_append "Bearer " s.token) ∷ [])

unfoldable pub post :
    Remote → Settings → String → List (String × Option String) → String → Wire → ApiReply × Wire
post remote s endpoint payload key wire =
    let request : HttpRequest = record {
      url = str_append s.base_url endpoint;
      json = payload;
      headers = request_headers s key;
    } in
    attempt_from remote s endpoint request (allowed_attempts s) 1 (allowed_attempts s) wire

-- A command that fails its checks raises before anything is sent.
unfoldable pub invalid_command : ApiReply
invalid_command = ApiReply.raised (record {
  kind = ApiErrorKind.other;
  message = "validation error";
  type_name = "ValidationError";
  attempts = none;
})

-- What a checked call sends.
unfoldable pub post_call :
    Remote
    → Settings
    → (Arguments → String)
    → (Arguments → List (String × Option String))
    → Result Arguments
    → Wire
    → ApiReply × Wire
post_call remote s endpoint payload (raise e) wire = (invalid_command, wire)
post_call remote s endpoint payload (ok a) wire =
    post remote s (endpoint a) (payload a) a.idempotency_key wire

abbrev pub pdv_payload : Arguments → List (String × Option String)
pdv_payload a = ("pdv_code", some a.pdv_code) ∷ []

-- The four operations.
unfoldable pub call_http : Remote → Settings → ApiCall → Wire → ApiReply × Wire
call_http remote s (ApiCall.create_vpn_access pdv phone key extra) =
    post_call remote s (λ a. remote.endpoints.vpn_access)
      (λ a. dict_set "phone" a.phone (dict_set "pdv_code" (some a.pdv_code) a.additional_payload))
      (vpn_access_command remote.python pdv phone extra (remote.key_text key))
call_http remote s (ApiCall.update_otp pdv new_phone key) =
    post_call remote s (λ a. remote.endpoints.otp_number_change a.pdv_code (or_blank a.phone))
      (λ a. ("pdv_code", some a.pdv_code) ∷ ("new_phone", a.phone) ∷ [])
      (otp_number_change_command remote.python pdv new_phone (remote.key_text key))
call_http remote s (ApiCall.unlock_account pdv key) =
    post_call remote s (λ a. remote.endpoints.account_unblock a.pdv_code) pdv_payload
      (pdv_only_command remote.python pdv (remote.key_text key))
call_http remote s (ApiCall.reset_password pdv key) =
    post_call remote s (λ a. remote.endpoints.password_reset a.pdv_code) pdv_payload
      (pdv_only_command remote.python pdv (remote.key_text key))
