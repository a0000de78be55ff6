-- ===== src/Execution/Api.antt =====
-- The business API as workflow/execution_service.py sees it: the calls of the protocol in
-- business_api/interface.py, and what a call returns or raises. The adapter is a parameter.
use snoc_automation_agent.Prelude.{ℕ, Bool, Option, List, String, Python}
use snoc_automation_agent.Db.Models.{IdempotencyKey}
use snoc_automation_agent.Db.Session.{Db}
use snoc_automation_agent.Domain.Errors.{Result, Error}

pub data ApiCall : Type 0 where
  create_vpn_access : String → String → IdempotencyKey → List (String × Option String) → ApiCall
  update_otp : String → String → IdempotencyKey → ApiCall
  unlock_account : String → IdempotencyKey → ApiCall
  reset_password : String → IdempotencyKey → ApiCall

-- The key that goes with a call.
abbrev pub call_key : ApiCall → IdempotencyKey
call_key (ApiCall.create_vpn_access pdv phone key extra) = key
call_key (ApiCall.update_otp pdv phone key) = key
call_key (ApiCall.unlock_account pdv key) = key
call_key (ApiCall.reset_password pdv key) = key

pub record BusinessApiResult : Type 0 where
  pub success : Bool
  pub dry_run : Bool
  pub endpoint : String
  pub status_code : Option ℕ
  pub response_body : List (String × String)
  pub attempts : ℕ

-- BusinessAPITransportError, another BusinessAPIError, or any other Exception.
pub data ApiErrorKind : Type 0 where
  transport api other : ApiErrorKind

pub record ApiException : Type 0 where
  pub kind : ApiErrorKind
  pub message : String
  pub type_name : String
  pub attempts : Option ℕ

pub data ApiReply : Type 0 where
  returned : BusinessApiResult → ApiReply
  raised : ApiException → ApiReply

-- The service object: the allow-list, the text operations, the text of an exception, and the adapter, whose answers may
-- depend on the calls that it has had.
pub record Service : Type 0 where
  pub vpn_allowed_additional_fields : List String
  pub python : Python
  pub describe : Error → String
  pub business_api : List ApiCall → ApiCall → ApiReply

-- The database together with the calls that have crossed the API boundary, the latest first.
pub record World : Type 0 where
  pub db : Db
  pub calls : List ApiCall

abbrev pub Run : Type 0 → Type 0
Run A = World → Result A × World
