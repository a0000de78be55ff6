-- ===== src/MockApi.antt =====
-- business_api/mock_client.py: `MockBusinessAPI`, the adapter that records calls and performs none.
-- A command here is one that the models of business_api/schemas.py have validated; JSON values are
-- their texts. `json.dumps`, `str.format` and `urllib.parse.quote` are parameters.
pub mod Replay
use snoc_automation_agent.Prelude.{
  ◌+◌, Option, none, some, List, [], ◌∷◌, ◌++◌, String, ◌==◌, Eq-String, if◌then◌else◌, dict_get,
  dict_set,
}
use snoc_automation_agent.Domain.Enums.{OperationAction}

pub data Command : Type 0 where
  vpn_access : String → String → List (String × String) → Command
  otp_number_change : String → String → Command
  account_unblock : String → Command
  password_reset : String → Command

-- BusinessAPIEndpointPaths, with `format` and `quote` applied.
pub record Endpoints : Type 0 where
  pub vpn_access : String
  pub otp_number_change : String → String → String
  pub account_unblock : String → String
  pub password_reset : String → String

-- The client's configuration and `json.dumps` of the object of action, endpoint and payload.
pub record Client : Type 0 where
  pub endpoints : Endpoints
  pub dumps : OperationAction → String → List (String × String) → String

pub record RecordedBusinessApiCall : Type 0 where
  pub action : OperationAction
  pub idempotency_key : String
  pub endpoint : String
  pub payload : List (String × String)

-- The result of a dry run; its other fields are constants.
pub record MockResult : Type 0 where
  pub action : OperationAction
  pub idempotency_key : String
  pub endpoint : String

pub record MockBusinessApi : Type 0 where
  pub calls : List RecordedBusinessApiCall
  pub results : List (String × (String × MockResult))

pub data Reply : Type 0 where
  returned : MockResult → Reply
  idempotency_conflict : Reply

unfoldable pub record_new :
    OperationAction
    → String
    → List (String × String)
    → String
    → String
    → MockBusinessApi
    → Reply × MockBusinessApi
record_new action endpoint payload key fingerprint api =
    let result : MockResult = record {
      action = action;
      idempotency_key = key;
      endpoint = endpoint;
    } in
    (
      Reply.returned result,
      record {
        calls =
            api.calls
            ++ record {
              action = action;
              idempotency_key = key;
              endpoint = endpoint;
              payload = payload;
            }
              ∷ [];
        results = dict_set key (fingerprint, result) api.results;
      },
    )

-- `_record`
unfoldable pub record_call :
    Client
    → OperationAction
    → String
    → List (String × String)
    → String
    → MockBusinessApi
    → Reply × MockBusinessApi
record_call client action endpoint payload key api =
    let fingerprint = client.dumps action endpoint payload in
    elim (dict_get key api.results) [
      | none ↦ record_new action endpoint payload key fingerprint api
      | some (prior_fingerprint, prior_result) ↦
          if prior_fingerprint == fingerprint
          then (Reply.returned prior_result, api)
          else (Reply.idempotency_conflict, api)
    ]

-- The four operations.
unfoldable pub perform : Client → Command → String → MockBusinessApi → Reply × MockBusinessApi
perform client (Command.vpn_access pdv_code phone additional) key =
    record_call client OperationAction.vpn_access client.endpoints.vpn_access
      (dict_set "phone" phone (dict_set "pdv_code" pdv_code additional)) key
perform client (Command.otp_number_change pdv_code new_phone) key =
    record_call client OperationAction.otp_number_change
      (client.endpoints.otp_number_change pdv_code new_phone)
      (("pdv_code", pdv_code) ∷ ("new_phone", new_phone) ∷ []) key
perform client (Command.account_unblock pdv_code) key =
    record_call client OperationAction.account_unblock (client.endpoints.account_unblock pdv_code)
      (("pdv_code", pdv_code) ∷ []) key
perform client (Command.password_reset pdv_code) key =
    record_call client OperationAction.password_reset (client.endpoints.password_reset pdv_code)
      (("pdv_code", pdv_code) ∷ []) key

-- The client after a sequence of calls.
unfoldable pub perform_all : Client → List (Command × String) → MockBusinessApi → MockBusinessApi
perform_all client [] api = api
perform_all client ((command, key) ∷ rest) api =
    perform_all client rest (perform client command key api).1

-- `__init__`
abbrev pub fresh : MockBusinessApi
fresh = record { calls = []; results = [] }
