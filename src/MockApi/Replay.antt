-- ===== src/MockApi/Replay.antt =====
-- Idempotent replay of `MockBusinessAPI` in business_api/mock_client.py.
use snoc_automation_agent.Prelude.{
  ◌≡◌, ◌≤◌, ◌≢◌, refl, Bool, none, some, List, [], ◌∷◌, String, ◌==◌, Eq-String, if◌then◌else◌,
  dict_get, dict_set, count_where, is_some, arith, eq_iff, inl, inr, Option-cases, Bool-cases,
}
use snoc_automation_agent.Prelude.Tables.{count-append}
use snoc_automation_agent.Domain.Enums.{OperationAction}
use snoc_automation_agent.MockApi.{
  Client, Command, MockBusinessApi, RecordedBusinessApiCall, MockResult, Reply, record_new,
  record_call, perform, perform_all, fresh,
}

dict_get-dict_set {ℓ} :
    {V : Type ℓ} (k : String) (v : V) (d : List (String × V)) → dict_get k (dict_set k v d) ≡ some v
unfolding dict_get dict_set
dict_get-dict_set k v [] = ground (arith, eq_iff k k)
dict_get-dict_set k v ((j, w) ∷ d) = ground (arith, eq_iff j k, dict_get-dict_set k v d)

dict_get-dict_set_other {ℓ} :
    {V : Type ℓ} (k j : String) (v : V) (d : List (String × V))
    → k ≢ j
    → dict_get j (dict_set k v d) ≡ dict_get j d
unfolding dict_get dict_set
dict_get-dict_set_other k j v [] ne = ground (arith, eq_iff k j)
dict_get-dict_set_other k j v ((i, w) ∷ d) ne =
    ground (arith, eq_iff i k, eq_iff i j, eq_iff k j, dict_get-dict_set_other k j v d ne)

record_call-known :
    (client : Client) (action : OperationAction) (endpoint : String)
    (payload : List (String × String)) (key : String) (api : MockBusinessApi) (result : MockResult)
    → dict_get key api.results ≡ some (client.dumps action endpoint payload, result)
    → record_call client action endpoint payload key api ≡ (Reply.returned result, api)
unfolding record_call
record_call-known client action endpoint payload key api result h =
    ground
      (arith, eq_iff (client.dumps action endpoint payload) (client.dumps action endpoint payload))

record_call-stores :
    (client : Client) (action : OperationAction) (endpoint : String)
    (payload : List (String × String)) (key : String) (api after : MockBusinessApi)
    (result : MockResult)
    → record_call client action endpoint payload key api ≡ (Reply.returned result, after)
    → dict_get key after.results ≡ some (client.dumps action endpoint payload, result)
unfolding record_call record_new
record_call-stores client action endpoint payload key api after result h =
    let fingerprint = client.dumps action endpoint payload in
    let new : MockResult = record { action = action; idempotency_key = key; endpoint = endpoint } in
    elim (Option-cases (dict_get key api.results)) [
      | inl e ↦ ground (arith, dict_get-dict_set key (fingerprint, new) api.results)
      | inr (found, e) ↦ ground (arith, eq_iff found.0 fingerprint)
    ]

record_call-replays :
    (client : Client) (action : OperationAction) (endpoint : String)
    (payload : List (String × String)) (key : String) (api after : MockBusinessApi)
    (result : MockResult)
    → record_call client action endpoint payload key api ≡ (Reply.returned result, after)
    → record_call client action endpoint payload key after ≡ (Reply.returned result, after)
record_call-replays client action endpoint payload key api after result h =
    record_call-known client action endpoint payload key after result
      (record_call-stores client action endpoint payload key api after result h)

-- A call that returned returns the same result again, and the repetition records nothing.
pub perform_replays :
    (client : Client) (command : Command) (key : String) (api after : MockBusinessApi)
    (result : MockResult)
    → perform client command key api ≡ (Reply.returned result, after)
    → perform client command key after ≡ (Reply.returned result, after)
unfolding perform
perform_replays client (Command.vpn_access p n x) key = record_call-replays client _ _ _ key
perform_replays client (Command.otp_number_change p n) key = record_call-replays client _ _ _ key
perform_replays client (Command.account_unblock p) key = record_call-replays client _ _ _ key
perform_replays client (Command.password_reset p) key = record_call-replays client _ _ _ key

abbrev pub with_key : String → RecordedBusinessApiCall → Bool
with_key key call = call.idempotency_key == key

-- The keys of the recorded calls are those of the results, once each.
abbrev IsIndexed : MockBusinessApi → Type 0
IsIndexed api =
    (key : String)
    → count_where (with_key key) api.calls ≡ (if is_some (dict_get key api.results) then 1 else 0)

record_new-IsIndexed :
    (action : OperationAction) (endpoint : String) (payload : List (String × String))
    (key fingerprint : String) (api : MockBusinessApi)
    → dict_get key api.results ≡ none
    → IsIndexed api
    → IsIndexed (record_new action endpoint payload key fingerprint api).1
unfolding record_new count_where
record_new-IsIndexed action endpoint payload key fingerprint api unknown indexed k =
    let new : MockResult = record { action = action; idempotency_key = key; endpoint = endpoint } in
    elim (Bool-cases (key == k)) [
      | inl same ↦ ground (
        arith,
        eq_iff key k,
        count-append (with_key k) api.calls (
            record {
              action = action;
              idempotency_key = key;
              endpoint = endpoint;
              payload = payload;
            }
            ∷ []),
        dict_get-dict_set key (fingerprint, new) api.results,
        indexed k,
        unknown,
      )
      | inr other ↦ ground (
        arith,
        eq_iff key k,
        count-append (with_key k) api.calls (
            record {
              action = action;
              idempotency_key = key;
              endpoint = endpoint;
              payload = payload;
            }
            ∷ []),
        dict_get-dict_set_other key k (fingerprint, new) api.results,
        indexed k,
        unknown,
      )
    ]

record_call-new :
    (client : Client) (action : OperationAction) (endpoint : String)
    (payload : List (String × String)) (key : String) (api : MockBusinessApi)
    → dict_get key api.results ≡ none
    → record_call client action endpoint payload key api
      ≡ record_new action endpoint payload key (client.dumps action endpoint payload) api
unfolding record_call
record_call-new client action endpoint payload key api h = ground arith

record_call_found :
    (client : Client) (action : OperationAction) (endpoint : String)
    (payload : List (String × String)) (key : String) (api : MockBusinessApi)
    (found : String × MockResult)
    → dict_get key api.results ≡ some found
    → (record_call client action endpoint payload key api).1 ≡ api
unfolding record_call
record_call_found client action endpoint payload key api found h = ground arith

record_call-IsIndexed :
    (client : Client) (action : OperationAction) (endpoint : String)
    (payload : List (String × String)) (key : String) (api : MockBusinessApi)
    → IsIndexed api
    → IsIndexed (record_call client action endpoint payload key api).1
record_call-IsIndexed client action endpoint payload key api indexed k =
    elim (Option-cases (dict_get key api.results)) [
      | inl e ↦
          rw (record_call-new client action endpoint payload key api e)
            (record_new-IsIndexed action endpoint payload key _ api e indexed k)
      | inr (found, e) ↦
          rw (record_call_found client action endpoint payload key api found e) (indexed k)
    ]

perform-IsIndexed :
    (client : Client) (command : Command) (key : String) (api : MockBusinessApi)
    → IsIndexed api
    → IsIndexed (perform client command key api).1
unfolding perform
perform-IsIndexed client (Command.vpn_access p n x) key = record_call-IsIndexed client _ _ _ key
perform-IsIndexed client (Command.otp_number_change p n) key =
    record_call-IsIndexed client _ _ _ key
perform-IsIndexed client (Command.account_unblock p) key = record_call-IsIndexed client _ _ _ key
perform-IsIndexed client (Command.password_reset p) key = record_call-IsIndexed client _ _ _ key

perform_all-IsIndexed :
    (client : Client) (commands : List (Command × String)) (api : MockBusinessApi)
    → IsIndexed api
    → IsIndexed (perform_all client commands api)
unfolding perform_all
perform_all-IsIndexed client [] api h = h
perform_all-IsIndexed client ((command, key) ∷ rest) api h =
    perform_all-IsIndexed client rest _ (perform-IsIndexed client command key api h)

fresh-IsIndexed : IsIndexed fresh
unfolding count_where dict_get
fresh-IsIndexed k = refl

-- Whatever is called, and in whatever order, a key has at most one recorded call.
pub perform_all_once :
    (client : Client) (commands : List (Command × String)) (key : String)
    → count_where (with_key key) (perform_all client commands fresh).calls ≤ 1
perform_all_once client commands key =
    ground (arith, perform_all-IsIndexed client commands fresh fresh-IsIndexed key)
