-- ===== src/Authorizer.antt =====
-- workflow/authorizer.py: who may send operations. `getaddresses` and `re.fullmatch` are parameters,
-- and so is the adapter of a directory, whose lookup may raise. A set is a list.
pub mod Allowed
use Prim.Native.Char.{code}
use snoc_automation_agent.Prelude.{
  Bool, true, false, not, ◌||◌, Option, none, some, List, [], ◌∷◌, String, ◌==◌, Eq-ℕ, Eq-String,
  if◌then◌else◌, is_empty, strip, any_char, contains, Python, keep,
}
use snoc_automation_agent.Domain.Errors.{Result, ok, raise, value_error, ◌>>=◌}

pub record AuthorizationResult : Type 0 where
  pub authorized : Bool
  pub normalized_sender : Option String
  pub reason : String
  pub source : String

-- `getaddresses([sender])`, without the display names.
pub record AddressLib : Type 0 where
  pub python : Python
  pub getaddresses : String → List String

abbrev mailbox_pattern : String
mailbox_pattern =
    "(?i)^[A-Z0-9.!#$%&'*+/=?^_`{|}~-]+@(?:[A-Z0-9](?:[A-Z0-9.-]*[A-Z0-9])?\\.)+[A-Z]{2,63}$"

-- The only address, stripped and folded, if it is a mailbox.
unfoldable pub one_mailbox : AddressLib → List String → Option String
one_mailbox lib [] = none
one_mailbox lib (address ∷ []) =
    let normalized = lib.python.casefold (strip lib.python address) in
    if lib.python.fullmatch mailbox_pattern normalized then some normalized else none
one_mailbox lib (address ∷ other ∷ rest) = none

unfoldable pub normalize_sender : AddressLib → String → Option String
normalize_sender lib sender =
    if is_empty (strip lib.python sender)
    then none
    else if any_char (λ c. code c == 13 || (code c == 10 || code c == 0)) sender
    then none
    else one_mailbox lib
        (keep (λ (address : String). not (is_empty address)) (lib.getaddresses sender))

-- StaticSenderAuthorizer: the set that `__init__` builds.
unfoldable pub configure_senders : AddressLib → List String → Result (List String)
configure_senders lib [] = ok []
configure_senders lib (configured_sender ∷ rest) = elim (normalize_sender lib configured_sender) [
  | none ↦ raise value_error
  | some address ↦
      configure_senders lib rest >>= λ authorized_senders. ok (address ∷ authorized_senders)
]

abbrev denied : Option String → String → String → AuthorizationResult
denied normalized_sender reason source = record {
  authorized = false;
  normalized_sender = normalized_sender;
  reason = reason;
  source = source;
}

abbrev allowed : String → String → String → AuthorizationResult
allowed normalized_sender reason source = record {
  authorized = true;
  normalized_sender = some normalized_sender;
  reason = reason;
  source = source;
}

unfoldable pub authorize : AddressLib → List String → String → AuthorizationResult
authorize lib authorized_senders sender = elim (normalize_sender lib sender) [
  | none ↦ denied none "invalid_sender_address" "static"
  | some normalized ↦
      if contains normalized authorized_senders
      then allowed normalized "sender_whitelisted" "static"
      else denied (some normalized) "sender_not_whitelisted" "static"
]

-- The answer of a directory; a lookup that raises has none.
unfoldable pub authorize_answer : String → Option Bool → AuthorizationResult
authorize_answer normalized none = denied (some normalized) "ldap_lookup_failed" "ldap"
authorize_answer normalized (some true) = allowed normalized "ldap_sender_authorized" "ldap"
authorize_answer normalized (some false) =
    denied (some normalized) "ldap_sender_not_authorized" "ldap"

-- LDAPSenderAuthorizer
unfoldable pub authorize_ldap :
    AddressLib → Option (String → Option Bool) → String → AuthorizationResult
authorize_ldap lib adapter sender = elim (normalize_sender lib sender) [
  | none ↦ denied none "invalid_sender_address" "ldap"
  | some normalized ↦ elim adapter [
    | none ↦ denied (some normalized) "ldap_adapter_not_configured" "ldap"
    | some lookup ↦ authorize_answer normalized (lookup normalized)
  ]
]
