-- ===== src/Domain/ValueObjects.antt =====
-- domain/value_objects.py: canonical actions, required fields, numeric normalisation, field checks.
pub mod Numeric
pub mod Fields
use Prim.Native.Char.{code}
use Prim.Native.String.{[] as empty, ◌∷◌ as char_cons, ◌++◌ as str_append}
use text.Mathlib.Text.{starts_with}
use snoc_automation_agent.Prelude.{
  Bool, true, false, not, ◌&&◌, ◌||◌, Option, none, some, List, [], ◌∷◌, ◌++◌, String, ◌==◌,
  if◌then◌else◌, is_empty, strip, keep_chars, any_char, Python, Eq-ℕ, Eq-String,
}
use snoc_automation_agent.Domain.Enums.{OperationAction}
use snoc_automation_agent.Domain.Errors.{Result, ok, raise, value_error}

unfoldable pub action_value : OperationAction → String
action_value OperationAction.vpn_access = "vpn_access"
action_value OperationAction.otp_number_change = "otp_number_change"
action_value OperationAction.account_unblock = "account_unblock"
action_value OperationAction.password_reset = "password_reset"
action_value OperationAction.unknown = "unknown"

unfoldable pub legacy_action_mapping : String → Option OperationAction
legacy_action_mapping s =
    if s == "vpn"
    then some OperationAction.vpn_access
    else if s == "otp"
    then some OperationAction.otp_number_change
    else if s == "locked"
    then some OperationAction.account_unblock
    else if s == "reset"
    then some OperationAction.password_reset
    else none

-- `OperationAction(normalized)`, with `unknown` for the ValueError.
unfoldable pub action_of_value : String → OperationAction
action_of_value s =
    if s == "vpn_access"
    then OperationAction.vpn_access
    else if s == "otp_number_change"
    then OperationAction.otp_number_change
    else if s == "account_unblock"
    then OperationAction.account_unblock
    else if s == "password_reset"
    then OperationAction.password_reset
    else OperationAction.unknown

-- The table first, then the enumeration, on the normalized text.
unfoldable pub action_of_normalized : String → OperationAction
unfolding legacy_action_mapping action_of_value
action_of_normalized normalized = elim (legacy_action_mapping normalized) [
  | some action ↦ action
  | none ↦ action_of_value normalized
]

unfoldable pub canonical_action : Python → String → OperationAction
unfolding action_of_normalized
canonical_action py value = action_of_normalized (py.casefold (strip py value))

unfoldable pub required_fields : OperationAction → List String
required_fields OperationAction.vpn_access = "pdv_code" ∷ "phone" ∷ []
required_fields OperationAction.otp_number_change = "pdv_code" ∷ "new_phone" ∷ []
required_fields OperationAction.account_unblock = "pdv_code" ∷ []
required_fields OperationAction.password_reset = "pdv_code" ∷ []
required_fields OperationAction.unknown = []

-- The text after `strip`, and the decision about its leading plus.
numeric_of_text : Python → Bool → String → Option String
numeric_of_text py keep_leading_plus text =
    let digits = keep_chars py.is_digit text in
    if is_empty digits
    then none
    else some (if keep_leading_plus && starts_with text "+" then str_append "+" digits else digits)

unfoldable pub normalize_numeric : Python → Bool → Option String → Option String
unfolding numeric_of_text
normalize_numeric py keep_leading_plus none = none
normalize_numeric py keep_leading_plus (some value) =
    numeric_of_text py keep_leading_plus (strip py value)

pub record InvariantResult : Type 0 where
  pub passed : Bool
  pub reasons : List String

-- Python's truth of an optional text: `None` and the empty text are false.
abbrev pub truthy : Option String → Bool
truthy none = false
truthy (some s) = not (is_empty s)

-- The dictionary of the three field names; the required names are among them.
abbrev pub field_value : Option String → Option String → String → Option String
field_value pdv_code phone field = if field == "pdv_code" then pdv_code else phone

unfoldable pub missing_reasons : Option String → Option String → List String → List String
missing_reasons pdv_code phone [] = []
missing_reasons pdv_code phone (field ∷ fields) =
    let rest = missing_reasons pdv_code phone fields in
    if truthy (field_value pdv_code phone field)
    then rest
    else str_append "missing_required_field:" field ∷ rest

unfoldable pub format_reasons : (String → Bool) → String → Option String → List String
format_reasons matches reason none = []
format_reasons matches reason (some value) = if matches value then [] else reason ∷ []

unfoldable pub action_reasons : OperationAction → List String
action_reasons OperationAction.unknown = "unsupported_action" ∷ []
action_reasons _ = []

abbrev pub no_reasons : List String → Bool
no_reasons [] = true
no_reasons (r ∷ rs) = false

unfoldable pub validate_operation_fields :
    Python → OperationAction → Option String → Option String → String → String → InvariantResult
unfolding missing_reasons format_reasons action_reasons required_fields
validate_operation_fields py action pdv_code phone pdv_pattern phone_pattern =
    let reasons : List String =
      missing_reasons pdv_code phone (required_fields action)
      ++ (format_reasons (py.fullmatch pdv_pattern) "invalid_pdv_format" pdv_code
          ++ (format_reasons (py.fullmatch phone_pattern) "invalid_phone_format" phone
              ++ action_reasons action)) in
    record { passed = no_reasons reasons; reasons = reasons }

unfoldable pub reject_header_injection : String → Result String
unfolding any_char
reject_header_injection value =
    if any_char (λ c. code c == 13 || code c == 10) value then raise value_error else ok value
