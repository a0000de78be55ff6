-- ===== src/Domain/ValueObjects/Fields.antt =====
-- What `validate_operation_fields` and `canonical_action` of domain/value_objects.py promise.
use mathlib.Core.Path.{subst}
use snoc_automation_agent.Prelude.{
  ◌≡◌, sym, ◌∙◌, ◌≢◌, ◌↔◌, ◌⊎◌, inl, inr, eq_iff, Bool, true, Option, none, some, String, arith,
  Python, strip, All,
}
use snoc_automation_agent.Domain.Enums.{OperationAction}
use snoc_automation_agent.Domain.ValueObjects.{
  validate_operation_fields, required_fields, truthy, field_value, canonical_action, action_value,
  action_of_normalized, legacy_action_mapping,
}

-- A present field has the configured format.
abbrev pub Fits : (String → Bool) → Option String → Type 0
Fits matches none = Unit
Fits matches (some value) = matches value ≡ true

-- What a complete and well-formed operation is.
pub record IsComplete (py : Python) (action : OperationAction) (pdv_code phone : Option String)
    (pdv_pattern phone_pattern : String) : Type 0 where
  pub known : action ≢ OperationAction.unknown
  pub present : All (λ f. truthy (field_value pdv_code phone f) ≡ true) (required_fields action)
  pub pdv_fits : Fits (py.fullmatch pdv_pattern) pdv_code
  pub phone_fits : Fits (py.fullmatch phone_pattern) phone

-- The check passes exactly on complete and well-formed fields of a known action.
pub validate-passed_iff :
    (py : Python) (action : OperationAction) (pdv_code phone : Option String)
    (pdv_pattern phone_pattern : String)
    → ((validate_operation_fields py action pdv_code phone pdv_pattern phone_pattern).passed ≡ true)
      ↔ IsComplete py action pdv_code phone pdv_pattern phone_pattern
unfolding validate_operation_fields
validate-passed_iff py OperationAction.unknown none none p q = ground arith
validate-passed_iff py _ _ _ p q = ground arith

abbrev pub Spells : String → OperationAction → Type 0
Spells text action = (text ≡ action_value action) ⊎ (legacy_action_mapping text ≡ some action)

action_of_normalized-Spells :
    (text : String)
    → action_of_normalized text ≢ OperationAction.unknown
    → Spells text (action_of_normalized text)
unfolding action_of_normalized action_value
action_of_normalized-Spells text h = ground (
  arith,
  eq_iff text "vpn_access",
  eq_iff text "otp_number_change",
  eq_iff text "account_unblock",
  eq_iff text "password_reset",
)

Spells-action_of_normalized :
    (text : String) (action : OperationAction)
    → Spells text action
    → action_of_normalized text ≡ action
unfolding action_of_normalized action_value
Spells-action_of_normalized text OperationAction.vpn_access (inl e) = rw e
Spells-action_of_normalized text OperationAction.otp_number_change (inl e) = rw e
Spells-action_of_normalized text OperationAction.account_unblock (inl e) = rw e
Spells-action_of_normalized text OperationAction.password_reset (inl e) = rw e
Spells-action_of_normalized text OperationAction.unknown (inl e) = rw e
Spells-action_of_normalized text action (inr e) = ground arith

-- A known action is read from its value or its legacy spelling, and from no other text, after
-- stripping and case folding.
pub canonical_action_iff :
    (py : Python) (value : String) (action : OperationAction)
    → action ≢ OperationAction.unknown
    → (canonical_action py value ≡ action) ↔ Spells (py.casefold (strip py value)) action
unfolding canonical_action
canonical_action_iff py value action known = (
  λ h.
      subst (λ a. Spells (py.casefold (strip py value)) a) h
        (action_of_normalized-Spells _ (λ u. known (sym h ∙ u))),
  Spells-action_of_normalized (py.casefold (strip py value)) action,
)
