-- ===== src/Operations/Fields.antt =====
-- What `apply_proposal_fields` and `effective_missing_fields` of workflow/operation_service.py keep.
use snoc_automation_agent.Prelude.{
  ℕ, ◌≡◌, ◌+◌, refl, sym, ap, ◌∙◌, true, false, not, ◌↔◌, ◌⊎◌, Option, none, some, List, [], ◌∷◌,
  ◌++◌, String, arith, keep, Python, length, opt_eq_iff, Eq-String,
}
use snoc_automation_agent.Domain.Enums.{OperationAction}
use snoc_automation_agent.Domain.ValueObjects.{
  canonical_action, required_fields, truthy, field_value, normalize_numeric,
}
use snoc_automation_agent.Db.Models.{Operation}
use snoc_automation_agent.Decision.Schemas.{ProposedOperation}
use snoc_automation_agent.Decision.Assessment.{phone_is_required}
use snoc_automation_agent.Operations.{
  Cause, Edited, revise, revision, Field, apply_update, apply_updates, apply_proposal_fields,
  effective_missing_fields, get_field, refresh_missing,
}

length-snoc {ℓ} : {A : Type ℓ} (xs : List A) (x : A) → length (xs ++ x ∷ []) ≡ length xs + 1
length-snoc [] x = omega arith
length-snoc (y ∷ ys) x = omega (arith, length-snoc ys x)

-- The revision counts the revisions.
abbrev Counts : ℕ → Edited → Type 0
Counts base e = e.operation.current_revision ≡ base + length e.revisions

revise-Counts :
    (base : ℕ) (cause : Cause) (field : Field) (value : String) (e : Edited)
    → Counts base e
    → Counts base (revise cause field value e)
revise-Counts base cause Field.pdv_code value e h =
    omega (arith, length-snoc e.revisions (revision cause Field.pdv_code value e), h)
revise-Counts base cause Field.phone value e h =
    omega (arith, length-snoc e.revisions (revision cause Field.phone value e), h)

apply_update-Counts :
    (base : ℕ) (cause : Cause) (field : Field) (value : Option String) (e : Edited)
    → Counts base e
    → Counts base (apply_update cause field value e)
unfolding apply_update
apply_update-Counts base cause field none e h = h
apply_update-Counts base cause field (some value) e h =
    ground (arith, revise-Counts base cause field value e h)

-- Applying a proposal raises the revision of the operation by one for each field revision that it
-- stores.
pub apply_proposal_fields-counts :
    (py : Python) (cause : Cause) (proposal : ProposedOperation) (op : Operation) (id : ℕ)
    → let after =
        apply_proposal_fields py cause proposal
          (record { operation = op; revisions = []; next_id = id }) in
      after.operation.current_revision ≡ op.current_revision + length after.revisions
unfolding apply_proposal_fields refresh_missing apply_updates
apply_proposal_fields-counts py cause proposal op id =
    apply_update-Counts op.current_revision cause Field.phone
      (normalize_numeric py true proposal.phone) _
      (apply_update-Counts op.current_revision cause Field.pdv_code
        (normalize_numeric py false proposal.pdv_code)
        (record { operation = op; revisions = []; next_id = id }) (ground arith))

-- The field has the value, where there is one.
abbrev Holds : Field → Option String → Operation → Type 0
Holds field none op = Unit
Holds field (some value) op = get_field field op ≡ some value

Holds-apply_update :
    (cause : Cause) (field : Field) (value : Option String) (e : Edited)
    → Holds field value e.operation
    → apply_update cause field value e ≡ e
unfolding apply_update
Holds-apply_update cause field none e h = refl
Holds-apply_update cause field (some value) e h =
    ground (arith, opt_eq_iff (get_field field e.operation) (some value))

apply_update-Holds :
    (cause : Cause) (field : Field) (value : Option String) (e : Edited)
    → Holds field value (apply_update cause field value e).operation
unfolding apply_update
apply_update-Holds cause field none e = tt
apply_update-Holds cause Field.pdv_code (some value) e =
    ground (arith, opt_eq_iff e.operation.pdv_code (some value))
apply_update-Holds cause Field.phone (some value) e =
    ground (arith, opt_eq_iff e.operation.phone (some value))

apply_update_keeps_pdv :
    (cause : Cause) (value : Option String) (e : Edited)
    → (apply_update cause Field.phone value e).operation.pdv_code ≡ e.operation.pdv_code
unfolding apply_update
apply_update_keeps_pdv cause none e = refl
apply_update_keeps_pdv cause (some value) e = ground arith

Holds-pdv :
    (value : Option String) (a b : Operation)
    → a.pdv_code ≡ b.pdv_code
    → Holds Field.pdv_code value a
    → Holds Field.pdv_code value b
Holds-pdv none a b e h = tt
Holds-pdv (some value) a b e h = ground arith

apply_updates_still :
    (py : Python) (cause : Cause) (proposal : ProposedOperation) (e : Edited)
    → Holds Field.pdv_code (normalize_numeric py false proposal.pdv_code) e.operation
    → Holds Field.phone (normalize_numeric py true proposal.phone) e.operation
    → apply_updates py cause proposal e ≡ e
unfolding apply_updates
apply_updates_still py cause proposal e pdv phone =
    rw
      (Holds-apply_update cause Field.pdv_code (normalize_numeric py false proposal.pdv_code) e pdv)
      (Holds-apply_update cause Field.phone (normalize_numeric py true proposal.phone) e phone)

apply_updates-Holds :
    (py : Python) (cause : Cause) (proposal : ProposedOperation) (e : Edited)
    → let op = (apply_updates py cause proposal e).operation in
      Holds Field.pdv_code (normalize_numeric py false proposal.pdv_code) op
      × Holds Field.phone (normalize_numeric py true proposal.phone) op
unfolding apply_updates
apply_updates-Holds py cause proposal e =
    let first =
      apply_update cause Field.pdv_code (normalize_numeric py false proposal.pdv_code) e in
    (
      Holds-pdv _ first.operation _
          (sym (apply_update_keeps_pdv cause (normalize_numeric py true proposal.phone) first))
          (apply_update-Holds cause Field.pdv_code _ e),
      apply_update-Holds cause Field.phone _ first,
    )

Holds-refresh_missing :
    (py : Python) (field : Field) (value : Option String) (e : Edited)
    → Holds field value e.operation
    → Holds field value (refresh_missing py e).operation
unfolding refresh_missing
Holds-refresh_missing py field none e h = tt
Holds-refresh_missing py Field.pdv_code (some value) e h = h
Holds-refresh_missing py Field.phone (some value) e h = h

refresh_missing_idem :
    (py : Python) (e : Edited) → refresh_missing py (refresh_missing py e) ≡ refresh_missing py e
unfolding refresh_missing effective_missing_fields
refresh_missing_idem py e = refl

-- A proposal applied twice changes nothing the second time: no revision is stored, and the
-- operation stays as it is.
pub apply_proposal_fields_idem :
    (py : Python) (cause again : Cause) (proposal : ProposedOperation) (e : Edited)
    → let once = apply_proposal_fields py cause proposal e in
      apply_proposal_fields py again proposal once ≡ once
unfolding apply_proposal_fields
apply_proposal_fields_idem py cause again proposal e =
    let first = apply_updates py cause proposal e in
    let (pdv, phone) = apply_updates-Holds py cause proposal e in
    ap (refresh_missing py) (
      apply_updates_still py again proposal (refresh_missing py first)
        (Holds-refresh_missing py Field.pdv_code _ first pdv)
        (Holds-refresh_missing py Field.phone _ first phone))
    ∙ refresh_missing_idem py first

-- The values that an operation needs before it can be executed: a PDV for every known action, and a
-- telephone number for two of them.
abbrev pub IsPresent : OperationAction → Option String → Option String → Type 0
IsPresent action pdv_code phone =
    ((action ≡ OperationAction.unknown) ⊎ (truthy pdv_code ≡ true))
    × ((phone_is_required action ≡ false) ⊎ (truthy phone ≡ true))

keep-IsPresent_iff :
    (action : OperationAction) (pdv_code phone : Option String)
    → (keep (λ (f : String). not (truthy (field_value pdv_code phone f))) (required_fields action)
        ≡ [])
      ↔ IsPresent action pdv_code phone
unfolding required_fields keep
keep-IsPresent_iff OperationAction.vpn_access pdv_code phone = ground arith
keep-IsPresent_iff OperationAction.otp_number_change pdv_code phone = ground arith
keep-IsPresent_iff OperationAction.account_unblock pdv_code phone = ground arith
keep-IsPresent_iff OperationAction.password_reset pdv_code phone = ground arith
keep-IsPresent_iff OperationAction.unknown pdv_code phone = ground arith

-- After a proposal is applied, the list of missing fields stored with the operation is empty
-- exactly when the operation has a PDV that is not blank, where its action is known, and a phone
-- that is not blank, where the policy requires one.
pub apply_proposal_fields-IsPresent_iff :
    (py : Python) (cause : Cause) (proposal : ProposedOperation) (e : Edited)
    → let op = (apply_proposal_fields py cause proposal e).operation in
      (op.missing_fields ≡ []) ↔ IsPresent (canonical_action py op.action) op.pdv_code op.phone
unfolding apply_proposal_fields refresh_missing effective_missing_fields
apply_proposal_fields-IsPresent_iff py cause proposal e =
    let op = (apply_updates py cause proposal e).operation in
    keep-IsPresent_iff (canonical_action py op.action) op.pdv_code op.phone
