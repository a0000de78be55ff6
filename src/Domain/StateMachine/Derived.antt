-- ===== src/Domain/StateMachine/Derived.antt =====
-- `derive_request_status` of domain/state_machine.py against a description of its outcomes.
use mathlib.Core.Logic.{∥∥₁_elim}
use mathlib.Core.List.{Perm, Permᴰ}
use snoc_automation_agent.Prelude.{
  ◌≡◌, refl, ◌≢◌, ◌↔◌, ◌∙◌, inl, inr, Bool-cases, Bool, true, false, List, [], ◌∷◌, arith, all, any,
  All, ◌==◌,
}
use snoc_automation_agent.Domain.Enums.{OperationStatus, RequestStatus, Eq-OperationStatus}
use snoc_automation_agent.Domain.StateMachine.{derive_nonempty, derive_request_status}

module _ {ℓ} {A : Type ℓ} (p : A → Bool) where
  any-perm : {xs ys : List A} → Permᴰ xs ys → any p xs ≡ any p ys
  unfolding any
  any-perm Permᴰ.nil = refl
  any-perm (Permᴰ.cons e h) = rw (e, any-perm h)
  any-perm (Permᴰ.swap e f) = rw (e, f) (ground arith)
  any-perm (Permᴰ.trans h k) = any-perm h ∙ any-perm k

  all-perm : {xs ys : List A} → Permᴰ xs ys → all p xs ≡ all p ys
  unfolding all
  all-perm Permᴰ.nil = refl
  all-perm (Permᴰ.cons e h) = rw (e, all-perm h)
  all-perm (Permᴰ.swap e f) = rw (e, f) (ground arith)
  all-perm (Permᴰ.trans h k) = all-perm h ∙ all-perm k

derive_nonempty-perm :
    {xs ys : List OperationStatus} → Permᴰ xs ys → derive_nonempty xs ≡ derive_nonempty ys
unfolding derive_nonempty
derive_nonempty-perm h = simp (all-perm _ h, any-perm _ h)

derive-perm :
    {xs ys : List OperationStatus}
    → Permᴰ xs ys
    → derive_request_status xs ≡ derive_request_status ys
unfolding derive_request_status
derive-perm Permᴰ.nil = refl
derive-perm (Permᴰ.cons e h) = derive_nonempty-perm (Permᴰ.cons e h)
derive-perm (Permᴰ.swap e f) = derive_nonempty-perm (Permᴰ.swap e f)
derive-perm (Permᴰ.trans h k) = derive-perm h ∙ derive-perm k

RequestStatus-set : IsSet RequestStatus
RequestStatus-set = hlevel

-- The order in which the operations of a request are read does not matter.
pub derive_request_status-perm :
    (xs ys : List OperationStatus)
    → Perm xs ys
    → derive_request_status xs ≡ derive_request_status ys
derive_request_status-perm xs ys h = ∥∥₁_elim h (RequestStatus-set _ _) derive-perm

all_completed_iff :
    (xs : List OperationStatus)
    → (all (λ s. s == OperationStatus.completed) xs ≡ true)
      ↔ All (λ s. s ≡ OperationStatus.completed) xs
unfolding all
all_completed_iff [] = (λ _. tt, λ _. refl)
all_completed_iff (x ∷ xs) = ground (arith, all_completed_iff xs)

-- A request is completed exactly when it has an operation and all of its operations are completed.
pub derive-eq-completed_iff :
    (xs : List OperationStatus)
    → (derive_request_status xs ≡ RequestStatus.completed)
      ↔ ((xs ≢ []) × All (λ s. s ≡ OperationStatus.completed) xs)
unfolding derive_request_status
derive-eq-completed_iff [] = ground arith
derive-eq-completed_iff (x ∷ xs) = (
  λ h. (λ e. cc, (all_completed_iff (x ∷ xs)).0 (ground arith)),
  λ h. ground (arith, (all_completed_iff (x ∷ xs)).1 h.1),
)

needs_information-waits :
    (xs : List OperationStatus)
    → any (λ s. s == OperationStatus.needs_information) xs ≡ true
    → all (λ s. s == OperationStatus.completed) xs ≡ false
unfolding any all
needs_information-waits [] h = cc
needs_information-waits (x ∷ xs) h = ground (arith, needs_information-waits xs)

none_completed_iff :
    (xs : List OperationStatus)
    → (any (λ s. s == OperationStatus.completed) xs ≡ false)
      ↔ All (λ s. s ≢ OperationStatus.completed) xs
unfolding any
none_completed_iff [] = (λ _. tt, λ _. refl)
none_completed_iff (x ∷ xs) = ground (arith, none_completed_iff xs)

none_waits_iff :
    (xs : List OperationStatus)
    → (any (λ s. s == OperationStatus.needs_information) xs ≡ false)
      ↔ All (λ s. s ≢ OperationStatus.needs_information) xs
unfolding any
none_waits_iff [] = (λ _. tt, λ _. refl)
none_waits_iff (x ∷ xs) = ground (arith, none_waits_iff xs)

-- A request needs information exactly when one of its operations does and none is completed.
pub derive-eq-needs_information_iff :
    (xs : List OperationStatus)
    → (derive_request_status xs ≡ RequestStatus.needs_information) ↔ (
        (¬ All (λ s. s ≢ OperationStatus.needs_information) xs)
        × All (λ s. s ≢ OperationStatus.completed) xs)
unfolding derive_request_status
derive-eq-needs_information_iff [] = ground arith
derive-eq-needs_information_iff (x ∷ xs) = (
  λ h. (
    λ none_waits. ground (arith, h, (none_waits_iff (x ∷ xs)).1 none_waits),
    (none_completed_iff (x ∷ xs)).0 (ground arith),
  ),
  λ h.
      let waits : any (λ s. s == OperationStatus.needs_information) (x ∷ xs) ≡ true =
        elim (Bool-cases (any (λ s. s == OperationStatus.needs_information) (x ∷ xs))) [
          | inl e ↦ e
          | inr e ↦ absurd (h.0 ((none_waits_iff (x ∷ xs)).0 e))
        ] in
      ground
        (arith, waits, needs_information-waits (x ∷ xs) waits, (none_completed_iff (x ∷ xs)).1 h.1),
)

-- Statuses of operations never give these: a request reaches them, if at all, by other code.
pub derive_never :
    (xs : List OperationStatus)
    → (derive_request_status xs ≢ RequestStatus.new)
      × (derive_request_status xs ≢ RequestStatus.analyzing)
      × (derive_request_status xs ≢ RequestStatus.cancelled)
      × (derive_request_status xs ≢ RequestStatus.expired)
unfolding derive_request_status
derive_never [] = ground arith
derive_never (x ∷ xs) = ground arith
