-- ===== src/Authorizer/Allowed.antt =====
-- Whom the static list of workflow/authorizer.py authorizes.
use mathlib.Core.List.{Memᴰ}
use mathlib.Core.Logic.{◌↔◌}
use snoc_automation_agent.Prelude.{
  ◌≡◌, ◌∙◌, ap, refl, inl, inr, true, some, List, [], ◌∷◌, String, ◌==◌, Eq-String, eq_iff,
  contains, arith, Bool-cases, Option-cases,
}
use snoc_automation_agent.Domain.Errors.{ok, Result-cases}
use snoc_automation_agent.Authorizer.{AddressLib, normalize_sender, configure_senders, authorize}

-- One of the senders has the address.
abbrev pub Lists : AddressLib → List String → String → Type 0
Lists lib configured address =
    (sender : String) × Memᴰ sender configured × (normalize_sender lib sender ≡ some address)

-- A configuration that is accepted has an address for its first sender and accepts the others.
configure-cons :
    (lib : AddressLib) (sender : String) (rest listed : List String)
    → configure_senders lib (sender ∷ rest) ≡ ok listed
    → (address : String) × (others : List String) × (normalize_sender lib sender ≡ some address)
      × (configure_senders lib rest ≡ ok others)
      × (listed ≡ address ∷ others)
unfolding configure_senders
configure-cons lib sender rest listed h = elim (Option-cases (normalize_sender lib sender)) [
  | inl e ↦ absurd (ground (arith, e, h))
  | inr (address, e) ↦ elim (Result-cases (configure_senders lib rest)) [
    | inl (others, q) ↦ (address, others, e, q, ground (arith, e, q, h))
    | inr (x, q) ↦ absurd (ground (arith, e, q, h))
  ]
]

configure-nil :
    (lib : AddressLib) (listed : List String) → configure_senders lib [] ≡ ok listed → listed ≡ []
unfolding configure_senders
configure-nil lib listed h = ground (arith, h)

listed-Lists :
    (lib : AddressLib) (configured listed : List String) (address : String)
    → configure_senders lib configured ≡ ok listed
    → contains address listed ≡ true
    → Lists lib configured address
unfolding contains
listed-Lists lib [] listed address h m = absurd (ground (arith, configure-nil lib listed h, m))
listed-Lists lib (sender ∷ rest) listed address h m =
    let (first, others, e, q, same) = configure-cons lib sender rest listed h in
    elim (Bool-cases (first == address)) [
      | inl this ↦ (sender, Memᴰ.head refl, e ∙ ap some ((eq_iff first address).0 this))
      | inr next ↦
          let (found, at, its) =
            listed-Lists lib rest others address q (ground (arith, same, m, next)) in
          (found, Memᴰ.tail at, its)
    ]

Lists-listed :
    (lib : AddressLib) (configured listed : List String) (address sender : String)
    → configure_senders lib configured ≡ ok listed
    → Memᴰ sender configured
    → normalize_sender lib sender ≡ some address
    → contains address listed ≡ true
unfolding contains
Lists-listed lib [] listed address sender h at its = elim at [ ]
Lists-listed lib (first ∷ rest) listed address sender h (Memᴰ.head same) its =
    let (a, others, e, q, all_of) = configure-cons lib first rest listed h in
    ground (arith, all_of, e, its, ap (normalize_sender lib) same, eq_iff a address)
Lists-listed lib (first ∷ rest) listed address sender h (Memᴰ.tail at) its =
    let (a, others, e, q, all_of) = configure-cons lib first rest listed h in
    ground (arith, all_of, Lists-listed lib rest others address sender q at its)

authorize-contains :
    (lib : AddressLib) (listed : List String) (sender : String)
    → (authorize lib listed sender).authorized ≡ true
    → (address : String) × (normalize_sender lib sender ≡ some address)
      × (contains address listed ≡ true)
unfolding authorize
authorize-contains lib listed sender h = elim (Option-cases (normalize_sender lib sender)) [
  | inl e ↦ absurd (ground (arith, e, h))
  | inr (address, e) ↦ (address, e, ground (arith, e, h))
]

contains-authorize :
    (lib : AddressLib) (listed : List String) (sender address : String)
    → normalize_sender lib sender ≡ some address
    → contains address listed ≡ true
    → (authorize lib listed sender).authorized ≡ true
unfolding authorize
contains-authorize lib listed sender address e m = ground (arith, e, m)

-- Under a configuration that is accepted, a sender is authorized exactly if it has a canonical address
-- and that is the address of one of the configured senders, however either is spelled.
pub authorize_iff :
    (lib : AddressLib) (configured listed : List String) (sender : String)
    → configure_senders lib configured ≡ ok listed
    → ((authorize lib listed sender).authorized ≡ true) ↔ (
        (address : String) × (normalize_sender lib sender ≡ some address)
        × Lists lib configured address)
authorize_iff lib configured listed sender h = (
  λ granted.
      let (address, its, m) = authorize-contains lib listed sender granted in
      (address, its, listed-Lists lib configured listed address h m),
  λ known.
      contains-authorize lib listed sender known.0 known.1
        (Lists-listed lib configured listed known.0 known.2.0 h known.2.1 known.2.2),
)
