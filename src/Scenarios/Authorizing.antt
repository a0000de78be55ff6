-- ===== src/Scenarios/Authorizing.antt =====
-- A list of one authorized sender.
use mathlib.Core.Logic.{◌↔◌}
use snoc_automation_agent.Prelude.{
  ◌≡◌, refl, true, some, [], ◌∷◌, List, String, strip, any_char, keep, contains,
}
use snoc_automation_agent.Domain.Errors.{ok}
use snoc_automation_agent.Authorizer.{
  AddressLib, configure_senders, normalize_sender, authorize, one_mailbox,
}
use snoc_automation_agent.Authorizer.Allowed.{Lists, authorize_iff}
use snoc_automation_agent.Scenarios.{ascii}

abbrev lib : AddressLib
lib = record { python = ascii; getaddresses = λ sender. sender ∷ [] }

abbrev configured : List String
configured = " agent@example.com" ∷ []

abbrev listed : List String
listed = "agent@example.com" ∷ []

accepted : configure_senders lib configured ≡ ok listed
unfolding configure_senders normalize_sender strip any_char one_mailbox keep
accepted = refl

authorize_iff_example : ((authorize lib listed "agent@example.com ").authorized ≡ true) ↔ (
    (address : String) × (normalize_sender lib "agent@example.com " ≡ some address)
    × Lists lib configured address)
authorize_iff_example = authorize_iff lib configured listed "agent@example.com " accepted

granted : (authorize lib listed "agent@example.com ").authorized ≡ true
unfolding authorize normalize_sender strip any_char one_mailbox keep contains
granted = refl
