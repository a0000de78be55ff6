-- ===== src/Mail/Templates.antt =====
-- mail/templates.py: the French texts of the replies.
use Prim.Native.String.{[] as empty, ◌∷◌ as char_cons, ◌++◌ as str_append}
use snoc_automation_agent.Prelude.{
  or_blank, ℕ, ◌-◌, Option, none, some, List, [], ◌∷◌, ◌++◌, String, ◌==◌, Eq-ℕ, Eq-String,
  if◌then◌else◌, is_empty, strip, str_length, drop_chars, join, map, leb, dict_get,
}
use snoc_automation_agent.Mail.{MailLib}

pub record OperationMailView : Type 0 where
  pub sequence_number : ℕ
  pub action : String
  pub pdv_code : Option String
  pub missing_fields : List String
  pub status_label : String

abbrev action_labels : List (String × String)
action_labels =
    ("vpn_access", "accès VPN/SNOC")
    ∷ ("otp_number_change", "changement du numéro OTP")
    ∷ ("account_unblock", "déblocage du compte")
    ∷ ("password_reset", "réinitialisation du mot de passe")
    ∷ ("unknown", "opération non déterminée")
    ∷ []

abbrev field_labels : List (String × String)
field_labels =
    ("pdv_code", "code PDV (8 chiffres)")
    ∷ ("phone", "numéro de téléphone")
    ∷ ("new_phone", "nouveau numéro OTP")
    ∷ []

-- `labels.get(key, default)`
unfoldable pub label : List (String × String) → String → String → String
label labels key default = elim (dict_get key labels) [ some text ↦ text | none ↦ default ]

-- `label[:1].upper() + label[1:]`
unfoldable pub capitalized : MailLib → String → String
capitalized lib empty = empty
capitalized lib (char_cons c s) = str_append (lib.upper (char_cons c empty)) s

unfoldable pub operation_description : MailLib → OperationMailView → String
operation_description lib operation =
    let description =
      capitalized lib (label action_labels operation.action "traitement de la demande") in
    let pdv_code = strip lib.python (or_blank operation.pdv_code) in
    if leb 4 (str_length pdv_code)
    then str_append description (
        str_append " pour le PDV se terminant par " (drop_chars (str_length pdv_code - 4) pdv_code))
    else if is_empty pdv_code
    then description
    else str_append description " pour le PDV concerné"

abbrev bullet : MailLib → OperationMailView → String
bullet lib operation = str_append "- " (operation_description lib operation)

abbrev closing : String → List String
closing reference =
    str_append "Référence de suivi : " reference ∷ "" ∷ "Cordialement," ∷ "Support SNOC" ∷ []

unfoldable pub clarification_lines : MailLib → List OperationMailView → List String
clarification_lines lib [] = []
clarification_lines lib (operation ∷ operations) =
    bullet lib operation
    ∷ str_append "  Information nécessaire : " (
        join ", "
          (map (λ (field : String). label field_labels field field) operation.missing_fields))
    ∷ ""
    ∷ clarification_lines lib operations

-- The subject and the body.
unfoldable pub clarification_email : MailLib → String → List OperationMailView → String × String
clarification_email lib reference operations = (
  "Informations nécessaires pour votre demande",
  join "\n" (
      ("Bonjour," ∷ "" ∷ "Merci pour votre message."
        ∷ "Pour poursuivre le traitement de votre demande, nous avons besoin des informations suivantes :"
        ∷ "" ∷ [])
      ++ clarification_lines lib operations
      ++ ("Vous pouvez simplement répondre à cet email en indiquant les informations demandées."
          ∷ "" ∷ [])
      ++ closing reference),
)

unfoldable pub completion_email : MailLib → String → List OperationMailView → String × String
completion_email lib reference operations = (
  "Mise à jour de votre demande",
  join "\n" (
      ("Bonjour," ∷ "" ∷ "Voici la mise à jour concernant votre demande :" ∷ "" ∷ [])
      ++ map
          (λ (o : OperationMailView).
            str_append (bullet lib o) (str_append " : " (str_append o.status_label ".")))
          operations
      ++ ("" ∷ [])
      ++ closing reference),
)

unfoldable pub pending_execution_email :
    MailLib → String → List OperationMailView → ℕ → String × String
pending_execution_email lib reference operations grace_seconds = (
  "Votre demande a été prise en compte",
  join "\n" (
      ("Bonjour,"
        ∷ ""
        ∷ "Votre demande a bien été reçue et validée."
        ∷ str_append "Son traitement automatique commencera dans environ " (
            str_append (lib.str grace_seconds) (
              str_append " "
                (str_append (if grace_seconds == 1 then "seconde" else "secondes") ".")))
        ∷ ""
        ∷ [])
      ++ map (bullet lib) operations
      ++ (""
          ∷ "Si vous souhaitez corriger ou annuler cette demande, répondez directement à ce message."
          ∷ "" ∷ [])
      ++ closing reference),
)
