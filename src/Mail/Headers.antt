-- ===== src/Mail/Headers.antt =====
-- mail/headers.py: message ids, references and subjects; and the completion marker of mail/markers.py.
use Prim.Native.Char.{code}
use Prim.Native.String.{[], ◌∷◌, ◌++◌ as str_append}
use snoc_automation_agent.Prelude.{
  ℕ, zero, suc, not, ◌||◌, Option, none, some, List, ◌++◌, String, ◌==◌, Eq-ℕ, Eq-String,
  if◌then◌else◌, is_empty, is_some, opt_eq, strip, str_length, any, any_char, drop_while, drop_end,
}
use mathlib.Core.List.{[] as nil, ◌∷◌ as cons}
use snoc_automation_agent.Domain.Errors.{Result, ok, raise, value_error}
use snoc_automation_agent.Mail.{MailLib}

-- `s.strip("<>")`
unfoldable pub strip_angles : String → String
strip_angles s =
    drop_end (λ c. code c == 60 || code c == 62) (drop_while (λ c. code c == 60 || code c == 62) s)

unfoldable pub decode_header_value : MailLib → Option String → String
decode_header_value lib none = ""
decode_header_value lib (some value) =
    if is_empty value then "" else elim (lib.decode_header value) [
      | some text ↦ strip lib.python text
      | none ↦ strip lib.python value
    ]

unfoldable pub message_id_candidate : MailLib → String → String
message_id_candidate lib value = elim (lib.search_message_id value) [
  | some id ↦ id
  | none ↦ strip lib.python (strip_angles (strip lib.python value))
]

abbrev angled : String → String
angled id = str_append "<" (str_append id ">")

unfoldable pub normalize_message_id : MailLib → Option String → Option String
normalize_message_id lib none = none
normalize_message_id lib (some value) =
    let candidate = message_id_candidate lib value in
    if is_empty value || (is_empty candidate || any_char lib.python.is_space candidate)
    then none
    else some (angled (lib.python.casefold candidate))

unfoldable pub wire_message_id : MailLib → Option String → Option String
wire_message_id lib none = none
wire_message_id lib (some value) =
    if is_empty value || not (is_some (normalize_message_id lib (some value)))
    then none
    else some (angled (message_id_candidate lib value))

unfoldable pub build_wire_references : MailLib → List String → Option String → List String
build_wire_references lib previous incoming = elim (wire_message_id lib incoming) [
  | none ↦ previous
  | some parent ↦
      if any
        (λ (value : String).
          opt_eq (normalize_message_id lib (some value)) (normalize_message_id lib (some parent)))
        previous
      then previous
      else previous ++ cons parent nil
]

-- The loop `while subject != previous`: the subject so far, and a bound on the rounds.
unfoldable pub strip_prefixes : MailLib → ℕ → String → String
strip_prefixes lib zero subject = subject
strip_prefixes lib (suc rounds) subject =
    let next = strip lib.python (lib.sub_subject_prefix subject) in
    let rest = strip_prefixes lib rounds next in if next == subject then next else rest

-- Each round but the last shortens the subject.
abbrev pub bare_subject : MailLib → String → String
bare_subject lib subject = strip_prefixes lib (suc (str_length subject)) subject

unfoldable pub normalize_subject : MailLib → Option String → String
normalize_subject lib value =
    lib.python.casefold (lib.collapse_spaces (bare_subject lib (decode_header_value lib value)))

unfoldable pub reply_subject : MailLib → Option String → String → String
reply_subject lib value fallback =
    let subject = lib.collapse_spaces (bare_subject lib (decode_header_value lib value)) in
    str_append "Re: " (if is_empty subject then fallback else subject)

-- `sender.rsplit("@", 1)[-1] if "@" in sender else None`
unfoldable pub domain_of : String → Option String
domain_of [] = none
domain_of (c ∷ s) = elim (domain_of s) [
  | some domain ↦ some domain
  | none ↦ if code c == 64 then some s else none
]

unfoldable pub completion_marker : MailLib → String → Result String
completion_marker lib reference =
    if lib.python.fullmatch "(?i)\\bSNOC-REQ-[A-F0-9]{12}\\b" reference
    then ok (str_append "[[SNOC_REQUEST_CLOSED:" (str_append (lib.upper reference) "]]"))
    else raise value_error
