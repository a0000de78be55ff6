-- ===== src/Scenarios/Replying.antt =====
-- Runs of the services that write to a customer.
use snoc_automation_agent.Prelude.{
  ◌≡◌, refl, none, some, [], ◌∷◌, List, ℕ, count_where, find, length, arith, strip, head, keep, any,
  dict_get, dict_merge, dict_set, update_where, any_char, drop_chars, drop_end, drop_while, join,
  join_from, all, contains,
}
use snoc_automation_agent.Domain.Enums.{ClarificationStatus, OperationStatus}
use snoc_automation_agent.Domain.Errors.{Result, ok, raise}
use snoc_automation_agent.Db.Models.{Clarification, Operation}
use snoc_automation_agent.Db.Session.{Db, get_request, session_scope}
use snoc_automation_agent.Mail.{MailLib}
use snoc_automation_agent.Mail.Headers.{
  reply_subject, strip_prefixes, decode_header_value, build_wire_references, domain_of,
  message_id_candidate, normalize_message_id, normalize_subject, strip_angles, wire_message_id,
  completion_marker,
}
use snoc_automation_agent.Replies.Services.{
  Reply, ensure_clarification, open_for_request, new_clarification, clarification_row,
  link_clarification, ensure_pending_execution_acknowledgement, ensure_terminal_summary,
  new_acknowledgement, new_summary,
}
use snoc_automation_agent.Replies.Clarified.{IsNumbered, IsAsked, ensure_clarification-IsAsked}
use snoc_automation_agent.Replies.Sparing.{IsSparing}
use snoc_automation_agent.Replies.Once.{Task, serve_all, serve_all-IsSparing}
use snoc_automation_agent.Replies.Messages.{
  add_clarification, create_outbound_message, check_draft, reject_values, store_draft, add_email,
  add_outbox, edit_clarification, outbound_email, outbox_row, reply_headers, edit_request,
}
use snoc_automation_agent.Domain.ValueObjects.{reject_header_injection}
use snoc_automation_agent.Mail.Templates.{
  clarification_email, capitalized, clarification_lines, label, operation_description,
  completion_email, pending_execution_email,
}
use snoc_automation_agent.Outbox.{edit_outbox}
use snoc_automation_agent.Scenarios.{ascii, unblock, request, email, db}

abbrev lib : MailLib
lib = record {
  python = ascii;
  upper = λ s. s;
  str = λ n. "60";
  make_msgid = λ domain n. "<answer@example.com>";
  decode_header = λ s. some s;
  search_message_id = λ s. none;
  sub_subject_prefix = λ s. s;
  collapse_spaces = λ s. s;
}

abbrev incomplete : Operation
incomplete = record unblock {
  status = OperationStatus.needs_information;
  pdv_code = none;
  missing_fields = "pdv_code" ∷ [];
}

abbrev reply : Reply
reply = record {
  source_email = email;
  operations = incomplete ∷ [];
  sender_address = "snoc@example.com";
  recipient = "agent@example.com";
  now = 7;
}

replied : reply_subject lib (some "unblock") "Informations" ≡ "Re: unblock"
unfolding reply_subject strip_prefixes strip decode_header_value
replied = refl

-- What a run returns with its database.
abbrev result_or : Clarification × Db → Result (Clarification × Db) → Clarification × Db
result_or other (ok x) = x
result_or other (raise e) = other

abbrev blank : Clarification
blank = record {
  id = 0;
  request_id = 0;
  outbound_email_id = none;
  source_inbound_email_id = 0;
  target_operation_ids = [];
  requested_fields = [];
  question_text = "";
  status = ClarificationStatus.resolved;
  round_number = 0;
}

abbrev asked : Clarification × Db
asked = result_or (blank, db) (ensure_clarification lib request reply db)

asks : ensure_clarification lib request reply db ≡ ok asked
unfolding ensure_clarification head open_for_request keep new_clarification add_clarification
    create_outbound_message check_draft reject_header_injection clarification_email reply_subject
    strip_prefixes strip decode_header_value reject_values store_draft add_email add_outbox
    build_wire_references domain_of message_id_candidate normalize_message_id normalize_subject
    strip_angles wire_message_id capitalized clarification_lines label operation_description
    edit_outbox any dict_get dict_merge dict_set update_where any_char drop_chars drop_end
    drop_while join join_from edit_clarification outbound_email outbox_row reply_headers
    clarification_row link_clarification
asks = refl

numbered : IsNumbered db
numbered = record { clarifications = tt; outbox = tt }

abbrev closing_reply : Reply
closing_reply = record reply {
  operations = record unblock { status = OperationStatus.completed } ∷ [];
}

ensure_clarification-IsAsked_example :
    IsAsked request reply db asked.0 asked.1
    × (ensure_clarification lib request closing_reply asked.1 ≡ ok (asked.0, asked.1))
ensure_clarification-IsAsked_example =
    ensure_clarification-IsAsked lib request reply closing_reply db asked.0 asked.1 numbered asks

untold : IsSparing 2 db
unfolding count_where get_request find
untold = record { acknowledged = omega arith; summarized = omega arith; asked = omega arith }

abbrev tasks : List (ℕ × Task × Reply)
tasks =
    (2, Task.clarify, reply)
    ∷ (2, Task.acknowledge 60, closing_reply)
    ∷ (2, Task.acknowledge 60, closing_reply)
    ∷ (2, Task.summarize, closing_reply)
    ∷ (2, Task.summarize, closing_reply)
    ∷ []

serve_all-IsSparing_example : IsSparing 2 (serve_all lib tasks db)
serve_all-IsSparing_example = serve_all-IsSparing lib tasks db 2 untold

written : length (serve_all lib tasks db).outbox ≡ 3
unfolding serve_all session_scope get_request find ensure_clarification head open_for_request keep
    new_clarification add_clarification create_outbound_message check_draft reject_header_injection
    clarification_email reply_subject strip_prefixes strip decode_header_value build_wire_references
    completion_marker domain_of message_id_candidate normalize_message_id normalize_subject
    strip_angles wire_message_id capitalized clarification_lines completion_email label
    operation_description pending_execution_email edit_outbox all any contains dict_get dict_merge
    dict_set update_where any_char drop_chars drop_end drop_while join join_from add_email
    add_outbox edit_clarification edit_request outbound_email outbox_row reject_values reply_headers
    store_draft clarification_row ensure_pending_execution_acknowledgement ensure_terminal_summary
    link_clarification new_acknowledgement new_summary
written = refl
