-- ===== src/Mail.antt =====
-- mail/headers.py, mail/markers.py and mail/templates.py, as the replies use them. The standard
-- library's decoding and making of headers and the matching of regular expressions are parameters.
pub mod Headers
pub mod Templates
pub mod Subjects
use snoc_automation_agent.Prelude.{ℕ, Option, String, Python}

pub record MailLib : Type 0 where
  pub python : Python
  -- `str.upper` and `str` of an integer.
  pub upper : String → String
  pub str : ℕ → String
  -- `make_msgid(domain=…)`, which gives a new text each time; the number stands for the occasion.
  pub make_msgid : Option String → ℕ → String
  -- `str(make_header(decode_header(…)))`, which is absent where it raises.
  pub decode_header : String → Option String
  -- The first group of the first match of MESSAGE_ID_RE.
  pub search_message_id : String → Option String
  -- `SUBJECT_PREFIX_RE.sub("", …, count=1)` and `re.sub(r"\s+", " ", …)`.
  pub sub_subject_prefix : String → String
  pub collapse_spaces : String → String
