-- ===== src/HttpApi/Commands.antt =====
-- The commands of business_api/schemas.py, which check the arguments of every call before it leaves.
-- A failed check is pydantic's ValidationError, a ValueError. The matching of regular expressions is
-- a parameter, as `fullmatch`; the fields are stripped first, as the models' configuration asks.
use Prim.Native.Char.{code}
use snoc_automation_agent.Prelude.{
  ℕ, Bool, not, ◌&&◌, ◌||◌, Option, none, some, List, [], String, ◌==◌, Eq-ℕ, Eq-String,
  if◌then◌else◌, is_empty, strip, str_length, any, any_char, leb, Python, dict_keys,
}
use snoc_automation_agent.Domain.Errors.{Result, ok, raise, value_error, ◌>>=◌}

-- The arguments of a command.
pub record Arguments : Type 0 where
  pub pdv_code : String
  pub phone : Option String
  pub additional_payload : List (String × Option String)
  pub idempotency_key : String

unfoldable pub reject_header_controls : Python → String → Result String
reject_header_controls py value =
    let text = strip py value in
    if is_empty text
    then raise value_error
    else if any_char (λ c. code c == 13 || (code c == 10 || code c == 0)) text
    then raise value_error
    else ok text

abbrev pub length_between : ℕ → ℕ → String → Bool
length_between low high text = leb low (str_length text) && leb (str_length text) high

unfoldable pub valid_idempotency_key : Python → String → Result String
valid_idempotency_key py value = reject_header_controls py value >>= λ text.
    if py.fullmatch "[A-Za-z0-9][A-Za-z0-9._:/-]{0,199}" text then ok text else raise value_error

-- `phone` and `new_phone`: the length, then the validator.
unfoldable pub valid_phone : Python → String → Result String
valid_phone py value =
    if length_between 1 64 (strip py value)
    then reject_header_controls py (strip py value)
    else raise value_error

unfoldable pub business_command : Python → String → String → Result (String × String)
business_command py pdv_code key =
    if not (py.fullmatch "^\\d{8}$" (strip py pdv_code))
    then raise value_error
    else if not (length_between 1 200 (strip py key))
    then raise value_error
    else (valid_idempotency_key py (strip py key) >>= λ k. ok (strip py pdv_code, k))

-- No key of the additional payload names a core field.
unfoldable pub overrides_core : List (String × Option String) → Bool
overrides_core additional =
    any (λ (k : String). k == "pdv_code" || (k == "phone" || k == "idempotency_key"))
      (dict_keys additional)

unfoldable pub vpn_access_command :
    Python → String → String → List (String × Option String) → String → Result Arguments
vpn_access_command py pdv_code phone additional key = business_command py pdv_code key >>= λ core.
    valid_phone py phone >>= λ number.
    if overrides_core additional
    then raise value_error
    else ok (record {
      pdv_code = core.0;
      phone = some number;
      additional_payload = additional;
      idempotency_key = core.1;
    })

unfoldable pub otp_number_change_command : Python → String → String → String → Result Arguments
otp_number_change_command py pdv_code new_phone key = business_command py pdv_code key >>= λ core.
    valid_phone py new_phone >>= λ number. ok (record {
      pdv_code = core.0;
      phone = some number;
      additional_payload = [];
      idempotency_key = core.1;
    })

unfoldable pub pdv_only_command : Python → String → String → Result Arguments
pdv_only_command py pdv_code key = business_command py pdv_code key >>= λ core.
    ok (record {
      pdv_code = core.0;
      phone = none;
      additional_payload = [];
      idempotency_key = core.1;
    })
