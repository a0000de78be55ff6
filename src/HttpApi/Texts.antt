-- ===== src/HttpApi/Texts.antt =====
-- Texts as business_api/http_client.py handles them.
use Prim.Native.Char.{code}
use Prim.Native.String.{String}
use snoc_automation_agent.Prelude.{◌==◌, Eq-ℕ, drop_end}

-- `base_url.rstrip("/")`
unfoldable pub rstrip_slash : String → String
rstrip_slash s = drop_end (λ c. code c == 47) s
