-- ===== src/Runtime.antt =====
-- What the program takes from its runtime and does not implement: Unicode's case and
-- decomposition tables, the
-- decimal reader behind `Number`, `JSON.parse`; and the variables of its environment. Parameters of
-- the definitions that use them.
use unified_inbox.Prelude.{String, Option, none, Bool, false, some, if◌then◌else◌, str_eq}
use unified_inbox.Prelude.Int.{ℤ}
use unified_inbox.Prelude.Text.{trim, is_empty}
use unified_inbox.Json.{Json}

pub record Runtime : Type 0 where
  -- `s.toLowerCase()`
  pub to_lower_case : String → String
  -- `s.normalize("NFKD")`
  pub normalize_nfkd : String → String
  -- `Math.trunc(Number(s))`, `none` where `Number(s)` is not finite
  pub trunc_number : String → Option ℤ
  -- `JSON.parse(s)`, `none` where it throws
  pub parse_json : String → Option Json

-- `process.env`
pub record Env : Type 0 where
  pub redis_url : Option String
  pub node_env : Option String
  pub enable_dev_endpoints : Option String
  pub whatsapp_graph_api_version : Option String
  pub instagram_graph_api_version : Option String
  pub channel_token_secret : Option String
  pub app_url : Option String
  pub auth_email_transport : Option String
  pub auth_email_verification_mode : Option String
  pub auth_email_from : Option String
  pub auth_recovery_secret : Option String
  pub resend_api_key : Option String
  pub session_secret : Option String
  pub whatsapp_app_secret : Option String
  pub instagram_app_secret : Option String
  pub whatsapp_verify_token : Option String
  pub instagram_verify_token : Option String

-- `process.env.X?.trim()`, none where that is missing or empty.
abbrev pub trimmed : Option String → Option String
trimmed none = none
trimmed (some s) = let t = trim s in if is_empty t then none else some t

-- `process.env.X === text`
abbrev pub env_is : Option String → String → Bool
env_is none text = false
env_is (some s) text = str_eq s text
