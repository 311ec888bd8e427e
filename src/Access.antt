-- ===== src/Access.antt =====
-- src/auth.py and src/agent_key_vault.py: who may do what, and with whose keys. The decoding of a token is
-- PyJWT's.
mod Examples
pub mod Deciding
use ops_sentry.Prelude.{
  string_eq, nat_eq, ℕ, String, Bool, true, false, not, ◌&&◌, ◌||◌, Option, none, some, List, [],
  ◌∷◌, Dict, ◌==◌, Result, ok, err, ◌>>=◌, contains, lookup, if◌then◌else◌,
}
use ops_sentry.Prelude.Texts.{◌+++◌}
use ops_sentry.Ledger.Entry.{get_or}

pub record CurrentUser : Type 0 where
  pub user_id : String
  pub role : String
  pub org_id : String

pub record HttpException : Type 0 where
  pub status_code : ℕ
  pub detail : String

-- The claims of a token.
pub record Claims : Type 0 where
  pub sub : Option String
  pub role : Option String
  pub org_id : Option String

-- How `jwt.decode` ends.
pub data Decoded : Type 0 where
  valid : Claims → Decoded
  expired_signature invalid_token : Decoded

-- JWTManager.decode_token
unfoldable pub decode_token : Decoded → Result HttpException Claims
decode_token (valid c) = ok c
decode_token expired_signature = err (record { status_code = 401; detail = "Token expired" })
decode_token invalid_token = err (record { status_code = 401; detail = "Invalid token" })

abbrev pub missing_claims : HttpException
missing_claims = record {
  status_code = 401;
  detail = "Invalid token payload: missing sub, role, or org_id";
}

-- `not user_id or not role or not org_id`
abbrev pub is_missing : Option String → Bool
is_missing none = true
is_missing (some s) = s == ""

unfoldable pub user_of : Claims → Result HttpException CurrentUser
user_of c =
    if is_missing c.sub || (is_missing c.role || is_missing c.org_id)
    then err missing_claims
    else ok
        (record { user_id = get_or c.sub ""; role = get_or c.role ""; org_id = get_or c.org_id "" })

-- get_current_user
unfoldable pub get_current_user : Decoded → Result HttpException CurrentUser
get_current_user d = do c ← decode_token d; user_of c

-- require_role
unfoldable pub require_role : List String → CurrentUser → Result HttpException CurrentUser
require_role allowed_roles u =
    if u.role == "admin"
    then ok u
    else if not (contains u.role allowed_roles)
    then err (record {
      status_code = 403;
      detail = "Permission denied: role '" +++ u.role +++ "' not authorized";
    })
    else ok u

-- verify_resource_ownership
unfoldable pub verify_resource_ownership : String → CurrentUser → Result HttpException String
verify_resource_ownership resource_uid u =
    if u.role == "admin"
    then ok resource_uid
    else if not (resource_uid == u.user_id)
    then err (record { status_code = 403; detail = "Access denied: Resource ownership mismatch" })
    else ok resource_uid

-- A route that has both dependencies.
unfoldable pub authorize : Decoded → List String → String → Result HttpException String
authorize d allowed_roles resource_uid = do
  u ← get_current_user d
  v ← require_role allowed_roles u
  verify_resource_ownership resource_uid v

-- AgentKeySet
pub record AgentKeySet : Type 0 where
  pub agent_did : String
  pub provider : String
  pub api_key : String
  pub api_base : Option String
  pub extra : Dict String String

-- A provider's value in secrets.json: the key itself, or a dict.
pub data Secret : Type 0 where
  plain : String → Secret
  detailed : Option String → Option String → Dict String String → Secret

abbrev pub env_key_map : Dict String String
env_key_map =
    ("openai", "OPENAI_API_KEY")
    ∷ ("claude", "ANTHROPIC_API_KEY")
    ∷ ("qwen", "DASHSCOPE_API_KEY")
    ∷ ("moonshot", "MOONSHOT_API_KEY")
    ∷ ("zhipu", "ZHIPU_API_KEY")
    ∷ ("minimax", "MINIMAX_API_KEY")
    ∷ []

abbrev pub detailed_key_set :
    String → String → Option String → Option String → Dict String String → Result String AgentKeySet
detailed_key_set did provider none base extra = err "api_key"
detailed_key_set did provider (some key) base extra =
    ok (record {
      agent_did = did;
      provider = provider;
      api_key = key;
      api_base = base;
      extra = extra;
    })

-- _build_key_set; a KeyError stands by its argument.
unfoldable pub build_key_set : String → String → Secret → Result String AgentKeySet
build_key_set did provider (plain key) =
    ok (record { agent_did = did; provider = provider; api_key = key; api_base = none; extra = [] })
build_key_set did provider (detailed key base extra) = detailed_key_set did provider key base extra

-- Where keys are looked for: the secrets.json of the agent and of the account, `none` where there is none
-- that can be read, and the environment.
pub record Sources : Type 0 where
  pub agent : Option (Dict String Secret)
  pub account : Option (Dict String Secret)
  pub environ : String → String

abbrev pub secret_in : String → Option (Dict String Secret) → Option Secret
secret_in provider none = none
secret_in provider (some d) = lookup provider d

unfoldable pub env_value : String → Sources → String
env_value provider s = elim (lookup provider env_key_map) [ none ↦ "" | some v ↦ s.environ v ]

abbrev pub no_key : String → String → String
no_key did provider =
    "No API key found for agent="
    +++ did
    +++ ", provider="
    +++ provider
    +++ ". Checked: agent secrets, account secrets, env $"
    +++ get_or (lookup provider env_key_map) ""

abbrev pub from_environment : String → String → String → Result String AgentKeySet
from_environment did provider value =
    if value == ""
    then err (no_key did provider)
    else ok (record {
      agent_did = did;
      provider = provider;
      api_key = value;
      api_base = none;
      extra = [];
    })

abbrev pub from_account : String → String → Sources → Option Secret → Result String AgentKeySet
from_account did provider s (some x) = build_key_set did provider x
from_account did provider s none = from_environment did provider (env_value provider s)

abbrev pub from_agent : String → String → Sources → Option Secret → Result String AgentKeySet
from_agent did provider s (some x) = build_key_set did provider x
from_agent did provider s none = from_account did provider s (secret_in provider s.account)

-- resolve_keys
unfoldable pub resolve_keys : String → String → Sources → Result String AgentKeySet
resolve_keys did provider s = from_agent did provider s (secret_in provider s.agent)
