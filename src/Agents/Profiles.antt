-- ===== src/Agents/Profiles.antt =====
-- The agents of src/agent_manager.py: their requests, their profiles, and what the manager does to their
-- directories. An account's agents are its directories, by did.
use ops_sentry.Prelude.{
  string_eq, nat_eq, ℕ, String, Bool, not, ◌&&◌, ◌==◌, Option, none, some, List, [], ◌∷◌, Dict,
  Result, ok, err, ◌>>=◌, lookup, insert, remove,
}
use ops_sentry.Prelude.Texts.{contains_text}
use ops_sentry.Prelude.Action.{Action}
use ops_sentry.Ledger.Entry.{get_or}
use ops_sentry.Agents.Validation.{
  AgentError, agent_not_found, manager_error, require_non_empty, validate_vibe,
  validate_model_provider, normalize_did, normalize_tools, normalize_skills,
  normalize_core_file_overrides, default_tool_enablement, default_tool_groups, default_denied_tools,
}

pub record AgentCreateRequest : Type 0 where
  pub uid : String
  pub name : String
  pub description : String
  pub vibe : String
  pub model_provider : String
  pub model_id : String
  pub tools : Dict String Bool
  pub skills : List String
  pub core_files : Dict String String
  pub did : Option String

pub record AgentProfile : Type 0 where
  pub did : String
  pub uid : String
  pub name : String
  pub description : String
  pub vibe : String
  pub model_provider : String
  pub model_id : String
  pub tools : Dict String Bool
  pub skills : List String
  pub created_at : ℕ
  pub updated_at : ℕ

-- agent_config.json
pub record ProfileRecord : Type 0 where
  pub did : String
  pub name : String
  pub description : String
  pub vibe : String
  pub model_provider : String
  pub model_id : String
  pub tools : Option (Dict String Bool)
  pub skills : Option (List String)
  pub created_at : ℕ
  pub updated_at : ℕ

-- tool-registry.jsonc
pub record ToolConfig : Type 0 where
  pub enabled_groups : Dict String Bool
  pub tool_groups : Dict String (List String)
  pub denied_tools : List String

-- A directory agent-core.
pub record Core : Type 0 where
  pub config : Option ProfileRecord
  pub registry : Option ToolConfig
  pub files : Dict String String

-- The directories of the accounts by their uids, where these are plain names: `_resolve_agent_core_dir` and `_agent_core_dir` put
-- a uid into a path as it is, so that one with a separator, or one of dots, may lead anywhere. What a call does with
-- such a uid is a parameter of the theorems. The file system keeps different names apart.
abbrev pub Accounts : Type 0
Accounts = Dict String (Dict String Core)

-- One component of a POSIX path, and not the directory itself or the one above it.
unfoldable pub is_plain_name : String → Bool
unfolding contains_text
is_plain_name uid =
    not (uid == "") && not (contains_text "/" uid) && not (uid == ".") && not (uid == "..")

abbrev pub Op : Type 0 → Type 0
Op A = Action Accounts AgentError A

abbrev pub normalize_optional_did : Option String → Result AgentError (Option String)
normalize_optional_did none = ok none
normalize_optional_did (some value) = do did ← normalize_did value; ok (some did)

-- AgentCreateRequest.__post_init__
unfoldable pub init_request : AgentCreateRequest → Result AgentError AgentCreateRequest
init_request r = do
  uid ← require_non_empty "uid" r.uid
  name ← require_non_empty "name" r.name
  description ← require_non_empty "description" r.description
  vibe ← validate_vibe r.vibe
  model_provider ← validate_model_provider r.model_provider
  model_id ← require_non_empty "model_id" r.model_id
  tools ← normalize_tools r.tools
  skills ← normalize_skills r.skills
  core_files ← normalize_core_file_overrides r.core_files
  did ← normalize_optional_did r.did
  ok (record {
    uid = uid;
    name = name;
    description = description;
    vibe = vibe;
    model_provider = model_provider;
    model_id = model_id;
    tools = tools;
    skills = skills;
    core_files = core_files;
    did = did;
  })

-- `record.get("tools") or DEFAULT_TOOL_ENABLEMENT`
abbrev pub tools_or_default : Option (Dict String Bool) → Dict String Bool
tools_or_default none = default_tool_enablement
tools_or_default (some []) = default_tool_enablement
tools_or_default (some (t ∷ tools)) = t ∷ tools

-- AgentProfile.from_record
unfoldable pub profile_from_record : String → ProfileRecord → Result AgentError AgentProfile
profile_from_record uid r = do
  did ← normalize_did r.did
  uid ← require_non_empty "uid" uid
  name ← require_non_empty "name" r.name
  description ← require_non_empty "description" r.description
  vibe ← validate_vibe r.vibe
  model_provider ← validate_model_provider r.model_provider
  model_id ← require_non_empty "model_id" r.model_id
  tools ← normalize_tools (tools_or_default r.tools)
  skills ← normalize_skills (get_or r.skills [])
  ok (record {
    did = did;
    uid = uid;
    name = name;
    description = description;
    vibe = vibe;
    model_provider = model_provider;
    model_id = model_id;
    tools = tools;
    skills = skills;
    created_at = r.created_at;
    updated_at = r.updated_at;
  })

-- AgentProfile.to_record
unfoldable pub profile_to_record : AgentProfile → ProfileRecord
profile_to_record p = record {
  did = p.did;
  name = p.name;
  description = p.description;
  vibe = p.vibe;
  model_provider = p.model_provider;
  model_id = p.model_id;
  tools = some p.tools;
  skills = some p.skills;
  created_at = p.created_at;
  updated_at = p.updated_at;
}

-- _build_tool_registry
unfoldable pub build_tool_registry : Dict String Bool → Result AgentError ToolConfig
build_tool_registry tools = do
  enabled ← normalize_tools tools
  ok (record {
    enabled_groups = enabled;
    tool_groups = default_tool_groups;
    denied_tools = default_denied_tools;
  })

unfoldable pub core_of : String → String → Accounts → Option Core
core_of uid did s = lookup did (get_or (lookup uid s) [])

unfoldable pub put_core : String → String → Core → Accounts → Accounts
put_core uid did core s = insert uid (insert did core (get_or (lookup uid s) [])) s

unfoldable pub drop_core : String → String → Accounts → Accounts
drop_core uid did s = insert uid (remove did (get_or (lookup uid s) [])) s

-- Where an agent's directory is, and what is there.
pub record Place : Type 0 where
  pub uid : String
  pub did : String
  pub core : Core

abbrev pub at_place : String → String → Option Core → Result AgentError Place
at_place uid did none = err (agent_not_found did)
at_place uid did (some core) = ok (record { uid = uid; did = did; core = core })

-- _resolve_agent_core_dir
unfoldable pub resolve : String → String → Accounts → Result AgentError Place
resolve uid did s = do
  u ← require_non_empty "uid" uid
  d ← normalize_did did
  at_place u d (core_of u d s)

abbrev pub stored_record : Option ProfileRecord → Result AgentError ProfileRecord
stored_record none = err (manager_error "missing json file")
stored_record (some r) = ok r

-- _load_profile
unfoldable pub load_profile : Place → Result AgentError AgentProfile
load_profile p = do r ← stored_record p.core.config; profile_from_record p.uid r
