-- ===== src/Agents/Validation.antt =====
-- What src/agent_manager.py accepts: names, dids, tools, skills and core files. A value is the text that
-- `str` makes of it.
use ops_sentry.Prelude.{
  string_eq, String, Bool, true, false, not, ◌||◌, List, [], ◌∷◌, ◌++◌, Dict, ◌==◌, Result, ok, err,
  ◌>>=◌, contains, insert, has_key, if◌then◌else◌,
}
use ops_sentry.Prelude.Texts.{◌+++◌, strip, upper, is_prefix, contains_text}

-- The AgentManagerErrors, with their messages.
pub data AgentError : Type 0 where
  agent_not_found : String → AgentError
  already_exists : String → AgentError
  invalid_config : String → AgentError
  invalid_core_file : String → AgentError
  invalid_tool_registry : String → AgentError
  invalid_skill : String → AgentError
  manager_error : String → AgentError

abbrev pub core_file_names : List String
core_file_names = "SOUL.md" ∷ "IDENTITY.md" ∷ "AGENTS.md" ∷ "MEMORY.md" ∷ "USER.md" ∷ []

abbrev pub valid_vibes : List String
valid_vibes = "professional" ∷ "expert" ∷ "balance" ∷ []

abbrev pub valid_model_providers : List String
valid_model_providers =
    "claude" ∷ "openai" ∷ "qwen" ∷ "moonshot" ∷ "zhipu" ∷ "minimax" ∷ "auto" ∷ []

abbrev pub default_tool_groups : Dict String (List String)
default_tool_groups =
    ("file_system", "list" ∷ "read" ∷ "grep" ∷ "glob" ∷ "ripgrep" ∷ "write" ∷ "edit" ∷ [])
    ∷ ("command_execution", "bash" ∷ "process" ∷ [])
    ∷ ("network_probe", "web_fetch" ∷ [])
    ∷ ("cron_trigger", "cron" ∷ [])
    ∷ ("human_confirm", "question" ∷ [])
    ∷ (
      "memory_planning",
      "memory_search" ∷ "memory_get" ∷ "task_create" ∷ "task_get" ∷ "task_update" ∷ "task_list"
          ∷ [],
    )
    ∷ (
      "agent_collaboration",
      "sessions_spawn" ∷ "sessions_list" ∷ "sessions_history" ∷ "sessions_send" ∷ [],
    )
    ∷ ("external_integration", "mcp_call" ∷ [])
    ∷ ("notification", "listen_gmail_reply" ∷ "unlisten_gmail" ∷ [])
    ∷ []

abbrev pub default_tool_enablement : Dict String Bool
default_tool_enablement =
    ("file_system", true)
    ∷ ("command_execution", true)
    ∷ ("network_probe", true)
    ∷ ("cron_trigger", true)
    ∷ ("human_confirm", false)
    ∷ ("memory_planning", true)
    ∷ ("agent_collaboration", true)
    ∷ ("external_integration", true)
    ∷ ("notification", true)
    ∷ []

abbrev pub default_denied_tools : List String
default_denied_tools =
    "product_supplier_search" ∷ "image_generate" ∷ "image_edit" ∷ "see_image" ∷ "web_search"
    ∷ "get_weather" ∷ "get_location" ∷ []

-- _require_non_empty
unfoldable pub require_non_empty : String → String → Result AgentError String
require_non_empty field_name value =
    if strip value == ""
    then err (invalid_config (field_name +++ " must not be empty"))
    else ok (strip value)

unfoldable pub require_one_of : List String → String → String → Result AgentError String
require_one_of allowed message text =
    if contains text allowed then ok text else err (invalid_config (message +++ text))

-- _validate_vibe
unfoldable pub validate_vibe : String → Result AgentError String
validate_vibe value = do
  vibe ← require_non_empty "vibe" value
  require_one_of valid_vibes "unsupported vibe: " vibe

-- _validate_model_provider
unfoldable pub validate_model_provider : String → Result AgentError String
validate_model_provider value = do
  provider ← require_non_empty "model_provider" value
  require_one_of valid_model_providers "unsupported model_provider: " provider

unfoldable pub check_did : String → Result AgentError String
check_did did =
    if not (is_prefix "DID-" did)
    then err (invalid_config ("invalid did format: " +++ did))
    else if contains_text "/" did || contains_text "\\" did || contains_text ".." did
    then err (invalid_config ("path traversal detected in did: " +++ did))
    else ok did

-- _normalize_did
unfoldable pub normalize_did : String → Result AgentError String
normalize_did value = do did ← require_non_empty "did" value; check_did (upper did)

unfoldable pub normalize_over :
    Dict String Bool → Dict String Bool → Result AgentError (Dict String Bool)
normalize_over normalized [] = ok normalized
normalize_over normalized ((key, enabled) ∷ value) =
    let rest = normalize_over (insert key enabled normalized) value in
    if has_key key default_tool_groups
    then rest
    else err (invalid_tool_registry ("unsupported tool group: " +++ key))

-- _normalize_tools
unfoldable pub normalize_tools : Dict String Bool → Result AgentError (Dict String Bool)
normalize_tools value = normalize_over default_tool_enablement value

unfoldable pub check_skill : String → Result AgentError String
check_skill skill =
    if skill == ""
    then err (invalid_skill "skill_name must not be empty")
    else if contains_text "/" skill || contains_text "\\" skill || contains skill ("." ∷ ".." ∷ [])
    then err (invalid_skill ("invalid skill_name: " +++ skill))
    else ok skill

-- _normalize_skill_name
unfoldable pub normalize_skill_name : String → Result AgentError String
normalize_skill_name skill_name = check_skill (strip skill_name)

abbrev pub added : String → List String → List String
added skill normalized = if contains skill normalized then normalized else normalized ++ skill ∷ []

unfoldable pub normalize_skills_over : List String → List String → Result AgentError (List String)
normalize_skills_over normalized [] = ok normalized
normalize_skills_over normalized (skill ∷ skills) = do
  cleaned ← normalize_skill_name skill
  normalize_skills_over (added cleaned normalized) skills

-- _normalize_skills
unfoldable pub normalize_skills : List String → Result AgentError (List String)
normalize_skills skills = normalize_skills_over [] skills

unfoldable pub normalize_core_files_over :
    Dict String String → Dict String String → Result AgentError (Dict String String)
normalize_core_files_over normalized [] = ok normalized
normalize_core_files_over normalized ((filename, content) ∷ overrides) =
    let rest = normalize_core_files_over (insert filename content normalized) overrides in
    if contains filename core_file_names
    then rest
    else err (invalid_core_file ("unsupported core file override: " +++ filename))

-- _normalize_core_file_overrides
unfoldable pub normalize_core_file_overrides :
    Dict String String → Result AgentError (Dict String String)
normalize_core_file_overrides overrides = normalize_core_files_over [] overrides

-- AgentManager._validate_core_filename
unfoldable pub validate_core_filename : String → Result AgentError String
validate_core_filename filename =
    if contains (strip filename) core_file_names
    then ok (strip filename)
    else err (invalid_core_file ("unsupported core file: " +++ filename))
