-- ===== src/Agents/Manager.antt =====
-- The operations of `AgentManager` of src/agent_manager.py on the agents' directories.
use ops_sentry.Prelude.{
  string_eq, nat_eq, ℕ, String, Bool, not, ◌&&◌, ◌||◌, Option, none, some, List, [], ◌∷◌, ◌++◌,
  Dict, ◌==◌, Result, ok, err, ◌>>=◌, contains, lookup, insert, filter, if◌then◌else◌, ltb, is_some,
}
use ops_sentry.Prelude.Texts.{◌+++◌, take_text, drop_text}
use ops_sentry.Prelude.Order.{str_lt}
use ops_sentry.Prelude.Sorting.{sort}
use ops_sentry.Ledger.Entry.{get_or}
use ops_sentry.Agents.Validation.{
  AgentError, already_exists, invalid_config, invalid_core_file, invalid_tool_registry,
  require_non_empty, validate_vibe, validate_model_provider, normalize_tools, normalize_skills,
  normalize_skill_name, validate_core_filename,
}
use ops_sentry.Agents.Profiles.{
  AgentCreateRequest, AgentProfile, ToolConfig, Core, Op, Place, profile_from_record,
  profile_to_record, build_tool_registry, core_of, put_core, drop_core, resolve, load_profile,
}

-- A `with` of an agent's directory: what is raised before it is entered changes nothing.
abbrev pub from_result {ℓ} : {A : Type ℓ} {B : Type 0} → Result AgentError A → (A → Op B) → Op B
from_result (err e) f s = (err e, s)
from_result (ok a) f s = f a s

abbrev pub built_profile : AgentCreateRequest → String → ℕ → AgentProfile
built_profile c did now = record {
  did = did;
  uid = c.uid;
  name = c.name;
  description = c.description;
  vibe = c.vibe;
  model_provider = c.model_provider;
  model_id = c.model_id;
  tools = c.tools;
  skills = c.skills;
  created_at = now;
  updated_at = now;
}

abbrev pub overridden : Dict String String → Dict String String → Dict String String
overridden files [] = files
overridden files ((filename, content) ∷ overrides) =
    overridden (insert filename content files) overrides

-- _default_core_files
unfoldable pub default_core_files : AgentProfile → Dict String String → Dict String String
default_core_files p overrides =
    overridden
      ((
        "SOUL.md",
        "# " +++ p.name +++ " SOUL\n\n" +++ "- 核心原则：证据优先，先诊断后执行。\n" +++ "- 安全边界：未经明确批准，不执行破坏性命令。\n"
            +++ "- 输出要求：结论简洁，记录关键操作与风险。\n",
      )
        ∷ (
          "IDENTITY.md",
          "# 身份定义\n\n" +++ "- 名称：" +++ p.name +++ "\n" +++ "- 风格：" +++ p.vibe +++ "\n" +++ "- 职责："
              +++ p.description +++ "\n" +++ "- 模型：" +++ p.model_provider +++ "/" +++ p.model_id
              +++ "\n",
        )
        ∷ (
          "AGENTS.md",
          "# 协作规则\n\n" +++ "- 高风险操作必须先给出风险说明。\n" +++ "- 需要协作时，优先把任务拆成独立子任务。\n"
              +++ "- 无法确认的信息必须显式标注不确定性。\n",
        )
        ∷ ("MEMORY.md", "# Long-term Memory\n\n")
        ∷ (
          "USER.md",
          "# User Profile\n\n" +++ "- 服务对象：IT 运维团队\n" +++ "- 默认时区：Asia/Shanghai\n"
              +++ "- 目标：提升巡检、告警响应和变更审计效率\n",
        )
        ∷ [])
      overrides

unfoldable pub get_agent : String → String → Op AgentProfile
get_agent uid did s = (resolve uid did s >>= load_profile, s)

-- The files that `create_agent` writes one after the other: what raises leaves those before it.
abbrev pub written :
    AgentProfile → Dict String String → Result AgentError ToolConfig → Op AgentProfile
written p overrides (err e) s = (
  err e,
  put_core p.uid p.did (record { config = some (profile_to_record p); registry = none; files = [] })
      s,
)
written p overrides (ok registry) s = get_agent p.uid p.did (
    put_core p.uid p.did
      (record {
        config = some (profile_to_record p);
        registry = some registry;
        files = default_core_files p overrides;
      })
      s)

abbrev pub create_unless : AgentProfile → Dict String String → Option Core → Op AgentProfile
create_unless p overrides (some core) s = (err (already_exists p.did), s)
create_unless p overrides none s = written p overrides (build_tool_registry p.tools) s

-- _generate_did, of the digits of `uuid.uuid4().hex.upper()`
unfoldable pub generate_did : String → String
unfolding take_text drop_text
generate_did token = "DID-" +++ (take_text 8 token +++ ("-" +++ take_text 6 (drop_text 8 token)))

-- create_agent; `fresh` is what `_generate_did` draws.
unfoldable pub create_agent : AgentCreateRequest → String → ℕ → Op AgentProfile
create_agent c fresh now s =
    let did = get_or c.did fresh in
    create_unless (built_profile c did now) c.core_files (core_of c.uid did s) s

-- A patch: its known fields, and the names of the others.
pub record Patch : Type 0 where
  pub name : Option String
  pub description : Option String
  pub vibe : Option String
  pub model_provider : Option String
  pub model_id : Option String
  pub tools : Option (Dict String Bool)
  pub skills : Option (List String)
  pub unknown : List String

abbrev pub patched {ℓ} :
    {A : Type ℓ} → (A → Result AgentError A) → Option A → A → Result AgentError A
patched f none old = ok old
patched f (some new) old = f new

-- The fields before `tools`.
unfoldable pub patch_texts : Patch → AgentProfile → Result AgentError AgentProfile
patch_texts patch p = do
  name ← patched (require_non_empty "name") patch.name p.name
  description ← patched (require_non_empty "description") patch.description p.description
  vibe ← patched validate_vibe patch.vibe p.vibe
  model_provider ← patched validate_model_provider patch.model_provider p.model_provider
  model_id ← patched (require_non_empty "model_id") patch.model_id p.model_id
  ok (record p {
    name = name;
    description = description;
    vibe = vibe;
    model_provider = model_provider;
    model_id = model_id;
  })

abbrev pub with_config : AgentProfile → Core → Core
with_config p core = record core { config = some (profile_to_record p) }

-- The new tools go to the tool registry at once.
abbrev pub patch_tools :
    Option (Dict String Bool) → AgentProfile → Core → Result AgentError (AgentProfile × Core)
patch_tools none p core = ok (p, core)
patch_tools (some new) p core = do
  tools ← normalize_tools new
  registry ← build_tool_registry tools
  ok (record p { tools = tools }, record core { registry = some registry })

-- The skills, the time, and the profile's file.
abbrev pub patch_rest : Patch → ℕ → Place → AgentProfile × Core → Op AgentProfile
patch_rest patch now place (p, core) s =
    from_result (patched normalize_skills patch.skills p.skills)
      (λ skills s1.
        let q = record p { skills = skills; updated_at = now } in
        (
          profile_from_record q.uid (profile_to_record q),
          put_core place.uid place.did (with_config q core) s1,
        ))
      (put_core place.uid place.did core s)

abbrev pub refuse_unknown : List String → Result AgentError (Unit {0})
refuse_unknown [] = ok tt
refuse_unknown (f ∷ fields) = err (invalid_config "unsupported patch fields")

-- update_agent
unfoldable pub update_agent : String → String → Patch → ℕ → Op AgentProfile
update_agent uid did patch now s =
    from_result (resolve uid did s)
      (λ place.
        from_result
          (load_profile place >>= λ p. refuse_unknown patch.unknown >>= λ _.
            patch_texts patch p >>= λ q. patch_tools patch.tools q place.core)
          (patch_rest patch now place))
      s

-- delete_agent
unfoldable pub delete_agent : String → String → Op (Unit {0})
delete_agent uid did s =
    from_result (resolve uid did s) (λ place s1. (ok tt, drop_core place.uid place.did s1)) s

abbrev pub load_all : String → Dict String Core → Result AgentError (List AgentProfile)
load_all uid [] = ok []
load_all uid ((did, core) ∷ d) = do
  p ← load_profile (record { uid = uid; did = did; core = core })
  ps ← load_all uid d
  ok (p ∷ ps)

-- sorted by (created_at, did)
unfoldable pub is_before : AgentProfile → AgentProfile → Bool
is_before p q =
    ltb p.created_at q.created_at || (p.created_at == q.created_at && str_lt p.did q.did)

abbrev pub has_config : String × Core → Bool
has_config d = is_some d.1.config

-- list_agents: the directories that hold a profile
unfoldable pub list_agents : String → Op (List AgentProfile)
list_agents uid s = (
  do
    u ← require_non_empty "uid" uid
    ps ← load_all u (filter has_config (get_or (lookup u s) []))
    ok (sort is_before ps),
  s,
)

abbrev pub found_file : String → Option String → Result AgentError String
found_file filename none = err (invalid_core_file ("core file not found: " +++ filename))
found_file filename (some content) = ok content

-- read_core_file
unfoldable pub read_core_file : String → String → String → Op String
read_core_file uid did filename s = (
  do
    name ← validate_core_filename filename
    place ← resolve uid did s
    found_file name (lookup name place.core.files),
  s,
)

-- write_core_file
unfoldable pub write_core_file : String → String → String → String → Op (Unit {0})
write_core_file uid did filename content s =
    from_result (validate_core_filename filename)
      (λ name s1.
        from_result (resolve uid did s1)
          (λ place s2. (
            ok tt,
            put_core place.uid place.did
                (record (place.core) { files = insert name content place.core.files }) s2,
          ))
          s1)
      s

abbrev pub found_registry : String → Option ToolConfig → Result AgentError ToolConfig
found_registry did none =
    err (invalid_tool_registry ("tool registry not found for agent: " +++ did))
found_registry did (some registry) = ok registry

-- get_tool_registry
unfoldable pub get_tool_registry : String → String → Op ToolConfig
get_tool_registry uid did s =
    (do place ← resolve uid did s; found_registry did place.core.registry, s)

-- A loaded place and its profile.
abbrev pub on_profile : {B : Type 0} → String → String → (Place → AgentProfile → Op B) → Op B
on_profile uid did f s =
    from_result (resolve uid did s) (λ place. from_result (load_profile place) (f place)) s

-- update_tool_registry: the profile's file is written before the registry is built.
unfoldable pub update_tool_registry : String → String → Dict String Bool → ℕ → Op (Unit {0})
update_tool_registry uid did tools now s =
    from_result (normalize_tools tools)
      (λ normalized. on_profile uid did (λ place p s1.
        let q = record p { tools = normalized; updated_at = now } in
        from_result (build_tool_registry normalized)
          (λ registry s2. (
            ok tt,
            put_core place.uid place.did
                (record (with_config q place.core) { registry = some registry }) s2,
          ))
          (put_core place.uid place.did (with_config q place.core) s1)))
      s

-- bind_skill
unfoldable pub bind_skill : String → String → String → ℕ → Op (Unit {0})
bind_skill uid did skill_name now s =
    from_result (normalize_skill_name skill_name)
      (λ skill. on_profile uid did (λ place p s1. (
        ok tt,
        (if contains skill p.skills
            then s1
            else put_core place.uid place.did
                (with_config (record p { skills = p.skills ++ skill ∷ []; updated_at = now })
                  place.core)
                s1),
      )))
      s

-- unbind_skill
unfoldable pub unbind_skill : String → String → String → ℕ → Op (Unit {0})
unbind_skill uid did skill_name now s =
    from_result (normalize_skill_name skill_name)
      (λ skill. on_profile uid did (λ place p s1. (
        ok tt,
        (if contains skill p.skills
            then put_core place.uid place.did
                (with_config
                  (record p { skills = filter (λ x. not (x == skill)) p.skills; updated_at = now })
                  place.core)
                s1
            else s1),
      )))
      s
