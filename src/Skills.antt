-- ===== src/Skills.antt =====
-- src/skill_loader.py: the skills of an account and of an agent, and what of them goes into the system prompt.
-- What the YAML library makes of a text is a parameter.
pub mod Loading
mod Examples
use ops_sentry.Prelude.{
  string_eq, nat_eq, String, Bool, true, false, Option, none, some, List, [], ◌∷◌, ◌++◌, Dict,
  insert, lookup, ◌==◌, if◌then◌else◌,
}
use ops_sentry.Prelude.Texts.{◌+++◌, is_prefix, strip, join}
use ops_sentry.Prelude.Cutting.{cut_at}
use ops_sentry.Prelude.Json.{Json, Items}
use ops_sentry.Ledger.Entry.{get_or}

-- What is at the path of a SKILL.md.
pub data SkillFile : Type 0 where
  no_file : SkillFile
  unreadable : SkillFile
  readable : String → SkillFile

-- An entry of a skills directory.
pub record SkillDir : Type 0 where
  pub dir_name : String
  pub is_dir : Bool
  pub skill_file : SkillFile

-- The mapping that a frontmatter holds: what is at each of the loader's keys, with a name and a version that are texts.
pub record Frontmatter : Type 0 where
  pub name : Option String
  pub version : Option String
  pub description : Option Json
  pub trigger : Option Json

-- How `yaml.safe_load` ends.
pub data YamlValue : Type 0 where
  mapping : Frontmatter → YamlValue
  other_value : YamlValue
  yaml_error : YamlValue

-- SkillMeta; `path` stands for the file itself.
pub record SkillMeta : Type 0 where
  pub name : String
  pub version : String
  pub description : Json
  pub trigger : Json
  pub path : SkillFile
  pub is_private : Bool

abbrev pub marker : String
marker = "---"

abbrev pub after_front : String → Option (String × String) → Option (String × String × String)
after_front front none = none
after_front front (some (middle, rest)) = some (front, middle, rest)

abbrev pub split_rest : Option (String × String) → Option (String × String × String)
split_rest none = none
split_rest (some (front, back)) = after_front front (cut_at marker back)

-- content.split("---", 2), where that has three parts
unfoldable pub split_parts : String → Option (String × String × String)
split_parts content = split_rest (cut_at marker content)

abbrev pub meta_of : SkillDir → SkillFile → Bool → YamlValue → Option SkillMeta
meta_of d file is_private (mapping f) = some (record {
  name = get_or f.name d.dir_name;
  version = get_or f.version "v0.1";
  description = get_or f.description (Json.str "");
  trigger = get_or f.trigger (Json.arr Items.nil);
  path = file;
  is_private = is_private;
})
meta_of d file is_private other_value = none
meta_of d file is_private yaml_error = none

abbrev pub meta_of_parts :
    (String → YamlValue)
    → SkillDir
    → SkillFile
    → Bool
    → Option (String × String × String)
    → Option SkillMeta
meta_of_parts yaml d file is_private none = none
meta_of_parts yaml d file is_private (some (front, middle, rest)) =
    meta_of d file is_private (yaml middle)

abbrev pub meta_of_file : (String → YamlValue) → SkillDir → SkillFile → Bool → Option SkillMeta
unfolding split_parts is_prefix
meta_of_file yaml d no_file is_private = none
meta_of_file yaml d unreadable is_private = none
meta_of_file yaml d (readable content) is_private =
    if is_prefix marker content
    then meta_of_parts yaml d (readable content) is_private (split_parts content)
    else none

-- _load_skill_meta
unfoldable pub load_skill_meta : (String → YamlValue) → SkillDir → Bool → Option SkillMeta
unfolding split_parts is_prefix
load_skill_meta yaml d is_private = meta_of_file yaml d d.skill_file is_private

abbrev pub content_of_parts : String → Option (String × String × String) → String
content_of_parts content none = strip content
content_of_parts content (some (front, middle, rest)) = strip rest

-- _load_skill_content
unfoldable pub load_skill_content : SkillFile → Option String
unfolding split_parts is_prefix
load_skill_content no_file = none
load_skill_content unreadable = none
load_skill_content (readable content) = some (
    if is_prefix marker content
    then content_of_parts content (split_parts content)
    else strip content)

abbrev pub add_meta : Option SkillMeta → Dict String SkillMeta → Dict String SkillMeta
add_meta none skills = skills
add_meta (some s) skills = insert s.name s skills

-- The loop over one directory.
unfoldable pub scan_dir :
    (String → YamlValue) → Bool → List SkillDir → Dict String SkillMeta → Dict String SkillMeta
scan_dir yaml is_private [] skills = skills
scan_dir yaml is_private (d ∷ ds) skills =
    scan_dir yaml is_private ds
      (if d.is_dir then add_meta (load_skill_meta yaml d is_private) skills else skills)

-- The skills directories that there are, by account and by agent.
pub record SkillsHome : Type 0 where
  pub account_skills : String → Option (List SkillDir)
  pub agent_skills : String → String → Option (List SkillDir)

-- scan_skills
unfoldable pub scan_skills :
    (String → YamlValue) → SkillsHome → String → String → Dict String SkillMeta
unfolding scan_dir
scan_skills yaml home uid did =
    scan_dir yaml true (get_or (home.agent_skills uid did) [])
      (scan_dir yaml false (get_or (home.account_skills uid) []) [])

abbrev pub part_of_text : SkillMeta → Option String → List String
part_of_text s none = []
part_of_text s (some t) =
    if t == "" then [] else ("### Skill: " +++ s.name +++ " (" +++ s.version +++ ")\n" +++ t) ∷ []

abbrev pub part_of : Option SkillMeta → List String
part_of none = []
part_of (some s) = part_of_text s (load_skill_content s.path)

-- The loop over the enabled skills.
unfoldable pub injection_parts : Dict String SkillMeta → List String → List String
injection_parts skills [] = []
injection_parts skills (n ∷ enabled) = part_of (lookup n skills) ++ injection_parts skills enabled

abbrev pub joined : List String → String
joined [] = "No specialized skills currently enabled."
joined (p ∷ parts) = join "\n\n" (p ∷ parts)

-- get_system_prompt_injection
unfoldable pub get_system_prompt_injection :
    (String → YamlValue) → SkillsHome → String → String → List String → String
unfolding scan_skills injection_parts
get_system_prompt_injection yaml home uid did enabled =
    joined (injection_parts (scan_skills yaml home uid did) enabled)
