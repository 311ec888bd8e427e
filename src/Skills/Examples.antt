-- ===== src/Skills/Examples.antt =====
-- An account and an agent with a skill of one name, for the theorems about src/skill_loader.py.
use ops_sentry.Prelude.{string_eq, String, ◌≡◌, true, false, none, some, [], ◌∷◌, lookup}
use ops_sentry.Prelude.Texts.{◌+++◌}
use ops_sentry.Ledger.Entry.{get_or}
use ops_sentry.Skills.{
  SkillFile, readable, SkillDir, YamlValue, mapping, SkillsHome, marker, scan_skills,
}
use ops_sentry.Skills.Loading.{or_else, last_named, lookup-scan_skills}

abbrev yaml : String → YamlValue
yaml s =
    mapping (record { name = some "deploy"; version = some s; description = none; trigger = none })

abbrev written_dir : String → SkillDir
written_dir name = record {
  dir_name = name;
  is_dir = true;
  skill_file = readable (marker +++ ("\nname: deploy\n" +++ (marker +++ "\nRun it.\n")));
}

abbrev home : SkillsHome
home = record {
  account_skills = λ uid. some (written_dir "x" ∷ []);
  agent_skills = λ uid did. some (
      written_dir "y"
      ∷ record { dir_name = "notes"; is_dir = false; skill_file = SkillFile.no_file }
      ∷ []);
}

scan_example :
    lookup "deploy" (scan_skills yaml home "u1" "DID-1")
    ≡ or_else
        (last_named yaml true "deploy" (get_or (home.agent_skills "u1" "DID-1") []))
        (last_named yaml false "deploy" (get_or (home.account_skills "u1") []))
scan_example = lookup-scan_skills yaml home "u1" "DID-1" "deploy"
