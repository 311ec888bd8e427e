-- ===== src/Skills/Loading.antt =====
-- Which skill src/skill_loader.py gives out under a name, and what it reads of a skill's file.
use ops_sentry.Prelude.{
  string_eq, nat_eq, String, ◌≡◌, refl, ap, ◌∙◌, Bool, true, false, Option, none, some, List, [],
  ◌∷◌, Dict, lookup, lookup-insert, lookup-empty, ◌==◌, if◌then◌else◌,
}
use ops_sentry.Prelude.Texts.{◌+++◌, is_prefix, is_prefix-append, strip}
use ops_sentry.Prelude.Cutting.{cut_at, is_free_of, cut_at-append, cut_at-append_self}
use ops_sentry.Ledger.Entry.{get_or}
use ops_sentry.Skills.{
  readable, SkillDir, YamlValue, SkillMeta, SkillsHome, marker, split_parts, split_rest,
  after_front, meta_of, load_skill_meta, load_skill_content, add_meta, scan_dir, scan_skills,
}

abbrev pub or_else : Option SkillMeta → Option SkillMeta → Option SkillMeta
or_else (some s) o = some s
or_else none o = o

-- The last directory whose skill can be loaded under a name, by its skill.
abbrev pub named : String → Option SkillMeta → Option SkillMeta
named n none = none
named n (some s) = if s.name == n then some s else none

abbrev pub loaded : (String → YamlValue) → Bool → SkillDir → Option SkillMeta
loaded yaml is_private d = if d.is_dir then load_skill_meta yaml d is_private else none

unfoldable pub last_named : (String → YamlValue) → Bool → String → List SkillDir → Option SkillMeta
last_named yaml is_private n [] = none
last_named yaml is_private n (d ∷ ds) =
    or_else (last_named yaml is_private n ds) (named n (loaded yaml is_private d))

lookup-add_meta :
    (n : String) (o : Option SkillMeta) (skills : Dict String SkillMeta)
    → lookup n (add_meta o skills) ≡ or_else (named n o) (lookup n skills)
lookup-add_meta n none skills = refl
lookup-add_meta n (some s) skills = lookup-insert s.name n s skills ∙ by_name (s.name == n)
  where
    by_name :
        (b : Bool)
        → (if b then some s else lookup n skills)
          ≡ or_else (if b then some s else none) (lookup n skills)
    by_name true = refl
    by_name false = refl

or_else_assoc : (a b c : Option SkillMeta) → or_else a (or_else b c) ≡ or_else (or_else a b) c
or_else_assoc (some s) b c = refl
or_else_assoc none b c = refl

or_else-none : (a : Option SkillMeta) → or_else a none ≡ a
or_else-none (some s) = refl
or_else-none none = refl

lookup-scan_dir :
    (yaml : String → YamlValue) (is_private : Bool) (n : String) (ds : List SkillDir)
    (skills : Dict String SkillMeta)
    → lookup n (scan_dir yaml is_private ds skills)
      ≡ or_else (last_named yaml is_private n ds) (lookup n skills)
unfolding scan_dir last_named
lookup-scan_dir yaml is_private n [] skills = refl
lookup-scan_dir yaml is_private n (d ∷ ds) skills =
    lookup-scan_dir yaml is_private n ds
      (if d.is_dir then add_meta (load_skill_meta yaml d is_private) skills else skills)
    ∙ ap (or_else (last_named yaml is_private n ds)) (by_kind d.is_dir)
    ∙ or_else_assoc (last_named yaml is_private n ds) (named n (loaded yaml is_private d))
        (lookup n skills)
  where
    by_kind :
        (b : Bool)
        → lookup n (if b then add_meta (load_skill_meta yaml d is_private) skills else skills)
          ≡ or_else
              (named n (if b then load_skill_meta yaml d is_private else none))
              (lookup n skills)
    by_kind true = lookup-add_meta n (load_skill_meta yaml d is_private) skills
    by_kind false = refl

-- Under a name scan_skills gives the skill of the agent's own directory, where that has one that can be loaded, and else that
-- of the account's; of several in one directory, the last.
pub lookup-scan_skills :
    (yaml : String → YamlValue) (home : SkillsHome) (uid did n : String)
    → lookup n (scan_skills yaml home uid did)
      ≡ or_else
          (last_named yaml true n (get_or (home.agent_skills uid did) []))
          (last_named yaml false n (get_or (home.account_skills uid) []))
unfolding scan_skills
lookup-scan_skills yaml home uid did n =
    lookup-scan_dir yaml true n (get_or (home.agent_skills uid did) [])
      (scan_dir yaml false (get_or (home.account_skills uid) []) [])
    ∙ ap (or_else (last_named yaml true n (get_or (home.agent_skills uid did) []))) (
        lookup-scan_dir yaml false n (get_or (home.account_skills uid) []) []
        ∙ ap (or_else (last_named yaml false n (get_or (home.account_skills uid) [])))
            (lookup-empty n)
        ∙ or_else-none (last_named yaml false n (get_or (home.account_skills uid) [])))

-- A skill's file that is made of a frontmatter between markers and a body, where no marker begins inside the frontmatter:
-- YAML gets exactly the frontmatter, and the prompt exactly the body without its outer blanks.
pub load_skill-written :
    (yaml : String → YamlValue) (d : SkillDir) (is_private : Bool) (frontmatter body : String)
    → d.skill_file ≡ readable (marker +++ (frontmatter +++ (marker +++ body)))
    → is_free_of marker frontmatter (marker +++ body) ≡ true
    → (load_skill_meta yaml d is_private ≡ meta_of d d.skill_file is_private (yaml frontmatter))
      × (load_skill_content d.skill_file ≡ some (strip body))
unfolding load_skill_meta load_skill_content split_parts
load_skill-written yaml d is_private frontmatter body e free =
    (rw e (rw (begins, parts) refl), rw e (rw (begins, parts) refl))
  where
    begins : is_prefix marker (marker +++ (frontmatter +++ (marker +++ body))) ≡ true
    begins = is_prefix-append marker (frontmatter +++ (marker +++ body))

    parts :
        split_rest (cut_at marker (marker +++ (frontmatter +++ (marker +++ body))))
        ≡ some ("", frontmatter, body)
    parts =
        ap split_rest (cut_at-append_self "-" "--" (frontmatter +++ (marker +++ body)))
        ∙ ap (after_front "") (cut_at-append "-" "--" frontmatter body free)
