-- ===== src/Routers/Agents.antt =====
-- The routes of src/routers/agents.py, by the token of the request as it decodes, and those of src/routers/skills.py,
-- which take no token. A body is given as FastAPI has read it.
use ops_sentry.Prelude.{
  string_eq, nat_eq, ℕ, String, List, [], ◌∷◌, Result, ok, err, map, ◌>>=◌, if◌then◌else◌,
}
use ops_sentry.Access.{
  CurrentUser, HttpException, Decoded, get_current_user, require_role, verify_resource_ownership,
}
use ops_sentry.Agents.Validation.{AgentError}
use ops_sentry.Prelude.Texts.{strip}
use ops_sentry.Agents.Profiles.{Accounts, is_plain_name, AgentCreateRequest, AgentProfile}
use ops_sentry.Agents.Manager.{
  Patch, create_agent, list_agents, get_agent, update_agent, delete_agent, read_core_file,
  bind_skill, unbind_skill,
}
use ops_sentry.Skills.{SkillMeta, SkillsHome, YamlValue, scan_skills}

-- A request, with the uuid and the time that it meets.
pub data AgentRequest : Type 0 where
  post_agent : AgentCreateRequest → String → ℕ → AgentRequest
  get_agents : String → AgentRequest
  get_one : String → String → AgentRequest
  patch_one : String → String → Patch → ℕ → AgentRequest
  delete_one : String → String → AgentRequest
  get_core_file : String → String → String → AgentRequest
  post_skill : String → String → String → ℕ → AgentRequest
  delete_skill : String → String → String → ℕ → AgentRequest
  post_exec : String → String → AgentRequest

pub data AgentReply : Type 0 where
  profile : AgentProfile → AgentReply
  profiles : List AgentProfile → AgentReply
  core_file : String → String → AgentReply
  deleted : AgentReply
  bound : String → AgentReply
  unbound : String → AgentReply
  executed : String → String → AgentReply

-- get_resource_uid
unfoldable pub get_resource_uid : Decoded → String → Result HttpException String
unfolding get_current_user verify_resource_ownership
get_resource_uid d uid = get_current_user d >>= verify_resource_ownership uid

abbrev pub operators : List String
operators = "admin" ∷ "operator" ∷ []

-- Depends(require_role(["admin", "operator"]))
unfoldable pub as_operator : Decoded → Result HttpException CurrentUser
unfolding get_current_user require_role
as_operator d = get_current_user d >>= require_role operators

-- `raise HTTPException(status_code=..., detail=str(e))`
abbrev pub refused {ℓ} : {A : Type ℓ} → ℕ → String → Result HttpException A
refused code detail = err (record { status_code = code; detail = detail })

abbrev pub caught :
    (AgentError → String)
    → ℕ
    → {A : Type 0} → (A → AgentReply)
    → Result AgentError A
    → Result HttpException AgentReply
caught show code reply (ok a) = ok (reply a)
caught show code reply (err e) = refused code (show e)

-- The `try` of a route.
abbrev pub tried :
    (AgentError → String)
    → ℕ
    → {A : Type 0} → (A → AgentReply)
    → Result AgentError A × Accounts
    → Result HttpException AgentReply × Accounts
tried show code reply (r, s) = (caught show code reply r, s)

-- The body of a route runs where its dependencies have not raised.
abbrev pub after {ℓ} :
    {A : Type ℓ}
    → Result HttpException A
    → (A → Accounts → Result HttpException AgentReply × Accounts)
    → Accounts
    → Result HttpException AgentReply × Accounts
after (ok a) body s = body a s
after (err e) body s = (err e, s)

-- Both dependencies, in the order of the parameters.
unfoldable pub owner_and_operator : Decoded → String → Result HttpException String
unfolding get_resource_uid as_operator
owner_and_operator d uid = get_resource_uid d uid >>= λ u. as_operator d >>= λ user. ok u

-- What requests do, and what they answer, where their uid is no plain name.
pub record OtherPaths : Type 0 where
  pub changes : AgentRequest → Accounts → Result HttpException AgentReply × Accounts
  pub reads : AgentRequest → Accounts → Result HttpException AgentReply

abbrev pub in_account :
    Result HttpException AgentReply × Accounts
    → String
    → Result HttpException AgentReply × Accounts
    → Result HttpException AgentReply × Accounts
in_account elsewhere uid here = if is_plain_name (strip uid) then here else elsewhere

unfoldable pub serve :
    OtherPaths
    → (AgentError → String)
    → Decoded
    → AgentRequest
    → Accounts
    → Result HttpException AgentReply × Accounts
unfolding get_resource_uid as_operator owner_and_operator verify_resource_ownership
serve other show d (post_agent c fresh now) =
    after (as_operator d >>= verify_resource_ownership c.uid) (λ u s.
      in_account (other.changes (post_agent c fresh now) s) c.uid
        (tried show 400 profile (create_agent c fresh now s)))
serve other show d (get_agents uid) = after (get_resource_uid d uid) (λ u s.
    in_account (other.reads (get_agents uid) s, s) u (tried show 500 profiles (list_agents u s)))
serve other show d (get_one uid did) = after (get_resource_uid d uid) (λ u s.
    in_account (other.reads (get_one uid did) s, s) u (tried show 404 profile (get_agent u did s)))
serve other show d (patch_one uid did patch now) = after (owner_and_operator d uid) (λ u s.
    in_account (other.changes (patch_one uid did patch now) s) u
      (tried show 400 profile (update_agent u did patch now s)))
serve other show d (delete_one uid did) = after (owner_and_operator d uid) (λ u s.
    in_account (other.changes (delete_one uid did) s) u
      (tried show 400 (λ _. deleted) (delete_agent u did s)))
serve other show d (get_core_file uid did filename) = after (get_resource_uid d uid) (λ u s.
    in_account (other.reads (get_core_file uid did filename) s, s) u
      (tried show 404 (core_file filename) (read_core_file u did filename s)))
serve other show d (post_skill uid did skill_id now) = after (owner_and_operator d uid) (λ u s.
    in_account (other.changes (post_skill uid did skill_id now) s) u
      (tried show 400 (λ _. bound skill_id) (bind_skill u did skill_id now s)))
serve other show d (delete_skill uid did skill_id now) = after (owner_and_operator d uid) (λ u s.
    in_account (other.changes (delete_skill uid did skill_id now) s) u
      (tried show 400 (λ _. unbound skill_id) (unbind_skill u did skill_id now s)))
serve other show d (post_exec uid did) =
    after (owner_and_operator d uid) (λ u s. (ok (executed u did), s))

-- Requests one after the other, each with its token.
unfoldable pub serve_all :
    OtherPaths → (AgentError → String) → List (Decoded × AgentRequest) → Accounts → Accounts
unfolding serve
serve_all other show [] s = s
serve_all other show ((d, q) ∷ qs) s = serve_all other show qs (serve other show d q s).1

-- list_available_skills of src/routers/skills.py
unfoldable pub list_available_skills :
    (String → YamlValue) → SkillsHome → String → String → List SkillMeta
unfolding scan_skills
list_available_skills yaml home uid did = map (λ kv. kv.1) (scan_skills yaml home uid did)

abbrev pub skills_of :
    (AgentError → String) → Result AgentError AgentProfile → Result HttpException (List String)
skills_of show (ok p) = ok p.skills
skills_of show (err e) = refused 404 (show e)

-- get_agent_enabled_skills
unfoldable pub get_agent_enabled_skills :
    (AgentError → String) → String → String → Accounts → Result HttpException (List String)
unfolding get_agent
get_agent_enabled_skills show uid did s = skills_of show (get_agent uid did s).0

-- bind_skill_to_agent, where the uid is a plain name
unfoldable pub bind_skill_to_agent :
    (AgentError → String)
    → String
    → String
    → String
    → ℕ
    → Accounts
    → Result HttpException AgentReply × Accounts
unfolding bind_skill
bind_skill_to_agent show uid did skill_name now s =
    tried show 400 (λ _. bound skill_name) (bind_skill uid did skill_name now s)

-- unbind_skill_from_agent, where the uid is a plain name
unfoldable pub unbind_skill_from_agent :
    (AgentError → String)
    → String
    → String
    → String
    → ℕ
    → Accounts
    → Result HttpException AgentReply × Accounts
unfolding unbind_skill
unbind_skill_from_agent show uid did skill_name now s =
    tried show 400 (λ _. unbound skill_name) (unbind_skill uid did skill_name now s)
