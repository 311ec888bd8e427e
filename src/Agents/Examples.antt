-- ===== src/Agents/Examples.antt =====
-- Small clusters and accounts, for the theorems about src/agent_manager.py.
use ops_sentry.Prelude.{
  string_eq, ◌≡◌, ◌==◌, refl, true, none, some, List, [], ◌∷◌, String, lookup, contains, map,
  if◌then◌else◌,
}
use ops_sentry.Prelude.Texts.{is_prefix, contains_text, strip, strip_right, strip_left, upper}
use ops_sentry.Agents.Failover.{
  Cluster, Delivery, delivered, answer_lost, perform_failover, tasks_of, rebalance_of,
}
use ops_sentry.Agents.Reclaiming.{perform_failover_lem, reclaimed}
use ops_sentry.Agents.Validation.{
  default_tool_enablement, normalize_did, require_non_empty, check_did, validate_vibe,
  validate_model_provider, normalize_tools, normalize_skills, normalize_core_file_overrides,
  require_one_of, normalize_over, normalize_skills_over, normalize_core_files_over,
}
use ops_sentry.Agents.Profiles.{Accounts, AgentCreateRequest, core_of, init_request, is_plain_name}
use ops_sentry.Agents.Isolation.{Call, creates, deletes, binds, perform_all, perform_all_elsewhere}
use ops_sentry.Agents.Safety.{is_hex_text, IsSafe, perform_all-IsSafe}

abbrev cluster : Cluster
cluster = record {
  registry = ("t1", "n1") ∷ ("t2", "n2") ∷ ("t3", "n1") ∷ [];
  locks = ("t1", "n1") ∷ ("t3", "n1") ∷ [];
  published = [];
  alerts = [];
}

abbrev first_only : String → Delivery
first_only t = if t == "t1" then answer_lost else delivered

failover_example :
    (lookup "t3" (perform_failover true first_only "a" 0 "n1" cluster).1.registry ≡ (
      if contains "t3" (reclaimed first_only (tasks_of "n1" cluster.registry))
      then none
      else lookup "t3" cluster.registry))
    × (lookup "t3" (perform_failover true first_only "a" 0 "n1" cluster).1.locks ≡ (
        if contains "t3" (reclaimed first_only (tasks_of "n1" cluster.registry))
        then none
        else lookup "t3" cluster.locks))
    × ((perform_failover true first_only "a" 0 "n1" cluster).1.published
        ≡ map (rebalance_of "n1") (reclaimed first_only (tasks_of "n1" cluster.registry)))
failover_example = perform_failover_lem first_only "a" 0 "n1" cluster "t3"

abbrev request : AgentCreateRequest
request = record {
  uid = "u";
  name = "Watcher";
  description = "watches";
  vibe = "expert";
  model_provider = "auto";
  model_id = "m";
  tools = default_tool_enablement;
  skills = [];
  core_files = [];
  did = some "DID-1";
}

abbrev agent_calls : List Call
agent_calls =
    creates request "0A1B2C3D4E5F60718293" 5
    ∷ binds "u" " did-1 " "nginx" 6
    ∷ deletes "u" "DID-1"
    ∷ []

-- Whatever a call does under another path here: all is deleted.
abbrev wild : Call → Accounts → Accounts
wild c s = []

isolation_example : core_of "u" "DID-2" (perform_all wild agent_calls []) ≡ core_of "u" "DID-2" []
unfolding init_request normalize_did require_non_empty check_did strip upper is_prefix contains_text
    strip_right strip_left is_plain_name validate_vibe validate_model_provider normalize_tools
    normalize_skills normalize_core_file_overrides require_one_of normalize_over lookup
    normalize_skills_over normalize_core_files_over
isolation_example =
    perform_all_elsewhere "u" "DID-2" wild agent_calls [] refl
      ((refl, refl), ((refl, refl), ((refl, refl), tt)))

no_agents-IsSafe : IsSafe []
unfolding core_of lookup
no_agents-IsSafe u d core e = cc

safety_example : IsSafe (perform_all wild agent_calls [])
unfolding is_prefix contains_text strip strip_right strip_left is_plain_name is_hex_text
safety_example =
    perform_all-IsSafe wild agent_calls [] ((refl, refl), ((refl, tt), ((refl, tt), tt)))
      no_agents-IsSafe
