-- ===== src/Routers/Examples.antt =====
-- Requests with tokens and jobs of two users, for the theorems about src/routers/agents.py, skills.py and cron.py.
use ops_sentry.Prelude.{
  string_eq, String, ◌≡◌, refl, true, false, none, some, [], ◌∷◌, List, ok, lookup,
}
use ops_sentry.Prelude.Json.{null}
use ops_sentry.Tools.Dispatch.{Stamps}
use ops_sentry.Cron.{CronJob, Engine, CronError, Outside, PayloadRun}
use ops_sentry.Routers.Jobs.{JobPatch, patch_job, patched_job, serve_job}
use ops_sentry.Routers.Takeover.{serve_job_takes_over}
use ops_sentry.Prelude.Texts.{strip, strip_left, strip_right, contains_text, is_prefix}
use ops_sentry.Access.{Decoded, valid, get_current_user, decode_token, user_of}
use ops_sentry.Agents.Validation.{AgentError}
use ops_sentry.Agents.Profiles.{core_of, is_plain_name}
use ops_sentry.Routers.Agents.{AgentRequest, OtherPaths, deleted, post_skill, delete_one, serve_all}
use ops_sentry.Routers.Ownership.{serve_all_elsewhere}

abbrev token : String → String → Decoded
token user role = valid (record { sub = some user; role = some role; org_id = some "o" })

abbrev requests : List (Decoded × AgentRequest)
requests =
    (token "eve" "operator", delete_one "bob" "DID-1")
    ∷ (token "ann" "auditor", post_skill "bob" "DID-1" "nginx" 5)
    ∷ []

abbrev message : AgentError → String
message e = "error"

-- Whatever is done under another path here: all is deleted.
abbrev wild_paths : OtherPaths
wild_paths = record { changes = λ q s. (ok deleted, []); reads = λ q s. ok deleted }

foreign_example :
    core_of "bob" "DID-1" (serve_all wild_paths message requests []) ≡ core_of "bob" "DID-1" []
unfolding get_current_user decode_token user_of strip strip_left strip_right is_plain_name
    contains_text is_prefix
foreign_example =
    serve_all_elsewhere wild_paths message "bob" "DID-1" requests [] refl (refl, (refl, tt))

abbrev job_of : String → String → CronJob
job_of id uid = record {
  id = id;
  name = "n";
  schedule = record {
    kind = "in";
    in_ms = some 5;
    at = none;
    every_ms = none;
    expr = none;
    tz = none;
    jitter = none;
  };
  payload = record {
    kind = "command";
    command = some "ls";
    tool = none;
    args = none;
    message = none;
  };
  uid = uid;
  did = none;
  enabled = true;
  delete_after_run = false;
  priority = 10;
  created_at = 1;
}

abbrev shared_engine : Engine
shared_engine = record {
  jobs = ("a", job_of "a" "ann") ∷ ("b", job_of "b" "bob") ∷ [];
  file = none;
  scheduled = [];
  table = [];
}

abbrev outside : Outside
outside = record { now = 3; parse_iso = λ t. none; is_cron = λ fields. false; writable = true }

abbrev idle : PayloadRun
idle j g = (ok null, g)

abbrev stamps : Stamps
stamps = record { fresh = "e-1"; created = 1; updated = 2; started = 3; ended = 4 }

abbrev failed : CronError → String
failed e = "error"

abbrev renaming : JobPatch
renaming = record {
  id = some "b";
  name = none;
  schedule = none;
  payload = none;
  did = none;
  enabled = none;
  delete_after_run = none;
  priority = none;
  created_at = none;
}

takeover_example :
    (lookup "b"
        (serve_job outside failed idle false stamps
          (patch_job "a" "ann" "ann" (some renaming))
          shared_engine).1.jobs
      ≡ some (patched_job (job_of "a" "ann") "ann" renaming))
    × (lookup "a"
          (serve_job outside failed idle false stamps
            (patch_job "a" "ann" "ann" (some renaming))
            shared_engine).1.jobs
        ≡ none)
    × ((patched_job (job_of "a" "ann") "ann" renaming).uid ≡ "ann")
unfolding lookup
takeover_example =
    serve_job_takes_over outside failed idle false stamps "a" "b" "ann" renaming (job_of "a" "ann")
      (job_of "b" "bob") shared_engine refl refl refl refl refl
