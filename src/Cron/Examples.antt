-- ===== src/Cron/Examples.antt =====
-- A job on an empty ledger, for the theorems about src/cron_engine.py.
use ops_sentry.Prelude.{string_eq, nat_eq, ◌≡◌, refl, none, some, [], ◌∷◌, lookup, true, false, ok}
use ops_sentry.Prelude.Json.{pos, str}
use ops_sentry.Ledger.Storage.{find_row}
use ops_sentry.Ledger.Spec.{IsLedger}
use ops_sentry.Tools.Dispatch.{no_command, Stamps, finished}
use ops_sentry.Tools.Guarding.{IsGuarded}
use ops_sentry.Cron.Payloads.{Services, execute_payload, execute_payload-IsGuarded}
use ops_sentry.Cron.{CronJob, Engine, Outside, PayloadRun, execute_job_wrapper}
use ops_sentry.Cron.Running.{execute_job_wrapper_lem, ended_as, entry}

abbrev nightly : CronJob
nightly = record {
  id = "j1";
  name = "nightly";
  schedule = record {
    kind = "every";
    in_ms = none;
    at = none;
    every_ms = some 1000;
    expr = none;
    tz = none;
    jitter = none;
  };
  payload = record {
    kind = "command";
    command = some "ls";
    tool = none;
    args = none;
    message = none;
  };
  uid = "u";
  did = none;
  enabled = true;
  delete_after_run = true;
  priority = 10;
  created_at = 0;
}

abbrev engine : Engine
engine = record { jobs = ("j1", nightly) ∷ []; file = none; scheduled = []; table = [] }

abbrev outside : Outside
outside = record { now = 5; parse_iso = λ s. none; is_cron = λ fs. true; writable = true }

abbrev stamps : Stamps
stamps = record { fresh = "u1"; created = 1; updated = 2; started = 3; ended = 4 }

abbrev quiet : PayloadRun
quiet job g = (ok (str "done"), g)

empty-IsLedger : IsLedger []
empty-IsLedger = record { unique = tt; known = tt }

no_row : find_row "u1" [] ≡ none
unfolding find_row
no_row = refl

wrapper_example :
    ((execute_job_wrapper outside quiet false stamps "j1" engine).0 ≡ ok tt)
    × (find_row "u1" (execute_job_wrapper outside quiet false stamps "j1" engine).1.table
        ≡ some (
            ended_as 4
              (entry outside quiet stamps nightly engine empty-IsLedger no_row)
              (ok (str "done"))))
    × (lookup "j1" (execute_job_wrapper outside quiet false stamps "j1" engine).1.jobs ≡ none)
unfolding find_row lookup
wrapper_example =
    execute_job_wrapper_lem outside quiet stamps nightly engine empty-IsLedger no_row
      (record { unique = (refl, tt); known = (refl, tt) }) refl false "j1" refl refl refl

-- A sandbox that always succeeds, and no agents.
abbrev services : Services
services = record {
  sandbox = λ x. finished (record {
    exit_code = pos 0;
    stdout = "";
    stderr = "";
    duration_ms = 1;
    truncated = false;
    sandbox_mode = "direct";
  });
  resolve = λ p. some p;
  accounts = [];
  llm = λ p messages. record { chunks = []; raises = none };
  prompt = λ p. "";
  read_args = λ d. record { command = no_command; timeout = none; workdir = none; env = none };
  parse_args = λ t. none;
  dump = λ r. "{}";
  draw = λ w. stamps;
}

payload_example :
    IsGuarded services.resolve
      (execute_payload services nightly (record { table = []; runs = [] })).1
payload_example = execute_payload-IsGuarded services nightly (record { table = []; runs = [] }) tt
