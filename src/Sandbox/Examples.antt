-- ===== src/Sandbox/Examples.antt =====
-- A system with an nsjail, commands and a pool of two, for the theorems about src/sandbox.py.
use ops_sentry.Prelude.{
  string_eq, nat_eq, ℕ, ◌+◌, ◌≤◌, min, ◌≡◌, refl, false, none, some, List, [], ◌∷◌, ◌++◌, lookup,
  contains, length, ◌==◌, ◌||◌, if◌then◌else◌,
}
use ops_sentry.Prelude.Json.{pos}
use ops_sentry.Prelude.Texts.{lower}
use ops_sentry.Tools.Dispatch.{Execution}
use ops_sentry.Sandbox.Runners.{
  linux, Host, World, Bytes, Output, exited, TimedEnding, in_time, timed_out, DirectRunner,
  ShellProcess, env_whitelist, shell_process,
}
use ops_sentry.Sandbox.Factory.{create_sandbox_provider, request_of, sandbox_of}
use ops_sentry.Sandbox.Pool.{PoolEvent, called, done, new_pool, turns, arrivals}
use ops_sentry.Sandbox.Limits.{lookup-shell_process}
use ops_sentry.Sandbox.Isolation.{sandbox_of_confined}
use ops_sentry.Sandbox.Turns.{turns_lem}

abbrev host : Host
host = record {
  platform = linux;
  which = λ b. b == "nsjail" || b == "/usr/bin/bwrap";
  exists = λ f. false;
  cwd = "/srv";
  environ = ("PATH", "/bin") ∷ ("OPENAI_API_KEY", "k1") ∷ [];
}

abbrev four_bytes : Bytes
four_bytes = 1 ∷ 2 ∷ 3 ∷ 4 ∷ []

abbrev world : World
world = record {
  run_shell = λ s t. timed_out four_bytes [];
  run_args = λ a. exited [] [] none;
  run_args_within = λ a t. in_time (exited [] [] none);
  decode = λ b. "";
  encode = λ s. 9 ∷ [];
  duration_ms = 5;
}

abbrev asked : Execution
asked = record {
  command = "uptime";
  timeout_seconds = 30;
  workdir = none;
  env = some (("LANG", "C") ∷ []);
}

key_example : lookup "OPENAI_API_KEY" (shell_process host (request_of asked)).env ≡ (
    if contains "OPENAI_API_KEY" env_whitelist then lookup "OPENAI_API_KEY" host.environ else none)
unfolding lookup
key_example = lookup-shell_process host (request_of asked) "OPENAI_API_KEY" refl

abbrev small_runner : DirectRunner
small_runner = record { stdout_limit = 3; stderr_limit = 1 }

abbrev late : Output
late = record { exit_code = pos 124; stdout_data = four_bytes; stderr_data = 9 ∷ [] }

abbrev other_shell : ShellProcess → ℕ → TimedEnding
other_shell s t = in_time (exited four_bytes four_bytes (some (pos 0)))

confined_example :
    sandbox_of host
      (record world { run_shell = other_shell })
      (create_sandbox_provider host none none none)
      asked
    ≡ sandbox_of host world (create_sandbox_provider host none none none) asked
unfolding lower
confined_example = sandbox_of_confined host world other_shell none none none asked refl

abbrev calls : List PoolEvent
calls = called 1 ∷ called 2 ∷ called 3 ∷ done 1 ∷ called 4 ∷ []

turns_example :
    (length (turns calls (new_pool 2)).running ≤ 2)
    × ((turns calls (new_pool 2)).started ++ (turns calls (new_pool 2)).waiting ≡ arrivals calls)
    × (length (turns calls (new_pool 2)).started
        ≡ min (length (arrivals calls)) (2 + (turns calls (new_pool 2)).ended))
turns_example = turns_lem 2 calls
