-- ===== src/Sandbox/Factory.antt =====
-- `create_sandbox_provider` of src/sandbox.py, and the provider as the tool registry calls it.
use ops_sentry.Prelude.{
  string_eq, ℕ, String, false, Option, none, some, Result, ok, err, ◌==◌, if◌then◌else◌,
}
use ops_sentry.Prelude.Texts.{lower, ◌+++◌}
use ops_sentry.Tools.Dispatch.{SandboxResult, Execution, Outcome, finished, raised}
use ops_sentry.Sandbox.Runners.{
  Host, World, Request, is_linux, DirectRunner, new_direct_runner, NsJailRunner, new_nsjail_runner,
  BubblewrapRunner, new_bubblewrap_runner, direct_execute, nsjail_execute, bwrap_execute, text_or,
}

pub data Provider : Type 0 where
  direct : DirectRunner → Provider
  nsjail : NsJailRunner → Provider
  bwrap : BubblewrapRunner → Provider

-- BoundedSandboxProvider: the runner, and the value that its semaphore starts with.
pub record BoundedProvider : Type 0 where
  pub inner : Provider
  pub max_concurrency : ℕ

-- `execute` of the runner
unfoldable pub execute : Host → World → Provider → Request → Result String SandboxResult
execute h w (direct r) q = direct_execute h w r q
execute h w (nsjail r) q = nsjail_execute h w r q
execute h w (bwrap r) q = bwrap_execute h w r q

-- mode_name
unfoldable pub mode_name : Provider → String
mode_name (direct r) = "direct"
mode_name (nsjail r) = "nsjail"
mode_name (bwrap r) = "bwrap"

unfoldable pub bounded_mode_name : BoundedProvider → String
unfolding mode_name
bounded_mode_name p = "bounded-" +++ mode_name p.inner

abbrev pub default_direct : Provider
unfolding new_direct_runner
default_direct = direct (new_direct_runner none none)

-- The branch that looks for what is there.
unfoldable pub detect : Host → Provider
detect h =
    if is_linux h.platform
    then (if h.which "nsjail"
        then nsjail new_nsjail_runner
        else if h.which "bwrap"
        then bwrap new_bubblewrap_runner
        else default_direct)
    else default_direct

-- The runners' constructors do not raise, so the handlers of the RuntimeError are never reached.
unfoldable pub provider_of : Host → String → Provider
unfolding detect
provider_of h mode =
    if mode == "direct"
    then default_direct
    else if mode == "nsjail"
    then nsjail new_nsjail_runner
    else if mode == "bwrap"
    then bwrap new_bubblewrap_runner
    else detect h

-- create_sandbox_provider; the two options are the values of SANDBOX_MODE and of SANDBOX_MAX_CONCURRENCY.
unfoldable pub create_sandbox_provider :
    Host → Option String → Option String → Option ℕ → BoundedProvider
unfolding provider_of
create_sandbox_provider h mode sandbox_mode max_concurrency = record {
  inner = provider_of h (lower (text_or mode (elim sandbox_mode [ none ↦ "auto" | some s ↦ s ])));
  max_concurrency = elim max_concurrency [ none ↦ 8 | some n ↦ n ];
}

-- The registry asks for no network, as that is `execute`'s default.
abbrev pub request_of : Execution → Request
request_of e = record {
  command = e.command;
  timeout_seconds = e.timeout_seconds;
  workdir = e.workdir;
  env = e.env;
  network = false;
}

abbrev pub outcome_of : Result String SandboxResult → Outcome
outcome_of (ok r) = finished r
outcome_of (err e) = raised e

-- What the registry's `sandbox.execute` is, once it has its turn.
unfoldable pub sandbox_of : Host → World → BoundedProvider → Execution → Outcome
unfolding execute
sandbox_of h w p e = outcome_of (execute h w p.inner (request_of e))
