-- ===== src/Sandbox/Runners.antt =====
-- The runners of src/sandbox.py: what they start, and what they make of how it ends. How a process ends, and
-- the text that bytes decode to, are parameters.
use ops_sentry.Prelude.{
  string_eq, ℕ, String, Bool, true, false, not, ◌||◌, Option, none, some, List, [], ◌∷◌, ◌++◌, Dict,
  Result, ok, err, ◌>>=◌, insert, contains, filter, length, take, ltb, ◌==◌, nat_eq, if◌then◌else◌,
}
use ops_sentry.Prelude.Json.{ℤ, pos, negsuc}
use ops_sentry.Prelude.Texts.{◌+++◌, show_number}
use ops_sentry.Ledger.Entry.{get_or}
use ops_sentry.Tools.Dispatch.{SandboxResult}

pub data Platform : Type 0 where
  linux win32 other_platform : Platform

-- What a runner sees of the system: sys.platform, shutil.which and os.path.exists as tests, os.getcwd and os.environ.
pub record Host : Type 0 where
  pub platform : Platform
  pub which : String → Bool
  pub exists : String → Bool
  pub cwd : String
  pub environ : Dict String String

abbrev pub is_linux : Platform → Bool
is_linux linux = true
is_linux win32 = false
is_linux other_platform = false

abbrev pub is_win32 : Platform → Bool
is_win32 linux = false
is_win32 win32 = true
is_win32 other_platform = false

-- The arguments of `execute`.
pub record Request : Type 0 where
  pub command : String
  pub timeout_seconds : ℕ
  pub workdir : Option String
  pub env : Option (Dict String String)
  pub network : Bool

abbrev pub Bytes : Type 0
Bytes = List ℕ

-- How starting a process and `communicate` end: with its output and return code, with an exception while
-- waiting, or with one before the process is there.
pub data Ending : Type 0 where
  exited : Bytes → Bytes → Option ℤ → Ending
  broken : String → Ending
  not_started : String → Ending

-- The same under `wait_for`; after a timeout the process is killed and the output so far is read.
pub data TimedEnding : Type 0 where
  in_time : Ending → TimedEnding
  timed_out : Bytes → Bytes → TimedEnding

-- What `create_subprocess_shell` is given.
pub record ShellProcess : Type 0 where
  pub command : String
  pub cwd : Option String
  pub env : Dict String String
  pub own_session : Bool

pub record World : Type 0 where
  pub run_shell : ShellProcess → ℕ → TimedEnding
  pub run_args : List String → Ending
  pub run_args_within : List String → ℕ → TimedEnding
  pub decode : Bytes → String
  pub encode : String → Bytes
  pub duration_ms : ℕ

-- _ENV_WHITELIST
abbrev pub env_whitelist : List String
env_whitelist =
    "PATH" ∷ "HOME" ∷ "LANG" ∷ "TERM" ∷ "PYTHONPATH" ∷ "TMP" ∷ "TEMP" ∷ "USER" ∷ "SHELL" ∷ []

-- dict.update
unfoldable pub update_all : Dict String String → Dict String String → Dict String String
update_all d [] = d
update_all d ((k, v) ∷ extra) = update_all (insert k v d) extra

-- _build_clean_env
unfoldable pub build_clean_env :
    Dict String String → Option (Dict String String) → Dict String String
build_clean_env environ extra_env =
    update_all (filter (λ e. contains e.0 env_whitelist) environ) (get_or extra_env [])

pub record DirectRunner : Type 0 where
  pub stdout_limit : ℕ
  pub stderr_limit : ℕ

-- `limit or DEFAULT`
abbrev pub limit_or : Option ℕ → ℕ → ℕ
limit_or none default = default
limit_or (some n) default = if n == 0 then default else n

-- DirectRunner.__init__
unfoldable pub new_direct_runner : Option ℕ → Option ℕ → DirectRunner
new_direct_runner stdout_limit stderr_limit = record {
  stdout_limit = limit_or stdout_limit 1048576;
  stderr_limit = limit_or stderr_limit 262144;
}

-- Exit code, standard output and standard error, before they are cut and decoded.
pub record Output : Type 0 where
  pub exit_code : ℤ
  pub stdout_data : Bytes
  pub stderr_data : Bytes

-- The `try` of DirectRunner.execute. An exception while waiting leaves both outputs empty.
unfoldable pub direct_output : World → TimedEnding → Result String Output
direct_output w (in_time (exited out errors code)) =
    ok (record { exit_code = get_or code (pos 0); stdout_data = out; stderr_data = errors })
direct_output w (in_time (broken e)) = ok (record {
  exit_code = negsuc 0;
  stdout_data = [];
  stderr_data = w.encode ("\n[ERROR] Sandbox Exception: " +++ e);
})
direct_output w (in_time (not_started e)) = err e
direct_output w (timed_out out errors) = ok (record {
  exit_code = pos 124;
  stdout_data = out;
  stderr_data = errors ++ w.encode "\n[ERROR] Command timed out";
})

-- data[:limit] where it is longer
unfoldable pub cut : ℕ → Bytes → Bytes
cut limit bytes = if ltb limit (length bytes) then take limit bytes else bytes

unfoldable pub direct_result : World → DirectRunner → Output → SandboxResult
unfolding cut
direct_result w r o = record {
  exit_code = o.exit_code;
  stdout = w.decode (cut r.stdout_limit o.stdout_data);
  stderr = w.decode (cut r.stderr_limit o.stderr_data);
  duration_ms = w.duration_ms;
  truncated = ltb r.stdout_limit (length o.stdout_data);
  sandbox_mode = "direct";
}

unfoldable pub shell_process : Host → Request → ShellProcess
unfolding build_clean_env
shell_process h q = record {
  command = q.command;
  cwd = q.workdir;
  env = build_clean_env h.environ q.env;
  own_session = not (is_win32 h.platform);
}

-- DirectRunner.execute
unfoldable pub direct_execute : Host → World → DirectRunner → Request → Result String SandboxResult
unfolding shell_process direct_output direct_result
direct_execute h w r q = do
  o ← direct_output w (w.run_shell (shell_process h q) q.timeout_seconds)
  ok (direct_result w r o)

pub record NsJailRunner : Type 0 where
  pub binary_path : String
  pub config_path : String
  pub seccomp_path : String
  pub rootfs : String
  pub writable_mounts : List String

-- NsJailRunner.__init__ without arguments
abbrev pub new_nsjail_runner : NsJailRunner
new_nsjail_runner = record {
  binary_path = "/usr/bin/nsjail";
  config_path = "config/nsjail-default.cfg";
  seccomp_path = "config/seccomp-default.json";
  rootfs = "/opt/opssentry/rootfs";
  writable_mounts =
      "/tmp/opssentry-work" ∷ "/root/.accio/sessions" ∷ "/opt/opssentry/data/ops-queue" ∷ [];
}

-- `value or default` on an optional text
abbrev pub text_or : Option String → String → String
text_or none default = default
text_or (some s) default = if s == "" then default else s

abbrev pub bind_mounts : Host → List String → List String
bind_mounts h [] = []
bind_mounts h (m ∷ ms) =
    (if h.exists m then "--bindmount" ∷ (m +++ ":" +++ m) ∷ [] else []) ++ bind_mounts h ms

abbrev pub env_options : Dict String String → List String
env_options [] = []
env_options ((k, v) ∷ d) = "--env" ∷ (k +++ "=" +++ v) ∷ env_options d

-- The options that an nsjail is started with, before "--".
unfoldable pub nsjail_options : Host → NsJailRunner → Request → List String
nsjail_options h r q =
    ("--config"
      ∷ r.config_path
      ∷ "--time_limit"
      ∷ show_number q.timeout_seconds
      ∷ "--user"
      ∷ "nobody"
      ∷ "--group"
      ∷ "nogroup"
      ∷ "--chroot"
      ∷ r.rootfs
      ∷ "--cwd"
      ∷ text_or q.workdir h.cwd
      ∷ [])
    ++ ((if q.network then [] else "--disable_clone_newnet" ∷ [])
        ++ ((if h.exists r.seccomp_path then "--seccomp_policy_file" ∷ r.seccomp_path ∷ [] else [])
            ++ (bind_mounts h r.writable_mounts ++ env_options (get_or q.env []))))

abbrev pub shell_tail : String → List String
shell_tail command = "/bin/sh" ∷ "-c" ∷ command ∷ []

unfoldable pub nsjail_args : Host → NsJailRunner → Request → List String
unfolding nsjail_options
nsjail_args h r q = r.binary_path ∷ (nsjail_options h r q ++ "--" ∷ shell_tail q.command)

abbrev pub result_of : World → String → ℤ → Bytes → Bytes → SandboxResult
result_of w mode code out errors = record {
  exit_code = code;
  stdout = w.decode out;
  stderr = w.decode errors;
  duration_ms = w.duration_ms;
  truncated = false;
  sandbox_mode = mode;
}

unfoldable pub nsjail_result : World → Ending → Result String SandboxResult
nsjail_result w (exited out errors code) =
    ok (result_of w "nsjail" (get_or code (negsuc 0)) out errors)
nsjail_result w (broken e) = err e
nsjail_result w (not_started e) = err e

-- NsJailRunner.execute
unfoldable pub nsjail_execute : Host → World → NsJailRunner → Request → Result String SandboxResult
unfolding nsjail_args nsjail_result
nsjail_execute h w r q =
    if not (is_linux h.platform) || not (h.which r.binary_path)
    then err "NsJail not available on this system"
    else if r.rootfs == "/"
    then err "Security Breach: NsJail chroot to / is strictly forbidden."
    else nsjail_result w (w.run_args (nsjail_args h r q))

pub record BubblewrapRunner : Type 0 where
  pub binary_path : String
  pub rootfs : String

-- BubblewrapRunner.__init__ without arguments
abbrev pub new_bubblewrap_runner : BubblewrapRunner
new_bubblewrap_runner = record { binary_path = "/usr/bin/bwrap"; rootfs = "/opt/opssentry/rootfs" }

abbrev pub setenv_options : Dict String String → List String
setenv_options [] = []
setenv_options ((k, v) ∷ d) = "--setenv" ∷ k ∷ v ∷ setenv_options d

abbrev pub chdir_options : Option String → List String
chdir_options none = []
chdir_options (some d) = if d == "" then [] else "--chdir" ∷ d ∷ []

unfoldable pub bwrap_options : BubblewrapRunner → Request → List String
bwrap_options r q =
    ("--ro-bind" ∷ r.rootfs ∷ "/" ∷ "--dev" ∷ "/dev" ∷ "--proc" ∷ "/proc" ∷ "--tmpfs" ∷ "/tmp"
      ∷ "--unshare-pid" ∷ "--die-with-parent" ∷ [])
    ++ ((if q.network then [] else "--unshare-net" ∷ [])
        ++ (chdir_options q.workdir ++ setenv_options (get_or q.env [])))

unfoldable pub bwrap_args : BubblewrapRunner → Request → List String
unfolding bwrap_options
bwrap_args r q = r.binary_path ∷ (bwrap_options r q ++ shell_tail q.command)

unfoldable pub bwrap_result : World → TimedEnding → Result String SandboxResult
bwrap_result w (in_time (exited out errors code)) =
    ok (result_of w "bwrap" (get_or code (pos 0)) out errors)
bwrap_result w (in_time (broken e)) = err e
bwrap_result w (in_time (not_started e)) = err e
bwrap_result w (timed_out out errors) = ok (result_of w "bwrap" (pos 124) out errors)

-- BubblewrapRunner.execute
unfoldable pub bwrap_execute :
    Host → World → BubblewrapRunner → Request → Result String SandboxResult
unfolding bwrap_args bwrap_result
bwrap_execute h w r q =
    if not (is_linux h.platform) || not (h.which r.binary_path)
    then err "Bubblewrap not available on this system"
    else bwrap_result w (w.run_args_within (bwrap_args r q) q.timeout_seconds)
