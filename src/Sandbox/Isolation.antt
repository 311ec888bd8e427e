-- ===== src/Sandbox/Isolation.antt =====
-- What src/sandbox.py runs in a jail, and where it refuses.
use ops_sentry.Prelude.{
  string_eq, ℕ, String, ◌≡◌, refl, ap, Bool, true, false, not, ◌&&◌, ◌||◌, inl, inr, Option, none,
  some, err, contains, ◌==◌, if◌then◌else◌, arith, Bool-cases, subst, eq_iff,
}
use mathlib.Core.Bool.{false≢true}
use ops_sentry.Prelude.Texts.{lower}
use ops_sentry.Tools.Dispatch.{Execution, raised}
use ops_sentry.Sandbox.Runners.{
  Host, World, Request, ShellProcess, Ending, exited, broken, not_started, TimedEnding, in_time,
  timed_out, nsjail_result, bwrap_result, NsJailRunner, BubblewrapRunner, linux, is_linux, text_or,
  nsjail_options, nsjail_args, bwrap_options, bwrap_args, nsjail_execute, bwrap_execute,
}
use ops_sentry.Sandbox.Factory.{
  Provider, direct, nsjail, bwrap, execute, detect, provider_of, create_sandbox_provider,
  request_of, outcome_of, sandbox_of,
}

-- The mode that is asked for.
abbrev pub chosen : Option String → Option String → String
chosen mode sandbox_mode = lower (text_or mode (elim sandbox_mode [ none ↦ "auto" | some s ↦ s ]))

-- Whether that mode on that system is to run commands in a jail.
abbrev pub wants_jail : Host → String → Bool
wants_jail h m =
    m == "nsjail"
    || (m == "bwrap"
        || (not (m == "direct") && (is_linux h.platform && (h.which "nsjail" || h.which "bwrap"))))

abbrev is_direct : Provider → Bool
is_direct (direct r) = true
is_direct (nsjail r) = false
is_direct (bwrap r) = false

is_direct-provider_of :
    (h : Host) (m : String) → wants_jail h m ≡ true → is_direct (provider_of h m) ≡ false
unfolding provider_of detect
is_direct-provider_of h m e = elim (Bool-cases (m == "direct")) [
  | inl p ↦ absurd (false≢true (subst (λ x. wants_jail h x ≡ true) ((eq_iff m "direct").0 p) e))
  | inr q ↦ ground (arith, q, e)
]

nsjail_result-run_shell :
    (w : World) (f : ShellProcess → ℕ → TimedEnding) (x : Ending)
    → nsjail_result (record w { run_shell = f }) x ≡ nsjail_result w x
unfolding nsjail_result
nsjail_result-run_shell w f (exited out errors code) = refl
nsjail_result-run_shell w f (broken e) = refl
nsjail_result-run_shell w f (not_started e) = refl

bwrap_result-run_shell :
    (w : World) (f : ShellProcess → ℕ → TimedEnding) (x : TimedEnding)
    → bwrap_result (record w { run_shell = f }) x ≡ bwrap_result w x
unfolding bwrap_result
bwrap_result-run_shell w f (in_time (exited out errors code)) = refl
bwrap_result-run_shell w f (in_time (broken e)) = refl
bwrap_result-run_shell w f (in_time (not_started e)) = refl
bwrap_result-run_shell w f (timed_out out errors) = refl

-- A runner that is not the direct one never asks for a shell outside.
execute-with_shell :
    (h : Host) (w : World) (f : ShellProcess → ℕ → TimedEnding) (p : Provider) (q : Request)
    → is_direct p ≡ false
    → execute h (record w { run_shell = f }) p q ≡ execute h w p q
unfolding execute nsjail_execute bwrap_execute
execute-with_shell h w f (direct r) q e = absurd (cc e)
execute-with_shell h w f (nsjail r) q e =
    ap
      (λ x.
        if not (is_linux h.platform) || not (h.which r.binary_path)
        then err "NsJail not available on this system"
        else if r.rootfs == "/"
        then err "Security Breach: NsJail chroot to / is strictly forbidden."
        else x)
      (nsjail_result-run_shell w f (w.run_args (nsjail_args h r q)))
execute-with_shell h w f (bwrap r) q e =
    ap
      (λ x.
        if not (is_linux h.platform) || not (h.which r.binary_path)
        then err "Bubblewrap not available on this system"
        else x)
      (bwrap_result-run_shell w f (w.run_args_within (bwrap_args r q) q.timeout_seconds))

-- Where a jail is asked for by name, or is to be looked for on a Linux that has one of the two, what the tool registry gets
-- is the same whatever a shell outside of a jail would do, so that nothing runs there.
pub sandbox_of_confined :
    (h : Host) (w : World) (f : ShellProcess → ℕ → TimedEnding) (mode sandbox_mode : Option String)
    (max_concurrency : Option ℕ) (e : Execution)
    → wants_jail h (chosen mode sandbox_mode) ≡ true
    → sandbox_of h
        (record w { run_shell = f })
        (create_sandbox_provider h mode sandbox_mode max_concurrency)
        e
      ≡ sandbox_of h w (create_sandbox_provider h mode sandbox_mode max_concurrency) e
unfolding sandbox_of create_sandbox_provider
sandbox_of_confined h w f mode sandbox_mode n e j = ap outcome_of (
    execute-with_shell h w f (provider_of h (chosen mode sandbox_mode)) (request_of e)
      (is_direct-provider_of h (chosen mode sandbox_mode) j))

-- On a Linux that has an nsjail but not at /usr/bin, and where no mode is set, every command that the tool registry sends
-- is refused; likewise where it has no nsjail, and a bwrap that is not at /usr/bin.
pub sandbox_of_refuses :
    (h : Host) (w : World) (max_concurrency : Option ℕ) (e : Execution)
    → h.platform ≡ linux
    → ((h.which "nsjail" ≡ true) × (h.which "/usr/bin/nsjail" ≡ false)
        → sandbox_of h w (create_sandbox_provider h none none max_concurrency) e
          ≡ raised "NsJail not available on this system")
      × ((h.which "nsjail" ≡ false) × (h.which "bwrap" ≡ true) × (h.which "/usr/bin/bwrap" ≡ false)
          → sandbox_of h w (create_sandbox_provider h none none max_concurrency) e
            ≡ raised "Bubblewrap not available on this system")
unfolding sandbox_of create_sandbox_provider provider_of detect lower execute nsjail_execute
    bwrap_execute
sandbox_of_refuses h w n e l = ((λ c. rw (l, c.0, c.1) refl), (λ c. rw (l, c.0, c.1, c.2) refl))

-- Of the commands that the tool registry sends, all without a network, a bwrap is started with "--unshare-net", but an
-- nsjail with "--disable_clone_newnet", which leaves it in the network of the host.
pub network_options :
    (h : Host) (r : NsJailRunner) (b : BubblewrapRunner) (e : Execution)
    → (contains "--disable_clone_newnet" (nsjail_args h r (request_of e)) ≡ true)
      × (contains "--unshare-net" (bwrap_args b (request_of e)) ≡ true)
unfolding nsjail_args nsjail_options bwrap_args bwrap_options
network_options h r b e = (ground arith, ground arith)
