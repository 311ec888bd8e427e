-- ===== src/Tools/Dispatch.antt =====
-- `dispatch` of src/tool_registry.py: who may call, what is denied or waits, and the run in the sandbox.
use ops_sentry.Prelude.{
  string_eq, nat_eq, ℕ, String, Bool, true, false, not, ◌&&◌, Option, none, some, List, [], ◌∷◌,
  ◌++◌, Dict, ◌==◌, contains, lookup, insert, if◌then◌else◌, Result, ok, err,
}
use ops_sentry.Prelude.Action.{Action, return, raise, ◌>>=◌, ◌>>◌}
use ops_sentry.Prelude.Texts.{contains_text, lower, ◌+++◌}
use ops_sentry.Prelude.Json.{Json, bool, str, num, ℤ}
use ops_sentry.Ledger.Entry.{
  LedgerEntry, LedgerError, not_found, unsupported_status, duplicate_id, invalid_transition,
  cannot_checkpoint, integrity_error, key_error, get_or,
}
use ops_sentry.Ledger.Storage.{Table}
use ops_sentry.Ledger.Operations.{Options, create_entry, mark_running, mark_completed, mark_failed}
use ops_sentry.Tools.Policy.{is_globally_denied, requires_approval}

-- `args.get("command", "")`: not given, a text, or a value that is no text.
pub data CommandArg : Type 0 where
  no_command : CommandArg
  text_command : String → CommandArg
  other_command : CommandArg

-- The text of it; at a value that is no text, `audit` raises before this is asked for.
abbrev pub command_of : CommandArg → String
command_of no_command = ""
command_of (text_command s) = s
command_of other_command = ""

abbrev pub is_no_text : CommandArg → Bool
is_no_text no_command = false
is_no_text (text_command s) = false
is_no_text other_command = true

-- The `args` of a call, as far as they are read.
pub record Args : Type 0 where
  pub command : CommandArg
  pub timeout : Option ℕ
  pub workdir : Option String
  pub env : Option (Dict String String)

-- What the sandbox is asked to execute.
pub record Execution : Type 0 where
  pub command : String
  pub timeout_seconds : ℕ
  pub workdir : Option String
  pub env : Option (Dict String String)

-- SandboxResult of src/sandbox.py
pub record SandboxResult : Type 0 where
  pub exit_code : ℤ
  pub stdout : String
  pub stderr : String
  pub duration_ms : ℕ
  pub truncated : Bool
  pub sandbox_mode : String

unfoldable pub to_audit_record : SandboxResult → Dict String Json
to_audit_record r =
    ("type", str "sandbox_exec")
    ∷ ("sandbox_mode", str r.sandbox_mode)
    ∷ ("exit_code", num r.exit_code)
    ∷ ("duration_ms", num (ℤ.pos r.duration_ms))
    ∷ ("stdout_truncated", bool r.truncated)
    ∷ []

-- How `sandbox.execute` ends: with a result, or with an exception of this text.
pub data Outcome : Type 0 where
  finished : SandboxResult → Outcome
  raised : String → Outcome

-- The dict that a call returns.
pub data Reply : Type 0 where
  blocked : Reply
  pending_approval : String → Reply
  outcome : SandboxResult → Option String → Reply
  failure : String → Reply
  other_reply : Json → Reply

pub data ToolError : Type 0 where
  not_registered : String → ToolError
  disabled : String → ToolError
  ledger_error : LedgerError → ToolError
  type_error : ToolError
  other_error : String → ToolError

-- The ledger, and what was given to the sandbox.
pub record World : Type 0 where
  pub table : Table
  pub runs : List Execution

abbrev pub Step : Type 0 → Type 0
Step A = Action World ToolError A

-- The uuid and the clock's values of a call.
pub record Stamps : Type 0 where
  pub fresh : String
  pub created : ℕ
  pub updated : ℕ
  pub started : ℕ
  pub ended : ℕ

abbrev pub or_ledger_error {ℓ} : {A : Type ℓ} → Result LedgerError A → Result ToolError A
or_ledger_error (ok a) = ok a
or_ledger_error (err e) = err (ledger_error e)

abbrev pub on_ledger {ℓ} :
    {A : Type ℓ} → (Table → Result LedgerError A × Table) → World → Result ToolError A × World
on_ledger m w = (or_ledger_error (m w.table).0, record w { table = (m w.table).1 })

-- str(e)
unfoldable pub show_error : LedgerError → String
show_error (not_found k) = k
show_error (unsupported_status s) = "unsupported status: " +++ s
show_error (duplicate_id k) = "duplicate ledger id: " +++ k
show_error (invalid_transition old new) =
    "invalid transition: " +++ old +++ " -> " +++ new
    +++ " (possibly already updated by another agent)"
show_error (cannot_checkpoint s) = "cannot checkpoint entry in status " +++ s
show_error integrity_error = "UNIQUE constraint failed: ledger.id"
show_error (key_error k) = "'" +++ k +++ "'"

abbrev pub noted : Dict String Json → Options
noted metadata = record {
  entry_id = none;
  accio_ref = none;
  checkpoint = none;
  metadata = some metadata;
}

abbrev pub execution_of : Args → Execution
execution_of args = record {
  command = command_of args.command;
  timeout_seconds = get_or args.timeout 30;
  workdir = args.workdir;
  env = args.env;
}

unfoldable pub outcome_reply : SandboxResult → Reply
unfolding contains_text lower
outcome_reply r = outcome r (
    if contains_text "permission denied" (lower r.stderr)
    then some "Permission denied detected"
    else none)

-- The body of the `except`.
abbrev pub give_up : String → ℕ → String → Step Reply
give_up k ended e = on_ledger (mark_failed k e none ended) >>= λ _. return (failure e)

abbrev pub completed_or_caught :
    String → ℕ → SandboxResult → Result LedgerError LedgerEntry → Step Reply
completed_or_caught k ended r (ok e) = return (outcome_reply r)
completed_or_caught k ended r (err e) = give_up k ended (show_error e)

-- The body of the `try`, behind the sandbox's answer.
abbrev pub conclude : String → ℕ → Outcome → Step Reply
conclude k ended (raised e) w = give_up k ended e w
conclude k ended (finished r) w =
    let done = mark_completed k (some (to_audit_record r)) ended w.table in
    completed_or_caught k ended r done.0 (record w { table = done.1 })

abbrev pub sandbox_note : Args → Dict String Json
sandbox_note args = ("tool", str "bash") ∷ ("command", str (command_of args.command)) ∷ []

-- The mapping of `_get_tool_group`.
abbrev pub tool_groups : Dict String String
tool_groups =
    ("bash", "command_execution")
    ∷ ("process", "command_execution")
    ∷ ("list", "file_system")
    ∷ ("read", "file_system")
    ∷ ("grep", "file_system")
    ∷ ("glob", "file_system")
    ∷ ("ripgrep", "file_system")
    ∷ ("write", "file_system")
    ∷ ("edit", "file_system")
    ∷ ("web_fetch", "network_probe")
    ∷ ("cron", "cron_trigger")
    ∷ ("question", "human_confirm")
    ∷ ("memory_search", "memory_planning")
    ∷ ("memory_get", "memory_planning")
    ∷ ("task_create", "memory_planning")
    ∷ ("task_get", "memory_planning")
    ∷ ("task_update", "memory_planning")
    ∷ ("task_list", "memory_planning")
    ∷ ("sessions_spawn", "agent_collaboration")
    ∷ ("sessions_list", "agent_collaboration")
    ∷ ("sessions_history", "agent_collaboration")
    ∷ ("sessions_send", "agent_collaboration")
    ∷ ("mcp_call", "external_integration")
    ∷ ("listen_gmail_reply", "notification")
    ∷ ("unlisten_gmail", "notification")
    ∷ []

unfoldable pub get_tool_group : String → Option String
unfolding lookup
get_tool_group tool_name = lookup tool_name tool_groups

-- `group_name and not self.enabled_groups.get(group_name, True)`
unfoldable pub is_disabled : Dict String Bool → Option String → Bool
unfolding lookup
is_disabled enabled_groups none = false
is_disabled enabled_groups (some group) =
    not (group == "") && not (get_or (lookup group enabled_groups) true)

-- A registered handler: the registry's own one for bash and process, or any other.
pub data Handler : Type 0 where
  sandbox_handler : Handler
  other_handler : (Args → Step Reply) → Handler

-- A registry: its sandbox is what is asked for the outcome of each execution.
pub record Registry : Type 0 where
  pub handlers : Dict String Handler
  pub enabled_groups : Dict String Bool
  pub sandbox : Execution → Outcome
  pub resolve : String → Option String

unfoldable pub register_tool : String → Handler → Registry → Registry
unfolding insert
register_tool name handler r = record r { handlers = insert name handler r.handlers }

-- __init__
unfoldable pub new_registry :
    (Execution → Outcome) → Option (Dict String Bool) → (String → Option String) → Registry
unfolding register_tool
new_registry sandbox enabled_groups resolve = register_tool "process" sandbox_handler (
    register_tool "bash" sandbox_handler (record {
      handlers = [];
      enabled_groups = get_or enabled_groups [];
      sandbox = sandbox;
      resolve = resolve;
    }))

abbrev pub ask_sandbox : Execution → Step (Unit {0})
ask_sandbox x w = (ok tt, record w { runs = w.runs ++ x ∷ [] })

-- _dispatch_sandbox
unfoldable pub dispatch_sandbox : (Execution → Outcome) → Stamps → Args → Step Reply
dispatch_sandbox sandbox s args =
    on_ledger (create_entry "sandbox_exec" (noted (sandbox_note args)) s.fresh s.created s.updated)
    >>= λ entry. on_ledger (mark_running entry.id none s.started) >>= λ _.
        ask_sandbox (execution_of args) >> conclude entry.id s.ended (sandbox (execution_of args))

abbrev pub policy_note : String → String → String → Dict String Json
policy_note tool_name command reason =
    ("tool", str tool_name) ∷ ("command", str command) ∷ ("reason", str reason) ∷ []

abbrev pub run_handler : Registry → Stamps → Args → Handler → Step Reply
run_handler r s args sandbox_handler = dispatch_sandbox r.sandbox s args
run_handler r s args (other_handler h) = h args

abbrev pub deny : String → Stamps → String → Step Reply
deny tool_name s command =
    on_ledger (
      create_entry "tool_policy_blocked" (noted (policy_note tool_name command "L1 Global Deny"))
        s.fresh s.created s.updated)
    >>= λ _. return blocked

abbrev pub ask_approval : String → Stamps → String → Step Reply
ask_approval tool_name s command =
    on_ledger (
      create_entry "approval_required" (noted (policy_note tool_name command "L3 Path Approval"))
        s.fresh s.created s.updated)
    >>= λ entry. return (pending_approval entry.id)

abbrev pub is_shell_tool : String → Bool
is_shell_tool tool_name = contains tool_name ("bash" ∷ "process" ∷ [])

-- L1 and L3, on bash and process only, and then the handler. The patterns of L1 cannot be searched for in a value that is
-- no text.
unfoldable pub audit : Registry → String → Stamps → Args → Handler → Step Reply
audit r tool_name s args h =
    if is_shell_tool tool_name && is_no_text args.command
    then raise type_error
    else if is_shell_tool tool_name && is_globally_denied (command_of args.command)
    then deny tool_name s (command_of args.command)
    else if is_shell_tool tool_name && requires_approval r.resolve (command_of args.command)
    then ask_approval tool_name s (command_of args.command)
    else run_handler r s args h

abbrev pub dispatch_to : Registry → String → Stamps → Args → Option Handler → Step Reply
dispatch_to r tool_name s args none = raise (not_registered tool_name)
dispatch_to r tool_name s args (some h) =
    if is_disabled r.enabled_groups (get_tool_group tool_name)
    then raise (disabled tool_name)
    else audit r tool_name s args h

-- dispatch
unfoldable pub dispatch : Registry → String → Stamps → Args → Step Reply
dispatch r tool_name s args = dispatch_to r tool_name s args (lookup tool_name r.handlers)
