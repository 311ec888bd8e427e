-- ===== src/Cron/Payloads.antt =====
-- `_execute_payload` of src/cron_engine.py over the tool registry, the agents, and the loop of an agent.
use ops_sentry.Prelude.{
  string_eq, nat_eq, String, ◌≡◌, refl, Bool, Option, none, some, List, [], ◌∷◌, Dict, Result, ok,
  err, ◌==◌, if◌then◌else◌, Bool-cases, inl, inr,
}
use ops_sentry.Prelude.Json.{Json}
use ops_sentry.Ledger.Entry.{get_or}
use ops_sentry.Tools.Dispatch.{
  Args, CommandArg, text_command, other_command, Execution, Outcome, Reply, World, Stamps,
  ToolError, register_tool, new_registry, dispatch,
}
use ops_sentry.Tools.Guarding.{IsGuarded, dispatch-IsGuarded, new_registry-HasShellOnly}
use ops_sentry.Agents.Validation.{AgentError}
use ops_sentry.Agents.Profiles.{Accounts, AgentProfile}
use ops_sentry.Agents.Manager.{get_agent}
use ops_sentry.Vm.{Event, message, ChatMessage, VmError, Stream, Machine, Chat, chat}
use ops_sentry.Vm.Guarding.{chat-IsGuarded}
use ops_sentry.Cron.{CronJob}

-- What a payload works with: the sandbox, Path.resolve, the agents, the model of a profile, its prompt, the reading of
-- arguments, the JSON text of a reply, and the uuids and times of a call.
pub record Services : Type 0 where
  pub sandbox : Execution → Outcome
  pub resolve : String → Option String
  pub accounts : Accounts
  pub llm : AgentProfile → List ChatMessage → Stream
  pub prompt : AgentProfile → String
  pub read_args : Dict String Json → Args
  pub parse_args : String → Option Args
  pub dump : Reply → String
  pub draw : World → Stamps

pub data PayloadResult : Type 0 where
  replied : Reply → PayloadResult
  messages : List ChatMessage → PayloadResult
  no_result : PayloadResult

pub data PayloadError : Type 0 where
  tool_raised : ToolError → PayloadError
  agent_raised : AgentError → PayloadError
  vm_raised : VmError → PayloadError
  needs_did : PayloadError

abbrev pub tools_of : Result AgentError AgentProfile → Option (Dict String Bool)
tools_of (ok p) = some p.tools
tools_of (err e) = none

-- `if job.did`: the tools of the agent, and none where it has no profile, which is passed over.
unfoldable pub enabled_groups : Services → String → Option String → Option (Dict String Bool)
unfolding get_agent
enabled_groups v uid none = none
enabled_groups v uid (some did) =
    let found = tools_of (get_agent uid did v.accounts).0 in if did == "" then none else found

abbrev pub or_raised : Result ToolError Reply × World → Result PayloadError PayloadResult × World
or_raised (ok r, w) = (ok (replied r), w)
or_raised (err e, w) = (err (tool_raised e), w)

-- A registry of the job's own, and one call of it.
unfoldable pub call_tool :
    Services → CronJob → String → Args → World → Result PayloadError PayloadResult × World
unfolding enabled_groups new_registry dispatch
call_tool v job tool args w = or_raised (
    dispatch (new_registry v.sandbox (enabled_groups v job.uid job.did) v.resolve) tool (v.draw w)
      args w)

-- A None is handed on.
abbrev pub given_command : Option String → CommandArg
given_command none = other_command
given_command (some s) = text_command s

abbrev pub bash_args : Option String → Args
bash_args command = record {
  command = given_command command;
  timeout = none;
  workdir = none;
  env = none;
}

-- `chunk["message"]` of the chunks of that type
abbrev pub messages_in : List Event → List ChatMessage
messages_in [] = []
messages_in (message m ∷ es) = m ∷ messages_in es
messages_in (_ ∷ es) = messages_in es

unfoldable pub machine_of : Services → AgentProfile → Machine
unfolding new_registry
machine_of v p = record {
  llm = v.llm p;
  parse_args = v.parse_args;
  dump = v.dump;
  registry = new_registry v.sandbox (some p.tools) v.resolve;
  draw = v.draw;
}

abbrev pub final_result :
    Result VmError (Unit {0}) × Chat → Result PayloadError PayloadResult × World
final_result (ok u, c) = (ok (messages (messages_in c.events)), c.world)
final_result (err e, c) = (err (vm_raised e), c.world)

abbrev pub user_turn : Option String → ChatMessage
user_turn content = record {
  role = "user";
  content = content;
  tool_calls = [];
  tool_call_id = none;
  name = none;
}

abbrev pub run_agent :
    Services
    → CronJob
    → World
    → Result AgentError AgentProfile
    → Result PayloadError PayloadResult × World
unfolding machine_of chat
run_agent v job w (err e) = (err (agent_raised e), w)
run_agent v job w (ok p) =
    final_result (chat (machine_of v p) (v.prompt p) (user_turn job.payload.message ∷ []) w)

abbrev pub ask_agent :
    Services → CronJob → World → Option String → Result PayloadError PayloadResult × World
unfolding machine_of chat get_agent
ask_agent v job w none = (err needs_did, w)
ask_agent v job w (some did) =
    let done = run_agent v job w (get_agent job.uid did v.accounts).0 in
    if did == "" then (err needs_did, w) else done

-- _execute_payload
unfoldable pub execute_payload :
    Services → CronJob → World → Result PayloadError PayloadResult × World
unfolding call_tool machine_of chat get_agent
execute_payload v job w =
    if job.payload.kind == "command"
    then call_tool v job "bash" (bash_args job.payload.command) w
    else if job.payload.kind == "tool"
    then call_tool v job (get_or job.payload.tool "None") (v.read_args (get_or job.payload.args []))
        w
    else if job.payload.kind == "agent"
    then ask_agent v job w job.did
    else (ok no_result, w)

resolve-new_registry :
    (sandbox : Execution → Outcome) (groups : Option (Dict String Bool))
    (resolve : String → Option String)
    → (new_registry sandbox groups resolve).resolve ≡ resolve
unfolding new_registry register_tool
resolve-new_registry sandbox groups resolve = refl

module _ (v : Services) (job : CronJob) (w : World) (g : IsGuarded v.resolve w) where
  call_tool-IsGuarded :
      (tool : String) (args : Args) → IsGuarded v.resolve (call_tool v job tool args w).1
  unfolding call_tool
  call_tool-IsGuarded tool args =
      kept
        (dispatch (new_registry v.sandbox (enabled_groups v job.uid job.did) v.resolve) tool
          (v.draw w) args w)
        (dispatch-IsGuarded v.resolve
          (new_registry v.sandbox (enabled_groups v job.uid job.did) v.resolve) tool (v.draw w) args
          w (resolve-new_registry v.sandbox (enabled_groups v job.uid job.did) v.resolve)
          (new_registry-HasShellOnly v.resolve v.sandbox (enabled_groups v job.uid job.did)) g)
    where
      kept :
          (r : Result ToolError Reply × World)
          → IsGuarded v.resolve r.1
          → IsGuarded v.resolve (or_raised r).1
      kept (ok r, x) h = h
      kept (err e, x) h = h

  run_agent-IsGuarded :
      (r : Result AgentError AgentProfile) → IsGuarded v.resolve (run_agent v job w r).1
  unfolding machine_of run_agent chat
  run_agent-IsGuarded (err e) = g
  run_agent-IsGuarded (ok p) =
      kept (chat (machine_of v p) (v.prompt p) (user_turn job.payload.message ∷ []) w) (
        chat-IsGuarded v.resolve (machine_of v p)
          (resolve-new_registry v.sandbox (some p.tools) v.resolve)
          (new_registry-HasShellOnly v.resolve v.sandbox (some p.tools)) (v.prompt p)
          (user_turn job.payload.message ∷ []) w g)
    where
      kept :
          (r : Result VmError (Unit {0}) × Chat)
          → IsGuarded v.resolve r.1.world
          → IsGuarded v.resolve (final_result r).1
      kept (ok u, c) h = h
      kept (err e, c) h = h

  ask_agent-IsGuarded : (did : Option String) → IsGuarded v.resolve (ask_agent v job w did).1
  unfolding ask_agent
  ask_agent-IsGuarded none = g
  ask_agent-IsGuarded (some did) = elim (Bool-cases (did == "")) [
    | inl p ↦ rw p g
    | inr q ↦ rw q (run_agent-IsGuarded (get_agent job.uid did v.accounts).0)
  ]

  -- Whatever a job's payload is, a command, a call of a tool, or a message to an agent with all the rounds of its model, and
  -- however it ends: if all that the sandbox was given before is neither denied nor to be approved, so is all it has been given
  -- after.
  pub execute_payload-IsGuarded : IsGuarded v.resolve (execute_payload v job w).1
  unfolding execute_payload
  execute_payload-IsGuarded = elim (Bool-cases (job.payload.kind == "command")) [
    | inl p ↦ rw p (call_tool-IsGuarded "bash" (bash_args job.payload.command))
    | inr p ↦ elim (Bool-cases (job.payload.kind == "tool")) [
      | inl q ↦
          rw (p, q)
            (call_tool-IsGuarded (get_or job.payload.tool "None")
              (v.read_args (get_or job.payload.args [])))
      | inr q ↦ elim (Bool-cases (job.payload.kind == "agent")) [
        | inl r ↦ rw (p, q, r) (ask_agent-IsGuarded job.did)
        | inr r ↦ rw (p, q, r) g
      ]
    ]
  ]
