-- ===== src/Vm.antt =====
-- src/agent_vm.py: the loop of an agent, Think-Act-Observe. The language model is asked through `llm`, and
-- tool calls go to the registry of Tools/Dispatch.antt.
mod Examples
pub mod Escaping
pub mod Looping
pub mod Compacting
pub mod Guarding
use ops_sentry.Prelude.{
  string_eq, nat_eq, ℕ, zero, suc, ◌+◌, String, Bool, true, false, not, ◌&&◌, ◌||◌, Option, none,
  some, List, [], ◌∷◌, ◌++◌, ◌==◌, Result, ok, err, length, take, take_last, ltb, leb,
  if◌then◌else◌,
}
use ops_sentry.Prelude.Texts.{◌+++◌, join, strip, replace_char}
use ops_sentry.Ledger.Entry.{get_or}
use ops_sentry.Tools.Dispatch.{
  Args, no_command, Registry, Reply, Stamps, ToolError, World, dispatch,
}

pub record ToolCall : Type 0 where
  pub id : String
  pub name : String
  pub arguments : String

pub record ChatMessage : Type 0 where
  pub role : String
  pub content : Option String
  pub tool_calls : List ToolCall
  pub tool_call_id : Option String
  pub name : Option String

-- One entry of a chunk's `delta.tool_calls`.
pub record CallDelta : Type 0 where
  pub index : ℕ
  pub id : String
  pub name : Option String
  pub arguments : Option String

-- A chunk's `delta`.
pub record Delta : Type 0 where
  pub content : Option String
  pub tool_calls : List CallDelta

pub data VmError : Type 0 where
  llm_error : String → VmError
  index_error : VmError
  tool_failed : ToolError → VmError

-- What the generator yields.
pub data Event : Type 0 where
  content : String → Event
  message : ChatMessage → Event
  tool_call : String → Event
  tool_result : String → Reply → Event
  done : Event

-- `if len(tool_calls) <= tc.index: tool_calls.append(...)`
unfoldable pub with_slot : CallDelta → List ToolCall → List ToolCall
with_slot d calls =
    if leb (length calls) d.index
    then calls ++ record { id = d.id; name = ""; arguments = "" } ∷ []
    else calls

-- `tool_calls[tc.index]["function"][...] += ...`
abbrev pub is_blank : Option String → Bool
is_blank none = true
is_blank (some s) = s == ""

unfoldable pub extend_call : ℕ → CallDelta → List ToolCall → Result VmError (List ToolCall)
extend_call n d [] = err index_error
extend_call zero d (c ∷ calls) = ok (
    record c {
      name = c.name +++ get_or d.name "";
      arguments = c.arguments +++ get_or d.arguments "";
    }
    ∷ calls)
extend_call (suc n) d (c ∷ calls) = elim (extend_call n d calls) [
  | ok rest ↦ ok (c ∷ rest)
  | err e ↦ err e
]

-- It is indexed only where there is something to add.
abbrev pub extended : CallDelta → List ToolCall → Result VmError (List ToolCall)
extended d calls =
    if is_blank d.name && is_blank d.arguments then ok calls else extend_call d.index d calls

unfoldable pub add_calls : List CallDelta → List ToolCall → Result VmError (List ToolCall)
add_calls [] calls = ok calls
add_calls (d ∷ ds) calls = elim (extended d (with_slot d calls)) [
  | ok next ↦ add_calls ds next
  | err e ↦ err e
]

-- What the stream has come to: the text, the calls and the events.
pub record Answer : Type 0 where
  pub full_content : String
  pub tool_calls : List ToolCall
  pub events : List Event

abbrev pub add_content : Option String → Answer → Answer
add_content none a = a
add_content (some s) a =
    if s == ""
    then a
    else record a { full_content = a.full_content +++ s; events = a.events ++ content s ∷ [] }

-- A stream: its chunks, and what it raises behind them.
pub record Stream : Type 0 where
  pub chunks : List Delta
  pub raises : Option String

abbrev pub ended : Option String → Result VmError (Unit {0})
ended none = ok tt
ended (some e) = err (llm_error e)

-- The `async for` over the chunks. What was yielded before an exception stays.
unfoldable pub accumulate : List Delta → Option String → Answer → Result VmError (Unit {0}) × Answer
accumulate [] raises a = (ended raises, a)
accumulate (d ∷ ds) raises a =
    let b = add_content d.content a in
    elim (add_calls d.tool_calls b.tool_calls) [
      | ok calls ↦ accumulate ds raises (record b { tool_calls = calls })
      | err e ↦ (err e, b)
    ]

abbrev pub empty_answer : Answer
empty_answer = record { full_content = ""; tool_calls = []; events = [] }

unfoldable pub assistant_message : Answer → ChatMessage
assistant_message a = record {
  role = "assistant";
  content = (if a.full_content == "" then none else some a.full_content);
  tool_calls = a.tool_calls;
  tool_call_id = none;
  name = none;
}

-- _compact_context
unfoldable pub compact_context : List ChatMessage → List ChatMessage
compact_context messages =
    if ltb 20 (length messages) then take 2 messages ++ take_last 10 messages else messages

-- What the agent acts with: the model, `json.loads` of the arguments (`none` where it raises), the JSON text of
-- a result, and the uuids and times of each call.
pub record Machine : Type 0 where
  pub llm : List ChatMessage → Stream
  pub parse_args : String → Option Args
  pub dump : Reply → String
  pub registry : Registry
  pub draw : World → Stamps

abbrev pub no_args : Args
no_args = record { command = no_command; timeout = none; workdir = none; env = none }

-- The state of a chat: the messages, those that each request to the model had, the events so far, and the world.
pub record Chat : Type 0 where
  pub messages : List ChatMessage
  pub requests : List (List ChatMessage)
  pub events : List Event
  pub world : World

abbrev pub emitted : List Event → Chat → Chat
emitted es c = record c { events = c.events ++ es }

abbrev pub tool_message : ToolCall → String → ChatMessage
tool_message tc text = record {
  role = "tool";
  content = some text;
  tool_calls = [];
  tool_call_id = some tc.id;
  name = some tc.name;
}

abbrev pub observed :
    Machine → ToolCall → Result ToolError Reply × World → Chat → Result VmError (Unit {0}) × Chat
observed m tc (err e, w) c = (err (tool_failed e), record c { world = w })
observed m tc (ok r, w) c = (
  ok tt,
  record c {
    messages = c.messages ++ tool_message tc (m.dump r) ∷ [];
    events = c.events ++ tool_result tc.name r ∷ [];
    world = w;
  },
)

unfoldable pub run_call : Machine → ToolCall → Chat → Result VmError (Unit {0}) × Chat
run_call m tc c =
    observed m tc
      (dispatch m.registry tc.name (m.draw c.world) (get_or (m.parse_args tc.arguments) no_args)
        c.world)
      (emitted (tool_call tc.name ∷ []) c)

-- The tool calls of an answer, in their order.
unfoldable pub run_calls : Machine → List ToolCall → Chat → Result VmError (Unit {0}) × Chat
run_calls m [] c = (ok tt, c)
run_calls m (tc ∷ tcs) c =
    let s = run_call m tc c in elim s.0 [ ok u ↦ run_calls m tcs s.1 | err e ↦ (err e, s.1) ]

abbrev pub noted_answer : Answer → Chat → Chat
noted_answer a c = record c {
  messages = c.messages ++ assistant_message a ∷ [];
  events = c.events ++ (a.events ++ message (assistant_message a) ∷ []);
}

-- A request to the model.
abbrev pub ask_model : Machine → Chat → Stream × Chat
ask_model m c = (m.llm c.messages, record c { requests = c.requests ++ c.messages ∷ [] })

abbrev pub receive : Stream → Result VmError (Unit {0}) × Answer
receive s = accumulate s.chunks s.raises empty_answer

-- `for _ in range(max_loops)`, and the event behind it.
unfoldable pub think : Machine → ℕ → Chat → Result VmError (Unit {0}) × Chat
think m zero c = (ok tt, emitted (done ∷ []) c)
think m (suc loops) c =
    let asked = ask_model m c in
    let a = receive asked.0 in
    elim a.0 [
      | err e ↦ (err e, emitted a.1.events asked.1)
      | ok u ↦ elim a.1.tool_calls [
        | [] ↦ (ok tt, emitted (done ∷ []) (noted_answer a.1 asked.1))
        | tc ∷ tcs ↦
            let s = run_calls m (tc ∷ tcs) (noted_answer a.1 asked.1) in
            elim s.0 [ ok v ↦ think m loops s.1 | err e ↦ (err e, s.1) ]
      ]
    ]

abbrev pub max_loops : ℕ
max_loops = 10

-- chat, on the system prompt and a history
unfoldable pub chat : Machine → String → List ChatMessage → World → Result VmError (Unit {0}) × Chat
chat m prompt history w = think m max_loops (record {
  messages = compact_context (
      record {
        role = "system";
        content = some prompt;
        tool_calls = [];
        tool_call_id = none;
        name = none;
      }
      ∷ history);
  requests = [];
  events = [];
  world = w;
})

-- saxutils.escape
unfoldable pub escape : String → String
escape s = replace_char 60 "&lt;" (replace_char 62 "&gt;" (replace_char 38 "&amp;" s))

-- _get_xml_block, on what `read_core_file` returns or raises
unfoldable pub xml_block : String → Result String String → String
xml_block tag (err e) = "<" +++ tag +++ "><!-- File not found or inaccessible --></" +++ tag +++ ">"
xml_block tag (ok s) =
    if strip s == ""
    then "<" +++ tag +++ " status='empty' />"
    else "<" +++ tag +++ ">\n" +++ escape s +++ "\n</" +++ tag +++ ">"
