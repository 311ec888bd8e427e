-- ===== src/Routing.antt =====
-- src/message_router.py: what a message or an action does to the ledger, the sessions and the listeners, and the
-- tasks that it starts.
pub mod Mentions
pub mod Starting
pub mod Examples
use Prim.Native.Char.{Char, code}
use ops_sentry.Prelude.{
  string_eq, nat_eq, ℕ, zero, suc, ◌+◌, String, Bool, true, false, ◌||◌, Option, none, some, List,
  [], ◌∷◌, ◌++◌, Dict, insert, lookup, Result, ok, err, map, length, ◌==◌, if◌then◌else◌,
}
use ops_sentry.Prelude.Action.{Action, return, raise, ◌>>=◌, ◌>>◌}
use ops_sentry.Prelude.Texts.{◌+++◌, chars, in_range}
use ops_sentry.Prelude.Json.{ℤ, pos, Json}
use ops_sentry.Ledger.Entry.{LedgerEntry, LedgerError, get_or}
use ops_sentry.Ledger.Storage.{Table}
use ops_sentry.Ledger.Operations.{create_entry}
use ops_sentry.Tools.Dispatch.{Stamps, noted}
use ops_sentry.Agents.Validation.{AgentError}
use ops_sentry.Agents.Profiles.{Accounts, AgentProfile}
use ops_sentry.Agents.Manager.{get_agent}
use ops_sentry.Sessions.{
  Histories, Hub, WebSocket, SessionEntry, get_or_create_session, load_history, append_history,
  broadcast_global, default_limit,
}
use ops_sentry.Channels.{ChannelError, get_field, find_field}
use ops_sentry.Channels.Sending.{object, array}

-- [0-9A-F]
abbrev pub is_hex : Char → Bool
is_hex c = in_range 48 57 (code c) || in_range 65 70 (code c)

abbrev pub is_code : ℕ → Char → Bool
is_code n c = code c == n

abbrev pub hexes : ℕ → List (Char → Bool) → List (Char → Bool)
hexes zero ps = ps
hexes (suc n) ps = is_hex ∷ hexes n ps

-- @DID-[0-9A-F]{8}-[0-9A-F]{6}
abbrev pub mention_pattern : List (Char → Bool)
mention_pattern =
    is_code 64
    ∷ is_code 68
    ∷ is_code 73
    ∷ is_code 68
    ∷ is_code 45
    ∷ hexes 8 (is_code 45 ∷ hexes 6 [])

abbrev pub longer : Char → Option String → Option String
longer c none = none
longer c (some s) = some (String.◌∷◌ c s)

-- The front of a text that matches.
unfoldable pub match_front : List (Char → Bool) → List Char → Option String
match_front [] s = some ""
match_front (p ∷ ps) [] = none
match_front (p ∷ ps) (c ∷ s) = let rest = match_front ps s in if p c then longer c rest else none

abbrev pub found_before : Option String → (ℕ → List String) → List String
found_before none later = later 0
found_before (some m) later = m ∷ later 19

-- re.findall: `skip` characters belong to the last match, which has twenty.
unfoldable pub find_mentions : ℕ → List Char → List String
unfolding match_front
find_mentions skip [] = []
find_mentions (suc skip) (c ∷ s) = find_mentions skip s
find_mentions zero (c ∷ s) =
    found_before (match_front mention_pattern (c ∷ s)) (λ skip. find_mentions skip s)

-- _extract_mentions
unfoldable pub extract_mentions : String → List String
unfolding find_mentions chars
extract_mentions content = find_mentions 0 (chars content)

-- A task that was started: what run_inference reads of the variables around it.
pub record Task : Type 0 where
  pub uid : String
  pub did : String
  pub session_id : String
  pub history : List Json

-- The ledger, the sessions, the listeners, and the tasks that were started.
pub record Bus : Type 0 where
  pub table : Table
  pub histories : Histories
  pub hub : Hub
  pub tasks : List Task

pub data RequestError : Type 0 where
  http_error : ℕ → String → RequestError
  ledger_failed : LedgerError → RequestError
  channel_failed : ChannelError → RequestError
  not_unicode : RequestError

abbrev pub Step : Type 0 → Type 0
Step A = Action Bus RequestError A

-- Whose `send_text` works, the uuid and times of the entries, by their number, and the clock otherwise.
pub record Site : Type 0 where
  pub works : WebSocket → Bool
  pub stamps : ℕ → Stamps
  pub seconds : ℕ
  pub millis : ℕ
  pub iso : String

abbrev pub or_ledger_failed {ℓ} : {A : Type ℓ} → Result LedgerError A → Result RequestError A
or_ledger_failed (ok a) = ok a
or_ledger_failed (err e) = err (ledger_failed e)

-- ledger.create_entry(action=..., metadata=...), the nth of the request
unfoldable pub note : Site → ℕ → String → Dict String Json → Step LedgerEntry
unfolding create_entry
note x n action metadata b =
    let made =
      create_entry action (noted metadata) (x.stamps n).fresh (x.stamps n).created
        (x.stamps n).updated b.table in
    (or_ledger_failed made.0, record b { table = made.1 })

-- manager_ws.broadcast_global
unfoldable pub tell_all : Site → Json → Step (Unit {0})
unfolding broadcast_global
tell_all x m b = (ok tt, record b { hub = broadcast_global x.works m b.hub })

abbrev pub user_message : String → Json
user_message content = object (("role", Json.str "user") ∷ ("content", Json.str content) ∷ [])

-- One turn of the loop over the mentions: the sessions after it, and the values of the loop's variables.
abbrev pub turn : Site → String → String → String → String → Histories → Histories × Task
unfolding get_or_create_session load_history append_history
turn x uid session_id content target h =
    let made = get_or_create_session uid target (some session_id) x.seconds x.iso x.iso h in
    let m = user_message content in
    (
      append_history made.0.id m made.1,
      record {
        uid = uid;
        did = target;
        session_id = made.0.id;
        history = load_history made.0.id default_limit made.1 ++ m ∷ [];
      },
    )

-- The loop: the sessions, how many tasks were created, and the last values of the variables.
unfoldable pub route_all :
    Site
    → String
    → String
    → String
    → List String
    → Histories
    → ℕ
    → Option Task
    → Histories × ℕ × Option Task
unfolding get_or_create_session load_history append_history
route_all x uid session_id content [] h n last = (h, n, last)
route_all x uid session_id content (target ∷ targets) h n last =
    let r = turn x uid session_id content target h in
    route_all x uid session_id content targets r.0 (suc n) (some r.1)

abbrev pub repeated {ℓ} : {A : Type ℓ} → ℕ → A → List A
repeated zero t = []
repeated (suc n) t = t ∷ repeated n t

-- The tasks begin when the loop has ended; run_inference then finds the variables with their last values.
abbrev pub start_tasks : Histories × ℕ × Option Task → Bus → Bus
start_tasks (h, n, none) b = record b { histories = h }
start_tasks (h, n, some t) b = record b { histories = h; tasks = b.tasks ++ repeated n t }

abbrev pub routed_note : String → String → List String → String → Dict String Json
routed_note session_id sender_did mentions content =
    ("session_id", Json.str session_id)
    ∷ ("sender_did", Json.str sender_did)
    ∷ ("mentions", array (map Json.str mentions))
    ∷ ("content", Json.str content)
    ∷ []

abbrev pub start_all : Site → String → String → String → Step (Unit {0})
unfolding route_all extract_mentions
start_all x uid session_id content b = (
  ok tt,
  start_tasks (route_all x uid session_id content (extract_mentions content) b.histories 0 none) b,
)

-- route_message, whose entry is the nth of the request
unfoldable pub route_message : Site → ℕ → String → String → String → String → Step (Unit {0})
unfolding note route_all extract_mentions
route_message x n uid session_id sender_did content =
    note x n "message_routed" (routed_note session_id sender_did (extract_mentions content) content)
    >>= λ entry. start_all x uid session_id content

-- The type of a chunk on its way to the listeners.
abbrev pub mapped_type : String → String
mapped_type t =
    if t == "content"
    then "thought"
    else if t == "tool_call"
    then "call"
    else if t == "tool_result"
    then "observation"
    else t

abbrev pub text_or_empty : Json → String
text_or_empty (Json.str s) = s
text_or_empty _ = ""

-- chunk["type"]
abbrev pub type_of : Dict String Json → String
type_of chunk = text_or_empty (get_or (lookup "type" chunk) Json.null)

abbrev pub mapped_chunk : Dict String Json → Dict String Json
mapped_chunk chunk = insert "type" (Json.str (mapped_type (type_of chunk))) chunk

abbrev pub saved : Task → Dict String Json → Histories → Histories
unfolding append_history
saved t chunk h =
    if type_of chunk == "message"
    then append_history t.session_id (get_or (lookup "message" chunk) Json.null) h
    else h

-- The first chunk; its entry is not created, since create_entry takes one positional argument only, and the task ends
-- with that TypeError.
abbrev pub infer_over : Site → Task → List (Dict String Json) → Bus → Bus
unfolding broadcast_global append_history
infer_over x t [] b = b
infer_over x t (chunk ∷ chunks) b = record b {
  hub =
      broadcast_global x.works
        (object (
          ("type", Json.str "agent_stream")
          ∷ ("did", Json.str t.did)
          ∷ ("session_id", Json.str t.session_id)
          ∷ ("payload", object (mapped_chunk chunk))
          ∷ []))
        b.hub;
  histories = saved t chunk b.histories;
}

abbrev pub infer_with :
    Site
    → Task
    → (AgentProfile → List Json → List (Dict String Json))
    → Result AgentError AgentProfile
    → Bus
    → Bus
unfolding broadcast_global append_history
infer_with x t chunks (err e) b = b
infer_with x t chunks (ok profile) b = infer_over x t (chunks profile t.history) b

-- run_inference, over the chunks that vm.chat yields for a profile and a history; without the profile it raises.
unfoldable pub run_inference :
    Site → Accounts → (AgentProfile → List Json → List (Dict String Json)) → Task → Bus → Bus
unfolding get_agent broadcast_global append_history
run_inference x accounts chunks t b = infer_with x t chunks (get_agent t.uid t.did accounts).0 b

abbrev pub action_note : String → String → Json → Json → Dict String Json
action_note uid sender_did action_name action_data =
    ("uid", Json.str uid)
    ∷ ("sender_did", Json.str sender_did)
    ∷ ("action_name", action_name)
    ∷ ("data", action_data)
    ∷ []

abbrev pub action_event : Site → String → Json → Json → Json
action_event x sender_did action_name action_data = object (
    ("type", Json.str "system_event")
    ∷ ("event", Json.str "interactive_action")
    ∷ (
      "payload",
      object (
          ("action", action_name)
          ∷ ("data", action_data)
          ∷ ("did", Json.str sender_did)
          ∷ ("ts", Json.num (pos x.millis))
          ∷ []),
    )
    ∷ [])

abbrev pub route_named :
    Site → ℕ → String → String → Json → Result ChannelError Json → Step (Unit {0})
unfolding note tell_all
route_named x n uid sender_did action_data (err e) = raise (channel_failed e)
route_named x n uid sender_did action_data (ok action_name) =
    note x n "interactive_action" (action_note uid sender_did action_name action_data) >>= λ entry.
    tell_all x (action_event x sender_did action_name action_data)

-- route_action
unfoldable pub route_action : Site → ℕ → String → String → Json → Step (Unit {0})
unfolding note tell_all get_field
route_action x n uid sender_did action_data =
    route_named x n uid sender_did action_data (get_field "action" (Json.str "unknown") action_data)
