-- ===== src/Sessions.antt =====
-- src/session_manager.py, the histories of sessions, and the ConnectionManager of src/routers/sessions.py,
-- who listens to them.
mod Examples
pub mod Histories
pub mod Listing
pub mod Connections
use ops_sentry.Prelude.{
  string_eq, nat_eq, ℕ, zero, suc, String, Bool, true, false, not, ◌&&◌, Option, none, some, List,
  [], ◌∷◌, ◌++◌, Dict, ◌==◌, Result, ok, err, contains, lookup, insert, remove, has_key, take_last,
  map, filter, if◌then◌else◌,
}
use ops_sentry.Prelude.Texts.{◌+++◌, is_prefix, split_at, show_number}
use ops_sentry.Prelude.Json.{Json}
use ops_sentry.Ledger.Entry.{get_or}

-- A line of history.jsonl, as `json.loads` takes it.
pub data Line : Type 0 where
  message : Json → Line
  corrupt : Line

-- sessions/<id>/history.jsonl, by the id
abbrev pub Histories : Type 0
Histories = Dict String (List Line)

pub record SessionEntry : Type 0 where
  pub id : String
  pub uid : String
  pub did : String
  pub history_path : String
  pub created_at : String
  pub updated_at : String

-- The id of a new session; `now` is in seconds.
unfoldable pub session_id_of : String → String → Option String → ℕ → String
session_id_of uid did none now = "sess_" +++ uid +++ "_" +++ did +++ "_" +++ show_number now
session_id_of uid did (some k) now =
    if k == "" then "sess_" +++ uid +++ "_" +++ did +++ "_" +++ show_number now else k

-- A file that is not there is made empty.
unfoldable pub touch : String → Histories → Histories
touch k h = if has_key k h then h else insert k [] h

-- get_or_create_session; the two texts are those of its two reads of the clock. The path starts at accio_home.
unfoldable pub get_or_create_session :
    String → String → Option String → ℕ → String → String → Histories → SessionEntry × Histories
get_or_create_session uid did session_id now created_at updated_at h =
    let k = session_id_of uid did session_id now in
    (
      record {
        id = k;
        uid = uid;
        did = did;
        history_path = "sessions/" +++ k +++ "/history.jsonl";
        created_at = created_at;
        updated_at = updated_at;
      },
      touch k h,
    )

-- append_history
unfoldable pub append_history : String → Json → Histories → Histories
append_history k m h = insert k (get_or (lookup k h) [] ++ message m ∷ []) h

abbrev pub parsed : List Line → List Json
parsed [] = []
parsed (message m ∷ lines) = m ∷ parsed lines
parsed (corrupt ∷ lines) = parsed lines

-- lines[-limit:], which is all lines where the limit is 0
abbrev pub last_lines : ℕ → List Line → List Line
last_lines limit lines = if limit == 0 then lines else take_last limit lines

-- load_history
unfoldable pub load_history : String → ℕ → Histories → List Json
load_history k limit h = parsed (last_lines limit (get_or (lookup k h) []))

abbrev pub element : ℕ → List String → String
element n [] = ""
element zero (w ∷ ws) = w
element (suc n) (w ∷ ws) = element n ws

-- The code of "_".
abbrev underscore : ℕ
underscore = 95

abbrev pub user_prefix : String → String
user_prefix uid = "sess_" +++ uid +++ "_"

abbrev pub listed : String → Histories → List SessionEntry
listed uid [] = []
listed uid ((k, lines) ∷ h) =
    if is_prefix (user_prefix uid) k
    then record {
      id = k;
      uid = uid;
      did = element 2 (split_at underscore k);
      history_path = "sessions/" +++ k +++ "/history.jsonl";
      created_at = "";
      updated_at = "";
    }
      ∷ listed uid h
    else listed uid h

-- list_user_sessions. A name with the prefix has two underscores, so there is an element 2.
unfoldable pub list_user_sessions : String → Histories → List SessionEntry
list_user_sessions uid h = listed uid h

abbrev pub default_limit : ℕ
default_limit = 50

-- A connection, by its number.
abbrev pub WebSocket : Type 0
WebSocket = ℕ

-- active_connections, and the messages that have been sent.
pub record Hub : Type 0 where
  pub active : Dict String (List WebSocket)
  pub sent : List (WebSocket × Json)

-- connect
unfoldable pub connect : String → WebSocket → Hub → Hub
connect k w h = record h { active = insert k (get_or (lookup k h.active) [] ++ w ∷ []) h.active }

-- list.remove: the first that is equal
unfoldable pub remove_first : WebSocket → List WebSocket → List WebSocket
remove_first w [] = []
remove_first w (x ∷ xs) = if x == w then xs else x ∷ remove_first w xs

abbrev pub put_back :
    String → List WebSocket → Dict String (List WebSocket) → Dict String (List WebSocket)
put_back k [] d = remove k d
put_back k (x ∷ xs) d = insert k (x ∷ xs) d

abbrev pub disconnect_from :
    String → WebSocket → Hub → Option (List WebSocket) → Result String (Unit {0}) × Hub
disconnect_from k w h none = (ok tt, h)
disconnect_from k w h (some ws) =
    if contains w ws
    then (ok tt, record h { active = put_back k (remove_first w ws) h.active })
    else (err "list.remove(x): x not in list", h)

-- disconnect
unfoldable pub disconnect : String → WebSocket → Hub → Result String (Unit {0}) × Hub
disconnect k w h = disconnect_from k w h (lookup k h.active)

-- One connection after the other; `works` tells whose `send_text` does not raise.
unfoldable pub send_to : (WebSocket → Bool) → Json → List WebSocket → Hub → Hub
send_to works m [] h = h
send_to works m (w ∷ ws) h =
    send_to works m ws (if works w then record h { sent = h.sent ++ (w, m) ∷ [] } else h)

-- broadcast_to_session
unfoldable pub broadcast_to_session : (WebSocket → Bool) → String → Json → Hub → Hub
broadcast_to_session works k m h = send_to works m (get_or (lookup k h.active) []) h

abbrev pub all_sockets : Dict String (List WebSocket) → List WebSocket
all_sockets [] = []
all_sockets ((k, ws) ∷ d) = ws ++ all_sockets d

-- broadcast_global
unfoldable pub broadcast_global : (WebSocket → Bool) → Json → Hub → Hub
broadcast_global works m h = send_to works m (all_sockets h.active) h
