-- ===== src/Sync.antt =====
-- src/global_sync.py: a buffer of envelopes in a file that several nodes share, each use of it under a lease of
-- the shield.
pub mod Buffering
mod Examples
use ops_sentry.Prelude.{
  string_eq, ℕ, String, Bool, true, false, Option, none, some, List, [], ◌∷◌, ◌++◌, map, Result, ok,
  err, ◌>>=◌, if◌then◌else◌,
}
use ops_sentry.Prelude.Json.{ℤ, Json, Fields}
use ops_sentry.Ledger.Entry.{get_or}
use ops_sentry.Shield.Files.{LockRecord, Files, LockError, Config}
use ops_sentry.Shield.Leases.{Event, play}
use ops_sentry.Shield.Waiting.{
  OsError, Local, Round, Waited, acquired, refused, busy, os_raised, still_waiting, acquire,
  release_node,
}

pub record SyncEnvelope : Type 0 where
  pub node_id : String
  pub msg_type : String
  pub payload : Json
  pub schema_version : String
  pub ts : ℕ

-- to_record
unfoldable pub to_record : SyncEnvelope → Json
to_record e = Json.obj (
    Fields.field "schema_version" (Json.str e.schema_version) (
      Fields.field "ts" (Json.num (ℤ.pos e.ts)) (
        Fields.field "nodeId" (Json.str e.node_id) (
          Fields.field "msgType" (Json.str e.msg_type)
            (Fields.field "payload" e.payload Fields.end)))))

-- A line of the buffer's file, as `json.loads` takes it when it is stripped.
pub data Line : Type 0 where
  text : Json → Line
  empty_line : Line
  garbled : Line

-- What a call raises.
pub data SyncError : Type 0 where
  lock_error : LockError → SyncError
  lock_busy : SyncError
  os_error : OsError → SyncError
  io_error : String → SyncError
  decode_error : SyncError
  no_answer : SyncError

-- The lock files, what this node's shield knows, and the buffer's file where it is there.
pub record Shared : Type 0 where
  pub files : Files
  pub local : Local
  pub buffer : Option (List Line)

-- A SyncBuffer: its shield's settings, whether it runs on Windows, and its resource_id.
pub record SyncBuffer : Type 0 where
  pub shield : Config
  pub win32 : Bool
  pub resource_id : String

-- What happens about one call: its time, the rounds of `acquire`, the OSError that the file meets before it is changed,
-- what other nodes do before the lock is released, and when that is.
pub record Visit : Type 0 where
  pub started : ℕ
  pub rounds : List Round
  pub trouble : Option String
  pub meanwhile : List Event
  pub released_at : ℕ

-- What is done with the buffer's file: a result or an exception, and the file after it.
abbrev pub Body : Type 0 → Type 0
Body A = Option (List Line) → Result SyncError A × Option (List Line)

-- The `finally`: an exception of the release takes the place of what the body gave.
abbrev pub finally :
    {A : Type 0} → Result SyncError A → Result LockError (Unit {0}) → Result SyncError A
finally r (ok u) = r
finally r (err e) = err (lock_error e)

module _ {A : Type 0} (b : SyncBuffer) (v : Visit) (body : Body A) where
  -- The `try` and the `finally`, behind what `acquire` gave.
  abbrev pub under_lock : Option (List Line) → Waited × Files × Local → Result SyncError A × Shared
  under_lock buffer (acquired r, files, l) =
      let done = body buffer in
      let freed =
        release_node b.shield b.resource_id false v.released_at (play v.meanwhile files) l in
      (finally done.0 freed.0, record { files = freed.1; local = freed.2; buffer = done.1 })
  under_lock buffer (refused e, files, l) =
      (err (lock_error e), record { files = files; local = l; buffer = buffer })
  under_lock buffer (busy, files, l) =
      (err lock_busy, record { files = files; local = l; buffer = buffer })
  under_lock buffer (os_raised e, files, l) =
      (err (os_error e), record { files = files; local = l; buffer = buffer })
  under_lock buffer (still_waiting, files, l) =
      (err no_answer, record { files = files; local = l; buffer = buffer })

  -- A call waits 15 seconds for the lock.
  unfoldable pub with_lock : Shared → Result SyncError A × Shared
  with_lock s =
      under_lock s.buffer
        (acquire b.shield b.win32 b.resource_id none 15000 true v.started v.rounds s.files s.local)

abbrev pub write_line : Option String → SyncEnvelope → Body (Unit {0})
write_line none e file = (ok tt, some (get_or file [] ++ text (to_record e) ∷ []))
write_line (some m) e file = (err (io_error m), file)

-- append
unfoldable pub append :
    SyncBuffer → Visit → SyncEnvelope → Shared → Result SyncError (Unit {0}) × Shared
unfolding with_lock
append b v e s = with_lock b v (write_line v.trouble e) s

unfoldable pub parse_lines : List Line → Result SyncError (List Json)
parse_lines [] = ok []
parse_lines (text j ∷ lines) = parse_lines lines >>= λ js. ok (j ∷ js)
parse_lines (empty_line ∷ lines) = parse_lines lines
parse_lines (garbled ∷ lines) = err decode_error

abbrev pub read_lines : Option String → Body (List Json)
read_lines t none = (ok [], none)
read_lines none (some lines) = (parse_lines lines, some lines)
read_lines (some m) (some lines) = (err (io_error m), some lines)

-- read_all
unfoldable pub read_all : SyncBuffer → Visit → Shared → Result SyncError (List Json) × Shared
unfolding with_lock
read_all b v s = with_lock b v (read_lines v.trouble) s

abbrev pub unlink : Option String → Body (Unit {0})
unlink t none = (ok tt, none)
unlink none (some lines) = (ok tt, none)
unlink (some m) (some lines) = (err (io_error m), some lines)

-- clear
unfoldable pub clear : SyncBuffer → Visit → Shared → Result SyncError (Unit {0}) × Shared
unfolding with_lock
clear b v s = with_lock b v (unlink v.trouble) s
