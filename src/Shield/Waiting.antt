-- ===== src/Shield/Waiting.antt =====
-- `acquire` and `release` of src/config_shield.py as a node calls them on its lock files: attempts until the
-- deadline, the heartbeat thread that is kept for a resource, and the callback.
use ops_sentry.Prelude.{
  string_eq, nat_eq, ℕ, ◌+◌, String, Bool, not, ◌&&◌, ◌||◌, Option, none, some, List, [], ◌∷◌, ◌++◌,
  Dict, Result, ok, err, insert, remove, lookup, has_key, leb, ◌==◌, if◌then◌else◌,
}
use ops_sentry.Shield.Files.{
  LockRecord, Files, LockError, Config, effective_ttl, acquire_once, heartbeat, release,
}
use ops_sentry.Shield.Leases.{Event, play}

-- An OSError: its winerror, 0 where it has none, and whether it is a PermissionError.
pub record OsError : Type 0 where
  pub winerror : ℕ
  pub is_permission : Bool

-- What the shield of one node knows: the resources that have a heartbeat thread, with its ttl, and what
-- on_lock_acquired was told.
pub record Local : Type 0 where
  pub heartbeat_threads : Dict String ℕ
  pub told : List (String × String)

-- What happens about one attempt: the calls of other nodes before it, its time, the OSError that it meets, and the
-- time that is read when it has failed. The sleep that follows lies between two rounds.
pub record Round : Type 0 where
  pub others : List Event
  pub at : ℕ
  pub trouble : Option OsError
  pub checked : ℕ

-- How `acquire` ends, if the rounds are enough.
pub data Waited : Type 0 where
  acquired : LockRecord → Waited
  refused : LockError → Waited
  busy : Waited
  os_raised : OsError → Waited
  still_waiting : Waited

unfoldable pub start_heartbeat : String → ℕ → Local → Local
unfolding insert lookup
start_heartbeat path ttl l =
    if has_key path l.heartbeat_threads
    then l
    else record l { heartbeat_threads = insert path ttl l.heartbeat_threads }

-- Once the lock is had.
abbrev pub had : String → String → ℕ → Bool → Local → Local
unfolding start_heartbeat
had node path ttl start l =
    let l' = if start then start_heartbeat path ttl l else l in
    record l' { told = l'.told ++ (path, node) ∷ [] }

-- winerror 5 or 32, or a PermissionError on Windows
abbrev pub is_transient : Bool → OsError → Bool
is_transient win32 e = (e.winerror == 5 || e.winerror == 32) || (e.is_permission && win32)

-- The deadline is 0 where the caller does not wait.
abbrev pub is_over : ℕ → ℕ → Bool
is_over deadline now = deadline == 0 || leb deadline now

unfoldable pub deadline_of : ℕ → ℕ → ℕ
deadline_of started wait_ms = if wait_ms == 0 then 0 else started + wait_ms

-- One attempt. An OSError is met before the lock file is created, which leaves the files as they are.
abbrev pub attempt :
    String
    → String
    → ℕ
    → Round
    → Files
    → Option OsError
    → Result OsError (Result LockError LockRecord) × Files
attempt node path ttl r files none =
    (ok (acquire_once node path ttl r.at files).0, (acquire_once node path ttl r.at files).1)
attempt node path ttl r files (some e) = (err e, files)

-- What `acquire` does after an attempt; `again` is the next turn of its loop.
abbrev pub after_attempt :
    Config
    → Bool
    → String
    → ℕ
    → ℕ
    → Bool
    → ℕ
    → Local
    → (Files → Waited × Files × Local)
    → Result OsError (Result LockError LockRecord) × Files
    → Waited × Files × Local
after_attempt c win32 path ttl deadline start checked l again (ok (ok record_had), files) =
    (acquired record_had, files, had c.node path ttl start l)
after_attempt c win32 path ttl deadline start checked l again (ok (err e), files) =
    let next = again files in if is_over deadline checked then (refused e, files, l) else next
after_attempt c win32 path ttl deadline start checked l again (err e, files) =
    let next = again files in
    if not (is_transient win32 e)
    then (os_raised e, files, l)
    else if is_over deadline checked
    then (busy, files, l)
    else next

-- The loop of `acquire` over the rounds that there are.
unfoldable pub acquire_rounds :
    Config → Bool → String → ℕ → ℕ → Bool → List Round → Files → Local → Waited × Files × Local
acquire_rounds c win32 path ttl deadline start [] files l = (still_waiting, files, l)
acquire_rounds c win32 path ttl deadline start (r ∷ rounds) files l =
    after_attempt c win32 path ttl deadline start r.checked l
      (λ files'. acquire_rounds c win32 path ttl deadline start rounds files' l)
      (attempt c.node path ttl r (play r.others files) r.trouble)

-- acquire; `started` is the time of the call.
unfoldable pub acquire :
    Config
    → Bool
    → String
    → Option ℕ
    → ℕ
    → Bool
    → ℕ
    → List Round
    → Files
    → Local
    → Waited × Files × Local
unfolding acquire_rounds
acquire c win32 path ttl wait_ms start started rounds files l =
    acquire_rounds c win32 path (effective_ttl c ttl) (deadline_of started wait_ms) start rounds
      files l

-- release, which first ends the heartbeat thread
unfoldable pub release_node :
    Config → String → Bool → ℕ → Files → Local → Result LockError (Unit {0}) × Files × Local
release_node c path force now files l = (
  (release c path force now files).0,
  (release c path force now files).1,
  record l { heartbeat_threads = remove path l.heartbeat_threads },
)

-- The heartbeat thread, at the times when its wait ends without the event being set; it ends by itself at the first
-- LockAcquisitionError.
abbrev pub beat_on : Result LockError LockRecord → Files → (Files → Files) → Files
beat_on (ok r) files again = again files
beat_on (err e) files again = files

unfoldable pub heartbeat_loop : Config → String → ℕ → List ℕ → Files → Files
heartbeat_loop c path ttl [] files = files
heartbeat_loop c path ttl (now ∷ times) files =
    beat_on (heartbeat c path (some ttl) now files).0 (heartbeat c path (some ttl) now files).1
      (heartbeat_loop c path ttl times)
