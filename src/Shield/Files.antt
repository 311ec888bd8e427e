-- ===== src/Shield/Files.antt =====
-- The lock files of src/config_shield.py, each operation carried out without interruption. A lock file is
-- named by the SHA-256 of its resource, so the files are a dict by resource.
use ops_sentry.Prelude.{
  string_eq, nat_eq, ℕ, ◌+◌, String, Bool, not, ◌&&◌, Option, none, some, Dict, Result, ok, err,
  lookup, insert, remove, ltb, ◌==◌, if◌then◌else◌,
}

pub record LockRecord : Type 0 where
  pub node_id : String
  pub resource_path : String
  pub acquired_at : ℕ
  pub ttl_ms : ℕ
  pub heartbeat_at : ℕ

abbrev pub Files : Type 0
Files = Dict String LockRecord

-- The LockAcquisitionErrors, by their messages.
pub data LockError : Type 0 where
  locked_by : String → LockError
  lost_race : LockError
  lock_not_found : LockError
  owned_by_another : LockError

-- A shield's own settings: `node_id`, and `ttl_ms` where none is given.
pub record Config : Type 0 where
  pub node : String
  pub default_ttl : ℕ

-- `ttl_ms or self.ttl_ms`
unfoldable pub effective_ttl : Config → Option ℕ → ℕ
effective_ttl c none = c.default_ttl
effective_ttl c (some n) = if n == 0 then c.default_ttl else n

-- now - record.heartbeat_at > record.ttl_ms
unfoldable pub is_stale : LockRecord → ℕ → Bool
is_stale r now = ltb (r.heartbeat_at + r.ttl_ms) now

abbrev pub fresh_record : String → String → ℕ → ℕ → LockRecord
fresh_record node path ttl now = record {
  node_id = node;
  resource_path = path;
  acquired_at = now;
  ttl_ms = ttl;
  heartbeat_at = now;
}

abbrev pub read_back : LockRecord → Files → Option LockRecord → Result LockError LockRecord × Files
read_back r files none = (err lost_race, files)
read_back r files (some verified) =
    if verified.node_id == r.node_id then (ok verified, files) else (err lost_race, files)

-- The steps after a stale file was found: rename it away, create the file anew, read it back.
unfoldable pub reclaim : LockRecord → Files → Result LockError LockRecord × Files
reclaim r files =
    let created = insert r.resource_path r (remove r.resource_path files) in
    read_back r created (lookup r.resource_path created)

-- O_CREAT | O_EXCL fails where the file is there.
abbrev pub acquire_over :
    LockRecord → ℕ → Files → Option LockRecord → Result LockError LockRecord × Files
unfolding reclaim is_stale
acquire_over r now files none = (ok r, insert r.resource_path r files)
acquire_over r now files (some existing) =
    if is_stale existing now then reclaim r files else (err (locked_by existing.node_id), files)

unfoldable pub acquire_once : String → String → ℕ → ℕ → Files → Result LockError LockRecord × Files
unfolding reclaim is_stale
acquire_once node path ttl now files =
    acquire_over (fresh_record node path ttl now) now files (lookup path files)

abbrev pub refreshed : String → String → ℕ → ℕ → LockRecord → LockRecord
refreshed node path ttl now r = record {
  node_id = node;
  resource_path = path;
  acquired_at = r.acquired_at;
  ttl_ms = ttl;
  heartbeat_at = now;
}

abbrev pub heartbeat_over :
    String → String → ℕ → ℕ → Files → Option LockRecord → Result LockError LockRecord × Files
unfolding is_stale
heartbeat_over node path ttl now files none = (err lock_not_found, files)
heartbeat_over node path ttl now files (some r) =
    if not (r.node_id == node) && not (is_stale r now)
    then (err owned_by_another, files)
    else (ok (refreshed node path ttl now r), insert path (refreshed node path ttl now r) files)

-- The file branch of `heartbeat`.
unfoldable pub heartbeat :
    Config → String → Option ℕ → ℕ → Files → Result LockError LockRecord × Files
unfolding effective_ttl is_stale
heartbeat c path ttl now files =
    heartbeat_over c.node path (effective_ttl c ttl) now files (lookup path files)

abbrev pub release_over :
    String → String → Bool → ℕ → Files → Option LockRecord → Result LockError (Unit {0}) × Files
unfolding is_stale
release_over node path force now files none = (ok tt, files)
release_over node path force now files (some r) =
    if not force && (not (r.node_id == node) && not (is_stale r now))
    then (err owned_by_another, files)
    else (ok tt, remove path files)

-- The file branch of `release`.
unfoldable pub release : Config → String → Bool → ℕ → Files → Result LockError (Unit {0}) × Files
unfolding is_stale
release c path force now files = release_over c.node path force now files (lookup path files)

-- The file branch of `inspect`.
unfoldable pub inspect : String → Files → Option LockRecord
inspect path files = lookup path files
