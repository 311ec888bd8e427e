-- ===== src/Shield/Redis.antt =====
-- The Redis branch of src/config_shield.py, over the four commands that it sends, each at the time of its
-- operation.
use ops_sentry.Prelude.{
  string_eq, nat_eq, ℕ, zero, suc, String, ◌≡◌, ◌≢◌, Bool, true, false, Option, none, some, Result,
  ok, err, ◌==◌, if◌then◌else◌,
}
use ops_sentry.Prelude.Texts.{◌+++◌, is_prefix}
use ops_sentry.Shield.Files.{
  LockRecord, LockError, locked_by, lock_not_found, owned_by_another, fresh_record, refreshed,
  Config, effective_ttl,
}

-- The client: SET NX PX, SET XX PX, GET and DEL on a store S of the server, at a time.
pub record RedisClient (S : Type 0) : Type 0 where
  pub set_nx_px : ℕ → String → LockRecord → ℕ → S → Bool × S
  pub set_xx_px : ℕ → String → LockRecord → ℕ → S → S
  pub get : ℕ → String → S → Option LockRecord
  pub delete : String → S → S

-- _redis_key
unfoldable pub redis_key : String → String
redis_key path = if is_prefix "sentry:" path then path else "sentry:" +++ path

-- What is read after SET NX did nothing; `again` is the call of the function by itself.
abbrev pub taken_reply :
    {S : Type 0}
    → (S → Option (Result LockError LockRecord) × S)
    → S
    → Option LockRecord
    → Option (Result LockError LockRecord) × S
taken_reply again store none = again store
taken_reply again store (some existing) = (some (err (locked_by existing.node_id)), store)

module _ {S : Type 0} (client : RedisClient S) where
  -- What is done about the reply to SET NX.
  abbrev pub acquire_reply :
      ℕ
      → String
      → LockRecord
      → (S → Option (Result LockError LockRecord) × S)
      → Bool × S
      → Option (Result LockError LockRecord) × S
  acquire_reply now key r again (true, store) = (some (ok r), store)
  acquire_reply now key r again (false, store) = taken_reply again store (client.get now key store)

  -- _acquire_once_redis; the fuel bounds the calls by itself, and `none` is that it ran out.
  unfoldable pub acquire_once_redis :
      ℕ → String → String → ℕ → ℕ → S → Option (Result LockError LockRecord) × S
  acquire_once_redis zero node path ttl now store = (none, store)
  acquire_once_redis (suc fuel) node path ttl now store =
      acquire_reply now (redis_key path) (fresh_record node path ttl now)
        (acquire_once_redis fuel node path ttl now)
        (client.set_nx_px now (redis_key path) (fresh_record node path ttl now) ttl store)

  abbrev pub heartbeat_redis_over :
      String → String → ℕ → ℕ → S → Option LockRecord → Result LockError LockRecord × S
  heartbeat_redis_over node path ttl now store none = (err lock_not_found, store)
  heartbeat_redis_over node path ttl now store (some r) =
      if r.node_id == node
      then (
        ok (refreshed node path ttl now r),
        client.set_xx_px now (redis_key path) (refreshed node path ttl now r) ttl store,
      )
      else (err owned_by_another, store)

  -- The Redis branch of `heartbeat`.
  unfoldable pub heartbeat_redis :
      Config → String → Option ℕ → ℕ → S → Result LockError LockRecord × S
  heartbeat_redis c path ttl now store =
      heartbeat_redis_over c.node path (effective_ttl c ttl) now store
        (client.get now (redis_key path) store)

  abbrev pub release_redis_over :
      String → String → S → Option LockRecord → Result LockError (Unit {0}) × S
  release_redis_over node path store none = (ok tt, store)
  release_redis_over node path store (some r) =
      if r.node_id == node
      then (ok tt, client.delete (redis_key path) store)
      else (err owned_by_another, store)

  -- The Redis branch of `release`.
  unfoldable pub release_redis : Config → String → Bool → ℕ → S → Result LockError (Unit {0}) × S
  release_redis c path force now store =
      if force
      then (ok tt, client.delete (redis_key path) store)
      else release_redis_over c.node path store (client.get now (redis_key path) store)

  -- The Redis branch of `inspect`.
  unfoldable pub inspect_redis : String → ℕ → S → Option LockRecord
  inspect_redis path now store = client.get now (redis_key path) store

  -- What Redis documents: NX does nothing to a key that is there, and a command changes what is read at its own key alone.
  pub record IsRedis : Type 0 where
    pub set_nx_there :
        (now : ℕ) (k : String) (r x : LockRecord) (ttl : ℕ) (store : S)
        → client.get now k store ≡ some x
        → client.set_nx_px now k r ttl store ≡ (false, store)
    pub set_nx_elsewhere :
        (now t : ℕ) (k j : String) (r : LockRecord) (ttl : ℕ) (store : S)
        → k ≢ j
        → client.get t j (client.set_nx_px now k r ttl store).1 ≡ client.get t j store
    pub set_xx_elsewhere :
        (now t : ℕ) (k j : String) (r : LockRecord) (ttl : ℕ) (store : S)
        → k ≢ j
        → client.get t j (client.set_xx_px now k r ttl store) ≡ client.get t j store
    pub delete_elsewhere :
        (t : ℕ) (k j : String) (store : S)
        → k ≢ j
        → client.get t j (client.delete k store) ≡ client.get t j store
