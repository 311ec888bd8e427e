-- ===== src/Shield/Expiry.antt =====
-- What a key in Redis protects of src/config_shield.py, and until when.
use ops_sentry.Prelude.{
  string_eq, nat_eq, ℕ, Bool, true, false, Result, zero, suc, ◌<◌, String, ◌≡◌, ◌≢◌, refl, true,
  false, Option, none, some, List, [], ◌∷◌, err, ◌==◌, eq_iff, beq_of_ne, ne_of_beq, All, ◌∙◌, sym,
  subst, Bool-cases, inl, inr,
}
use ops_sentry.Shield.Files.{
  LockRecord, LockError, refreshed, Config, locked_by, fresh_record, effective_ttl,
}
use ops_sentry.Shield.Leases.{Call, acquires, heartbeats, releases, Event, IsPolite}
use ops_sentry.Shield.Redis.{
  RedisClient, IsRedis, redis_key, acquire_reply, taken_reply, acquire_once_redis,
  heartbeat_redis_over, heartbeat_redis, release_redis_over, release_redis,
}

-- What is read at a key until a time.
abbrev pub IsLease : {S : Type 0} → RedisClient S → String → LockRecord → ℕ → S → Type 0
IsLease client k r until store = (t : ℕ) → t < until → client.get t k store ≡ some r

-- A call of another node before that time, that forces nothing.
abbrev pub IsOther : LockRecord → ℕ → Event → Type 0
IsOther r until e = (e.shield.node ≢ r.node_id) × (e.at < until) × IsPolite e.call

module _ {S : Type 0} (client : RedisClient S) (fuel : ℕ) where
  unfoldable pub dispatch_redis : Config → ℕ → Call → S → S
  dispatch_redis c now (acquires path ttl) store =
      (acquire_once_redis client fuel c.node path (effective_ttl c ttl) now store).1
  dispatch_redis c now (heartbeats path ttl) store = (heartbeat_redis client c path ttl now store).1
  dispatch_redis c now (releases path force) store = (release_redis client c path force now store).1

  unfoldable pub play_redis : List Event → S → S
  play_redis [] store = store
  play_redis (e ∷ es) store = play_redis es (dispatch_redis e.shield e.at e.call store)

module _ {S : Type 0} (client : RedisClient S) (laws : IsRedis client) (k : String) (r : LockRecord)
    (until now : ℕ) (l : now < until) where
  -- An attempt at the key itself finds the lease.
  reply_held :
      (x : LockRecord) (ttl : ℕ) (again : S → Option (Result LockError LockRecord) × S) (store : S)
      → IsLease client k r until store
      → acquire_reply client now k x again (client.set_nx_px now k x ttl store)
        ≡ (some (err (locked_by r.node_id)), store)
  reply_held x ttl again store held =
      rw (laws.set_nx_there now k x r ttl store (held now l), acquire_reply, held now l) refl

  acquire_held :
      (fuel : ℕ) (node path : String) (ttl : ℕ) (store : S)
      → redis_key path ≡ k
      → IsLease client k r until store
      → acquire_once_redis client (suc fuel) node path ttl now store
        ≡ (some (err (locked_by r.node_id)), store)
  unfolding acquire_once_redis
  acquire_held fuel node path ttl store e held =
      subst
        (λ q.
          acquire_reply client now q (fresh_record node path ttl now)
            (acquire_once_redis client fuel node path ttl now)
            (client.set_nx_px now q (fresh_record node path ttl now) ttl store)
          ≡ (some (err (locked_by r.node_id)), store))
        (sym e)
        (reply_held (fresh_record node path ttl now) ttl
          (acquire_once_redis client fuel node path ttl now) store held)

  module _ (key : String) (again : S → Option (Result LockError LockRecord) × S)
      (keeps : (store : S)
        → IsLease client k r until store
        → IsLease client k r until (again store).1)
      (x : LockRecord) where
    get_keeps :
        (store : S) (o : Option LockRecord)
        → IsLease client k r until store
        → IsLease client k r until (taken_reply again store o).1
    get_keeps store none h = keeps store h
    get_keeps store (some existing) h = h

    reply_keeps :
        (o : Bool × S)
        → IsLease client k r until o.1
        → IsLease client k r until (acquire_reply client now key x again o).1
    reply_keeps (true, store) h = h
    reply_keeps (false, store) h = get_keeps store (client.get now key store) h

  acquire_keeps :
      (fuel : ℕ) (node path : String) (ttl : ℕ) (store : S)
      → IsLease client k r until store
      → IsLease client k r until (acquire_once_redis client fuel node path ttl now store).1
  unfolding acquire_once_redis
  acquire_keeps zero node path ttl store held = held
  acquire_keeps (suc fuel) node path ttl store held = elim (Bool-cases (redis_key path == k)) [
    | inl p ↦
        subst (λ o. IsLease client k r until o.1)
          (sym (acquire_held fuel node path ttl store ((eq_iff (redis_key path) k).0 p) held)) held
    | inr n ↦
        reply_keeps (redis_key path) (acquire_once_redis client fuel node path ttl now)
          (acquire_keeps fuel node path ttl) (fresh_record node path ttl now)
          (client.set_nx_px now (redis_key path) (fresh_record node path ttl now) ttl store)
          (λ t b.
            laws.set_nx_elsewhere now t (redis_key path) k (fresh_record node path ttl now) ttl
              store (ne_of_beq (redis_key path) k n)
            ∙ held t b)
  ]

  module _ (c : Config) (path : String) (m : c.node ≢ r.node_id) (store : S)
      (held : IsLease client k r until store) where
    -- What is read at this key, where it is the key of the lease.
    same_get : (redis_key path == k) ≡ true → client.get now (redis_key path) store ≡ some r
    same_get p =
        subst (λ q. client.get now q store ≡ some r) (sym ((eq_iff (redis_key path) k).0 p))
          (held now l)

    heartbeat_keeps :
        (ttl : Option ℕ) → IsLease client k r until (heartbeat_redis client c path ttl now store).1
    unfolding heartbeat_redis
    heartbeat_keeps ttl = elim (Bool-cases (redis_key path == k)) [
      | inl p ↦ rw (same_get p) (rw (beq_of_ne r.node_id c.node (λ e. m (sym e))) held)
      | inr n ↦ by_read n (client.get now (redis_key path) store)
    ]
      where
        by_read :
            (redis_key path == k) ≡ false
            → (o : Option LockRecord)
            → IsLease client k r until
                (heartbeat_redis_over client c.node path (effective_ttl c ttl) now store o).1
        by_read n none = held
        by_read n (some x) = elim (Bool-cases (x.node_id == c.node)) [
          | inl a ↦ rw a (λ t b.
              laws.set_xx_elsewhere now t (redis_key path) k
                (refreshed c.node path (effective_ttl c ttl) now x) (effective_ttl c ttl) store
                (ne_of_beq (redis_key path) k n)
              ∙ held t b)
          | inr a ↦ rw a held
        ]

    release_keeps : IsLease client k r until (release_redis client c path false now store).1
    unfolding release_redis
    release_keeps = elim (Bool-cases (redis_key path == k)) [
      | inl p ↦ rw (same_get p) (rw (beq_of_ne r.node_id c.node (λ e. m (sym e))) held)
      | inr n ↦ by_read n (client.get now (redis_key path) store)
    ]
      where
        by_read :
            (redis_key path == k) ≡ false
            → (o : Option LockRecord)
            → IsLease client k r until (release_redis_over client c.node path store o).1
        by_read n none = held
        by_read n (some x) = elim (Bool-cases (x.node_id == c.node)) [
          | inl a ↦ rw a (λ t b.
              laws.delete_elsewhere t (redis_key path) k store (ne_of_beq (redis_key path) k n)
              ∙ held t b)
          | inr a ↦ rw a held
        ]

  dispatch_keeps :
      (fuel : ℕ) (c : Config) (call : Call) (store : S)
      → c.node ≢ r.node_id
      → IsPolite call
      → IsLease client k r until store
      → IsLease client k r until (dispatch_redis client fuel c now call store)
  unfolding dispatch_redis
  dispatch_keeps fuel c (acquires path ttl) store m w held =
      acquire_keeps fuel c.node path (effective_ttl c ttl) store held
  dispatch_keeps fuel c (heartbeats path ttl) store m w held =
      heartbeat_keeps c path m store held ttl
  dispatch_keeps fuel c (releases path force) store m w held =
      subst (λ f. IsLease client k r until (release_redis client c path f now store).1) (sym w)
        (release_keeps c path m store held)

play_keeps :
    {S : Type 0} (client : RedisClient S) (laws : IsRedis client) (fuel : ℕ) (k : String)
    (r : LockRecord) (until : ℕ) (es : List Event) (store : S)
    → IsLease client k r until store
    → All (IsOther r until) es
    → IsLease client k r until (play_redis client fuel es store)
unfolding play_redis
play_keeps client laws fuel k r until [] store held w = held
play_keeps client laws fuel k r until (e ∷ es) store held w =
    play_keeps client laws fuel k r until es (dispatch_redis client fuel e.shield e.at e.call store)
      (dispatch_keeps client laws k r until e.at w.0.1 fuel e.shield e.call store w.0.0 w.0.2 held)
      w.1

-- A resource in Redis is held by one node at a time: as long as its key is to last, and whatever other nodes did to
-- any resource before that, each of their calls uninterrupted and none forcing a release, an uninterrupted attempt by
-- any node raises that the holder has it, and changes nothing. It does so in its first round.
pub exclusion_redis :
    {S : Type 0} (client : RedisClient S)
    → IsRedis client
    → (fuel : ℕ) (path : String) (r : LockRecord) (until : ℕ) (es : List Event) (store : S)
    → IsLease client (redis_key path) r until store
    → All (IsOther r until) es
    → (node : String) (ttl now : ℕ) → now < until
    → acquire_once_redis client (suc fuel) node path ttl now (play_redis client fuel es store)
      ≡ (some (err (locked_by r.node_id)), play_redis client fuel es store)
exclusion_redis client laws fuel path r until es store held w node ttl now l =
    acquire_held client laws (redis_key path) r until now l fuel node path ttl
      (play_redis client fuel es store) refl
      (play_keeps client laws fuel (redis_key path) r until es store held w)
