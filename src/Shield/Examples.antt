-- ===== src/Shield/Examples.antt =====
-- Two nodes at one resource, for the theorems about src/config_shield.py.
use ops_sentry.Prelude.{
  string_eq, ◌≡◌, refl, none, some, List, [], ◌∷◌, err, false, ◌≢◌, arith, String, ne_of_beq,
  lookup,
}
use ops_sentry.Shield.Waiting.{
  Local, Round, acquired, refused, still_waiting, acquire, is_over, deadline_of,
}
use ops_sentry.Shield.Patience.{acquire_waits, acquire_ends}
use ops_sentry.Prelude.{Bool, ℕ, List, [], ◌∷◌, ◌++◌, ◌<◌, ◌≤◌}
use ops_sentry.Shield.Files.{LockRecord}
use ops_sentry.Prelude.Texts.{is_prefix}
use ops_sentry.Shield.Redis.{RedisClient, IsRedis, redis_key, acquire_once_redis}
use ops_sentry.Prelude.{
  Option, none, some, String, Dict, insert, remove, lookup, lookup-insert, lookup-remove, ltb, ◌+◌,
  if◌then◌else◌, beq_of_ne, ◌≢◌, ap, ◌∙◌, true, false,
}
use ops_sentry.Shield.Expiry.{IsLease, play_redis, exclusion_redis}
use ops_sentry.Shield.Race.{holds, play_out, race_on, bad_schedule, two_holders}
use ops_sentry.Shield.Files.{
  effective_ttl, is_stale, Files, Config, fresh_record, acquire_once, locked_by,
}
use ops_sentry.Shield.Leases.{Event, acquires, heartbeats, releases, play, exclusion}

abbrev node_b : Config
node_b = record { node = "b"; default_ttl = 50 }

abbrev tries : List Event
tries =
    record { shield = node_b; at = 110; call = acquires "cfg" none }
    ∷ record { shield = node_b; at = 120; call = heartbeats "cfg" none }
    ∷ record { shield = node_b; at = 130; call = releases "cfg" false }
    ∷ []

b≢a : ◌≢◌ {A = String} "b" "a"
b≢a = ne_of_beq "b" "a" refl

abbrev held : Files
held = ("cfg", fresh_record "a" "cfg" 60 100) ∷ []

exclusion_example :
    acquire_once "b" "cfg" 50 140 (play tries (acquire_once "a" "cfg" 60 100 []).1)
    ≡ (err (locked_by "a"), play tries (acquire_once "a" "cfg" 60 100 []).1)
unfolding acquire_once lookup
exclusion_example =
    exclusion "a" "cfg" 60 100 [] (fresh_record "a" "cfg" 60 100) tries refl
      ((b≢a, omega arith, tt), ((b≢a, omega arith, tt), ((b≢a, omega arith, refl), tt))) "b" 50 140
      (omega arith)

abbrev lease : String → ℕ → LockRecord
lease node at = fresh_record node "cfg" 60 at

abbrev old : LockRecord → Bool
old r = is_stale r 500

two_holders_example :
    play_out old
      (lease "a" 500)
      (lease "b" 500)
      (bad_schedule old (lease "a" 500) (lease "b" 500))
      (race_on old (lease "a" 500) (lease "b" 500) (some (lease "x" 3)))
    ≡ record { file = some (lease "b" 500); one = holds; two = holds }
unfolding is_stale
two_holders_example = two_holders old (lease "a" 500) (lease "b" 500) (lease "x" 3) refl

-- A server that keeps each value with the time at which it expires.
record Slot : Type 0 where
  value : LockRecord
  expires_at : ℕ

abbrev unexpired : ℕ → Option Slot → Option LockRecord
unexpired now none = none
unexpired now (some s) = if ltb now s.expires_at then some s.value else none

abbrev set_px : ℕ → String → LockRecord → ℕ → Dict String Slot → Dict String Slot
set_px now k r ttl d = insert k (record { value = r; expires_at = now + ttl }) d

abbrev set_nx_of :
    ℕ → String → LockRecord → ℕ → Dict String Slot → Option LockRecord → Bool × Dict String Slot
set_nx_of now k r ttl d none = (true, set_px now k r ttl d)
set_nx_of now k r ttl d (some x) = (false, d)

abbrev set_xx_of :
    ℕ → String → LockRecord → ℕ → Dict String Slot → Option LockRecord → Dict String Slot
set_xx_of now k r ttl d none = d
set_xx_of now k r ttl d (some x) = set_px now k r ttl d

abbrev server : RedisClient (Dict String Slot)
server = record {
  set_nx_px = λ now k r ttl d. set_nx_of now k r ttl d (unexpired now (lookup k d));
  set_xx_px = λ now k r ttl d. set_xx_of now k r ttl d (unexpired now (lookup k d));
  get = λ now k d. unexpired now (lookup k d);
  delete = λ k d. remove k d;
}

set_px_elsewhere :
    (now t : ℕ) (k j : String) (r : LockRecord) (ttl : ℕ) (d : Dict String Slot)
    → k ≢ j
    → unexpired t (lookup j (set_px now k r ttl d)) ≡ unexpired t (lookup j d)
set_px_elsewhere now t k j r ttl d n =
    ap (unexpired t) (lookup-insert k j _ d ∙ rw (beq_of_ne k j n) refl)

server-IsRedis : IsRedis server
server-IsRedis = record {
  set_nx_there = λ now k r x ttl d h. rw h refl;
  set_nx_elsewhere = λ now t k j r ttl d n. nx now t k j r ttl d n (unexpired now (lookup k d));
  set_xx_elsewhere = λ now t k j r ttl d n. xx now t k j r ttl d n (unexpired now (lookup k d));
  delete_elsewhere =
      λ t k j d n. ap (unexpired t) (lookup-remove k j d ∙ rw (beq_of_ne k j n) refl);
}
  where
    nx :
        (now t : ℕ) (k j : String) (r : LockRecord) (ttl : ℕ) (d : Dict String Slot)
        → k ≢ j
        → (o : Option LockRecord)
        → unexpired t (lookup j (set_nx_of now k r ttl d o).1) ≡ unexpired t (lookup j d)
    nx now t k j r ttl d n none = set_px_elsewhere now t k j r ttl d n
    nx now t k j r ttl d n (some x) = refl

    xx :
        (now t : ℕ) (k j : String) (r : LockRecord) (ttl : ℕ) (d : Dict String Slot)
        → k ≢ j
        → (o : Option LockRecord)
        → unexpired t (lookup j (set_xx_of now k r ttl d o)) ≡ unexpired t (lookup j d)
    xx now t k j r ttl d n none = refl
    xx now t k j r ttl d n (some x) = set_px_elsewhere now t k j r ttl d n

abbrev store : Dict String Slot
store = ("sentry:cfg", record { value = lease "a" 100; expires_at = 160 }) ∷ []

store-IsLease : IsLease server (redis_key "sentry:cfg") (lease "a" 100) 160 store
unfolding lookup redis_key is_prefix
store-IsLease t b = ground (arith, b)

redis_example :
    acquire_once_redis server 1 "b" "sentry:cfg" 50 150 (play_redis server 0 tries store)
    ≡ (some (err (locked_by "a")), play_redis server 0 tries store)
redis_example =
    exclusion_redis server server-IsRedis 0 "sentry:cfg" (lease "a" 100) 160 tries store
      store-IsLease
      ((b≢a, omega arith, tt), ((b≢a, omega arith, tt), ((b≢a, omega arith, refl), tt))) "b" 50 150
      (omega arith)

abbrev nobody : Local
nobody = record { heartbeat_threads = []; told = [] }

abbrev attempt_at : ℕ → Round
attempt_at t = record { others = []; at = t; trouble = none; checked = t }

abbrev held_by_a : Files
held_by_a = ("cfg", lease "a" 100) ∷ []

-- The lease of `a` ends at 160; `b` waits from 110 on, up to 1110.
waits_example :
    (160 < 170
      → ((acquire node_b false "cfg" none 1000 true 110
            ((attempt_at 110 ∷ attempt_at 150 ∷ []) ++ attempt_at 170 ∷ [])
            held_by_a
            nobody).0
          ≡ acquired (fresh_record "b" "cfg" (effective_ttl node_b none) 170))
        × (lookup "cfg"
              (acquire node_b false "cfg" none 1000 true 110
                ((attempt_at 110 ∷ attempt_at 150 ∷ []) ++ attempt_at 170 ∷ [])
                held_by_a
                nobody).1
            ≡ some (fresh_record "b" "cfg" (effective_ttl node_b none) 170)))
    × (170 ≤ 160
        → is_over (deadline_of 110 1000) 170 ≡ true
        → ((acquire node_b false "cfg" none 1000 true 110
              ((attempt_at 110 ∷ attempt_at 150 ∷ []) ++ attempt_at 170 ∷ [])
              held_by_a
              nobody).0
            ≡ refused (locked_by "a"))
          × (lookup "cfg"
                (acquire node_b false "cfg" none 1000 true 110
                  ((attempt_at 110 ∷ attempt_at 150 ∷ []) ++ attempt_at 170 ∷ [])
                  held_by_a
                  nobody).1
              ≡ some (lease "a" 100))
          × ((acquire node_b false "cfg" none 1000 true 110
                ((attempt_at 110 ∷ attempt_at 150 ∷ []) ++ attempt_at 170 ∷ [])
                held_by_a
                nobody).2
              ≡ nobody))
unfolding lookup deadline_of
waits_example =
    acquire_waits node_b false "cfg" none 1000 true 110 (lease "a" 100)
      (attempt_at 110 ∷ attempt_at 150 ∷ []) (attempt_at 170) [] held_by_a nobody refl
      ((tt, omega arith, refl, tt), ((tt, omega arith, refl, tt), tt)) tt refl

ends_example :
    (acquire node_b false "cfg" none 1000 true 110
      (attempt_at 110 ∷ attempt_at 1110 ∷ [])
      held_by_a
      nobody).0
    ≢ still_waiting
unfolding deadline_of
ends_example =
    acquire_ends node_b false "cfg" none 1000 true 110 (attempt_at 110 ∷ attempt_at 1110 ∷ [])
      held_by_a nobody refl
