-- ===== src/Sync/Examples.antt =====
-- Two nodes and their buffer, for the theorems about src/global_sync.py.
use ops_sentry.Prelude.{
  ne_of_beq, ◌≢◌, string_eq, nat_eq, ℕ, String, ◌≡◌, refl, true, false, none, some, List, [], ◌∷◌,
  ◌++◌, map, ok, err, ◌>>=◌, lookup, arith,
}
use ops_sentry.Prelude.Json.{Json}
use ops_sentry.Ledger.Entry.{get_or}
use ops_sentry.Shield.Files.{LockRecord, Config, locked_by, effective_ttl, fresh_record}
use ops_sentry.Shield.Leases.{acquires}
use ops_sentry.Shield.Waiting.{Round, deadline_of}
use ops_sentry.Sync.{
  SyncEnvelope, to_record, text, lock_error, Shared, SyncBuffer, Visit, append, parse_lines,
  read_all, clear,
}
use ops_sentry.Sync.Buffering.{IsQuiet, IsKeptOut, append_all, kept_out, read_all-append_all}

abbrev node_a : Config
node_a = record { node = "a"; default_ttl = 30000 }

abbrev node_b : Config
node_b = record { node = "b"; default_ttl = 30000 }

abbrev buffer_a : SyncBuffer
buffer_a = record { shield = node_a; win32 = false; resource_id = "sync_buffer:q" }

abbrev round_at : ℕ → Round
round_at t = record { others = []; at = t; trouble = none; checked = t }

-- While `a` writes, `b` tries once.
abbrev visit_at : ℕ → Visit
visit_at t = record {
  started = t;
  rounds = round_at t ∷ [];
  trouble = none;
  meanwhile = record { shield = node_b; at = t; call = acquires "sync_buffer:q" none } ∷ [];
  released_at = t;
}

abbrev envelope : String → SyncEnvelope
envelope m = record {
  node_id = "a";
  msg_type = m;
  payload = Json.null;
  schema_version = "1.0";
  ts = 1;
}

abbrev at_start : Shared
at_start = record {
  files = [];
  local = record { heartbeat_threads = []; told = [] };
  buffer = none;
}

abbrev written : List (Visit × SyncEnvelope)
written = (visit_at 10, envelope "x") ∷ (visit_at 20, envelope "y") ∷ []

b≢a : ◌≢◌ {A = String} "b" "a"
b≢a = ne_of_beq "b" "a" refl

quiet : (t : ℕ) → IsQuiet buffer_a (visit_at t)
unfolding effective_ttl
quiet t = record {
  first = round_at t;
  more = [];
  comes_first = refl;
  alone = refl;
  calm = refl;
  in_time = ((b≢a, omega arith, tt), tt);
}

buffer_example :
    ((read_all buffer_a (visit_at 30) (append_all buffer_a written at_start)).0 ≡ (
      parse_lines (get_or at_start.buffer []) >>= λ js.
      ok (js ++ map (λ x. to_record x.1) written)))
    × ((read_all buffer_a (visit_at 30) (append_all buffer_a written at_start)).1.buffer
        ≡ (append_all buffer_a written at_start).buffer)
    × (lookup buffer_a.resource_id
          (read_all buffer_a (visit_at 30) (append_all buffer_a written at_start)).1.files
        ≡ none)
unfolding lookup
buffer_example =
    read_all-append_all buffer_a written (visit_at 30) at_start refl
      ((quiet 10, refl), ((quiet 20, refl), tt)) (quiet 30) refl

abbrev lease_b : LockRecord
lease_b = fresh_record "b" "sync_buffer:q" 60000 0

abbrev held_by_b : Shared
held_by_b = record {
  files = ("sync_buffer:q", lease_b) ∷ [];
  local = record { heartbeat_threads = []; told = [] };
  buffer = some (text Json.null ∷ []);
}

-- One attempt in time, with a file error of Windows before it, and one after the deadline.
abbrev patient : Visit
patient = record {
  started = 100;
  rounds =
      record {
        others = [];
        at = 100;
        trouble = some (record { winerror = 32; is_permission = true });
        checked = 110;
      }
      ∷ round_at 200
      ∷ round_at 15100
      ∷ [];
  trouble = none;
  meanwhile = [];
  released_at = 15100;
}

patient-IsKeptOut : IsKeptOut buffer_a lease_b patient
unfolding deadline_of
patient-IsKeptOut = record {
  early =
      record {
        others = [];
        at = 100;
        trouble = some (record { winerror = 32; is_permission = true });
        checked = 110;
      }
      ∷ round_at 200
      ∷ [];
  last = round_at 15100;
  more = [];
  all = refl;
  waits = ((tt, omega arith, refl, refl), ((tt, omega arith, refl, tt), tt));
  foreign = tt;
  calm = refl;
  before = omega arith;
  over = refl;
}

kept_out_example :
    (((append buffer_a patient (envelope "x") held_by_b).0 ≡ err (lock_error (locked_by "b")))
      × ((append buffer_a patient (envelope "x") held_by_b).1.buffer ≡ held_by_b.buffer)
      × (lookup buffer_a.resource_id (append buffer_a patient (envelope "x") held_by_b).1.files
          ≡ some lease_b))
    × (((read_all buffer_a patient held_by_b).0 ≡ err (lock_error (locked_by "b")))
        × ((read_all buffer_a patient held_by_b).1.buffer ≡ held_by_b.buffer)
        × (lookup buffer_a.resource_id (read_all buffer_a patient held_by_b).1.files
            ≡ some lease_b))
    × (((clear buffer_a patient held_by_b).0 ≡ err (lock_error (locked_by "b")))
        × ((clear buffer_a patient held_by_b).1.buffer ≡ held_by_b.buffer)
        × (lookup buffer_a.resource_id (clear buffer_a patient held_by_b).1.files ≡ some lease_b))
unfolding lookup
kept_out_example = kept_out buffer_a lease_b patient (envelope "x") held_by_b refl patient-IsKeptOut
