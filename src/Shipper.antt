-- ===== src/Shipper.antt =====
-- src/cluster/shipper.py: entries of the local ledger are copied to a Redis stream in batches, behind a
-- cursor that is kept in memory and in a checkpoint file. Redis is the argument `Delivery` of a batch.
pub mod Batches
pub mod Coverage
pub mod Skipping
mod Examples
use ops_sentry.Prelude.{
  ℕ, zero, suc, ◌+◌, ◌-◌, ◌^◌, ◌*◌, min, String, Bool, true, false, Option, none, some, List, [],
  ◌∷◌, ◌++◌, Result, ok, err, map, take, length, get_last?, leb, if◌then◌else◌,
}
use ops_sentry.Ledger.Entry.{LedgerEntry, LedgerError, Record, to_record}
use ops_sentry.Ledger.Storage.{Table, get_incremental}

abbrev pub default_batch_size : ℕ
default_batch_size = 100

-- DEFAULT_SHIP_INTERVAL in milliseconds
abbrev pub default_ship_interval : ℕ
default_ship_interval = 1000

-- One XADD: the source id, its time, and the record.
pub record Message : Type 0 where
  pub id : String
  pub ts : ℕ
  pub body : Record

unfoldable pub payload : LedgerEntry → Message
unfolding to_record
payload e = record { id = e.id; ts = e.created_at; body = to_record e }

pub record Cursor : Type 0 where
  pub last_ts : ℕ
  pub last_id : String

abbrev pub start_cursor : Cursor
start_cursor = record { last_ts = 0; last_id = "" }

-- `memory` is `_last_ts` and `_last_id`; `file` is the checkpoint file, `none` where it is missing or
-- corrupt.
pub record Shipper : Type 0 where
  pub memory : Cursor
  pub file : Option Cursor
  pub stream : List Message

-- How `pipe.execute()` ends: all is written; or it raises, with the first n commands carried out.
pub data Delivery : Type 0 where
  delivered : Delivery
  broken : ℕ → Delivery

-- What a batch raises: from the ledger, from Redis, or from writing the checkpoint file.
pub data ShipError : Type 0 where
  ledger_error : LedgerError → ShipError
  redis_error file_error : ShipError

-- _load_checkpoint
abbrev pub cursor_of : Option Cursor → Cursor
cursor_of none = start_cursor
cursor_of (some c) = c

unfoldable pub load_checkpoint : Shipper → Cursor
load_checkpoint s = cursor_of s.file

-- A new process on the same checkpoint file: `__init__`.
unfoldable pub restart : Shipper → Shipper
unfolding load_checkpoint
restart s = record s { memory = load_checkpoint s }

-- _save_checkpoint. `writable` tells whether the file can be replaced.
unfoldable pub save_checkpoint : Bool → Cursor → ℕ → Shipper → Result ShipError ℕ × Shipper
save_checkpoint true c n s = (ok n, record s { file = some c })
save_checkpoint false c n s = (err file_error, s)

abbrev pub cursor_at : LedgerEntry → Cursor
cursor_at e = record { last_ts = e.created_at; last_id = e.id }

-- `self._last_ts, self._last_id = entries[-1]...`, and the checkpoint
unfoldable pub advance : Bool → ℕ → Option LedgerEntry → Shipper → Result ShipError ℕ × Shipper
unfolding save_checkpoint
advance writable n none s = (ok n, s)
advance writable n (some e) s =
    save_checkpoint writable (cursor_at e) n (record s { memory = cursor_at e })

-- The pipeline of XADDs, and what follows it.
unfoldable pub push : Delivery → Bool → List LedgerEntry → Shipper → Result ShipError ℕ × Shipper
unfolding advance payload
push delivered writable entries s =
    advance writable (length entries) (get_last? entries)
      (record s { stream = s.stream ++ map payload entries })
push (broken n) writable entries s =
    (err redis_error, record s { stream = s.stream ++ map payload (take n entries) })

abbrev pub ship :
    Delivery → Bool → Result LedgerError (List LedgerEntry) → Shipper → Result ShipError ℕ × Shipper
unfolding push
ship net writable (err e) s = (err (ledger_error e), s)
ship net writable (ok []) s = (ok 0, s)
ship net writable (ok (e ∷ es)) s = push net writable (e ∷ es) s

unfoldable pub ship_batch : ℕ → Table → Delivery → Bool → Shipper → Result ShipError ℕ × Shipper
unfolding push get_incremental
ship_batch batch_size t net writable s =
    ship net writable (get_incremental s.memory.last_ts s.memory.last_id batch_size t) s

-- min(60, 2 ** (consecutive_failures - 1)) seconds, in milliseconds
unfoldable pub backoff : ℕ → ℕ
backoff consecutive_failures = min 60 (2 ^ (consecutive_failures - 1)) * 1000

-- One round of `_run_loop`: the failures in a row after it, and the wait that follows.
abbrev pub after_round : ℕ → ℕ → ℕ → Result ShipError ℕ → ℕ × ℕ
unfolding backoff
after_round batch_size ship_interval failures (ok shipped) =
    (0, (if leb batch_size shipped then 100 else ship_interval))
after_round batch_size ship_interval failures (err e) = (suc failures, backoff (suc failures))

pub record Loop : Type 0 where
  pub shipper : Shipper
  pub failures : ℕ
  pub wait : ℕ

unfoldable pub run_round : ℕ → ℕ → Table → Delivery → Bool → Loop → Loop
unfolding ship_batch
run_round batch_size ship_interval t net writable l =
    let (r, s) = ship_batch batch_size t net writable l.shipper in
    let (failures, wait) = after_round batch_size ship_interval l.failures r in
    record { shipper = s; failures = failures; wait = wait }
