-- ===== src/Ledger/Entry.antt =====
-- src/ledger_entry.py: the entry, its statuses, and the records that it is read from and written to.
use ops_sentry.Prelude.{
  string_eq, nat_eq, ℕ, String, ◌≡◌, true, Option, none, some, List, [], ◌∷◌, Dict, Result, ok, err,
  ◌>>=◌, contains, ◌==◌, if◌then◌else◌,
}
use ops_sentry.Prelude.Json.{Json}

-- LedgerEntryNotFound, the LedgerStateErrors by their messages, and what the storage and a missing key
-- raise.
pub data LedgerError : Type 0 where
  not_found : String → LedgerError
  unsupported_status : String → LedgerError
  duplicate_id : String → LedgerError
  invalid_transition : String → String → LedgerError
  cannot_checkpoint : String → LedgerError
  integrity_error : LedgerError
  key_error : String → LedgerError

abbrev pub valid_statuses : List String
valid_statuses = "pending" ∷ "running" ∷ "completed" ∷ "failed" ∷ []

abbrev pub valid_transitions : Dict String (List String)
valid_transitions =
    ("pending", "running" ∷ "failed" ∷ [])
    ∷ ("running", "completed" ∷ "failed" ∷ "pending" ∷ [])
    ∷ ("completed", [])
    ∷ ("failed", "pending" ∷ [])
    ∷ []

pub record LedgerEntry : Type 0 where
  pub id : String
  pub action : String
  pub status : String
  pub checkpoint : Dict String Json
  pub created_at : ℕ
  pub updated_at : ℕ
  pub accio_ref : Option String
  pub metadata : Dict String Json
  pub last_error : Option String

-- LedgerEntry.__post_init__
unfoldable pub post_init : LedgerEntry → Result LedgerError LedgerEntry
post_init e = if contains e.status valid_statuses then ok e else err (unsupported_status e.status)

-- A record as `json.loads` returns it: an absent key is `none`, and a JSON null of the optional fields
-- is `some none`.
pub record Record : Type 0 where
  pub id : Option String
  pub action : Option String
  pub status : Option String
  pub checkpoint : Option (Dict String Json)
  pub created_at : Option ℕ
  pub updated_at : Option ℕ
  pub accio_ref : Option (Option String)
  pub accio_task_ref : Option (Option String)
  pub metadata : Option (Dict String Json)
  pub last_error : Option (Option String)

-- record["k"]
abbrev pub require_key {ℓ} : {A : Type ℓ} → String → Option A → Result LedgerError A
require_key k none = err (key_error k)
require_key k (some a) = ok a

-- record.get("k", d)
abbrev pub get_or {ℓ} : {A : Type ℓ} → Option A → A → A
get_or none d = d
get_or (some a) d = a

-- record.get("k")
abbrev pub get_optional {ℓ} : {A : Type ℓ} → Option (Option A) → Option A
get_optional none = none
get_optional (some o) = o

-- Python's `a or b` on optional texts: the empty text is false.
unfoldable pub or_else : Option String → Option String → Option String
or_else none b = b
or_else (some s) b = if s == "" then b else some s

-- LedgerEntry.from_record. `now` is the clock's value where a default is taken.
unfoldable pub from_record : ℕ → Record → Result LedgerError LedgerEntry
unfolding or_else post_init
from_record now r = do
  id ← require_key "id" r.id
  action ← require_key "action" r.action
  post_init (record {
    id = id;
    action = action;
    status = get_or r.status "pending";
    checkpoint = get_or r.checkpoint [];
    created_at = get_or r.created_at now;
    updated_at = get_or r.updated_at now;
    accio_ref = or_else (get_optional r.accio_ref) (get_optional r.accio_task_ref);
    metadata = get_or r.metadata [];
    last_error = get_optional r.last_error;
  })

abbrev pub present : Option String → Option (Option String)
present none = none
present (some s) = some (some s)

-- LedgerEntry.to_record: the two optional fields are written only if they are set.
unfoldable pub to_record : LedgerEntry → Record
to_record e = record {
  id = some e.id;
  action = some e.action;
  status = some e.status;
  checkpoint = some e.checkpoint;
  created_at = some e.created_at;
  updated_at = some e.updated_at;
  accio_ref = present e.accio_ref;
  accio_task_ref = none;
  metadata = some e.metadata;
  last_error = present e.last_error;
}

-- An entry that survives being written and read: its status is one of the four, and its reference is
-- not the empty text.
pub record IsWellFormed (e : LedgerEntry) : Type 0 where
  pub known : contains e.status valid_statuses ≡ true
  pub referenced : or_else e.accio_ref none ≡ e.accio_ref
