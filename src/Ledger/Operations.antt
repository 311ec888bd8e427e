-- ===== src/Ledger/Operations.antt =====
-- src/ops_ledger.py: the operations of `OpsLedger` over a storage table.
use ops_sentry.Prelude.{
  string_eq, Bool, true, false, ℕ, String, Option, none, some, List, [], ◌∷◌, ◌++◌, Dict, Result,
  ok, err, ◌==◌, contains, if◌then◌else◌,
}
use ops_sentry.Prelude.Action.{Action, return, raise, read, ◌>>=◌, ◌>>◌}
use ops_sentry.Prelude.Json.{Json}
use ops_sentry.Ledger.Entry.{
  LedgerEntry, LedgerError, not_found, unsupported_status, duplicate_id, invalid_transition,
  cannot_checkpoint, valid_statuses, valid_transitions, get_or,
}
use ops_sentry.Ledger.Storage
use ops_sentry.Ledger.Storage.{
  Table, Assignment, set_status, set_updated_at, set_checkpoint, set_last_error,
}

abbrev pub Op : Type 0 → Type 0
Op A = Action Table LedgerError A

-- self.storage.append(entry)
unfoldable pub store : LedgerEntry → Op (Unit {0})
unfolding Storage.append
store e t = elim (Storage.append e t) [ ok t' ↦ (ok tt, t') | err x ↦ (err x, t) ]

abbrev or_not_found : String → Option LedgerEntry → Result LedgerError LedgerEntry
or_not_found k none = err (not_found k)
or_not_found k (some e) = ok e

unfoldable pub get_entry : String → Op LedgerEntry
unfolding Storage.get
get_entry k = do found ← read (Storage.get k); read (λ _. or_not_found k found)

-- Python's `entry_id or str(uuid.uuid4())`
unfoldable pub identifier_of : Option String → String → String
identifier_of none fresh = fresh
identifier_of (some k) fresh = if k == "" then fresh else k

-- The keyword arguments of `create_entry`.
pub record Options : Type 0 where
  pub entry_id : Option String
  pub accio_ref : Option String
  pub checkpoint : Option (Dict String Json)
  pub metadata : Option (Dict String Json)

abbrev refuse_duplicate : String → Option LedgerEntry → Op (Unit {0})
refuse_duplicate k none = return tt
refuse_duplicate k (some e) = raise (duplicate_id k)

abbrev pub pending_entry : String → String → Options → ℕ → ℕ → LedgerEntry
pending_entry k action o created updated = record {
  id = k;
  action = action;
  status = "pending";
  checkpoint = get_or o.checkpoint [];
  created_at = created;
  updated_at = updated;
  accio_ref = o.accio_ref;
  metadata = get_or o.metadata [];
  last_error = none;
}

-- `fresh` is the uuid, `created` and `updated` are the clock's values.
unfoldable pub create_entry : String → Options → String → ℕ → ℕ → Op LedgerEntry
unfolding store get_entry identifier_of Storage.get
create_entry action o fresh created updated = do
  let k = identifier_of o.entry_id fresh
  found ← read (Storage.get k)
  refuse_duplicate k found
  store (pending_entry k action o created updated)
  get_entry k

unfoldable pub list_entries : Option String → ℕ → Op (List LedgerEntry)
unfolding Storage.list_all
list_entries status limit = read (Storage.list_all status limit)

-- [old for old, news in VALID_TRANSITIONS.items() if status in news]
unfoldable pub sources : String → Dict String (List String) → List String
sources status [] = []
sources status ((old, news) ∷ d) =
    if contains status news then old ∷ sources status d else sources status d

abbrev pub allowed_old_statuses : String → List String
unfolding sources
allowed_old_statuses status = sources status valid_transitions

abbrev checkpoint_update : Option (Dict String Json) → List Assignment
checkpoint_update none = []
checkpoint_update (some c) = set_checkpoint c ∷ []

abbrev error_update : String → Option String → List Assignment
error_update status none = if status == "failed" then [] else set_last_error none ∷ []
error_update status (some e) = set_last_error (some e) ∷ []

-- the dict `updates` of `transition`
unfoldable pub transition_updates :
    String → Option (Dict String Json) → Option String → ℕ → List Assignment
transition_updates status checkpoint error now =
    set_status status
    ∷ set_updated_at now
    ∷ (checkpoint_update checkpoint ++ error_update status error)

-- What is raised where no row was changed.
abbrev refuse :
    String → (LedgerEntry → LedgerError) → Option LedgerEntry → Result LedgerError LedgerEntry
refuse k why none = err (not_found k)
refuse k why (some e) = err (why e)

unfoldable pub after_update : String → (LedgerEntry → LedgerError) → Bool → Op LedgerEntry
after_update k why true = get_entry k
after_update k why false = do found ← read (Storage.get k); read (λ _. refuse k why found)

-- `success = self.storage.update(...)`, and the two cases after it
unfoldable pub update_or_refuse :
    String → List Assignment → List String → (LedgerEntry → LedgerError) → Op LedgerEntry
update_or_refuse k updates expected why t =
    let (success, t') = Storage.update k updates expected t in after_update k why success t'

unfoldable pub transition :
    String → String → Option (Dict String Json) → Option String → ℕ → Op LedgerEntry
unfolding update_or_refuse transition_updates sources
transition k status checkpoint error now =
    if contains status valid_statuses
    then update_or_refuse k (transition_updates status checkpoint error now)
        (allowed_old_statuses status) (λ e. invalid_transition e.status status)
    else raise (unsupported_status status)

unfoldable pub mark_running : String → Option (Dict String Json) → ℕ → Op LedgerEntry
unfolding transition
mark_running k checkpoint now = transition k "running" checkpoint none now

unfoldable pub update_checkpoint : String → Dict String Json → ℕ → Op LedgerEntry
unfolding update_or_refuse
update_checkpoint k checkpoint now =
    update_or_refuse k (set_checkpoint checkpoint ∷ set_updated_at now ∷ [])
      ("pending" ∷ "running" ∷ []) (λ e. cannot_checkpoint e.status)

unfoldable pub mark_completed : String → Option (Dict String Json) → ℕ → Op LedgerEntry
unfolding transition
mark_completed k checkpoint now = transition k "completed" checkpoint none now

-- mark_failed; what its alert says is `failure_alert` of Alerts, and no failure to emit it reaches the ledger.
unfoldable pub mark_failed : String → String → Option (Dict String Json) → ℕ → Op LedgerEntry
unfolding transition
mark_failed k error checkpoint now = transition k "failed" checkpoint (some error) now

unfoldable pub delete_entry : String → Op (Unit {0})
unfolding get_entry Storage.delete
delete_entry k = get_entry k >>= λ _ t. (ok tt, Storage.delete k t)

unfoldable pub recoverable_entries : Op (List LedgerEntry)
unfolding list_entries
recoverable_entries = list_entries (some "running") 1000
