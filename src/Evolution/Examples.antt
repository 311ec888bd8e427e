-- ===== src/Evolution/Examples.antt =====
-- A runbook and a completed entry, for the theorem about src/evolution_manager.py.
use ops_sentry.Prelude.{
  string_eq, String, ◌≡◌, refl, Bool, true, not, ◌==◌, lookup, if◌then◌else◌, some, false, none, [],
  ◌∷◌, Dict,
}
use ops_sentry.Prelude.Texts.{contains_text}
use ops_sentry.Prelude.Json.{Json}
use ops_sentry.Ledger.Entry.{LedgerEntry}
use ops_sentry.Evolution.{Rendering, merge_into_runbook}
use ops_sentry.Evolution.Cases.{merged, merge_into_runbook_lem}

abbrev rendering : Rendering
rendering = record { show = λ j. "x"; dump = λ d. "{}"; listing = λ d. [] }

abbrev cleaned : LedgerEntry
cleaned = record {
  id = "e-1";
  action = "clean_disk";
  status = "completed";
  checkpoint = ("steps", Json.null) ∷ [];
  created_at = 1;
  updated_at = 2;
  accio_ref = none;
  metadata = [];
  last_error = none;
}

abbrev runbook_path : String
runbook_path = "evolved/clean.md"

abbrev runbooks : Dict String String
runbooks = (runbook_path, "## Runbook: Clean Disk\n\n## Case Studies\n- **Case e-0**: done\n") ∷ []

abbrev old_text : String
old_text = "## Runbook: Clean Disk\n\n## Case Studies\n- **Case e-0**: done\n"

abbrev once : Bool × Dict String String
once = merge_into_runbook rendering runbook_path cleaned runbooks

merge_example :
    (once.0 ≡ not (contains_text "e-1" old_text))
    × (contains_text "e-1" (merged rendering cleaned old_text) ≡ true)
    × (lookup runbook_path once.1 ≡ (
        if runbook_path == runbook_path
        then some (merged rendering cleaned old_text)
        else lookup runbook_path runbooks))
    × (merge_into_runbook rendering runbook_path cleaned once.1 ≡ (false, once.1))
unfolding lookup
merge_example =
    merge_into_runbook_lem rendering runbook_path cleaned runbooks old_text runbook_path refl
