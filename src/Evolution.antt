-- ===== src/Evolution.antt =====
-- src/evolution_manager.py: runbooks made and extended from the completed entries of the ledger. How values are
-- shown and dumped, and how the files of the knowledge directory are listed and cut into lines, are parameters.
pub mod Replacing
pub mod Cases
mod Examples
use Prim.Native.Char.{Char, code}
use ops_sentry.Prelude.{
  string_eq, nat_eq, ℕ, zero, suc, ◌+◌, String, Bool, true, false, not, ◌&&◌, Option, none, some,
  List, [], ◌∷◌, ◌++◌, map, Dict, insert, lookup, Result, ok, err, take, filter, length, ltb, ◌==◌,
  if◌then◌else◌,
}
use ops_sentry.Prelude.Texts.{
  take_text, ◌+++◌, chars, put, in_range, upper, lower, join, contains_text, show_number,
  replace_char,
}
use ops_sentry.Prelude.Json.{ℤ, pos, negsuc, Json, Items, Fields}
use ops_sentry.Ledger.Entry.{LedgerEntry, get_or}
use ops_sentry.Evolution.Replacing.{replace_text}
use ops_sentry.Knowledge.Chunks.{MarkdownFile}
use ops_sentry.Knowledge.Index.{Index, rebuild_index}
use ops_sentry.Knowledge.Searching.{Floats, SearchHit, search}

-- str(v) and f"{v}", json.dumps(metadata, indent=2), and the markdown files of a directory's texts.
pub record Rendering : Type 0 where
  pub show : Json → String
  pub dump : Dict String Json → String
  pub listing : Dict String String → List MarkdownFile

-- evolved_dir, and the search's settings: min_score, k1 and b.
pub record EvolutionManager (F : Type 0) : Type 0 where
  pub evolved_dir : String
  pub min_score : F
  pub k1 : F
  pub b : F

-- The files of the knowledge directory by their paths, and the index of KnowledgeCore.
pub record Library : Type 0 where
  pub files : Dict String String
  pub index : Index

abbrev pub list_items : Items → List Json
list_items Items.nil = []
list_items (Items.cons j js) = j ∷ list_items js

abbrev pub keys_of : Fields → List Json
keys_of Fields.end = []
keys_of (Fields.field k v fs) = Json.str k ∷ keys_of fs

abbrev pub letters : List Char → List Json
letters [] = []
letters (c ∷ s) = Json.str (put "" c) ∷ letters s

-- What `len` counts and a loop goes through; `none` is a TypeError.
unfoldable pub elements : Json → Option (List Json)
unfolding chars
elements (Json.arr js) = some (list_items js)
elements (Json.str s) = some (letters (chars s))
elements (Json.obj fs) = some (keys_of fs)
elements Json.null = none
elements (Json.bool b) = none
elements (Json.num n) = none

-- checkpoint.get("steps", [])
unfoldable pub steps_of : LedgerEntry → Option (List Json)
unfolding elements
steps_of e = elements (get_or (lookup "steps" e.checkpoint) (Json.arr Items.nil))

abbrev pub is_letter : Char → Bool
is_letter c = if in_range 65 90 (code c) then true else in_range 97 122 (code c)

-- s.title() on ASCII letters; `inside` tells whether the last character was one.
unfoldable pub title_over : Bool → String → String
unfolding upper lower
title_over inside String.[] = ""
title_over inside (String.◌∷◌ c s) =
    (if inside then lower (put "" c) else upper (put "" c)) +++ title_over (is_letter c) s

-- action.replace("_", " ").title()
unfoldable pub action_title : String → String
unfolding title_over replace_char
action_title action = title_over false (replace_char 95 " " action)

-- `metadata.get("summary") or default`, as it is put into a text
abbrev pub is_truthy : Json → Bool
is_truthy Json.null = false
is_truthy (Json.bool b) = b
is_truthy (Json.num n) = elim n [ pos m ↦ not (m == 0) | negsuc m ↦ true ]
is_truthy (Json.str s) = not (s == "")
is_truthy (Json.arr Items.nil) = false
is_truthy (Json.arr (Items.cons j js)) = true
is_truthy (Json.obj Fields.end) = false
is_truthy (Json.obj (Fields.field k v fs)) = true

abbrev pub summary_or : Rendering → String → Option Json → String
summary_or r default none = default
summary_or r default (some j) = if is_truthy j then r.show j else default

abbrev pub numbered : Rendering → ℕ → List Json → List String
numbered r n [] = []
numbered r n (j ∷ js) = (show_number (n + 1) +++ ". " +++ r.show j) ∷ numbered r (n + 1) js

-- RUNBOOK_TEMPLATE.format, with the texts that _create_new_runbook gives
unfoldable pub runbook_content : Rendering → LedgerEntry → List Json → String
unfolding action_title join show_number
runbook_content r e steps =
    "## Runbook: "
    +++ action_title e.action
    +++ "\npriority_score: 0.5\n\nAutomated runbook generated from successful execution of "
    +++ e.action
    +++ ".\n\n## Metadata\n- **Source Entry ID**: "
    +++ e.id
    +++ "\n- **Priority Score**: 0.5\n- **Generated At**: "
    +++ show_number e.updated_at
    +++ "\n\n## Context\n"
    +++ r.dump e.metadata
    +++ "\n\n## Execution Steps\n"
    +++ join "\n" (numbered r 0 steps)
    +++ "\n\n## Verification\nVerify that the target system state matches the desired outcome defined in the steps.\n\n## Case Studies\n- **Case "
    +++ e.id
    +++ "**: "
    +++ summary_or r ("Successfully executed " +++ e.action +++ ".") (lookup "summary" e.metadata)
    +++ "\n"

-- _create_new_runbook
unfoldable pub create_new_runbook :
    Rendering → String → LedgerEntry → List Json → Dict String String → Bool × Dict String String
unfolding runbook_content
create_new_runbook r evolved_dir e steps files = (
  true,
  insert (evolved_dir +++ "/" +++ e.action +++ "_" +++ take_text 8 e.id +++ ".md")
      (runbook_content r e steps) files,
)

-- CASE_STUDY_TEMPLATE.format
unfoldable pub new_case : Rendering → LedgerEntry → String
unfolding show_number
new_case r e =
    "\n- **Case "
    +++ e.id
    +++ "**: "
    +++ summary_or r ("Another successful instance of " +++ e.action +++ ".")
        (lookup "summary" e.metadata)
    +++ " (Success at "
    +++ show_number e.updated_at
    +++ ")\n"

abbrev pub studies : String
studies = "## Case Studies"

unfoldable pub with_case : String → String → String
unfolding contains_text replace_text
with_case content case_text =
    if contains_text studies content
    then replace_text studies (studies +++ case_text) content
    else content +++ "\n## Case Studies\n" +++ case_text

abbrev pub merge_over :
    Rendering
    → String
    → LedgerEntry
    → Dict String String
    → Option String
    → Bool × Dict String String
unfolding with_case new_case contains_text
merge_over r path e files none = (false, files)
merge_over r path e files (some content) =
    if contains_text e.id content
    then (false, files)
    else (true, insert path (with_case content (new_case r e)) files)

-- _merge_into_runbook, into the file of the hit
unfoldable pub merge_into_runbook :
    Rendering → String → LedgerEntry → Dict String String → Bool × Dict String String
unfolding with_case new_case contains_text
merge_into_runbook r path e files = merge_over r path e files (lookup path files)

module _ {F : Type 0} (fl : Floats F) (r : Rendering) (m : EvolutionManager F) where
  -- The first hit whose heading has the action's title and whose score is above the least one.
  unfoldable pub target_hit : String → List (SearchHit fl) → Option (SearchHit fl)
  unfolding contains_text
  target_hit action_title [] = none
  target_hit action_title (h ∷ hits) =
      let later = target_hit action_title hits in
      if contains_text action_title h.chunk.heading && fl.lt m.min_score h.score
      then some h
      else later

  abbrev pub query_of : LedgerEntry → String
  unfolding join
  query_of e = e.action +++ " " +++ join " " (map (λ kv. r.show kv.1) e.metadata)

  abbrev pub process_over :
      LedgerEntry
      → List Json
      → Dict String String
      → Option (SearchHit fl)
      → Bool × Dict String String
  unfolding merge_into_runbook create_new_runbook
  process_over e steps files none = create_new_runbook r m.evolved_dir e steps files
  process_over e steps files (some h) = merge_into_runbook r h.chunk.source_path e files

  -- _process_entry
  unfoldable pub process_entry :
      LedgerEntry → List Json → Index → Dict String String → Bool × Dict String String
  unfolding target_hit search action_title
  process_entry e steps index files =
      process_over e steps files
        (target_hit (action_title e.action) (search fl (query_of e) 5 m.k1 m.b index))

  -- The entries with more than one step, with their steps; `none` is a TypeError.
  unfoldable pub meaningful : List LedgerEntry → Option (List (LedgerEntry × List Json))
  unfolding steps_of
  meaningful [] = some []
  meaningful (e ∷ es) =
      let rest = meaningful es in
      if length e.checkpoint == 0
      then rest
      else elim (steps_of e) as (λ _. Option (List (LedgerEntry × List Json))) [
        | none ↦ none
        | some steps ↦ elim rest as (λ _. Option (List (LedgerEntry × List Json))) [
          | none ↦ none
          | some found ↦ some (if ltb 1 (length steps) then (e, steps) ∷ found else found)
        ]
      ]

  -- The loop: how many were processed, and the files.
  unfoldable pub process_all :
      List (LedgerEntry × List Json) → Index → Dict String String → ℕ × Dict String String
  unfolding process_entry
  process_all [] index files = (0, files)
  process_all ((e, steps) ∷ es) index files =
      let done = process_entry e steps index files in
      let rest = process_all es index done.1 in ((if done.0 then suc rest.0 else rest.0), rest.1)

  abbrev pub evolve_over :
      ℕ → Library → Option (List (LedgerEntry × List Json)) → Option ℕ × Library
  unfolding process_all rebuild_index
  evolve_over limit lib none = (none, lib)
  evolve_over limit lib (some es) =
      let done = process_all (take limit es) lib.index lib.files in
      (
        some done.0,
        record {
          files = done.1;
          index = if done.0 == 0 then lib.index else rebuild_index (r.listing done.1);
        },
      )

  -- evolve_step, over the completed entries that the ledger lists
  unfoldable pub evolve_step : ℕ → List LedgerEntry → Library → Option ℕ × Library
  unfolding meaningful process_all rebuild_index
  evolve_step limit entries lib = evolve_over limit lib (meaningful entries)
