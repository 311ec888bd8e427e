-- ===== src/Evolution/Cases.antt =====
-- What src/evolution_manager.py records of a case.
use ops_sentry.Prelude.{
  string_eq, nat_eq, String, ◌≡◌, refl, ap, ◌∙◌, true, false, not, ◌==◌, if◌then◌else◌, eq_iff,
  some, Dict, insert, lookup, lookup-insert, Bool-cases, Option-cases, inl, inr, beq_self,
}
use ops_sentry.Prelude.Texts.{◌+++◌, contains_text, show_number}
use ops_sentry.Ledger.Entry.{LedgerEntry}
use ops_sentry.Evolution.Replacing.{
  contains_text-append, contains_text-behind, contains_text-replace_text,
}
use ops_sentry.Evolution.{
  Rendering, studies, summary_or, new_case, with_case, merge_over, merge_into_runbook,
}

-- The new text has the id of the entry.
contains_text-with_case :
    (r : Rendering) (e : LedgerEntry) (content : String)
    → contains_text e.id (with_case content (new_case r e)) ≡ true
unfolding with_case new_case
contains_text-with_case r e content = elim (Bool-cases (contains_text studies content)) [
  | inl p ↦ rw p (
      contains_text-replace_text e.id studies (studies +++ new_case r e) content
        (contains_text-behind e.id studies (new_case r e) in_case) refl p)
  | inr q ↦ rw q (
      contains_text-behind e.id content ("\n## Case Studies\n" +++ new_case r e)
        (contains_text-behind e.id "\n## Case Studies\n" (new_case r e) in_case))
]
  where
    in_case : contains_text e.id (new_case r e) ≡ true
    in_case = contains_text-append e.id "\n- **Case " (
        "**: "
        +++ summary_or r ("Another successful instance of " +++ e.action +++ ".")
            (lookup "summary" e.metadata)
        +++ " (Success at "
        +++ show_number e.updated_at
        +++ ")\n")

-- Merging the same entry again at once does nothing.
merge_into_runbook-merge_into_runbook :
    (r : Rendering) (path : String) (e : LedgerEntry) (files : Dict String String)
    → merge_into_runbook r path e (merge_into_runbook r path e files).1
      ≡ (false, (merge_into_runbook r path e files).1)
unfolding merge_into_runbook
merge_into_runbook-merge_into_runbook r path e files = elim (Option-cases (lookup path files)) [
  | inl n ↦ rw (n, n) refl
  | inr (content, f) ↦ elim (Bool-cases (contains_text e.id content)) [
    | inl p ↦ rw (f, p, f, p) refl
    | inr q ↦
        rw (f, q)
          (ap (merge_over r path e (insert path (with_case content (new_case r e)) files))
              {y = some (with_case content (new_case r e))}
              (lookup-insert path path (with_case content (new_case r e)) files
                ∙ rw (beq_self path) refl)
            ∙ rw (contains_text-with_case r e content) refl)
  ]
]

-- The text of a runbook behind a merge.
abbrev pub merged : Rendering → LedgerEntry → String → String
merged r e content =
    if contains_text e.id content then content else with_case content (new_case r e)

contains_text-merged :
    (r : Rendering) (e : LedgerEntry) (content : String)
    → contains_text e.id (merged r e content) ≡ true
contains_text-merged r e content = elim (Bool-cases (contains_text e.id content)) [
  | inl p ↦ rw (p, p) refl
  | inr q ↦ rw q (contains_text-with_case r e content)
]

-- Merging an entry into a runbook that exists: it is done just where the text does not have the entry's id yet; the text has
-- it afterwards, and no other file changes; and merging the same entry again at once does nothing.
pub merge_into_runbook_lem :
    (r : Rendering) (path : String) (e : LedgerEntry) (files : Dict String String)
    (content k : String)
    → lookup path files ≡ some content
    → ((merge_into_runbook r path e files).0 ≡ not (contains_text e.id content))
      × (contains_text e.id (merged r e content) ≡ true)
      × (lookup k (merge_into_runbook r path e files).1
          ≡ (if path == k then some (merged r e content) else lookup k files))
      × (merge_into_runbook r path e (merge_into_runbook r path e files).1
          ≡ (false, (merge_into_runbook r path e files).1))
unfolding merge_into_runbook
merge_into_runbook_lem r path e files content k f = (
  elim (Bool-cases (contains_text e.id content)) [
    | inl p ↦ rw (f, p) refl
    | inr q ↦ rw (f, q) refl
  ],
  contains_text-merged r e content,
  elim (Bool-cases (contains_text e.id content)) [
    | inl p ↦
        rw (f, p)
          (elim (Bool-cases (path == k)) [
            | inl s ↦ rw (s, ← (eq_iff path k).0 s, f) refl
            | inr n ↦ rw n refl
          ])
    | inr q ↦ rw (f, q) (lookup-insert path k (with_case content (new_case r e)) files)
  ],
  merge_into_runbook-merge_into_runbook r path e files,
)
