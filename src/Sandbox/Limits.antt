-- ===== src/Sandbox/Limits.antt =====
-- What DirectRunner of src/sandbox.py passes on: of the environment to the process, and of its output.
use ops_sentry.Prelude.{
  string_eq, nat_eq, String, ◌≡◌, refl, ◌∙◌, none, some, List, [], ◌∷◌, Dict, lookup, insert,
  lookup-insert, contains, filter, ◌==◌, if◌then◌else◌, arith, Bool-cases, inl, inr, eq_iff,
}
use ops_sentry.Ledger.Entry.{get_or}
use ops_sentry.Sandbox.Runners.{
  Host, Request, env_whitelist, update_all, build_clean_env, shell_process,
}

lookup-update_all :
    (k : String) (d extra : Dict String String)
    → lookup k extra ≡ none
    → lookup k (update_all d extra) ≡ lookup k d
unfolding update_all lookup
lookup-update_all k d [] h = refl
lookup-update_all k d ((j, v) ∷ extra) h = elim (Bool-cases (j == k)) [
  | inl p ↦ let e : some v ≡ none = rw p at h in cc e
  | inr q ↦ lookup-update_all k (insert j v d) extra (rw q at h) ∙ lookup-insert j k v d ∙ rw q refl
]

lookup-filter :
    (k : String) (keys : List String) (d : Dict String String)
    → lookup k (filter (λ e. contains e.0 keys) d) ≡ (if contains k keys then lookup k d else none)
unfolding lookup
lookup-filter k keys [] = ground arith
lookup-filter k keys ((j, v) ∷ d) = elim (Bool-cases (contains j keys)) [
  | inl p ↦ rw p (ground (arith, eq_iff j k, p, lookup-filter k keys d))
  | inr q ↦ rw q (ground (arith, eq_iff j k, q, lookup-filter k keys d))
]

-- A variable that the caller does not pass reaches the process exactly if it is on the whitelist, and as the system has it.
pub lookup-shell_process :
    (h : Host) (q : Request) (k : String)
    → lookup k (get_or q.env []) ≡ none
    → lookup k (shell_process h q).env
      ≡ (if contains k env_whitelist then lookup k h.environ else none)
unfolding shell_process build_clean_env
lookup-shell_process h q k n =
    lookup-update_all k (filter (λ e. contains e.0 env_whitelist) h.environ) (get_or q.env []) n
    ∙ lookup-filter k env_whitelist h.environ
