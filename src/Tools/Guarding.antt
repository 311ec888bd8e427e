-- ===== src/Tools/Guarding.antt =====
-- What reaches the sandbox through a registry of src/tool_registry.py, however its calls end.
use ops_sentry.Prelude.{
  string_eq, nat_eq, ℕ, String, ◌≡◌, refl, Bool, true, false, Option, none, some, [], ◌∷◌, Dict,
  Result, ok, err, lookup, insert, All, All-append, ◌==◌, Bool-cases, Option-cases, Result-cases,
  inl, inr,
}
use ops_sentry.Prelude.Action.{return, ◌>>=◌}
use ops_sentry.Prelude.Json.{Json}
use ops_sentry.Ledger.Operations.{create_entry, mark_running, mark_completed, mark_failed}
use ops_sentry.Ledger.Entry.{LedgerEntry, LedgerError}
use ops_sentry.Tools.Policy.{is_globally_denied, requires_approval}
use ops_sentry.Tools.Dispatch.{
  Args, Execution, Outcome, finished, raised, Reply, blocked, pending_approval, failure,
  to_audit_record, noted, sandbox_note, policy_note, show_error, World, Step, Stamps, on_ledger,
  execution_of, command_of, is_no_text, give_up, completed_or_caught, conclude, Handler,
  sandbox_handler, Registry, register_tool, new_registry, ask_sandbox, dispatch_sandbox,
  is_shell_tool, audit, is_disabled, get_tool_group, dispatch,
}

-- A command that is neither denied nor to be approved first.
abbrev pub IsHarmless : (String → Option String) → Execution → Type 0
IsHarmless resolve x =
    (is_globally_denied x.command ≡ false) × (requires_approval resolve x.command ≡ false)

-- All that the sandbox has been given is harmless.
abbrev pub IsGuarded : (String → Option String) → World → Type 0
IsGuarded resolve w = All (IsHarmless resolve) w.runs

module _ (resolve : String → Option String) where
  bind-IsGuarded :
      {A B : Type 0} (m : Step A) (f : A → Step B) (w : World)
      → IsGuarded resolve (m w).1
      → ((a : A) (v : World) → IsGuarded resolve v → IsGuarded resolve (f a v).1)
      → IsGuarded resolve ((m >>= f) w).1
  bind-IsGuarded m f w g k = elim (Result-cases (m w).0) [
    | inl (a, e) ↦ rw e (k a (m w).1 g)
    | inr (x, e) ↦ rw e g
  ]

  give_up-IsGuarded :
      (k : String) (ended : ℕ) (e : String) (w : World)
      → IsGuarded resolve w
      → IsGuarded resolve (give_up k ended e w).1
  give_up-IsGuarded k ended e w g =
      bind-IsGuarded (on_ledger (mark_failed k e none ended)) (λ _. return (failure e)) w g
        (λ a v h. h)

  conclude-IsGuarded :
      (k : String) (ended : ℕ) (o : Outcome) (w : World)
      → IsGuarded resolve w
      → IsGuarded resolve (conclude k ended o w).1
  conclude-IsGuarded k ended (raised e) w g = give_up-IsGuarded k ended e w g
  conclude-IsGuarded k ended (finished r) w g =
      by_completion (mark_completed k (some (to_audit_record r)) ended w.table).0
        (record w { table = (mark_completed k (some (to_audit_record r)) ended w.table).1 }) g
    where
      by_completion :
          (c : Result LedgerError LedgerEntry) (v : World)
          → IsGuarded resolve v
          → IsGuarded resolve (completed_or_caught k ended r c v).1
      by_completion (ok e) v h = h
      by_completion (err x) v h = give_up-IsGuarded k ended (show_error x) v h

  dispatch_sandbox-IsGuarded :
      (sandbox : Execution → Outcome) (s : Stamps) (args : Args) (w : World)
      → IsHarmless resolve (execution_of args)
      → IsGuarded resolve w
      → IsGuarded resolve (dispatch_sandbox sandbox s args w).1
  unfolding dispatch_sandbox
  dispatch_sandbox-IsGuarded sandbox s args w harmless g =
      bind-IsGuarded
        (on_ledger
          (create_entry "sandbox_exec" (noted (sandbox_note args)) s.fresh s.created s.updated))
        (started) w g
        (λ entry v h.
          bind-IsGuarded (on_ledger (mark_running entry.id none s.started)) (asked entry) v h
            (λ running x i.
              bind-IsGuarded (ask_sandbox (execution_of args)) (concluded entry) x
                (All-append (IsHarmless resolve) x.runs (execution_of args ∷ []) i (harmless, tt))
                (λ done y j.
                  conclude-IsGuarded entry.id s.ended (sandbox (execution_of args)) y j)))
    where
      concluded : LedgerEntry → Unit {0} → Step Reply
      concluded entry _ = conclude entry.id s.ended (sandbox (execution_of args))

      asked : LedgerEntry → LedgerEntry → Step Reply
      asked entry _ = ask_sandbox (execution_of args) >>= concluded entry

      started : LedgerEntry → Step Reply
      started entry = on_ledger (mark_running entry.id none s.started) >>= asked entry

  -- A registry that has no other tools than bash and process.
  abbrev pub HasShellOnly : Registry → Type 0
  HasShellOnly r =
      (n : String) (h : Handler)
      → lookup n r.handlers ≡ some h
      → (h ≡ sandbox_handler) × (is_shell_tool n ≡ true)

  noted-IsGuarded :
      (action : String) (metadata : Dict String Json) (s : Stamps) (f : LedgerEntry → Reply)
      (w : World)
      → IsGuarded resolve w
      → IsGuarded resolve
          ((on_ledger (create_entry action (noted metadata) s.fresh s.created s.updated) >>= λ e.
              return (f e))
            w).1
  noted-IsGuarded action metadata s f w g =
      bind-IsGuarded (on_ledger (create_entry action (noted metadata) s.fresh s.created s.updated))
        (λ e. return (f e)) w g (λ a v h. h)

  audit-IsGuarded :
      (r : Registry) (tool_name : String) (s : Stamps) (args : Args) (w : World)
      → r.resolve ≡ resolve
      → is_shell_tool tool_name ≡ true
      → IsGuarded resolve w
      → IsGuarded resolve (audit r tool_name s args sandbox_handler w).1
  unfolding audit
  audit-IsGuarded r tool_name s args w same shell g = elim (Bool-cases (is_no_text args.command)) [
    | inl t ↦ rw (shell, t) g
    | inr t ↦ elim (Bool-cases (is_globally_denied (command_of args.command))) [
      | inl d ↦
          rw (shell, t, d)
            (noted-IsGuarded "tool_policy_blocked"
              (policy_note tool_name (command_of args.command) "L1 Global Deny") s (λ _. blocked) w
              g)
      | inr d ↦ elim (Bool-cases (requires_approval resolve (command_of args.command))) [
        | inl a ↦
            rw (shell, t, d, same, a)
              (noted-IsGuarded "approval_required"
                (policy_note tool_name (command_of args.command) "L3 Path Approval") s
                (λ e. pending_approval e.id) w g)
        | inr a ↦ rw (shell, t, d, same, a) (dispatch_sandbox-IsGuarded r.sandbox s args w (d, a) g)
      ]
    ]
  ]

  -- A call of a registry of bash and process gives the sandbox nothing but a harmless command, if anything.
  pub dispatch-IsGuarded :
      (r : Registry) (tool_name : String) (s : Stamps) (args : Args) (w : World)
      → r.resolve ≡ resolve
      → HasShellOnly r
      → IsGuarded resolve w
      → IsGuarded resolve (dispatch r tool_name s args w).1
  unfolding dispatch
  dispatch-IsGuarded r tool_name s args w same only g =
      elim (Option-cases (lookup tool_name r.handlers)) [
        | inl n ↦ rw n g
        | inr (h, f) ↦ elim (Bool-cases (is_disabled r.enabled_groups (get_tool_group tool_name))) [
          | inl d ↦ rw (f, d) g
          | inr d ↦
              let o = only tool_name h f in
              rw (f, d, o.0) (audit-IsGuarded r tool_name s args w same o.1 g)
        ]
      ]

  pub new_registry-HasShellOnly :
      (sandbox : Execution → Outcome) (groups : Option (Dict String Bool))
      → HasShellOnly (new_registry sandbox groups resolve)
  unfolding new_registry register_tool insert lookup
  new_registry-HasShellOnly sandbox groups n h f = elim (Bool-cases ("bash" == n)) [
    | inl b ↦ (cc (rw b at f), rw b refl)
    | inr b ↦ elim (Bool-cases ("process" == n)) [
      | inl c ↦ (cc (rw (b, c) at f), rw (b, c) refl)
      | inr c ↦ cc (rw (b, c) at f)
    ]
  ]
