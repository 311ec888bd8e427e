-- ===== src/Tools/Gate.antt =====
-- The layers of `dispatch` of src/tool_registry.py for the tools bash and process.
use ops_sentry.Prelude.{
  string_eq, String, Bool, true, false, not, ◌&&◌, ◌≡◌, refl, none, some, [], ◌∷◌, ◌++◌, ◌∙◌,
  Result, ok, err, lookup, if◌then◌else◌, inl, inr, Bool-cases,
}
use ops_sentry.Ledger.Entry.{LedgerEntry}
use ops_sentry.Ledger.Storage.{find_row}
use ops_sentry.Ledger.Spec.{IsLedger, moved}
use ops_sentry.Tools.Dispatch.{
  Args, Outcome, Reply, blocked, pending_approval, World, Stamps, ToolError, disabled, type_error,
  command_of, is_no_text, sandbox_note, policy_note, execution_of, Registry, sandbox_handler, audit,
  dispatch, deny, ask_approval, is_shell_tool, is_disabled, get_tool_group,
}
use ops_sentry.Tools.Policy.{is_globally_denied, requires_approval}
use ops_sentry.Tools.Settling.{made, settled, settled_reply, create_made, dispatch_sandbox_lem}

module _ (r : Registry) (tool_name : String) (s : Stamps) (args : Args) where
  abbrev pub command : String
  command = command_of args.command

  -- The group of the tool is not switched off.
  abbrev pub is_open : Bool
  is_open = not (is_disabled r.enabled_groups (get_tool_group tool_name))

  -- Neither denied nor to be approved first.
  abbrev pub is_harmless : Bool
  is_harmless = not (is_globally_denied command) && not (requires_approval r.resolve command)

  module _ (w : World) where
    abbrev noticed : LedgerEntry → Reply → Result ToolError Reply × World
    noticed e reply = (ok reply, record w { table = w.table ++ e ∷ [] })

    abbrev ran : Outcome → Result ToolError Reply × World
    ran o = (
      ok (settled_reply o),
      record {
        table =
            w.table
            ++ settled s.ended
                (moved "running" none none s.started
                  (made "sandbox_exec" (sandbox_note args) s.fresh s.created s.updated))
                o
              ∷ [];
        runs = w.runs ++ execution_of args ∷ [];
      },
    )

    -- What a call of a tool that runs in the sandbox means, layer by layer.
    abbrev pub dispatch_outcome : Result ToolError Reply × World
    dispatch_outcome =
        if not is_open
        then (err (disabled tool_name), w)
        else if is_no_text args.command
        then (err type_error, w)
        else if is_globally_denied command
        then noticed
            (made "tool_policy_blocked" (policy_note tool_name command "L1 Global Deny") s.fresh
              s.created s.updated)
            blocked
        else if requires_approval r.resolve command
        then noticed
            (made "approval_required" (policy_note tool_name command "L3 Path Approval") s.fresh
              s.created s.updated)
            (pending_approval s.fresh)
        else ran (r.sandbox (execution_of args))

    module _ (registered : lookup tool_name r.handlers ≡ some sandbox_handler)
        (shell : is_shell_tool tool_name ≡ true) (h : IsLedger w.table)
        (new : find_row s.fresh w.table ≡ none) where
      deny_lem :
          deny tool_name s command w
          ≡ noticed
              (made "tool_policy_blocked"
                (policy_note tool_name command "L1 Global Deny")
                s.fresh
                s.created
                s.updated)
              blocked
      deny_lem =
          rw
            (create_made "tool_policy_blocked" (policy_note tool_name command "L1 Global Deny")
              s.fresh s.created s.updated w.table h new)
            refl

      ask_approval_lem :
          ask_approval tool_name s command w
          ≡ noticed
              (made "approval_required"
                (policy_note tool_name command "L3 Path Approval")
                s.fresh
                s.created
                s.updated)
              (pending_approval s.fresh)
      ask_approval_lem =
          rw
            (create_made "approval_required" (policy_note tool_name command "L3 Path Approval")
              s.fresh s.created s.updated w.table h new)
            refl

      audit_lem :
          is_disabled r.enabled_groups (get_tool_group tool_name) ≡ false
          → audit r tool_name s args sandbox_handler w ≡ dispatch_outcome
      unfolding audit
      audit_lem d = elim (Bool-cases (is_no_text args.command)) [
        | inl t ↦ rw (shell, d, t) refl
        | inr t ↦ elim (Bool-cases (is_globally_denied command)) [
          | inl a ↦ rw (shell, d, t, a) deny_lem
          | inr a ↦ elim (Bool-cases (requires_approval r.resolve command)) [
            | inl b ↦ rw (shell, d, t, a, b) ask_approval_lem
            | inr b ↦ rw (shell, d, t, a, b) (dispatch_sandbox_lem r.sandbox s args w h new)
          ]
        ]
      ]

      opened :
          is_disabled r.enabled_groups (get_tool_group tool_name) ≡ false
          → dispatch r tool_name s args w ≡ audit r tool_name s args sandbox_handler w
      unfolding dispatch
      opened d = rw (registered, d) refl

      closed :
          is_disabled r.enabled_groups (get_tool_group tool_name) ≡ true
          → dispatch r tool_name s args w ≡ (err (disabled tool_name), w)
      unfolding dispatch
      closed d = rw (registered, d) refl

      -- A call of bash or process that runs in the sandbox goes through the layers in their order. A tool whose group is
      -- switched off, and a command that is no text, raise with nothing written. A denied command, and one that waits for approval, is
      -- written down as a pending entry and not run. Any other is run once, and its entry
      -- ends as completed or failed.
      pub dispatch-eq-dispatch_outcome : dispatch r tool_name s args w ≡ dispatch_outcome
      dispatch-eq-dispatch_outcome =
          elim (Bool-cases (is_disabled r.enabled_groups (get_tool_group tool_name))) [
            | inl d ↦ closed d ∙ rw d refl
            | inr d ↦ opened d ∙ audit_lem d
          ]
