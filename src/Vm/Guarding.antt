-- ===== src/Vm/Guarding.antt =====
-- What reaches the sandbox through a chat of src/agent_vm.py.
use ops_sentry.Prelude.{
  ℕ, zero, suc, String, ◌≡◌, refl, Option, List, [], ◌∷◌, Result, ok, err, List-cases, Result-cases,
  inl, inr,
}
use ops_sentry.Ledger.Entry.{get_or}
use ops_sentry.Tools.Dispatch.{Reply, ToolError, World, dispatch}
use ops_sentry.Tools.Guarding.{IsGuarded, HasShellOnly, dispatch-IsGuarded}
use ops_sentry.Vm.{
  ToolCall, ChatMessage, Machine, Chat, tool_call, emitted, no_args, observed, run_call, run_calls,
  noted_answer, ask_model, receive, think, max_loops, chat,
}

module _ (resolve : String → Option String) (m : Machine) (same : m.registry.resolve ≡ resolve)
    (only : HasShellOnly resolve m.registry) where
  world-observed :
      (tc : ToolCall) (p : Result ToolError Reply × World) (c : Chat)
      → (observed m tc p c).1.world ≡ p.1
  world-observed tc (ok r, w) c = refl
  world-observed tc (err e, w) c = refl

  run_call-IsGuarded :
      (tc : ToolCall) (c : Chat)
      → IsGuarded resolve c.world
      → IsGuarded resolve (run_call m tc c).1.world
  unfolding run_call
  run_call-IsGuarded tc c g =
      rw
        (world-observed tc
          (dispatch m.registry tc.name (m.draw c.world) (get_or (m.parse_args tc.arguments) no_args)
            c.world)
          (emitted (tool_call tc.name ∷ []) c))
        (dispatch-IsGuarded resolve m.registry tc.name (m.draw c.world)
          (get_or (m.parse_args tc.arguments) no_args) c.world same only g)

  run_calls-IsGuarded :
      (tcs : List ToolCall) (c : Chat)
      → IsGuarded resolve c.world
      → IsGuarded resolve (run_calls m tcs c).1.world
  unfolding run_calls
  run_calls-IsGuarded [] c g = g
  run_calls-IsGuarded (tc ∷ tcs) c g = elim (Result-cases (run_call m tc c).0) [
    | inl (u, e) ↦
        rw (e, run_calls) (run_calls-IsGuarded tcs (run_call m tc c).1 (run_call-IsGuarded tc c g))
    | inr (x, e) ↦ rw (e, run_calls) (run_call-IsGuarded tc c g)
  ]

  think-IsGuarded :
      (loops : ℕ) (c : Chat)
      → IsGuarded resolve c.world
      → IsGuarded resolve (think m loops c).1.world
  unfolding think
  think-IsGuarded zero c g = g
  think-IsGuarded (suc loops) c g = elim (Result-cases (receive (m.llm c.messages)).0) [
    | inr (x, e) ↦ rw (e, think) g
    | inl (u, e) ↦ elim (List-cases (receive (m.llm c.messages)).1.tool_calls) [
      | inl n ↦ rw (e, n, think) g
      | inr (tc, tcs, f) ↦
          elim (Result-cases
            (run_calls m (tc ∷ tcs)
              (noted_answer (receive (m.llm c.messages)).1 (ask_model m c).1)).0) [
                | inl (v, h) ↦
                    rw (e, f, h, think)
                      (think-IsGuarded loops
                        (run_calls m (tc ∷ tcs)
                          (noted_answer (receive (m.llm c.messages)).1 (ask_model m c).1)).1
                        (run_calls-IsGuarded (tc ∷ tcs)
                          (noted_answer (receive (m.llm c.messages)).1 (ask_model m c).1) g))
                | inr (x, h) ↦
                    rw (e, f, h, think)
                      (run_calls-IsGuarded (tc ∷ tcs)
                        (noted_answer (receive (m.llm c.messages)).1 (ask_model m c).1) g)
              ]
    ]
  ]

  pub chat-IsGuarded :
      (prompt : String) (history : List ChatMessage) (w : World)
      → IsGuarded resolve w
      → IsGuarded resolve (chat m prompt history w).1.world
  unfolding chat
  chat-IsGuarded prompt history w g = think-IsGuarded max_loops _ g
