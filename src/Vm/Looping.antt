-- ===== src/Vm/Looping.antt =====
-- How long the loop of src/agent_vm.py goes on, and how it ends.
use ops_sentry.Prelude.{
  string_eq, nat_eq, ℕ, zero, suc, ◌+◌, ◌≤◌, String, ◌≡◌, refl, Bool, true, false, Option, none,
  some, List, [], ◌∷◌, ◌++◌, ◌==◌, Result, ok, err, ◌∙◌, ap, arith, length, length-append,
  if◌then◌else◌, Bool-cases, inl, inr, Result-cases, List-cases,
}
use ops_sentry.Tools.Dispatch.{World, Reply, ToolError, dispatch}
use ops_sentry.Ledger.Entry.{get_or}
use ops_sentry.Vm.{
  Answer, Chat, ChatMessage, Event, content, message, tool_call, tool_result, done, Machine,
  ToolCall, Delta, accumulate, add_content, add_calls, add_content, ask_model, receive, Stream,
  VmError, chat, emitted, empty_answer, max_loops, noted_answer, no_args, observed, run_call,
  run_calls, think, assistant_message,
}

-- The model's answers among the events, and the last one of a chat that returns.
abbrev pub is_answer : Event → Bool
is_answer (message m) = true
is_answer (content s) = false
is_answer (tool_call name) = false
is_answer (tool_result name r) = false
is_answer done = false

abbrev pub is_done : Event → Bool
is_done (message m) = false
is_done (content s) = false
is_done (tool_call name) = false
is_done (tool_result name r) = false
is_done done = true

abbrev pub count_events : (Event → Bool) → List Event → ℕ
count_events is_kind [] = 0
count_events is_kind (e ∷ es) = (if is_kind e then 1 else 0) + count_events is_kind es

-- Streaming, and running tools, yields none of the kind.
record IsQuiet (is_kind : Event → Bool) : Type 0 where
  at_content : (s : String) → is_kind (content s) ≡ false
  at_call : (name : String) → is_kind (tool_call name) ≡ false
  at_result : (name : String) (r : Reply) → is_kind (tool_result name r) ≡ false

module _ (is_kind : Event → Bool) (quiet : IsQuiet is_kind) where
  count_events-append :
      (xs ys : List Event)
      → count_events is_kind (xs ++ ys) ≡ count_events is_kind xs + count_events is_kind ys
  count_events-append [] ys = omega arith
  count_events-append (x ∷ xs) ys = omega (arith, count_events-append xs ys)

  count_events-snoc :
      (xs : List Event) (e : Event)
      → is_kind e ≡ false
      → count_events is_kind (xs ++ e ∷ []) ≡ count_events is_kind xs
  count_events-snoc xs e h = count_events-append xs (e ∷ []) ∙ rw h (omega arith)

  add_content_silent :
      (s : Option String) (a : Answer)
      → count_events is_kind (add_content s a).events ≡ count_events is_kind a.events
  add_content_silent none a = refl
  add_content_silent (some s) a = elim (Bool-cases (s == "")) [
    | inl p ↦ rw p refl
    | inr q ↦ rw q (count_events-snoc a.events (content s) (quiet.at_content s))
  ]

  accumulate_silent :
      (ds : List Delta) (raises : Option String) (a : Answer)
      → count_events is_kind (accumulate ds raises a).1.events ≡ count_events is_kind a.events
  unfolding accumulate
  accumulate_silent [] raises a = refl
  accumulate_silent (d ∷ ds) raises a =
      elim (Result-cases (add_calls d.tool_calls (add_content d.content a).tool_calls)) [
        | inl (calls, p) ↦
            rw (p, accumulate)
              (accumulate_silent ds raises (record (add_content d.content a) { tool_calls = calls })
                ∙ add_content_silent d.content a)
        | inr (e, p) ↦ rw (p, accumulate) (add_content_silent d.content a)
      ]

  abbrev counted : Chat → ℕ
  counted c = count_events is_kind c.events

  observed_silent :
      (m : Machine) (tc : ToolCall) (r : Result ToolError Reply × World) (c : Chat)
      → counted (observed m tc r c).1 ≡ counted c
  observed_silent m tc (ok r, w) c =
      count_events-snoc c.events (tool_result tc.name r) (quiet.at_result tc.name r)
  observed_silent m tc (err e, w) c = refl

  run_call_silent :
      (m : Machine) (tc : ToolCall) (c : Chat) → counted (run_call m tc c).1 ≡ counted c
  unfolding run_call
  run_call_silent m tc c =
      observed_silent m tc
        (dispatch m.registry tc.name (m.draw c.world) (get_or (m.parse_args tc.arguments) no_args)
          c.world)
        (emitted (tool_call tc.name ∷ []) c)
      ∙ count_events-snoc c.events (tool_call tc.name) (quiet.at_call tc.name)

  run_calls_silent :
      (m : Machine) (tcs : List ToolCall) (c : Chat) → counted (run_calls m tcs c).1 ≡ counted c
  unfolding run_calls
  run_calls_silent m [] c = refl
  run_calls_silent m (tc ∷ tcs) c = elim (Result-cases (run_call m tc c).0) [
    | inl (u, p) ↦
        rw (p, run_calls) (run_calls_silent m tcs (run_call m tc c).1 ∙ run_call_silent m tc c)
    | inr (e, p) ↦ rw (p, run_calls) (run_call_silent m tc c)
  ]

  receive_silent : (s : Stream) → count_events is_kind (receive s).1.events ≡ 0
  receive_silent s = accumulate_silent s.chunks s.raises empty_answer

  counted-streamed : (s : Stream) (c : Chat) → counted (emitted (receive s).1.events c) ≡ counted c
  counted-streamed s c =
      omega (arith, count_events-append c.events (receive s).1.events, receive_silent s)

  counted-noted :
      (s : Stream) (c : Chat)
      → counted (noted_answer (receive s).1 c)
        ≡ (if is_kind (message (assistant_message (receive s).1)) then 1 else 0) + counted c
  counted-noted s c = omega (
    arith,
    count_events-append c.events
        ((receive s).1.events ++ message (assistant_message (receive s).1) ∷ []),
    count_events-append (receive s).1.events (message (assistant_message (receive s).1) ∷ []),
    receive_silent s,
  )

-- Tools ask the model nothing.
requests-run_calls :
    (m : Machine) (tcs : List ToolCall) (c : Chat) → (run_calls m tcs c).1.requests ≡ c.requests
unfolding run_calls run_call
requests-run_calls m [] c = refl
requests-run_calls m (tc ∷ tcs) c = elim (Result-cases (run_call m tc c).0) [
  | inl (u, p) ↦
      rw (p, run_calls) (requests-run_calls m tcs (run_call m tc c).1 ∙ by_reply (ran tc) c)
  | inr (e, p) ↦ rw (p, run_calls) (by_reply (ran tc) c)
]
  where
    ran : ToolCall → Result ToolError Reply × World
    ran t =
        dispatch m.registry t.name (m.draw c.world) (get_or (m.parse_args t.arguments) no_args)
          c.world

    by_reply :
        (r : Result ToolError Reply × World) (d : Chat)
        → (observed m tc r (emitted (tool_call tc.name ∷ []) d)).1.requests ≡ d.requests
    by_reply (ok r, w) d = refl
    by_reply (err e, w) d = refl

-- A chat that returns has yielded `done` last and only then; one that raises has not.
abbrev pub Ends : Result VmError (Unit {0}) → List Event → Type 0
Ends (ok u) events =
    (before : List Event) × (events ≡ before ++ done ∷ []) × (count_events is_done before ≡ 0)
Ends (err e) events = count_events is_done events ≡ 0

quiet_answer : IsQuiet is_answer
quiet_answer = record { at_content = λ s. refl; at_call = λ n. refl; at_result = λ n r. refl }

quiet_done : IsQuiet is_done
quiet_done = record { at_content = λ s. refl; at_call = λ n. refl; at_result = λ n r. refl }

-- What the rounds add to a chat.
record Rounds (loops : ℕ) (c : Chat) (r : Result VmError (Unit {0}) × Chat) : Type 0 where
  requests_bound : length r.1.requests ≤ length c.requests + loops
  answers_bound :
      count_events is_answer r.1.events + length c.requests
      ≤ count_events is_answer c.events + length r.1.requests
  ends : Ends r.0 r.1.events

module _ (m : Machine) where
  abbrev asked : Chat → Chat
  asked c = (ask_model m c).1

  length-asked : (c : Chat) → length (asked c).requests ≡ suc (length c.requests)
  length-asked c = omega (arith, length-append c.requests (c.messages ∷ []))

  abbrev noted : Chat → Chat
  noted c = noted_answer (receive (m.llm c.messages)).1 (asked c)

  answers-noted :
      (c : Chat) → count_events is_answer (noted c).events ≡ suc (count_events is_answer c.events)
  answers-noted c = omega (arith, counted-noted is_answer quiet_answer (m.llm c.messages) (asked c))

  done-noted : (c : Chat) → count_events is_done (noted c).events ≡ count_events is_done c.events
  done-noted c = omega (arith, counted-noted is_done quiet_done (m.llm c.messages) (asked c))

  think-Rounds :
      (loops : ℕ) (c : Chat) → count_events is_done c.events ≡ 0 → Rounds loops c (think m loops c)
  unfolding think
  think-Rounds zero c h = record {
    requests_bound = omega arith;
    answers_bound = omega (arith, count_events-snoc is_answer quiet_answer c.events done refl);
    ends = (c.events, refl, h);
  }
  think-Rounds (suc loops) c h =
      let s = m.llm c.messages in
      elim (Result-cases (receive s).0) [
        | inr (e, p) ↦
            rw (p, think)
              (record {
                requests_bound = omega (arith, length-asked c);
                answers_bound =
                    omega
                      (arith, length-asked c, counted-streamed is_answer quiet_answer s (asked c));
                ends = counted-streamed is_done quiet_done s (asked c) ∙ h;
              })
        | inl (u, p) ↦ elim (List-cases (receive s).1.tool_calls) [
          | inl q ↦
              rw (p, q, think)
                (record {
                  requests_bound = omega (arith, length-asked c);
                  answers_bound = omega (
                    arith,
                    length-asked c,
                    answers-noted c,
                    count_events-snoc is_answer quiet_answer (noted c).events done refl,
                  );
                  ends = ((noted c).events, refl, done-noted c ∙ h);
                })
          | inr (tc, tcs, q) ↦
              let t = run_calls m (tc ∷ tcs) (noted c) in
              let same = requests-run_calls m (tc ∷ tcs) (noted c) in
              let answered = run_calls_silent is_answer quiet_answer m (tc ∷ tcs) (noted c) in
              let undone =
                run_calls_silent is_done quiet_done m (tc ∷ tcs) (noted c) ∙ done-noted c ∙ h in
              elim (Result-cases t.0) [
                | inl (v, r) ↦
                    let next = think-Rounds loops t.1 undone in
                    rw (p, q, r, think)
                      (record {
                        requests_bound =
                            omega (arith, next.requests_bound, ap length same, length-asked c);
                        answers_bound = omega (
                          arith,
                          next.answers_bound,
                          ap length same,
                          length-asked c,
                          answered,
                          answers-noted c,
                        );
                        ends = next.ends;
                      })
                | inr (e, r) ↦
                    rw (p, q, r, think)
                      (record {
                        requests_bound = omega (arith, ap length same, length-asked c);
                        answers_bound =
                            omega
                              (arith, ap length same, length-asked c, answered, answers-noted c);
                        ends = undone;
                      })
              ]
        ]
      ]

-- Whatever the model answers and the tools do, a chat makes at most ten requests to the model, and yields no more answers
-- than that. When it returns, `done` has been yielded last and not before; when it raises, it has not been yielded.
pub chat_lem :
    (m : Machine) (prompt : String) (history : List ChatMessage) (w : World)
    → (length (chat m prompt history w).1.requests ≤ 10)
      × (count_events is_answer (chat m prompt history w).1.events
          ≤ length (chat m prompt history w).1.requests)
      × Ends (chat m prompt history w).0 (chat m prompt history w).1.events
unfolding chat
chat_lem m prompt history w =
    let r = think-Rounds m max_loops _ refl in
    (r.requests_bound, omega (arith, r.answers_bound), r.ends)
