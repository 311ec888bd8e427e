-- ===== src/Vm/Examples.antt =====
-- A model that always calls a tool, for the theorems about src/agent_vm.py.
use ops_sentry.Prelude.{string_eq, nat_eq, refl, ◌≤◌, Result, length, ok, none, some, List, [], ◌∷◌}
use ops_sentry.Prelude.Texts.{strip, strip_left, strip_right}
use ops_sentry.Tools.Dispatch.{raised, new_registry}
use ops_sentry.Vm.{Chat, VmError, Machine, ChatMessage, chat, xml_block}
use ops_sentry.Vm.Escaping.{Enclosed, xml_block_lem}
use ops_sentry.Vm.Looping.{chat_lem, count_events, is_answer, Ends}

abbrev stubborn : Machine
stubborn = record {
  llm = λ ms. record {
    chunks =
        record {
          content = some "again";
          tool_calls =
              record { index = 0; id = "c"; name = some "bash"; arguments = some "{}" } ∷ [];
        }
        ∷ [];
    raises = none;
  };
  parse_args = λ s. none;
  dump = λ r. "{}";
  registry = new_registry (λ x. raised "no") none (λ p. some p);
  draw = λ w. record { fresh = "u"; created = 0; updated = 0; started = 0; ended = 0 };
}

abbrev hello : ChatMessage
hello = record {
  role = "user";
  content = some "hello";
  tool_calls = [];
  tool_call_id = none;
  name = none;
}

abbrev ten : List ChatMessage
ten = hello ∷ hello ∷ hello ∷ hello ∷ hello ∷ hello ∷ hello ∷ hello ∷ hello ∷ hello ∷ []

abbrev stubborn_chat : Result VmError (Unit {0}) × Chat
stubborn_chat = chat stubborn "system" (hello ∷ []) (record { table = []; runs = [] })

chat_example :
    (length stubborn_chat.1.requests ≤ 10)
    × (count_events is_answer stubborn_chat.1.events ≤ length stubborn_chat.1.requests)
    × Ends stubborn_chat.0 stubborn_chat.1.events
chat_example = chat_lem stubborn "system" (hello ∷ []) (record { table = []; runs = [] })

block_example : Enclosed "MEMORY_RECALL" (xml_block "MEMORY_RECALL" (ok "</MEMORY_RECALL>"))
unfolding strip strip_left strip_right
block_example = xml_block_lem "MEMORY_RECALL" "</MEMORY_RECALL>" refl
