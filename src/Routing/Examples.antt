-- ===== src/Routing/Examples.antt =====
-- A message with two mentions, for the theorems about src/message_router.py.
use ops_sentry.Prelude.{
  string_eq, suc, String, ◌≡◌, refl, true, List, [], ◌∷◌, ◌++◌, All, Dict, length,
}
use ops_sentry.Prelude.Texts.{chars}
use ops_sentry.Prelude.Json.{Json}
use ops_sentry.Ledger.Storage.{append, get}
use ops_sentry.Ledger.Operations.{create_entry, store, get_entry}
use ops_sentry.Agents.Profiles.{AgentProfile}
use ops_sentry.Sessions.{message}
use ops_sentry.Sessions.Histories.{lines_of}
use ops_sentry.Routing.{
  Task, Bus, Site, note, user_message, match_front, find_mentions, extract_mentions, repeated,
  route_message, run_inference,
}
use ops_sentry.Routing.Starting.{last_of, route_message_lem, run_inference_lem}

abbrev pub site : Site
site = record {
  works = λ w. true;
  stamps = λ n. record { fresh = "e-1"; created = 1; updated = 2; started = 3; ended = 4 };
  seconds = 0;
  millis = 5;
  iso = "";
}

abbrev pub bus : Bus
bus = record { table = []; histories = []; hub = record { active = []; sent = [] }; tasks = [] }

abbrev first : String
first = "@DID-0123ABCD-00000F"

abbrev second : String
second = "@DID-0123ABCD-00001F"

abbrev help : String
help = "help @DID-0123ABCD-00000F and @DID-0123ABCD-00001F"

routed_example :
    (t : Task) × ((route_message site 0 "u" "s1" "x" help bus).1.tasks
      ≡ [] ++ repeated (suc (length (second ∷ []))) t)
    × (t.uid ≡ "u")
    × (t.did ≡ last_of first (second ∷ []))
    × (t.session_id ≡ "s1")
    × (lines_of "s1" (route_message site 0 "u" "s1" "x" help bus).1.histories
        ≡ lines_of "s1" [] ++ repeated (suc (length (second ∷ []))) (message (user_message help)))
unfolding extract_mentions find_mentions match_front chars route_message note create_entry store
    get_entry append get
routed_example = route_message_lem site 0 "u" "s1" "x" help first (second ∷ []) bus refl refl refl

abbrev chatty : AgentProfile → List Json → List (Dict String Json)
chatty profile history = (("type", Json.str "content") ∷ []) ∷ []

quiet_example :
    (started : List Task) × ((route_message site 0 "u" "s1" "x" help bus).1.tasks ≡ [] ++ started)
    × All (λ t. (b : Bus) → run_inference site [] chatty t b ≡ b) started
quiet_example = run_inference_lem site [] chatty 0 "u" "s1" "x" help bus
