-- ===== src/Alerts/Examples.antt =====
-- Three alerts of one window, for the theorems about src/cluster/alert_engine.py.
use ops_sentry.Prelude.{
  string_eq, ◌≡◌, ◌==◌, refl, String, true, List, [], ◌∷◌, ◌++◌, filter, drop, arith,
}
use ops_sentry.Alerts.{AlertEvent, Aggregator, aggregate, process_batch}
use ops_sentry.Alerts.Buffer.{
  event, malformed, batch_size, process_redis, emit_all, emit_in_memory, process_redis-emit_all,
}
use ops_sentry.Alerts.Grouping.{firsts, group, group-aggregate}

abbrev alert : String → String → AlertEvent
alert source message = record {
  id = "x";
  alert_type = "NODE_DEAD";
  severity = "WARNING";
  source = source;
  message = message;
  details = [];
  timestamp = 0;
}

abbrev alerts : List AlertEvent
alerts = alert "n1" "gone" ∷ alert "n2" "gone" ∷ alert "n1" "still gone" ∷ []

abbrev idle : Aggregator
idle = record { buffer = []; channels = "feishu" ∷ "dingtalk" ∷ []; sent = []; broadcasts = [] }

group_example :
    group "NODE_DEAD" (aggregate alerts) ≡ filter (λ e. e.alert_type == "NODE_DEAD") (firsts alerts)
group_example = group-aggregate "NODE_DEAD" alerts

emptied_example :
    (process_redis (λ n. true) (λ c. true) true (emit_all alerts []) idle
      ≡ (process_batch (λ c. true) true (emit_in_memory alerts idle), []))
    × (process_redis
          (λ n. true)
          (λ c. true)
          true
          (emit_all alerts [] ++ malformed ∷ event (alert "n3" "gone") ∷ [])
          idle
        ≡ (
          process_batch (λ c. true) true (emit_in_memory alerts idle),
          drop batch_size (emit_all alerts [] ++ malformed ∷ event (alert "n3" "gone") ∷ []),
        ))
emptied_example =
    process_redis-emit_all (λ n. true) (λ n. refl) (λ c. true) true idle alerts alerts
      (event (alert "n3" "gone") ∷ []) refl (omega arith)
