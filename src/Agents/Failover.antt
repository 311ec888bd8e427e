-- ===== src/Agents/Failover.antt =====
-- `perform_failover` of src/agent_manager.py. Redis holds the task registry, the task locks and the
-- channel of the broadcasts; each pipeline is a transaction,
-- which Redis carries out or not whether its answer arrives or not.
use ops_sentry.Prelude.{
  string_eq, nat_eq, ℕ, suc, String, Bool, Option, none, some, List, [], ◌∷◌, ◌++◌, Dict, ◌==◌, map,
  filter, length, remove, if◌then◌else◌,
}
use ops_sentry.Prelude.Texts.{◌+++◌, show_number}
use ops_sentry.Prelude.Json.{Json, Items}
use ops_sentry.Alerts.{AlertEvent}

-- A REBALANCE message.
pub record Rebalance : Type 0 where
  pub task_id : String
  pub old_node : String
  pub reason : String

-- sentry:task:registry, the locks sentry:task:lock:*, and what was published and emitted.
pub record Cluster : Type 0 where
  pub registry : Dict String String
  pub locks : Dict String String
  pub published : List Rebalance
  pub alerts : List AlertEvent

-- [tid for tid, nid in all_tasks.items() if nid == dead_node_id]
unfoldable pub tasks_of : String → Dict String String → List String
tasks_of dead registry = map (λ p. p.0) (filter (λ p. p.1 == dead) registry)

abbrev pub rebalance_of : String → String → Rebalance
rebalance_of dead tid = record { task_id = tid; old_node = dead; reason = "NODE_DEAD" }

-- One pipeline.
unfoldable pub reclaim_task : String → String → Cluster → Cluster
reclaim_task dead tid c = record c {
  registry = remove tid c.registry;
  locks = remove tid c.locks;
  published = c.published ++ rebalance_of dead tid ∷ [];
}

-- How a pipeline of redis-py ends: it returns, or it raises, with the transaction not carried out, or with it carried out
-- and its answer lost.
pub data Delivery : Type 0 where
  delivered : Delivery
  not_sent : Delivery
  answer_lost : Delivery

-- The loop; `send` tells how each task's pipeline ends, and `none` is an exception.
unfoldable pub reclaim_tasks :
    (String → Delivery) → String → List String → ℕ → Cluster → Option ℕ × Cluster
reclaim_tasks send dead [] n c = (some n, c)
reclaim_tasks send dead (tid ∷ tids) n c =
    let rest = reclaim_tasks send dead tids (suc n) (reclaim_task dead tid c) in
    elim (send tid) [
      | delivered ↦ rest
      | not_sent ↦ (none, c)
      | answer_lost ↦ (none, reclaim_task dead tid c)
    ]

abbrev pub strings : List String → Items
strings [] = Items.nil
strings (s ∷ ss) = Items.cons (Json.str s) (strings ss)

-- The alert that follows; `fresh` and `now` are its id and time.
unfoldable pub death_alert : String → ℕ → String → List String → AlertEvent
death_alert fresh now dead tids = record {
  id = fresh;
  alert_type = "NODE_DEAD";
  severity = "CRITICAL";
  source = dead;
  message =
      "Node "
      +++ dead
      +++ " has been declared DEAD. Reclaiming "
      +++ show_number (length tids)
      +++ " tasks.";
  details = ("tasks", Json.arr (strings tids)) ∷ [];
  timestamp = now;
}

abbrev pub with_alert : AlertEvent → Option ℕ × Cluster → ℕ × Cluster
with_alert a (none, c) = (0, c)
with_alert a (some n, c) = (n, record c { alerts = c.alerts ++ a ∷ [] })

abbrev pub reclaim_from :
    (String → Delivery) → String → ℕ → String → List String → Cluster → ℕ × Cluster
reclaim_from send fresh now dead [] c = (0, c)
reclaim_from send fresh now dead (t ∷ ts) c =
    with_alert (death_alert fresh now dead (t ∷ ts)) (reclaim_tasks send dead (t ∷ ts) 0 c)

-- perform_failover, in cluster mode. `reachable` tells whether `hgetall` does not raise.
unfoldable pub perform_failover :
    Bool → (String → Delivery) → String → ℕ → String → Cluster → ℕ × Cluster
perform_failover reachable send fresh now dead c =
    if reachable then reclaim_from send fresh now dead (tasks_of dead c.registry) c else (0, c)
