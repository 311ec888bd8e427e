-- ===== src/Agents/Reclaiming.antt =====
-- What a failover of src/agent_manager.py leaves of the tasks and their locks.
use ops_sentry.Prelude.{
  string_eq, nat_eq, ℕ, suc, String, ◌≡◌, refl, Bool, true, false, Option, none, some, List, [],
  ◌∷◌, ◌++◌, Dict, ◌==◌, ◌∙◌, ap, sym, arith, map, lookup, remove, lookup-remove, contains,
  if◌then◌else◌, Bool-cases, ◌⊎◌, inl, inr, append_assoc, append-nil, eq_iff, All,
}
use ops_sentry.Alerts.{AlertEvent}
use ops_sentry.Agents.Failover.{
  Cluster, Delivery, delivered, not_sent, answer_lost, tasks_of, rebalance_of, reclaim_task,
  reclaim_tasks, with_alert, reclaim_from, perform_failover, death_alert,
}

-- The tasks before the first whose pipeline raises, and that one if Redis had carried it out.
abbrev pub reclaimed_by : Delivery → String → List String → List String
reclaimed_by delivered t rest = t ∷ rest
reclaimed_by not_sent t rest = []
reclaimed_by answer_lost t rest = t ∷ []

abbrev pub reclaimed : (String → Delivery) → List String → List String
reclaimed send [] = []
reclaimed send (t ∷ ts) = reclaimed_by (send t) t (reclaimed send ts)

-- Without the tasks in the list.
abbrev pub without : List String → Dict String String → Dict String String
without [] d = d
without (t ∷ ts) d = without ts (remove t d)

pub lookup-without :
    (k : String) (ts : List String) (d : Dict String String)
    → lookup k (without ts d) ≡ (if contains k ts then none else lookup k d)
lookup-without k [] d = refl
lookup-without k (t ∷ ts) d = ground (arith, lookup-without k ts (remove t d), lookup-remove t k d)

Delivery-cases : (d : Delivery) → (d ≡ delivered) ⊎ ((d ≡ not_sent) ⊎ (d ≡ answer_lost))
Delivery-cases delivered = inl refl
Delivery-cases not_sent = inr (inl refl)
Delivery-cases answer_lost = inr (inr refl)

module _ (send : String → Delivery) (dead : String) where
  abbrev after : List String → Cluster → Cluster
  after ts c = record c {
    registry = without ts c.registry;
    locks = without ts c.locks;
    published = c.published ++ map (rebalance_of dead) ts;
  }

  reclaim_tasks-after :
      (ts : List String) (n : ℕ) (c : Cluster)
      → (reclaim_tasks send dead ts n c).1 ≡ after (reclaimed send ts) c
  unfolding reclaim_tasks reclaim_task
  reclaim_tasks-after [] n c = ap (λ p. record c { published = p }) (sym (append-nil c.published))
  reclaim_tasks-after (t ∷ ts) n c = elim (Delivery-cases (send t)) [
    | inl w ↦
        rw (w, reclaim_tasks)
          (reclaim_tasks-after ts (suc n) (reclaim_task dead t c)
            ∙ ap
                (λ p. record c {
                  registry = without (reclaimed send ts) (remove t c.registry);
                  locks = without (reclaimed send ts) (remove t c.locks);
                  published = p;
                })
                (append_assoc c.published (rebalance_of dead t ∷ [])
                  (map (rebalance_of dead) (reclaimed send ts))))
    | inr (inl b) ↦
        rw (b, reclaim_tasks) (ap (λ p. record c { published = p }) (sym (append-nil c.published)))
    | inr (inr b) ↦ rw (b, reclaim_tasks) refl
  ]

-- The primary key of a dict.
abbrev pub HasUniqueKeys : Dict String String → Type 0
HasUniqueKeys [] = Unit
HasUniqueKeys ((k, v) ∷ d) = (lookup k d ≡ none) × HasUniqueKeys d

abbrev pub is_task_of : String → Option String → Bool
is_task_of dead none = false
is_task_of dead (some node) = node == dead

contains-tasks_of :
    (dead k : String) (d : Dict String String)
    → HasUniqueKeys d
    → contains k (tasks_of dead d) ≡ is_task_of dead (lookup k d)
unfolding tasks_of lookup
contains-tasks_of dead k [] u = refl
contains-tasks_of dead k ((j, v) ∷ d) u = elim (Bool-cases (v == dead)) [
  | inl p ↦ rw p (ground (arith, contains-tasks_of dead k d u.1, p))
  | inr q ↦ rw q (elim (Bool-cases (j == k)) [
    | inl same ↦ rw (same, contains-tasks_of dead k d u.1, q, ← (eq_iff j k).0 same, u.0) refl
    | inr other ↦ rw (other, contains-tasks_of dead k d u.1) refl
  ])
]

reclaimed-All :
    (send : String → Delivery) (ts : List String)
    → All (λ t. send t ≡ delivered) ts
    → reclaimed send ts ≡ ts
reclaimed-All send [] w = refl
reclaimed-All send (t ∷ ts) w = rw w.0 (ap (λ x. t ∷ x) (reclaimed-All send ts w.1))

module _ (send : String → Delivery) (fresh : String) (now : ℕ) (dead : String) (c : Cluster) where
  abbrev pub done : List String
  done = reclaimed send (tasks_of dead c.registry)

  abbrev pub outcome : Cluster
  outcome = (perform_failover true send fresh now dead c).1

  registry-with_alert :
      (a : AlertEvent) (r : Option ℕ × Cluster)
      → ((with_alert a r).1.registry ≡ r.1.registry)
        × ((with_alert a r).1.locks ≡ r.1.locks)
        × ((with_alert a r).1.published ≡ r.1.published)
  registry-with_alert a (none, d) = (refl, refl, refl)
  registry-with_alert a (some n, d) = (refl, refl, refl)

  -- Whatever pipelines raise: the tasks of the dead node before the first that raises, and the task of that one exactly if Redis
  -- had carried it out and only its answer was lost, lose their entry in the registry and their lock and are broadcast once
  -- each, in order; no other task, lock or message is touched.
  pub perform_failover_lem :
      (k : String)
      → (lookup k outcome.registry ≡ (if contains k done then none else lookup k c.registry))
        × (lookup k outcome.locks ≡ (if contains k done then none else lookup k c.locks))
        × (outcome.published ≡ c.published ++ map (rebalance_of dead) done)
  unfolding perform_failover
  perform_failover_lem k = by_tasks (tasks_of dead c.registry)
    where
      by_tasks :
          (ts : List String)
          → (lookup k (reclaim_from send fresh now dead ts c).1.registry
              ≡ (if contains k (reclaimed send ts) then none else lookup k c.registry))
            × (lookup k (reclaim_from send fresh now dead ts c).1.locks
                ≡ (if contains k (reclaimed send ts) then none else lookup k c.locks))
            × ((reclaim_from send fresh now dead ts c).1.published
                ≡ c.published ++ map (rebalance_of dead) (reclaimed send ts))
      by_tasks [] = (refl, refl, sym (append-nil c.published))
      by_tasks (t ∷ ts) =
          let w =
            registry-with_alert (death_alert fresh now dead (t ∷ ts))
              (reclaim_tasks send dead (t ∷ ts) 0 c) in
          let a = reclaim_tasks-after send dead (t ∷ ts) 0 c in
          (
            ap (lookup k) w.0
                ∙ ap (λ d. lookup k d.registry) a
                ∙ lookup-without k (reclaimed send (t ∷ ts)) c.registry,
            ap (lookup k) w.1
                ∙ ap (λ d. lookup k d.locks) a
                ∙ lookup-without k (reclaimed send (t ∷ ts)) c.locks,
            w.2 ∙ ap (λ d. d.published) a,
          )

  -- Where no pipeline fails, the registry has afterwards exactly the tasks that were not the dead node's, as they were.
  pub failover_complete :
      (k : String)
      → HasUniqueKeys c.registry
      → All (λ t. send t ≡ delivered) (tasks_of dead c.registry)
      → lookup k outcome.registry
        ≡ (if is_task_of dead (lookup k c.registry) then none else lookup k c.registry)
  failover_complete k u w =
      (perform_failover_lem k).0
      ∙ ap (λ b. if b then none else lookup k c.registry)
          (ap (contains k) (reclaimed-All send (tasks_of dead c.registry) w)
            ∙ contains-tasks_of dead k c.registry u)
