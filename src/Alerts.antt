-- ===== src/Alerts.antt =====
-- src/cluster/alert_engine.py, with the buffer in memory: alerts are collected, and once in a window they
-- are deduplicated, grouped by type, and sent as one summary to every channel and to the HUD.
mod Examples
pub mod Grouping
pub mod Delivering
pub mod Buffer
use ops_sentry.Prelude.{
  string_eq, nat_eq, ℕ, zero, suc, ◌+◌, ◌/◌, ◌%◌, String, Bool, true, false, not, ◌&&◌, ◌||◌,
  Option, none, some, List, [], ◌∷◌, ◌++◌, Dict, ◌==◌, map, length, sum, any, filter, contains,
  lookup, insert, if◌then◌else◌, ltb,
}
use ops_sentry.Prelude.Texts.{◌+++◌, show_number, join}
use ops_sentry.Prelude.Json.{Json}
use ops_sentry.Ledger.Entry.{get_or}

pub record AlertEvent : Type 0 where
  pub id : String
  pub alert_type : String
  pub severity : String
  pub source : String
  pub message : String
  pub details : Dict String Json
  pub timestamp : ℕ

-- AlertEvent.to_summary
unfoldable pub to_summary : AlertEvent → String
to_summary e =
    "[" +++ e.severity +++ "] " +++ e.alert_type +++ " from " +++ e.source +++ ": " +++ e.message

abbrev pub Groups : Type 0
Groups = Dict String (List AlertEvent)

unfoldable pub dedup_key : AlertEvent → String
dedup_key e = e.source +++ ":" +++ e.alert_type +++ ":" +++ e.severity

-- `grouped[k].append(e)` of a defaultdict(list)
unfoldable pub append_to : String → AlertEvent → Groups → Groups
append_to k e g = insert k (get_or (lookup k g) [] ++ e ∷ []) g

-- The loop of `_aggregate`, with what it has seen and grouped so far.
unfoldable pub aggregate_from : List AlertEvent → List String → Groups → Groups
aggregate_from [] seen g = g
aggregate_from (e ∷ es) seen g =
    aggregate_from es (if contains (dedup_key e) seen then seen else dedup_key e ∷ seen)
      (if contains (dedup_key e) seen then g else append_to e.alert_type e g)

unfoldable pub aggregate : List AlertEvent → Groups
aggregate es = aggregate_from es [] []

-- sum(len(evs) for evs in grouped.values())
unfoldable pub total_count : Groups → ℕ
total_count g = sum (map (λ p. length p.1) g)

abbrev pub sources_of : List AlertEvent → String
sources_of es = join ", " (map (λ e. e.source) es)

-- The line of a group.
abbrev pub line_of : String → List AlertEvent → String
line_of t [] = "🔴 " +++ t +++ ": 0 occurrences across nodes []"
line_of t (e ∷ []) = "🔴 " +++ t +++ ": " +++ e.message +++ " (Source: " +++ e.source +++ ")"
line_of t (e ∷ f ∷ es) =
    "🔴 "
    +++ t
    +++ ": "
    +++ show_number (length (e ∷ f ∷ es))
    +++ " occurrences across nodes ["
    +++ sources_of (e ∷ f ∷ es)
    +++ "]"

unfoldable pub title_of : Groups → String
title_of g = "🚨 OpsSentry Alert Summary (" +++ show_number (total_count g) +++ " events)"

unfoldable pub content_of : Groups → String
content_of g = join "\n" (map (λ p. line_of p.0 p.1) g)

abbrev pub is_critical : AlertEvent → Bool
is_critical e = e.severity == "CRITICAL"

unfoldable pub severity_of : Groups → String
severity_of g = if any (λ p. any is_critical p.1) g then "CRITICAL" else "WARNING"

-- OutboundMessage, to the default group
pub record OutboundMessage : Type 0 where
  pub title : String
  pub content : String
  pub recipient : String

-- What goes to the HUD.
pub record Broadcast : Type 0 where
  pub title : String
  pub content : String
  pub severity : String

-- The buffer, the channels by name, and what has gone out to them and to the HUD.
pub record Aggregator : Type 0 where
  pub buffer : List AlertEvent
  pub channels : List String
  pub sent : List (String × OutboundMessage)
  pub broadcasts : List Broadcast

-- emit
unfoldable pub emit : AlertEvent → Aggregator → Aggregator
emit e a = record a { buffer = a.buffer ++ e ∷ [] }

abbrev pub message_of : Groups → OutboundMessage
message_of g = record { title = title_of g; content = content_of g; recipient = "ALL" }

abbrev pub broadcast_of : Groups → Broadcast
broadcast_of g = record { title = title_of g; content = content_of g; severity = severity_of g }

-- One channel after the other; `works` tells whether its `send` does not raise. What it raises is logged.
unfoldable pub send_all : (String → Bool) → OutboundMessage → List String → Aggregator → Aggregator
send_all works m [] a = a
send_all works m (c ∷ cs) a =
    send_all works m cs (if works c then record a { sent = a.sent ++ (c, m) ∷ [] } else a)

-- _dispatch. `hud` tells whether the broadcast does not raise.
unfoldable pub dispatch_alerts : (String → Bool) → Bool → Groups → Aggregator → Aggregator
dispatch_alerts works hud g a =
    let b = send_all works (message_of g) a.channels a in
    if total_count g == 0
    then a
    else if hud
    then record b { broadcasts = b.broadcasts ++ broadcast_of g ∷ [] }
    else b

abbrev pub process_events : (String → Bool) → Bool → List AlertEvent → Aggregator → Aggregator
process_events works hud [] a = a
process_events works hud (e ∷ es) a = dispatch_alerts works hud (aggregate (e ∷ es)) a

-- _process_batch
unfoldable pub process_batch : (String → Bool) → Bool → Aggregator → Aggregator
process_batch works hud a = process_events works hud a.buffer (record a { buffer = [] })

abbrev pub agent_or_system : Option String → String
agent_or_system none = "system"
agent_or_system (some r) = if r == "" then "system" else "agent:" +++ r

-- The event that `mark_failed` of src/ops_ledger.py emits.
unfoldable pub failure_alert : String → ℕ → String → String → Option String → String → AlertEvent
failure_alert fresh now k action accio_ref error = record {
  id = fresh;
  alert_type = "TASK_FAILED";
  severity = "WARNING";
  source = agent_or_system accio_ref;
  message = "Task " +++ action +++ " failed: " +++ error;
  details = ("entry_id", Json.str k) ∷ ("action", Json.str action) ∷ ("error", Json.str error) ∷ [];
  timestamp = now;
}
