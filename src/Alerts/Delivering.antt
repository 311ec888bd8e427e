-- ===== src/Alerts/Delivering.antt =====
-- What one batch of src/cluster/alert_engine.py sends.
use ops_sentry.Prelude.{
  string_eq, nat_eq, ℕ, suc, ◌+◌, ◌≡◌, refl, String, Bool, false, Option, none, some, List, [], ◌∷◌,
  ◌++◌, ◌==◌, ◌∙◌, ap, sym, arith, filter, contains, lookup, insert, if◌then◌else◌, Bool-cases, inl,
  inr, append_assoc, append-nil, length, map, length-append,
}
use ops_sentry.Ledger.Entry.{get_or}
use ops_sentry.Alerts.{
  AlertEvent, Groups, Aggregator, OutboundMessage, dedup_key, append_to, aggregate_from, aggregate,
  total_count, message_of, broadcast_of, send_all, dispatch_alerts, process_events, process_batch,
}
use ops_sentry.Alerts.Grouping.{firsts, is_new, filter-not_same, filter-seen, nothing_seen}

abbrev size : Option (List AlertEvent) → ℕ
size none = 0
size (some es) = length es

-- Putting a group in the place of the old one.
total_count-insert :
    (k : String) (es : List AlertEvent) (g : Groups)
    → total_count (insert k es g) + size (lookup k g) ≡ total_count g + length es
unfolding total_count insert lookup
total_count-insert k es [] = omega arith
total_count-insert k es ((j, fs) ∷ g) = elim (Bool-cases (j == k)) [
  | inl p ↦ rw p (omega arith)
  | inr q ↦ rw q (omega (arith, total_count-insert k es g))
]

length_of_group :
    (o : Option (List AlertEvent)) (e : AlertEvent) → length (get_or o [] ++ e ∷ []) ≡ suc (size o)
length_of_group none e = refl
length_of_group (some es) e = omega (arith, length-append es (e ∷ []))

total_count-append_to :
    (k : String) (e : AlertEvent) (g : Groups) → total_count (append_to k e g) ≡ suc (total_count g)
unfolding append_to
total_count-append_to k e g = omega (
  arith,
  total_count-insert k (get_or (lookup k g) [] ++ e ∷ []) g,
  length_of_group (lookup k g) e,
)

total_count-aggregate_from :
    (es : List AlertEvent) (seen : List String) (g : Groups)
    → total_count (aggregate_from es seen g)
      ≡ total_count g + length (filter (is_new seen) (firsts es))
unfolding aggregate_from
total_count-aggregate_from [] seen g = omega arith
total_count-aggregate_from (e ∷ es) seen g = elim (Bool-cases (contains (dedup_key e) seen)) [
  | inl old ↦ rw (old, filter-seen e seen (firsts es) old) (total_count-aggregate_from es seen g)
  | inr new ↦
      rw (new, ← filter-not_same e seen (firsts es))
        (omega (
          arith,
          total_count-aggregate_from es (dedup_key e ∷ seen) (append_to e.alert_type e g),
          total_count-append_to e.alert_type e g,
        ))
]

-- The number in the title is that of the events that are kept.
total_count-aggregate : (es : List AlertEvent) → total_count (aggregate es) ≡ length (firsts es)
unfolding aggregate total_count
total_count-aggregate es =
    omega (arith, total_count-aggregate_from es [] [], ap length (nothing_seen (firsts es)))

total_count_positive :
    (e : AlertEvent) (es : List AlertEvent) → (total_count (aggregate (e ∷ es)) == 0) ≡ false
total_count_positive e es = ground (arith, total_count-aggregate (e ∷ es))

sent-send_all :
    (works : String → Bool) (m : OutboundMessage) (cs : List String) (a : Aggregator)
    → send_all works m cs a ≡ record a { sent = a.sent ++ map (λ c. (c, m)) (filter works cs) }
unfolding send_all
sent-send_all works m [] a = ap (λ s. record a { sent = s }) (sym (append-nil a.sent))
sent-send_all works m (c ∷ cs) a = elim (Bool-cases (works c)) [
  | inl p ↦ rw p (
      sent-send_all works m cs (record a { sent = a.sent ++ (c, m) ∷ [] })
      ∙ ap (λ s. record a { sent = s }) (append_assoc a.sent ((c, m) ∷ []) _))
  | inr q ↦ rw q (sent-send_all works m cs a)
]

-- What a batch of events sends: one summary to each channel that takes it, and to the HUD.
abbrev pub delivered : (String → Bool) → Bool → List AlertEvent → Aggregator → Aggregator
delivered works hud [] a = a
delivered works hud (e ∷ es) a = record {
  buffer = [];
  channels = a.channels;
  sent = a.sent ++ map (λ c. (c, message_of (aggregate (e ∷ es)))) (filter works a.channels);
  broadcasts =
      (if hud then a.broadcasts ++ broadcast_of (aggregate (e ∷ es)) ∷ [] else a.broadcasts);
}

-- Processing empties the buffer. Where it held no event nothing is sent; otherwise each channel whose `send` works gets
-- the one summary of the batch, in order and whichever other channels fail, and so does the HUD if it
-- works.
pub process_batch-eq-delivered :
    (works : String → Bool) (hud : Bool) (a : Aggregator)
    → process_batch works hud a ≡ delivered works hud a.buffer (record a { buffer = [] })
unfolding process_batch
process_batch-eq-delivered works hud a = by_events a.buffer
  where
    by_events :
        (es : List AlertEvent)
        → process_events works hud es (record a { buffer = [] })
          ≡ delivered works hud es (record a { buffer = [] })
    by_events [] = refl
    by_events (e ∷ es) =
        unfold dispatch_alerts in
        rw
          (
            total_count_positive e es,
            sent-send_all works (message_of (aggregate (e ∷ es))) a.channels
                (record a { buffer = [] }),
          )
          (ground arith)
