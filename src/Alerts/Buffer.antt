-- ===== src/Alerts/Buffer.antt =====
-- The buffer in Redis of src/cluster/alert_engine.py: `emit` and the loop of `_process_batch` that empties it.
use ops_sentry.Prelude.{
  ℕ, zero, suc, ◌<◌, String, ◌≡◌, refl, sym, ap, subst, ◌∙◌, Bool, true, false, List, [], ◌∷◌, ◌++◌,
  map, take, drop, length, append_assoc, append-nil, take-append-drop, length-drop, if◌then◌else◌,
  arith,
}
use ops_sentry.Alerts.{AlertEvent, Aggregator, emit, process_events, process_batch}

-- An element of the list, as model_validate_json takes it.
pub data Raw : Type 0 where
  event : AlertEvent → Raw
  malformed : Raw

-- emit: lpush; the list is in the order in which rpop takes its elements.
unfoldable pub emit_redis : AlertEvent → List Raw → List Raw
emit_redis e buffer = buffer ++ event e ∷ []

-- How the loop over the results ends.
pub record Batch : Type 0 where
  pub raw_events : List AlertEvent
  pub found_any : Bool
  pub raised : Bool

-- The results that are not None, in their order; the first that cannot be read raises.
unfoldable pub read_batch : List Raw → List AlertEvent → Bool → Batch
read_batch [] raw_events found = record {
  raw_events = raw_events;
  found_any = found;
  raised = false;
}
read_batch (event e ∷ rs) raw_events found = read_batch rs (raw_events ++ e ∷ []) true
read_batch (malformed ∷ rs) raw_events found = record {
  raw_events = raw_events;
  found_any = found;
  raised = true;
}

abbrev pub batch_size : ℕ
batch_size = 1000

abbrev pub after_batch :
    Batch → List Raw → (List AlertEvent → List AlertEvent × List Raw) → List AlertEvent × List Raw
after_batch b rest again =
    let next = again b.raw_events in
    if b.raised then (b.raw_events, rest) else if b.found_any then next else (b.raw_events, rest)

-- The loop: the events, and what is left in Redis. A pipeline has as many results as commands, so the second test of the
-- `break` never holds. In a round of which `works` is false the pipeline raises before it takes anything.
unfoldable pub fetch : (ℕ → Bool) → ℕ → List Raw → List AlertEvent → List AlertEvent × List Raw
unfolding read_batch
fetch works zero buffer raw_events = (raw_events, buffer)
fetch works (suc rounds) buffer raw_events =
    let done =
      after_batch (read_batch (take batch_size buffer) raw_events false) (drop batch_size buffer)
        (fetch works rounds (drop batch_size buffer)) in
    if works rounds then done else (raw_events, buffer)

-- _process_batch over Redis. Each round but the last takes an element, so one more than there are is enough.
unfoldable pub process_redis :
    (ℕ → Bool) → (String → Bool) → Bool → List Raw → Aggregator → Aggregator × List Raw
unfolding fetch
process_redis works channels hud buffer a =
    let found = fetch works (suc (length buffer)) buffer [] in
    (process_events channels hud found.0 a, found.1)

-- Alerts one after the other, to Redis and to the buffer in memory.
unfoldable pub emit_all : List AlertEvent → List Raw → List Raw
unfolding emit_redis
emit_all [] buffer = buffer
emit_all (e ∷ es) buffer = emit_all es (emit_redis e buffer)

unfoldable pub emit_in_memory : List AlertEvent → Aggregator → Aggregator
unfolding emit
emit_in_memory [] a = a
emit_in_memory (e ∷ es) a = emit_in_memory es (emit e a)

abbrev has_more : List AlertEvent → Bool → Bool
has_more [] found = found
has_more (e ∷ es) found = true

has_more-true : (es : List AlertEvent) → has_more es true ≡ true
has_more-true [] = refl
has_more-true (e ∷ es) = refl

read_batch-event :
    (es raw_events : List AlertEvent) (found : Bool)
    → read_batch (map event es) raw_events found
      ≡ record { raw_events = raw_events ++ es; found_any = has_more es found; raised = false }
unfolding read_batch
read_batch-event [] raw_events found =
    ap (λ x. record { raw_events = x; found_any = found; raised = false })
      (sym (append-nil raw_events))
read_batch-event (e ∷ []) raw_events found = refl
read_batch-event (e ∷ f ∷ es) raw_events found =
    read_batch-event (f ∷ es) (raw_events ++ e ∷ []) true
    ∙ ap (λ x. record { raw_events = x; found_any = true; raised = false })
        (append_assoc raw_events (e ∷ []) (f ∷ es))

read_batch-malformed :
    (n : ℕ) (es raw_events : List AlertEvent) (rest : List Raw) (found : Bool)
    → length es < n
    → (f : Bool) × (read_batch (take n (map event es ++ malformed ∷ rest)) raw_events found
        ≡ record { raw_events = raw_events ++ es; found_any = f; raised = true })
unfolding read_batch
read_batch-malformed zero es raw_events rest found h = absurd (omega (arith, h))
read_batch-malformed (suc n) [] raw_events rest found h = (
  found,
  ap (λ x. record { raw_events = x; found_any = found; raised = true })
      (sym (append-nil raw_events)),
)
read_batch-malformed (suc n) (e ∷ es) raw_events rest found h =
    let r = read_batch-malformed n es (raw_events ++ e ∷ []) rest true (omega (arith, h)) in
    (
      r.0,
      r.1
          ∙ ap (λ x. record { raw_events = x; found_any = r.0; raised = true })
              (append_assoc raw_events (e ∷ []) es),
    )

take-event : (n : ℕ) (es : List AlertEvent) → take n (map event es) ≡ map event (take n es)
take-event zero es = refl
take-event (suc n) [] = refl
take-event (suc n) (e ∷ es) = ap (λ rs. event e ∷ rs) (take-event n es)

drop-event : (n : ℕ) (es : List AlertEvent) → drop n (map event es) ≡ map event (drop n es)
drop-event zero es = refl
drop-event (suc n) [] = refl
drop-event (suc n) (e ∷ es) = drop-event n es

length-event : (es : List AlertEvent) → length (map event es) ≡ length es
length-event [] = refl
length-event (e ∷ es) = ap suc (length-event es)

emit_all-event :
    (es : List AlertEvent) (buffer : List Raw) → emit_all es buffer ≡ buffer ++ map event es
unfolding emit_all emit_redis
emit_all-event [] buffer = sym (append-nil buffer)
emit_all-event (e ∷ es) buffer =
    emit_all-event es (buffer ++ event e ∷ []) ∙ append_assoc buffer (event e ∷ []) (map event es)

emit_in_memory_lem :
    (es : List AlertEvent) (a : Aggregator)
    → emit_in_memory es a ≡ record a { buffer = a.buffer ++ es }
unfolding emit_in_memory emit
emit_in_memory_lem [] a = ap (λ b. record a { buffer = b }) (sym (append-nil a.buffer))
emit_in_memory_lem (e ∷ es) a =
    emit_in_memory_lem es (record a { buffer = a.buffer ++ e ∷ [] })
    ∙ ap (λ b. record a { buffer = b }) (append_assoc a.buffer (e ∷ []) es)

module _ (works : ℕ → Bool) (all_work : (n : ℕ) → works n ≡ true) where
  fetch-event :
      (rounds : ℕ) (es raw_events : List AlertEvent)
      → length es < rounds
      → fetch works rounds (map event es) raw_events ≡ (raw_events ++ es, [])
  unfolding fetch
  fetch-event zero es raw_events h = absurd (omega (arith, h))
  fetch-event (suc rounds) [] raw_events h =
      rw (all_work rounds) (ap (λ x. (x, [])) (sym (append-nil raw_events)))
  fetch-event (suc rounds) (e ∷ es) raw_events h =
      rw
        (
          all_work rounds,
          take-event 999 es,
          read_batch-event (take 999 es) (raw_events ++ e ∷ []) true,
          has_more-true (take 999 es),
          drop-event 999 es,
        )
        (fetch-event rounds (drop 999 es) ((raw_events ++ e ∷ []) ++ take 999 es)
            (omega (arith, h, length-drop 999 es))
          ∙ ap (λ x. (x, [])) whole)
    where
      whole : ((raw_events ++ e ∷ []) ++ take 999 es) ++ drop 999 es ≡ raw_events ++ e ∷ es
      whole =
          append_assoc (raw_events ++ e ∷ []) (take 999 es) (drop 999 es)
          ∙ ap (λ x. (raw_events ++ e ∷ []) ++ x) (take-append-drop 999 es)
          ∙ append_assoc raw_events (e ∷ []) es

  fetch-malformed :
      (rounds : ℕ) (front : List AlertEvent) (rest : List Raw)
      → length front < batch_size
      → fetch works (suc rounds) (map event front ++ malformed ∷ rest) []
        ≡ (front, drop batch_size (map event front ++ malformed ∷ rest))
  unfolding fetch
  fetch-malformed rounds front rest few = rw (all_work rounds) (
      ap
        (λ b.
          after_batch b (drop batch_size (map event front ++ malformed ∷ rest))
            (fetch works rounds (drop batch_size (map event front ++ malformed ∷ rest))))
        (read_batch-malformed batch_size front [] rest false few).1)

  module _ (channels : String → Bool) (hud : Bool) (a : Aggregator) where
    process_redis-fetch :
        (buffer : List Raw) (found : List AlertEvent) (left : List Raw)
        → fetch works (suc (length buffer)) buffer [] ≡ (found, left)
        → process_redis works channels hud buffer a ≡ (process_events channels hud found a, left)
    unfolding process_redis
    process_redis-fetch buffer found left h = ap (λ r. (process_events channels hud r.0 a, r.1)) h

    process_batch-emit_in_memory :
        (es : List AlertEvent)
        → a.buffer ≡ []
        → process_events channels hud es a ≡ process_batch channels hud (emit_in_memory es a)
    unfolding process_batch
    process_batch-emit_in_memory es empty = sym (
        ap (process_batch channels hud) (emit_in_memory_lem es a)
        ∙ ap (λ b. process_events channels hud (b ++ es) (record a { buffer = [] })) empty
        ∙ ap (λ b. process_events channels hud es (record a { buffer = b })) (sym empty))

    -- While Redis answers, alerts that were emitted to it are processed as those in memory are, all of them and in their order,
    -- and none is left. But one that cannot be read ends the round: with fewer than a thousand before it, only these are
    -- processed, and whatever else was among the first thousand is gone from Redis too.
    pub process_redis-emit_all :
        (es front : List AlertEvent) (rest : List Raw)
        → a.buffer ≡ []
        → length front < batch_size
        → (process_redis works channels hud (emit_all es []) a
            ≡ (process_batch channels hud (emit_in_memory es a), []))
          × (process_redis works channels hud (emit_all front [] ++ malformed ∷ rest) a ≡ (
            process_batch channels hud (emit_in_memory front a),
            drop batch_size (emit_all front [] ++ malformed ∷ rest),
          ))
    process_redis-emit_all es front rest empty few = (
      subst
          (λ b.
            process_redis works channels hud b a
            ≡ (process_batch channels hud (emit_in_memory es a), []))
          (sym (emit_all-event es []))
          (process_redis-fetch (map event es) es []
              (fetch-event (suc (length (map event es))) es [] (omega (arith, length-event es)))
            ∙ ap (λ x. (x, [])) (process_batch-emit_in_memory es empty)),
      subst
          (λ b. process_redis works channels hud (b ++ malformed ∷ rest) a ≡ (
            process_batch channels hud (emit_in_memory front a),
            drop batch_size (b ++ malformed ∷ rest),
          ))
          (sym (emit_all-event front []))
          (process_redis-fetch (map event front ++ malformed ∷ rest) front
              (drop batch_size (map event front ++ malformed ∷ rest))
              (fetch-malformed (length (map event front ++ malformed ∷ rest)) front rest few)
            ∙ ap (λ x. (x, drop batch_size (map event front ++ malformed ∷ rest)))
                (process_batch-emit_in_memory front empty)),
    )
