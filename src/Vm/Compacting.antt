-- ===== src/Vm/Compacting.antt =====
-- What the compaction of src/agent_vm.py leaves of a context.
use ops_sentry.Prelude.{
  nat_eq, suc, ◌-◌, ◌≤◌, ◌≡◌, refl, List, ◌∷◌, ◌++◌, ◌∙◌, ap, arith, length, length-append,
  length-take, length-drop, drop-append, take, drop, take_last, ltb, if◌then◌else◌, Bool-cases, inl,
  inr,
}
use ops_sentry.Vm.{ChatMessage, compact_context}

-- What compaction leaves fits.
length-compact_context : (ms : List ChatMessage) → length (compact_context ms) ≤ 20
unfolding compact_context
length-compact_context ms = elim (Bool-cases (ltb 20 (length ms))) [
  | inl p ↦ rw p (
      omega (
        arith,
        length-append (take 2 ms) (take_last 10 ms),
        length-take 2 ms,
        length-drop (length ms - 10) ms,
      ))
  | inr q ↦ rw q (ground (arith, q))
]

-- A context whose last ten messages are `last` is cut, if it has more than 20 messages, to its first two and those ten, in
-- their order; any other stays. What is left has at most 20 messages.
pub compact_context_lem :
    (first second : ChatMessage) (middle last : List ChatMessage)
    → length last ≡ 10
    → (compact_context (first ∷ second ∷ (middle ++ last)) ≡ (
        if ltb 8 (length middle) then first ∷ second ∷ last else first ∷ second ∷ (middle ++ last)))
      × (length (compact_context (first ∷ second ∷ (middle ++ last))) ≤ 20)
unfolding compact_context
compact_context_lem first second middle last l =
    (cut, length-compact_context (first ∷ second ∷ (middle ++ last)))
  where
    whole : List ChatMessage
    whole = first ∷ second ∷ (middle ++ last)

    front : length whole - 10 ≡ suc (suc (length middle))
    front = omega (arith, length-append middle last, l)

    same : ltb 20 (length whole) ≡ ltb 8 (length middle)
    same = ground (arith, length-append middle last, l)

    kept : take_last 10 whole ≡ last
    kept = ap (λ n. drop n whole) front ∙ drop-append middle last

    cut : compact_context whole ≡ (if ltb 8 (length middle) then first ∷ second ∷ last else whole)
    cut = rw (same, kept, compact_context) refl
