-- ===== src/Alerts/Grouping.antt =====
-- What `_aggregate` of src/cluster/alert_engine.py keeps of a batch, and where.
use ops_sentry.Prelude.{
  string_eq, ◌≡◌, refl, String, Bool, true, not, List, [], ◌∷◌, ◌++◌, ◌==◌, ◌∙◌, ap, sym, arith,
  filter, filter-filter, contains, lookup, lookup-insert, Bool-cases, inl, inr, append_assoc,
  append-nil, eq_iff,
}
use ops_sentry.Ledger.Entry.{get_or}
use ops_sentry.Alerts.{AlertEvent, Groups, dedup_key, append_to, aggregate_from, aggregate}

-- The first event of each key, in their order.
abbrev pub firsts : List AlertEvent → List AlertEvent
firsts [] = []
firsts (e ∷ es) = e ∷ filter (λ x. not (dedup_key e == dedup_key x)) (firsts es)

abbrev pub group : String → Groups → List AlertEvent
group k g = get_or (lookup k g) []

abbrev is_of : String → AlertEvent → Bool
is_of k e = e.alert_type == k

abbrev pub is_new : List String → AlertEvent → Bool
is_new seen e = not (contains (dedup_key e) seen)

group-append_to :
    (k : String) (e : AlertEvent) (g : Groups)
    → group k (append_to e.alert_type e g) ≡ group k g ++ filter (is_of k) (e ∷ [])
unfolding append_to
group-append_to k e g = elim (Bool-cases (e.alert_type == k)) [
  | inl p ↦
      rw (lookup-insert e.alert_type k (group e.alert_type g ++ e ∷ []) g, p)
        (ap (λ x. group x g ++ e ∷ []) ((eq_iff e.alert_type k).0 p))
  | inr q ↦
      rw (lookup-insert e.alert_type k (group e.alert_type g ++ e ∷ []) g, q)
        (sym (append-nil (group k g)))
]

pub filter-not_same :
    (e : AlertEvent) (seen : List String) (es : List AlertEvent)
    → filter (is_new (dedup_key e ∷ seen)) es
      ≡ filter (is_new seen) (filter (λ x. not (dedup_key e == dedup_key x)) es)
filter-not_same e seen [] = refl
filter-not_same e seen (x ∷ es) = ground (arith, filter-not_same e seen es)

pub filter-seen :
    (e : AlertEvent) (seen : List String) (es : List AlertEvent)
    → contains (dedup_key e) seen ≡ true
    → filter (is_new seen) (filter (λ x. not (dedup_key e == dedup_key x)) es)
      ≡ filter (is_new seen) es
filter-seen e seen es h =
    filter-filter (is_new seen) (λ x. not (dedup_key e == dedup_key x)) differs es
  where
    differs : (x : AlertEvent) → is_new seen x ≡ true → not (dedup_key e == dedup_key x) ≡ true
    differs x n = elim (Bool-cases (dedup_key e == dedup_key x)) [
      | inr q ↦ rw q refl
      | inl p ↦ cc (n, h, ap (λ k. contains k seen) ((eq_iff (dedup_key e) (dedup_key x)).0 p))
    ]

filter-append :
    (p : AlertEvent → Bool) (xs ys : List AlertEvent)
    → filter p (xs ++ ys) ≡ filter p xs ++ filter p ys
filter-append p [] ys = refl
filter-append p (x ∷ xs) ys = ground (arith, filter-append p xs ys)

-- The loop, from any state.
group-aggregate_from :
    (k : String) (es : List AlertEvent) (seen : List String) (g : Groups)
    → group k (aggregate_from es seen g)
      ≡ group k g ++ filter (is_of k) (filter (is_new seen) (firsts es))
unfolding aggregate_from
group-aggregate_from k [] seen g = sym (append-nil (group k g))
group-aggregate_from k (e ∷ es) seen g = elim (Bool-cases (contains (dedup_key e) seen)) [
  | inl old ↦ rw (old, filter-seen e seen (firsts es) old) (group-aggregate_from k es seen g)
  | inr new ↦ rw new (
      group-aggregate_from k es (dedup_key e ∷ seen) (append_to e.alert_type e g)
      ∙ ap (λ xs. xs ++ filter (is_of k) (filter (is_new (dedup_key e ∷ seen)) (firsts es)))
          (group-append_to k e g)
      ∙ append_assoc (group k g) (filter (is_of k) (e ∷ [])) _
      ∙ ap (λ xs. group k g ++ xs)
          (sym (filter-append (is_of k) (e ∷ []) (filter (is_new (dedup_key e ∷ seen)) (firsts es)))
            ∙ ap (λ xs. filter (is_of k) (e ∷ xs)) (filter-not_same e seen (firsts es))))
]

pub nothing_seen : (es : List AlertEvent) → filter (is_new []) es ≡ es
nothing_seen [] = refl
nothing_seen (e ∷ es) = ap (λ xs. e ∷ xs) (nothing_seen es)

-- Each type's group holds, in their order, the first event of each key of source, type and severity that
-- has this type, and nothing else; a type without an event has no group.
pub group-aggregate :
    (k : String) (es : List AlertEvent)
    → group k (aggregate es) ≡ filter (λ e. e.alert_type == k) (firsts es)
unfolding aggregate lookup
group-aggregate k es =
    group-aggregate_from k es [] [] ∙ ap (λ xs. filter (is_of k) xs) (nothing_seen (firsts es))
