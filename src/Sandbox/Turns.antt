-- ===== src/Sandbox/Turns.antt =====
-- Whose turn it is in the pool of src/sandbox.py.
use ops_sentry.Prelude.{
  nat_eq, ℕ, zero, suc, ◌+◌, ◌≤◌, min, ◌≡◌, refl, sym, ap, ◌∙◌, true, ◌⊎◌, inl, inr, List, [], ◌∷◌,
  ◌++◌, append_assoc, append-nil, contains, length, length-append, arith, Bool-cases, subst,
}
use ops_sentry.Sandbox.Pool.{
  CallId, Pool, new_pool, enter, remove_call, hand_on, leave, PoolEvent, called, done, turn, turns,
  arrivals,
}

-- The running calls and the value make up the size; where calls wait the value is 0; the calls that came inside and those
-- that wait are those that came, in order.
pub record IsFair (size : ℕ) (came : List CallId) (p : Pool) : Type 0 where
  pub full : length p.running + p.value ≡ size
  pub no_idle : (p.waiting ≡ []) ⊎ (p.value ≡ 0)
  pub in_order : p.started ++ p.waiting ≡ came
  pub counted : length p.started ≡ length p.running + p.ended

new_pool-IsFair : (size : ℕ) → IsFair size [] (new_pool size)
unfolding new_pool
new_pool-IsFair size = record {
  full = omega arith;
  no_idle = inl refl;
  in_order = refl;
  counted = omega arith;
}

length-remove_call :
    (c : CallId) (xs : List CallId)
    → contains c xs ≡ true
    → length xs ≡ suc (length (remove_call c xs))
unfolding remove_call
length-remove_call c [] h = ground (arith, h)
length-remove_call c (x ∷ xs) h = ground (arith, length-remove_call c xs)

enter-IsFair :
    (size : ℕ) (came : List CallId) (c : CallId) (p : Pool) (v : ℕ) (ws : List CallId)
    → p.value ≡ v
    → p.waiting ≡ ws
    → IsFair size came p
    → IsFair size (came ++ c ∷ []) (enter c p v ws)
enter-IsFair size came c p zero ws e f i = record {
  full = i.full;
  no_idle = inr e;
  in_order =
      sym (append_assoc p.started ws (c ∷ []))
      ∙ ap (λ x. (p.started ++ x) ++ c ∷ []) (sym f)
      ∙ ap (λ x. x ++ c ∷ []) i.in_order;
  counted = i.counted;
}
enter-IsFair size came c p (suc v) [] e f i = record {
  full = omega (arith, i.full, e, length-append {0} p.running (c ∷ []));
  no_idle = inl f;
  in_order =
      ap (λ x. (p.started ++ c ∷ []) ++ x) f
      ∙ append-nil (p.started ++ c ∷ [])
      ∙ ap (λ x. x ++ c ∷ [])
          (sym (append-nil p.started) ∙ ap (λ x. p.started ++ x) (sym f) ∙ i.in_order);
  counted = omega (
    arith,
    i.counted,
    length-append {0} p.running (c ∷ []),
    length-append {0} p.started (c ∷ []),
  );
}
enter-IsFair size came c p (suc v) (w ∷ ws) e f i = absurd (busy i.no_idle)
  where
    busy : ((p.waiting ≡ []) ⊎ (p.value ≡ 0)) → ⊥
    busy (inl g) = cc (f, g)
    busy (inr g) = omega (arith, e, g)

hand_on-IsFair :
    (size : ℕ) (came : List CallId) (p : Pool) (ws : List CallId)
    → p.waiting ≡ ws
    → length p.running + p.value + 1 ≡ size
    → ((p.waiting ≡ []) ⊎ (p.value ≡ 0))
    → p.started ++ p.waiting ≡ came
    → length p.started ≡ length p.running + p.ended
    → IsFair size came (hand_on p ws)
hand_on-IsFair size came p [] f full idle order counted = record {
  full = omega (arith, full);
  no_idle = inl f;
  in_order = order;
  counted = counted;
}
hand_on-IsFair size came p (w ∷ ws) f full idle order counted = record {
  full = omega (arith, full, length-append {0} p.running (w ∷ []));
  no_idle = inr (none_free idle);
  in_order = append_assoc p.started (w ∷ []) ws ∙ ap (λ x. p.started ++ x) (sym f) ∙ order;
  counted =
      omega (
        arith,
        counted,
        length-append {0} p.running (w ∷ []),
        length-append {0} p.started (w ∷ []),
      );
}
  where
    none_free : ((p.waiting ≡ []) ⊎ (p.value ≡ 0)) → p.value ≡ 0
    none_free (inl g) = absurd (cc (f, g))
    none_free (inr g) = g

leave-IsFair :
    (size : ℕ) (came : List CallId) (c : CallId) (p : Pool)
    → IsFair size came p
    → IsFair size came (leave c p)
unfolding leave
leave-IsFair size came c p i = elim (Bool-cases (contains c p.running)) [
  | inl h ↦ rw h (
      hand_on-IsFair size came (record p { running = remove_call c p.running; ended = suc p.ended })
        p.waiting refl (omega (arith, i.full, length-remove_call c p.running h)) i.no_idle
        i.in_order (omega (arith, i.counted, length-remove_call c p.running h)))
  | inr n ↦ rw n i
]

turns-IsFair :
    (size : ℕ) (es : List PoolEvent) (came : List CallId) (p : Pool)
    → IsFair size came p
    → IsFair size (came ++ arrivals es) (turns es p)
unfolding turns turn arrivals
turns-IsFair size [] came p i = subst (λ x. IsFair size x p) (sym (append-nil came)) i
turns-IsFair size (called c ∷ es) came p i =
    subst (λ x. IsFair size x (turns es (enter c p p.value p.waiting)))
      (append_assoc came (c ∷ []) (arrivals es))
      (turns-IsFair size es (came ++ c ∷ []) (enter c p p.value p.waiting)
        (enter-IsFair size came c p p.value p.waiting refl refl i))
turns-IsFair size (done c ∷ es) came p i =
    turns-IsFair size es came (leave c p) (leave-IsFair size came c p i)

-- However calls come and end, at most `max_concurrency` of them run at once; they begin in the order in which they came,
-- and as many have begun as can have: all of them, or `max_concurrency` more than have ended, whichever is less.
pub turns_lem :
    (max_concurrency : ℕ) (es : List PoolEvent)
    → (length (turns es (new_pool max_concurrency)).running ≤ max_concurrency)
      × ((turns es (new_pool max_concurrency)).started
            ++ (turns es (new_pool max_concurrency)).waiting
          ≡ arrivals es)
      × (length (turns es (new_pool max_concurrency)).started
          ≡ min
              (length (arrivals es))
              (max_concurrency + (turns es (new_pool max_concurrency)).ended))
turns_lem size es = (omega (arith, fair.full), fair.in_order, begun fair.no_idle)
  where
    last : Pool
    last = turns es (new_pool size)

    fair : IsFair size (arrivals es) (turns es (new_pool size))
    fair = turns-IsFair size es [] (new_pool size) (new_pool-IsFair size)

    came : length last.started + length last.waiting ≡ length (arrivals es)
    came = sym (length-append last.started last.waiting) ∙ ap length fair.in_order

    begun :
        ((last.waiting ≡ []) ⊎ (last.value ≡ 0))
        → length last.started ≡ min (length (arrivals es)) (size + last.ended)
    begun (inl e) = omega (arith, fair.full, fair.counted, came, ap (length {0}) e)
    begun (inr e) = omega (arith, fair.full, fair.counted, came, e)
