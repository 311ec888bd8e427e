-- ===== src/Sessions/Histories.antt =====
-- What is read back of a session's history of src/session_manager.py.
use ops_sentry.Prelude.{
  Option-cases, subst, string_eq, nat_eq, ℕ, zero, suc, ◌-◌, String, ◌≡◌, refl, false, Option, none,
  List, [], ◌∷◌, ◌++◌, ◌==◌, lookup, lookup-insert, drop, take_last, length, map, if◌then◌else◌,
  Bool-cases, inl, inr, ◌∙◌, ap, sym, beq_self, append_assoc, append-nil, eq_iff,
}
use ops_sentry.Prelude.Json.{Json}
use ops_sentry.Ledger.Entry.{get_or}
use ops_sentry.Sessions.{
  touch, session_id_of, get_or_create_session, Histories, Line, message, append_history,
  load_history, parsed, last_lines,
}

unfoldable pub append_all : String → List Json → Histories → Histories
append_all k [] h = h
append_all k (m ∷ ms) h = append_all k ms (append_history k m h)

abbrev pub lines_of : String → Histories → List Line
lines_of k h = get_or (lookup k h) []

pub lines_of-append_history :
    (j k : String) (m : Json) (h : Histories)
    → lines_of j (append_history k m h)
      ≡ (if k == j then lines_of k h ++ message m ∷ [] else lines_of j h)
unfolding append_history
lines_of-append_history j k m h = elim (Bool-cases (k == j)) [
  | inl p ↦ rw (lookup-insert k j (lines_of k h ++ message m ∷ []) h, p) refl
  | inr q ↦ rw (lookup-insert k j (lines_of k h ++ message m ∷ []) h, q) refl
]

lines_of-append_all :
    (j k : String) (ms : List Json) (h : Histories)
    → lines_of j (append_all k ms h)
      ≡ (if k == j then lines_of j h ++ map message ms else lines_of j h)
unfolding append_all
lines_of-append_all j k [] h = elim (Bool-cases (k == j)) [
  | inl p ↦ rw p (sym (append-nil (lines_of j h)))
  | inr q ↦ rw q refl
]
lines_of-append_all j k (m ∷ ms) h = elim (Bool-cases (k == j)) [
  | inl p ↦
      rw (lines_of-append_all j k ms (append_history k m h), lines_of-append_history j k m h, p)
        (append_assoc (lines_of k h) (message m ∷ []) (map message ms)
          ∙ ap (λ x. lines_of x h ++ map message (m ∷ ms)) ((eq_iff k j).0 p))
  | inr q ↦
      rw (lines_of-append_all j k ms (append_history k m h), lines_of-append_history j k m h, q)
        refl
]

parsed-message : (ms : List Json) → parsed (map message ms) ≡ ms
parsed-message [] = refl
parsed-message (m ∷ ms) = ap (λ x. m ∷ x) (parsed-message ms)

drop-map : (n : ℕ) (ms : List Json) → drop n (map message ms) ≡ map message (drop n ms)
drop-map zero ms = refl
drop-map (suc n) [] = refl
drop-map (suc n) (m ∷ ms) = drop-map n ms

length-map : (ms : List Json) → length (map message ms) ≡ length ms
length-map [] = refl
length-map (m ∷ ms) = ap suc (length-map ms)

-- Messages that are appended to a new session come back in their order: the last `limit` of them, for a limit that is not
-- 0. The history of every other session stays as it was.
pub load_history-append_all :
    (k j : String) (limit : ℕ) (ms : List Json) (h : Histories)
    → (limit == 0) ≡ false
    → lookup k h ≡ none
    → (k == j) ≡ false
    → (load_history k limit (append_all k ms h) ≡ take_last limit ms)
      × (load_history j limit (append_all k ms h) ≡ load_history j limit h)
unfolding load_history
load_history-append_all k j limit ms h some_limit new other = (mine, theirs)
  where
    lines : lines_of k (append_all k ms h) ≡ map message ms
    lines = lines_of-append_all k k ms h ∙ rw (beq_self k, new) refl

    last : (x : List Line) → last_lines limit x ≡ take_last limit x
    last x = rw some_limit refl

    mine : parsed (last_lines limit (lines_of k (append_all k ms h))) ≡ take_last limit ms
    mine =
        ap parsed (last (lines_of k (append_all k ms h)))
        ∙ ap (λ x. parsed (take_last limit x)) lines
        ∙ ap parsed (drop-map (length (map message ms) - limit) ms)
        ∙ parsed-message (drop (length (map message ms) - limit) ms)
        ∙ ap (λ n. drop (n - limit) ms) (length-map ms)

    theirs :
        parsed (last_lines limit (lines_of j (append_all k ms h)))
        ≡ parsed (last_lines limit (lines_of j h))
    theirs = ap (λ x. parsed (last_lines limit x)) (lines_of-append_all j k ms h ∙ rw other refl)

pub lines_of-touch : (k j : String) (h : Histories) → lines_of j (touch k h) ≡ lines_of j h
unfolding touch
lines_of-touch k j h = elim (Option-cases (lookup k h)) [
  | inl n ↦ rw n (elim (Bool-cases (k == j)) [
    | inl p ↦
        rw (lookup-insert k j [] h, p)
          (subst (λ x. [] ≡ lines_of x h) ((eq_iff k j).0 p) (rw n refl))
    | inr q ↦ rw (lookup-insert k j [] h, q) refl
  ])
  | inr (x, f) ↦ rw f refl
]

-- To open a session, new or not, changes no history, its own included.
pub load_history-get_or_create_session :
    (uid did : String) (given : Option String) (now : ℕ) (created_at updated_at : String)
    (h : Histories) (j : String) (limit : ℕ)
    → load_history j limit (get_or_create_session uid did given now created_at updated_at h).1
      ≡ load_history j limit h
unfolding load_history get_or_create_session
load_history-get_or_create_session uid did given now created_at updated_at h j limit =
    ap (λ x. parsed (last_lines limit x)) (lines_of-touch (session_id_of uid did given now) j h)
