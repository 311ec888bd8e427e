-- ===== src/Routing/Starting.antt =====
-- The tasks that a message starts in src/message_router.py, and what they do.
use ops_sentry.Prelude.{
  string_eq, nat_eq, ℕ, zero, suc, ◌+◌, String, ◌≡◌, refl, sym, ap, ◌∙◌, subst, false, Option, none,
  some, List, [], ◌∷◌, ◌++◌, List-cases, append_assoc, append-nil, Dict, ok, err, length, All, ◌==◌,
  arith, beq_self, Result-cases, inl, inr,
}
use ops_sentry.Prelude.Json.{Json}
use ops_sentry.Agents.Validation.{AgentError}
use ops_sentry.Agents.Profiles.{Accounts, AgentProfile, resolve}
use ops_sentry.Agents.Manager.{get_agent}
use ops_sentry.Sessions.{Histories, message, touch, session_id_of, get_or_create_session}
use ops_sentry.Sessions.Histories.{lines_of, lines_of-append_history, lines_of-touch}
use ops_sentry.Routing.{
  Task, Bus, Site, note, routed_note, user_message, turn, route_all, repeated, route_message,
  extract_mentions, run_inference,
}
use ops_sentry.Routing.Mentions.{resolve-extract_mentions}

abbrev pub last_of : String → List String → String
last_of m [] = m
last_of m (x ∷ ms) = last_of x ms

last_of-All {ℓ} :
    (P : String → Type ℓ) (m : String) (ms : List String) → All P (m ∷ ms) → P (last_of m ms)
last_of-All P m [] a = a.0
last_of-All P m (x ∷ ms) a = last_of-All P x ms a.1

module _ (x : Site) (uid session_id content : String) where
  count-route_all :
      (ms : List String) (h : Histories) (n : ℕ) (last : Option Task)
      → (route_all x uid session_id content ms h n last).1 ≡ length ms + n
  unfolding route_all
  count-route_all [] h n last = omega arith
  count-route_all (m ∷ ms) h n last = omega (
    arith,
    count-route_all ms (turn x uid session_id content m h).0 (suc n)
        (some (turn x uid session_id content m h).1),
  )

  -- The last turn gives the variables their last values.
  last-route_all :
      (m : String) (ms : List String) (h : Histories) (n : ℕ) (last : Option Task)
      → (t : Task) × ((route_all x uid session_id content (m ∷ ms) h n last).2 ≡ some t)
        × (t.uid ≡ uid)
        × (t.did ≡ last_of m ms)
        × (((session_id == "") ≡ false) → t.session_id ≡ session_id)
  unfolding route_all turn get_or_create_session session_id_of
  last-route_all m [] h n last =
      ((turn x uid session_id content m h).1, refl, refl, refl, λ some_id. rw some_id refl)
  last-route_all m (k ∷ ms) h n last =
      last-route_all k ms (turn x uid session_id content m h).0 (suc n)
        (some (turn x uid session_id content m h).1)

  module _ (some_id : (session_id == "") ≡ false) where
    lines_of-turn :
        (target : String) (h : Histories)
        → lines_of session_id (turn x uid session_id content target h).0
          ≡ lines_of session_id h ++ message (user_message content) ∷ []
    unfolding turn get_or_create_session session_id_of
    lines_of-turn target h = rw some_id (
        lines_of-append_history session_id session_id (user_message content) (touch session_id h)
        ∙ rw (beq_self session_id) (
            ap (λ l. l ++ message (user_message content) ∷ [])
              (lines_of-touch session_id session_id h)))

    lines_of-route_all :
        (ms : List String) (h : Histories) (n : ℕ) (last : Option Task)
        → lines_of session_id (route_all x uid session_id content ms h n last).0
          ≡ lines_of session_id h ++ repeated (length ms) (message (user_message content))
    unfolding route_all
    lines_of-route_all [] h n last = sym (append-nil (lines_of session_id h))
    lines_of-route_all (m ∷ ms) h n last =
        lines_of-route_all ms (turn x uid session_id content m h).0 (suc n)
          (some (turn x uid session_id content m h).1)
        ∙ ap (λ l. l ++ repeated (length ms) (message (user_message content))) (lines_of-turn m h)
        ∙ append_assoc (lines_of session_id h) (message (user_message content) ∷ [])
            (repeated (length ms) (message (user_message content)))

-- A message with mentions, routed without an error under a session id that is not empty, starts a task for each of them; but
-- all of these are for the agent that is mentioned last, and the session gets the message as often as there are mentions.
pub route_message_lem :
    (x : Site) (n : ℕ) (uid session_id sender_did content m : String) (ms : List String) (b : Bus)
    → (session_id == "") ≡ false
    → extract_mentions content ≡ m ∷ ms
    → (route_message x n uid session_id sender_did content b).0 ≡ ok tt
    → (t : Task) × ((route_message x n uid session_id sender_did content b).1.tasks
        ≡ b.tasks ++ repeated (suc (length ms)) t)
      × (t.uid ≡ uid)
      × (t.did ≡ last_of m ms)
      × (t.session_id ≡ session_id)
      × (lines_of session_id (route_message x n uid session_id sender_did content b).1.histories
          ≡ lines_of session_id b.histories
            ++ repeated (suc (length ms)) (message (user_message content)))
unfolding route_message note
route_message_lem x n uid session_id sender_did content m ms b some_id mentions done =
    let l = last-route_all x uid session_id content m ms b.histories 0 none in
    elim (Result-cases
      (note x n "message_routed"
        (routed_note session_id sender_did (extract_mentions content) content) b).0) [
          | inl (entry, f) ↦
              rw (f, mentions, l.1, count)
                (
                  l.0,
                  refl,
                  l.2,
                  l.3,
                  l.4 some_id,
                  lines_of-route_all x uid session_id content some_id (m ∷ ms) b.histories 0 none,
                )
          | inr (e, f) ↦ cc (rw f at done)
        ]
  where
    count : (route_all x uid session_id content (m ∷ ms) b.histories 0 none).1 ≡ suc (length ms)
    count = omega (arith, count-route_all x uid session_id content (m ∷ ms) b.histories 0 none)

-- Without an agent's directory nothing is inferred.
run_inference-resolve :
    (x : Site) (accounts : Accounts) (chunks : AgentProfile → List Json → List (Dict String Json))
    (t : Task) (e : AgentError)
    → resolve t.uid t.did accounts ≡ err e
    → (b : Bus) → run_inference x accounts chunks t b ≡ b
unfolding run_inference get_agent
run_inference-resolve x accounts chunks t e f b = rw f refl

All-repeated {ℓ κ} : {A : Type ℓ} (P : A → Type κ) (n : ℕ) (a : A) → P a → All P (repeated n a)
All-repeated P zero a p = tt
All-repeated P (suc n) a p = (p, All-repeated P n a p)

-- The tasks that a message starts, whether it is routed without an error or not, do nothing: whatever agents there are, and
-- whatever their model would answer, each leaves the ledger, the sessions and the listeners as they are when it begins.
pub run_inference_lem :
    (x : Site) (accounts : Accounts) (chunks : AgentProfile → List Json → List (Dict String Json))
    (n : ℕ) (uid session_id sender_did content : String) (b : Bus)
    → (started : List Task) × ((route_message x n uid session_id sender_did content b).1.tasks
        ≡ b.tasks ++ started)
      × All (λ t. (b' : Bus) → run_inference x accounts chunks t b' ≡ b') started
unfolding route_message note
run_inference_lem x accounts chunks n uid session_id sender_did content b =
    elim (Result-cases
      (note x n "message_routed"
        (routed_note session_id sender_did (extract_mentions content) content) b).0) [
          | inr (e, f) ↦ rw f ([], sym (append-nil b.tasks), tt)
          | inl (entry, f) ↦ elim (List-cases (extract_mentions content)) [
            | inl none_found ↦ rw (f, none_found) ([], sym (append-nil b.tasks), tt)
            | inr (m, ms, mentions) ↦
                let l = last-route_all x uid session_id content m ms b.histories 0 none in
                let r =
                  last_of-All (λ k. (e : AgentError) × (resolve uid k accounts ≡ err e)) m ms
                    (subst
                      (λ found.
                        All (λ k. (e : AgentError) × (resolve uid k accounts ≡ err e)) found)
                      mentions (resolve-extract_mentions uid content accounts)) in
                rw (f, mentions, l.1)
                  (
                    repeated (route_all x uid session_id content (m ∷ ms) b.histories 0 none).1 l.0,
                    refl,
                    All-repeated _
                        (route_all x uid session_id content (m ∷ ms) b.histories 0 none).1 l.0
                        (run_inference-resolve x accounts chunks l.0 r.0 (rw (l.2, l.3) r.1)),
                  )
          ]
        ]
