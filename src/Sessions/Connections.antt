-- ===== src/Sessions/Connections.antt =====
-- Who listens after connections come and go in src/routers/sessions.py, and what they are sent.
use ops_sentry.Prelude.{
  Dict, string_eq, nat_eq, String, ◌≡◌, refl, Bool, true, false, some, List, [], ◌∷◌, ◌++◌, ◌==◌,
  lookup, insert, lookup-insert, lookup-remove, contains, map, filter, ok, if◌then◌else◌, arith,
  Bool-cases, inl, inr, ◌∙◌, ap, sym, beq_self, append_assoc, append-nil, eq_iff,
}
use ops_sentry.Prelude.Json.{Json}
use ops_sentry.Ledger.Entry.{get_or}
use ops_sentry.Sessions.{
  Hub, WebSocket, connect, disconnect, put_back, remove_first, send_to, broadcast_to_session,
}

abbrev pub listeners : String → Hub → List WebSocket
listeners k h = get_or (lookup k h.active) []

sent-send_to :
    (works : WebSocket → Bool) (m : Json) (ws : List WebSocket) (h : Hub)
    → (send_to works m ws h).sent ≡ h.sent ++ map (λ w. (w, m)) (filter works ws)
unfolding send_to
sent-send_to works m [] h = sym (append-nil h.sent)
sent-send_to works m (w ∷ ws) h = elim (Bool-cases (works w)) [
  | inl p ↦ simp (p) (
      sent-send_to works m ws (record h { sent = h.sent ++ (w, m) ∷ [] })
      ∙ append_assoc h.sent ((w, m) ∷ []) _)
  | inr q ↦ simp (q) (sent-send_to works m ws h)
]

remove_first-append :
    (w : WebSocket) (ws : List WebSocket)
    → contains w ws ≡ false
    → remove_first w (ws ++ w ∷ []) ≡ ws
unfolding remove_first
remove_first-append w [] n = rw (beq_self w) refl
remove_first-append w (x ∷ ws) n = ground (arith, remove_first-append w ws)

contains_last : (w : WebSocket) (ws : List WebSocket) → contains w (ws ++ w ∷ []) ≡ true
contains_last w [] = rw (beq_self w) refl
contains_last w (x ∷ ws) = ground (arith, contains_last w ws)

-- A broadcast to a session right after a connection goes to those that listened before and to the new one, each that does not
-- fail, once and in the order they came.
pub sent-broadcast-connect :
    (works : WebSocket → Bool) (k : String) (w : WebSocket) (m : Json) (h : Hub)
    → (broadcast_to_session works k m (connect k w h)).sent
      ≡ h.sent ++ map (λ x. (x, m)) (filter works (listeners k h ++ w ∷ []))
unfolding broadcast_to_session connect
sent-broadcast-connect works k w m h =
    ap (λ ws. (send_to works m ws (connect k w h)).sent)
      (ap (λ o. get_or o []) {y = some (listeners k h ++ w ∷ [])}
        (lookup-insert k k (listeners k h ++ w ∷ []) h.active ∙ rw (beq_self k) refl))
    ∙ sent-send_to works m (listeners k h ++ w ∷ []) (connect k w h)

listeners-put_back :
    (k j : String) (ws : List WebSocket) (d : Dict String (List WebSocket))
    → get_or (lookup j (put_back k ws d)) [] ≡ (if k == j then ws else get_or (lookup j d) [])
listeners-put_back k j [] d = elim (Bool-cases (k == j)) [
  | inl p ↦ rw (lookup-remove k j d, p) refl
  | inr q ↦ rw (lookup-remove k j d, q) refl
]
listeners-put_back k j (w ∷ ws) d = elim (Bool-cases (k == j)) [
  | inl p ↦ rw (lookup-insert k j (w ∷ ws) d, p) refl
  | inr q ↦ rw (lookup-insert k j (w ∷ ws) d, q) refl
]

-- A connection that is not there yet and that comes and goes leaves the listeners of every session as they were.
pub listeners-disconnect-connect :
    (k j : String) (w : WebSocket) (h : Hub)
    → contains w (listeners k h) ≡ false
    → ((disconnect k w (connect k w h)).0 ≡ ok tt)
      × (listeners j (disconnect k w (connect k w h)).1 ≡ listeners j h)
unfolding disconnect connect
listeners-disconnect-connect k j w h n =
    rw
      (
        lookup-insert k k (listeners k h ++ w ∷ []) h.active,
        beq_self k,
        contains_last w (listeners k h),
        remove_first-append w (listeners k h) n,
      )
      (refl, there)
  where
    there :
        get_or
          (lookup j (put_back k (listeners k h) (insert k (listeners k h ++ w ∷ []) h.active)))
          []
        ≡ listeners j h
    there = elim (Bool-cases (k == j)) [
      | inl p ↦
          rw
            (
              listeners-put_back k j (listeners k h) (insert k (listeners k h ++ w ∷ []) h.active),
              p,
            )
            (ap (λ x. listeners x h) ((eq_iff k j).0 p))
      | inr q ↦
          rw
            (
              listeners-put_back k j (listeners k h) (insert k (listeners k h ++ w ∷ []) h.active),
              q,
              lookup-insert k j (listeners k h ++ w ∷ []) h.active,
              q,
            )
            refl
    ]
