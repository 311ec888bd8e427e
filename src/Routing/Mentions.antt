-- ===== src/Routing/Mentions.antt =====
-- The mentions that src/message_router.py finds are no names of agents.
use Prim.Native.Char.{Char, code}
use ops_sentry.Prelude.{
  string_eq, nat_eq, ℕ, zero, suc, String, ◌≡◌, refl, ap, ◌∙◌, Bool, false, Option, none, some,
  List, [], ◌∷◌, err, All, ◌==◌, Bool-cases, Option-cases, eq_iff, Result-cases, All-map_of, inl,
  inr,
}
use ops_sentry.Prelude.Texts.{chars, strip, strip_left, strip_right, keep, upper, is_prefix}
use ops_sentry.Agents.Validation.{AgentError, require_non_empty, check_did, normalize_did}
use ops_sentry.Agents.Profiles.{Accounts, resolve}
use ops_sentry.Routing.{
  is_code, hexes, mention_pattern, longer, match_front, find_mentions, extract_mentions,
}

-- A text that begins with "@".
abbrev pub IsMention : String → Type 0
IsMention m = (c : Char) × (s : String) × (m ≡ String.◌∷◌ c s) × (code c ≡ 64)

abbrev after_at : List (Char → Bool)
after_at = is_code 68 ∷ is_code 73 ∷ is_code 68 ∷ is_code 45 ∷ hexes 8 (is_code 45 ∷ hexes 6 [])

longer-some :
    (c : Char) (r : Option String) (m : String)
    → longer c r ≡ some m
    → (s : String) × (m ≡ String.◌∷◌ c s)
longer-some c none m h = cc h
longer-some c (some s) m h = (s, cc h)

match_front-IsMention :
    (c : Char) (s : List Char) (m : String)
    → match_front mention_pattern (c ∷ s) ≡ some m
    → IsMention m
unfolding match_front
match_front-IsMention c s m h = elim (Bool-cases (code c == 64)) [
  | inl p ↦
      let r = longer-some c (match_front (after_at) s) m (rw p at h) in
      (c, r.0, r.1, (nat_eq.same_iff (code c) 64).0 p)
  | inr q ↦ cc (rw q at h)
]

find_mentions-IsMention : (skip : ℕ) (s : List Char) → All IsMention (find_mentions skip s)
unfolding find_mentions
find_mentions-IsMention skip [] = tt
find_mentions-IsMention (suc skip) (c ∷ s) = find_mentions-IsMention skip s
find_mentions-IsMention zero (c ∷ s) = elim (Option-cases (match_front mention_pattern (c ∷ s))) [
  | inl n ↦ rw n (find_mentions-IsMention 0 s)
  | inr (m, f) ↦ rw f (match_front-IsMention c s m f, find_mentions-IsMention 19 s)
]

keep_first : (c : Char) (r : String) → code c ≡ 64 → (s : String) × (keep c r ≡ String.◌∷◌ c s)
keep_first c String.[] at = (String.[], rw at refl)
keep_first c (String.◌∷◌ d r) at = (String.◌∷◌ d r, refl)

strip-IsMention :
    (c : Char) (s : String) → code c ≡ 64 → (r : String) × (strip (String.◌∷◌ c s) ≡ String.◌∷◌ c r)
unfolding strip strip_left strip_right
strip-IsMention c s at = rw at (keep_first c (strip_right s) at)

check_did_refuses :
    (c : Char) (s : String)
    → code c ≡ 64
    → (e : AgentError) × (check_did (upper (String.◌∷◌ c s)) ≡ err e)
unfolding check_did upper is_prefix
check_did_refuses c s at = rw (at, at) (_, refl)

cons_is_not_empty : (c : Char) (s : String) → (String.◌∷◌ c s == "") ≡ false
cons_is_not_empty c s = elim (Bool-cases (String.◌∷◌ c s == "")) [
  | inl p ↦ cc ((eq_iff (String.◌∷◌ c s) "").0 p)
  | inr q ↦ q
]

normalize_did-IsMention : (m : String) → IsMention m → (e : AgentError) × (normalize_did m ≡ err e)
unfolding normalize_did require_non_empty
normalize_did-IsMention m (c, s, f, at) =
    let r = strip-IsMention c s at in
    let e = check_did_refuses c r.0 at in
    (e.0, ap normalize_did f ∙ rw (r.1, cons_is_not_empty c r.0) (e.1))

-- No mention that is found in a text names an agent: in whatever account, its directory is not resolved.
pub resolve-extract_mentions :
    (uid content : String) (accounts : Accounts)
    → All (λ m. (e : AgentError) × (resolve uid m accounts ≡ err e)) (extract_mentions content)
unfolding resolve extract_mentions
resolve-extract_mentions uid content accounts =
    All-map_of IsMention _ refused (find_mentions 0 (chars content))
      (find_mentions-IsMention 0 (chars content))
  where
    refused : (m : String) → IsMention m → (e : AgentError) × (resolve uid m accounts ≡ err e)
    refused m at = elim (Result-cases (require_non_empty "uid" uid)) [
      | inl (u, f) ↦ let n = normalize_did-IsMention m at in (n.0, rw (f, n.1) refl)
      | inr (e, f) ↦ (e, rw f refl)
    ]
