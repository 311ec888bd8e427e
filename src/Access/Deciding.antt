-- ===== src/Access/Deciding.antt =====
-- What src/auth.py lets through, and whose key src/agent_key_vault.py gives out.
use ops_sentry.Prelude.{
  string_eq, nat_eq, String, ◌≡◌, refl, Bool, true, false, not, ◌&&◌, ◌||◌, none, some, List, ◌==◌,
  Result, ok, err, ◌>>=◌, contains, arith, Bool-cases, inl, inr, ◌⊎◌, sym, ◌∙◌,
}
use ops_sentry.Ledger.Entry.{get_or}
use ops_sentry.Access.{
  CurrentUser, Decoded, valid, expired_signature, invalid_token, is_missing, decode_token, user_of,
  get_current_user, require_role, verify_resource_ownership, authorize, Secret, Sources, secret_in,
  build_key_set, resolve_keys,
}

-- Who may pass: an administrator, or the owner in a role that is allowed.
abbrev pub may_pass : List String → String → CurrentUser → Bool
may_pass allowed_roles resource_uid u =
    u.role == "admin" || (contains u.role allowed_roles && resource_uid == u.user_id)

abbrev pub is_ok {ℓ κ} : {E : Type ℓ} {A : Type κ} → Result E A → Bool
is_ok (ok a) = true
is_ok (err e) = false

-- The decision on a decoded token.
abbrev pub decision : List String → String → Decoded → Bool
decision allowed_roles resource_uid expired_signature = false
decision allowed_roles resource_uid invalid_token = false
decision allowed_roles resource_uid (valid c) =
    not (is_missing c.sub)
    && (not (is_missing c.role)
        && (not (is_missing c.org_id)
            && may_pass allowed_roles resource_uid (record {
              user_id = get_or c.sub "";
              role = get_or c.role "";
              org_id = get_or c.org_id "";
            })))

decide :
    (allowed_roles : List String) (resource_uid : String) (u : CurrentUser)
    → is_ok (require_role allowed_roles u >>= verify_resource_ownership resource_uid)
      ≡ may_pass allowed_roles resource_uid u
unfolding require_role verify_resource_ownership
decide allowed_roles resource_uid u = ground arith

-- A request passes exactly if its token is valid and has all three claims, none of them empty, and its user is an
-- administrator, or owns the resource and has one of the roles that are allowed.
pub authorize-eq-decision :
    (d : Decoded) (allowed_roles : List String) (resource_uid : String)
    → is_ok (authorize d allowed_roles resource_uid) ≡ decision allowed_roles resource_uid d
unfolding authorize get_current_user decode_token user_of
authorize-eq-decision expired_signature allowed_roles resource_uid = refl
authorize-eq-decision invalid_token allowed_roles resource_uid = refl
authorize-eq-decision (valid c) allowed_roles resource_uid =
    elim (Bool-cases (is_missing c.sub || (is_missing c.role || is_missing c.org_id))) [
      | inl p ↦ rw p (ground (arith, p))
      | inr q ↦ rw q (
          decide allowed_roles resource_uid (record {
            user_id = get_or c.sub "";
            role = get_or c.role "";
            org_id = get_or c.org_id "";
          })
          ∙ present (is_missing c.sub) (is_missing c.role) (is_missing c.org_id) q)
    ]
  where
    present :
        (a b e : Bool) {x : Bool} → (a || (b || e)) ≡ false → x ≡ (not a && (not b && (not e && x)))
    present false false false h = refl
    present false false true h = cc h
    present false true e h = cc h
    present true b e h = cc h

-- The keys of an agent depend on nothing beyond the first place that has the provider: its own secrets, or else the
-- account's.
pub resolve_keys_private :
    (did provider : String) (s t : Sources) (x : Secret)
    → (secret_in provider s.agent ≡ some x)
      ⊎ ((secret_in provider s.agent ≡ none) × (secret_in provider s.account ≡ some x))
    → (secret_in provider t.agent ≡ some x)
      ⊎ ((secret_in provider t.agent ≡ none) × (secret_in provider t.account ≡ some x))
    → resolve_keys did provider s ≡ resolve_keys did provider t
unfolding resolve_keys
resolve_keys_private did provider s t x h k = found s h ∙ sym (found t k)
  where
    found :
        (w : Sources)
        → (secret_in provider w.agent ≡ some x)
          ⊎ ((secret_in provider w.agent ≡ none) × (secret_in provider w.account ≡ some x))
        → resolve_keys did provider w ≡ build_key_set did provider x
    found w (inl a) = rw (a, resolve_keys) refl
    found w (inr (n, a)) = rw (n, a, resolve_keys) refl
