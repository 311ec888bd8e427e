-- ===== src/Routers/Ownership.antt =====
-- Whose agents the requests of src/routers/agents.py and src/routers/skills.py can change.
use ops_sentry.Prelude.{
  string_eq, nat_eq, ℕ, String, ◌≡◌, refl, ap, ◌∙◌, Bool, true, false, not, ◌&&◌, ◌||◌, List, [],
  ◌∷◌, Result, ok, err, ◌>>=◌, contains, All, ◌==◌, Bool-cases, inl, inr, ◌⊎◌, eq_iff,
}
use ops_sentry.Prelude.Texts.{strip}
use ops_sentry.Access.{
  CurrentUser, HttpException, Decoded, get_current_user, require_role, verify_resource_ownership,
}
use ops_sentry.Agents.Validation.{AgentError}
use ops_sentry.Agents.Profiles.{Accounts, core_of, is_plain_name}
use ops_sentry.Agents.Manager.{list_agents, get_agent, read_core_file}
use ops_sentry.Agents.Isolation.{
  Call, updates, deletes, binds, unbinds, is_about, perform_named, perform_named_elsewhere,
  create_elsewhere,
}
use ops_sentry.Routers.Agents.{
  OtherPaths, in_account, tried, profile, profiles, core_file, AgentReply, AgentRequest, post_agent,
  get_agents, get_one, patch_one, delete_one, get_core_file, post_skill, delete_skill, post_exec,
  operators, get_resource_uid, as_operator, owner_and_operator, after, serve, serve_all,
  bind_skill_to_agent, unbind_skill_from_agent,
}

-- A token that gives no right to change the account u: it is refused, or is that of no administrator, and its user, if an
-- operator, has a plain name for an id that is not u, with or without outer blanks.
abbrev pub is_foreign_user : String → Result HttpException CurrentUser → Bool
is_foreign_user u (err e) = true
is_foreign_user u (ok user) =
    not (user.role == "admin")
    && (not (contains user.role operators)
        || (is_plain_name (strip user.user_id)
            && not (user.user_id == u)
            && not (strip user.user_id == u)))

abbrev pub is_foreign : String → Decoded → Bool
is_foreign u d = is_foreign_user u (get_current_user d)

abbrev IsElsewhere : String → String → Type 0
IsElsewhere u uid =
    ((uid == u) ≡ false) × ((strip uid == u) ≡ false) × (is_plain_name (strip uid) ≡ true)

-- A foreign user that is let in has the operator's role and asks for an account elsewhere.
foreign_cases :
    (u uid : String) (user : CurrentUser)
    → is_foreign_user u (ok user) ≡ true
    → ((user.role == "admin") ≡ false)
      × (((uid == user.user_id) ≡ false)
          ⊎ ((contains user.role operators ≡ false)
              ⊎ (((uid == user.user_id) ≡ true)
                  × (contains user.role operators ≡ true)
                  × IsElsewhere u uid)))
foreign_cases u uid user h = elim (Bool-cases (user.role == "admin")) [
  | inl p ↦ cc (rw p at h)
  | inr q ↦ (
    q,
    elim (Bool-cases (uid == user.user_id)) [
      | inr n ↦ inl n
      | inl o ↦ inr (elim (Bool-cases (contains user.role operators)) [
        | inr n ↦ inl n
        | inl c ↦ inr (o, c, elsewhere ((eq_iff uid user.user_id).0 o) (rw (q, c) at h))
      ])
    ],
  )
]
  where
    elsewhere :
        uid ≡ user.user_id
        → (is_plain_name (strip user.user_id)
            && not (user.user_id == u)
            && not (strip user.user_id == u))
          ≡ true
        → IsElsewhere u uid
    elsewhere e k = rw e (elim (Bool-cases (is_plain_name (strip user.user_id))) [
      | inr n ↦ cc (rw n at k)
      | inl n ↦ elim (Bool-cases (user.user_id == u)) [
        | inl p ↦ cc (rw (n, p) at k)
        | inr q ↦ elim (Bool-cases (strip user.user_id == u)) [
          | inl p ↦ cc (rw (n, q, p) at k)
          | inr r ↦ (q, r, n)
        ]
      ]
    ])

-- How both dependencies of a route end, in either order.
foreign_owner :
    (u uid : String) (r : Result HttpException CurrentUser)
    → is_foreign_user u r ≡ true
    → ((e : HttpException) × (((r >>= verify_resource_ownership uid) >>= λ v.
            r >>= require_role operators >>= λ user. ok v)
          ≡ err e))
      ⊎ ((((r >>= verify_resource_ownership uid) >>= λ v.
              r >>= require_role operators >>= λ user. ok v)
            ≡ ok uid)
          × IsElsewhere u uid)
unfolding verify_resource_ownership require_role
foreign_owner u uid (err e) h = inl (e, refl)
foreign_owner u uid (ok user) h =
    let f = foreign_cases u uid user h in
    elim f.1 [
      | inl n ↦ rw (f.0, n) (inl (_, refl))
      | inr (inl n) ↦ elim (Bool-cases (uid == user.user_id)) [
        | inr o ↦ rw (f.0, o) (inl (_, refl))
        | inl o ↦ rw (f.0, o, n) (inl (_, refl))
      ]
      | inr (inr (o, c, e)) ↦ rw (f.0, o, c) (inr (refl, e))
    ]

foreign_operator :
    (u uid : String) (r : Result HttpException CurrentUser)
    → is_foreign_user u r ≡ true
    → ((e : HttpException) × ((r >>= require_role operators >>= verify_resource_ownership uid)
          ≡ err e))
      ⊎ (((r >>= require_role operators >>= verify_resource_ownership uid) ≡ ok uid)
          × IsElsewhere u uid)
unfolding verify_resource_ownership require_role
foreign_operator u uid (err e) h = inl (e, refl)
foreign_operator u uid (ok user) h =
    let f = foreign_cases u uid user h in
    elim f.1 [
      | inr (inl n) ↦ rw (f.0, n) (inl (_, refl))
      | inl n ↦ elim (Bool-cases (contains user.role operators)) [
        | inr c ↦ rw (f.0, c) (inl (_, refl))
        | inl c ↦ rw (f.0, c, f.0, n) (inl (_, refl))
      ]
      | inr (inr (o, c, e)) ↦ rw (f.0, c, f.0, o) (inr (refl, e))
    ]

module _ (other : OtherPaths) (show : AgentError → String) (u k : String) where
  -- A route's body is run for an account elsewhere, or not at all.
  after_elsewhere :
      (d : Decoded) (uid : String)
      (body : String → Accounts → Result HttpException AgentReply × Accounts) (s : Accounts)
      → is_foreign u d ≡ true
      → (IsElsewhere u uid → core_of u k (body uid s).1 ≡ core_of u k s)
      → core_of u k (after (owner_and_operator d uid) body s).1 ≡ core_of u k s
  unfolding get_resource_uid owner_and_operator as_operator
  after_elsewhere d uid body s f w = elim (foreign_owner u uid (get_current_user d) f) [
    | inl (e, g) ↦ rw g refl
    | inr (g, other) ↦ rw g (w other)
  ]

  -- A route that only reads.
  after_read :
      {A : Type 0} (r : Result HttpException A)
      (body : A → Accounts → Result HttpException AgentReply × Accounts) (s : Accounts)
      → ((a : A) → (body a s).1 ≡ s)
      → core_of u k (after r body s).1 ≡ core_of u k s
  after_read (ok a) body s w = ap (core_of u k) (w a)
  after_read (err e) body s w = refl

  -- A call that is about no agent of u.
  away :
      (c : Call) (s : Accounts)
      → is_about u k c ≡ false
      → core_of u k (perform_named c s) ≡ core_of u k s
  away c s n = perform_named_elsewhere u k c s n

  -- A route that only reads, under whatever uid.
  read_only :
      (r : Result HttpException AgentReply) (uid : String)
      (here : Result HttpException AgentReply × Accounts) (s : Accounts)
      → here.1 ≡ s
      → (in_account (r, s) uid here).1 ≡ s
  read_only r uid here s h = elim (Bool-cases (is_plain_name (strip uid))) [
    | inl p ↦ rw p h
    | inr q ↦ rw q refl
  ]

  serve_elsewhere :
      (d : Decoded) (q : AgentRequest) (s : Accounts)
      → is_foreign u d ≡ true
      → core_of u k (serve other show d q s).1 ≡ core_of u k s
  unfolding serve as_operator perform_named list_agents get_agent read_core_file
  serve_elsewhere d (post_agent c fresh now) s f =
      elim (foreign_operator u c.uid (get_current_user d) f) [
        | inl (e, g) ↦ rw g refl
        | inr (g, e) ↦ rw (g, e.2) (create_elsewhere u k c fresh now s (rw e.0 refl))
      ]
  serve_elsewhere d (get_agents uid) s f = after_read (get_resource_uid d uid) _ s (λ a.
      read_only (other.reads (get_agents uid) s) a (tried show 500 profiles (list_agents a s)) s
        refl)
  serve_elsewhere d (get_one uid did) s f = after_read (get_resource_uid d uid) _ s (λ a.
      read_only (other.reads (get_one uid did) s) a (tried show 404 profile (get_agent a did s)) s
        refl)
  serve_elsewhere d (get_core_file uid did filename) s f =
      after_read (get_resource_uid d uid) _ s (λ a.
        read_only (other.reads (get_core_file uid did filename) s) a
          (tried show 404 (core_file filename) (read_core_file a did filename s)) s refl)
  serve_elsewhere d (post_exec uid did) s f = after_read (owner_and_operator d uid) _ s (λ a. refl)
  serve_elsewhere d (patch_one uid did patch now) s f =
      after_elsewhere d uid _ s f (λ e. rw e.2 (away (updates uid did patch now) s (rw e.1 refl)))
  serve_elsewhere d (delete_one uid did) s f =
      after_elsewhere d uid _ s f (λ e. rw e.2 (away (deletes uid did) s (rw e.1 refl)))
  serve_elsewhere d (post_skill uid did skill_id now) s f =
      after_elsewhere d uid _ s f (λ e. rw e.2 (away (binds uid did skill_id now) s (rw e.1 refl)))
  serve_elsewhere d (delete_skill uid did skill_id now) s f =
      after_elsewhere d uid _ s f
        (λ e. rw e.2 (away (unbinds uid did skill_id now) s (rw e.1 refl)))

-- Over any sequence of requests to the routes of the agents, none of which comes from an administrator, from an operator
-- whose id is u or is u within blanks, or from one whose id is no plain name, all agents of the account u stay as
-- they are, if u is a plain name.
pub serve_all_elsewhere :
    (other : OtherPaths) (show : AgentError → String) (u k : String)
    (qs : List (Decoded × AgentRequest)) (s : Accounts)
    → is_plain_name u ≡ true
    → All (λ r. is_foreign u r.0 ≡ true) qs
    → core_of u k (serve_all other show qs s) ≡ core_of u k s
unfolding serve_all
serve_all_elsewhere other show u k [] s _ f = refl
serve_all_elsewhere other show u k ((d, q) ∷ qs) s plain f =
    serve_all_elsewhere other show u k qs (serve other show d q s).1 plain f.1
    ∙ serve_elsewhere other show u k d q s f.0

-- What the agents' routes do for an administrator alone, the routes of the skills do for a request without a token.
pub bind_skill_to_agent-serve :
    (other : OtherPaths) (show : AgentError → String) (d : Decoded) (user : CurrentUser)
    (uid did skill : String) (now : ℕ) (s : Accounts)
    → is_plain_name (strip uid) ≡ true
    → get_current_user d ≡ ok user
    → (user.role == "admin") ≡ true
    → (bind_skill_to_agent show uid did skill now s
        ≡ serve other show d (post_skill uid did skill now) s)
      × (unbind_skill_from_agent show uid did skill now s
          ≡ serve other show d (delete_skill uid did skill now) s)
unfolding bind_skill_to_agent unbind_skill_from_agent serve owner_and_operator as_operator
    get_resource_uid verify_resource_ownership require_role
bind_skill_to_agent-serve other show d user uid did skill now s plain f admin =
    (rw (f, admin, plain) refl, rw (f, admin, plain) refl)
