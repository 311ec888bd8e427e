-- ===== src/Agents/Isolation.antt =====
-- Every operation of src/agent_manager.py leaves the directories of all other agents as they are.
use ops_sentry.Prelude.{
  string_eq, nat_eq, ℕ, String, ◌≡◌, refl, Bool, true, false, ◌&&◌, Option, none, some, List, [],
  ◌∷◌, Dict, ◌==◌, Result, ok, err, ◌>>=◌, ◌∙◌, ap, sym, contains, lookup, insert, remove,
  lookup-insert, lookup-remove, if◌then◌else◌, All, Bool-cases, Result-cases, inl, inr, eq_iff,
}
use ops_sentry.Prelude.Texts.{strip}
use ops_sentry.Ledger.Entry.{get_or}
use ops_sentry.Agents.Validation.{
  AgentError, require_non_empty, normalize_did, normalize_tools, normalize_skills,
  normalize_skill_name, validate_core_filename,
}
use ops_sentry.Agents.Profiles.{
  AgentCreateRequest, is_plain_name, init_request, AgentProfile, ToolConfig, Core, Accounts, Op,
  Place, at_place, build_tool_registry, core_of, put_core, drop_core, resolve, load_profile,
}
use ops_sentry.Agents.Manager.{
  Patch, from_result, built_profile, get_agent, written, create_unless, create_agent, generate_did,
  patch_rest, patched, patch_tools, patch_texts, refuse_unknown, update_agent, delete_agent,
  write_core_file, on_profile, update_tool_registry, bind_skill, unbind_skill,
}

-- A call that changes directories: its arguments, and for the making of an agent the fields that AgentCreateRequest is given and
-- the digits of a uuid.
pub data Call : Type 0 where
  creates : AgentCreateRequest → String → ℕ → Call
  updates : String → String → Patch → ℕ → Call
  deletes : String → String → Call
  writes : String → String → String → String → Call
  sets_tools : String → String → Dict String Bool → ℕ → Call
  binds : String → String → String → ℕ → Call
  unbinds : String → String → String → ℕ → Call

-- create_agent, where the request has not raised.
abbrev pub create_with : String → ℕ → Result AgentError AgentCreateRequest → Accounts → Accounts
create_with fresh now (ok c) s = (create_agent c fresh now s).1
create_with fresh now (err e) s = s

-- The directories after the call, returned from or raised from.
unfoldable pub perform_named : Call → Accounts → Accounts
unfolding init_request generate_did
perform_named (creates r token now) s = create_with (generate_did token) now (init_request r) s
perform_named (updates uid did patch now) s = (update_agent uid did patch now s).1
perform_named (deletes uid did) s = (delete_agent uid did s).1
perform_named (writes uid did filename content) s = (write_core_file uid did filename content s).1
perform_named (sets_tools uid did tools now) s = (update_tool_registry uid did tools now s).1
perform_named (binds uid did skill now) s = (bind_skill uid did skill now s).1
perform_named (unbinds uid did skill now) s = (unbind_skill uid did skill now s).1

-- The uid that goes into the path.
abbrev pub uid_of : Call → String
uid_of (creates r token now) = strip r.uid
uid_of (updates uid did patch now) = strip uid
uid_of (deletes uid did) = strip uid
uid_of (writes uid did filename content) = strip uid
uid_of (sets_tools uid did tools now) = strip uid
uid_of (binds uid did skill now) = strip uid
uid_of (unbinds uid did skill now) = strip uid

-- `outside` is what a call does whose uid is no plain name.
unfoldable pub perform : (Call → Accounts → Accounts) → Call → Accounts → Accounts
unfolding perform_named
perform outside c s =
    let away = outside c s in if is_plain_name (uid_of c) then perform_named c s else away

unfoldable pub perform_all : (Call → Accounts → Accounts) → List Call → Accounts → Accounts
perform_all outside [] s = s
perform_all outside (c ∷ cs) s = perform_all outside cs (perform outside c s)

at_place_lem :
    (uid did : String) (o : Option Core) (p : Place)
    → at_place uid did o ≡ ok p
    → (p.uid ≡ uid) × (p.did ≡ did)
at_place_lem uid did none p e = cc
at_place_lem uid did (some core) p e =
    let q : record { uid = uid; did = did; core = core } ≡ p = cc in
    (sym (ap (λ x. x.uid) q), sym (ap (λ x. x.did) q))

module _ (u d : String) where
  abbrev pub is_did : Result AgentError String → Bool
  is_did (err e) = false
  is_did (ok x) = x == d

  -- Whether a call's uid and did name this agent.
  abbrev pub names : String → String → Bool
  names uid did = strip uid == u && is_did (normalize_did did)

  abbrev pub makes : String → Result AgentError AgentCreateRequest → Bool
  makes fresh (ok c) = c.uid == u && get_or c.did fresh == d
  makes fresh (err e) = false

  abbrev pub is_about : Call → Bool
  is_about (creates r token now) = makes (generate_did token) (init_request r)
  is_about (updates uid did patch now) = names uid did
  is_about (deletes uid did) = names uid did
  is_about (writes uid did filename content) = names uid did
  is_about (sets_tools uid did tools now) = names uid did
  is_about (binds uid did skill now) = names uid did
  is_about (unbinds uid did skill now) = names uid did

  abbrev here : Accounts → Option Core
  here s = core_of u d s

  core_of-insert :
      (uid : String) (x : Dict String Core) (s : Accounts)
      → here (insert uid x s) ≡ (if uid == u then lookup d x else here s)
  unfolding core_of
  core_of-insert uid x s = elim (Bool-cases (uid == u)) [
    | inl p ↦ rw (lookup-insert uid u x s, p) refl
    | inr q ↦ rw (lookup-insert uid u x s, q) refl
  ]

  put_elsewhere :
      (uid did : String) (core : Core) (s : Accounts)
      → (uid == u && did == d) ≡ false
      → here (put_core uid did core s) ≡ here s
  unfolding put_core core_of
  put_elsewhere uid did core s n =
      core_of-insert uid (insert did core (get_or (lookup uid s) [])) s
      ∙ elim (Bool-cases (uid == u)) [
        | inr q ↦ rw q refl
        | inl p ↦
            rw
              (
                p,
                lookup-insert did d core (get_or (lookup uid s) []),
                rw p at n,
                (eq_iff uid u).0 p,
              )
              refl
      ]

  drop_elsewhere :
      (uid did : String) (s : Accounts)
      → (uid == u && did == d) ≡ false
      → here (drop_core uid did s) ≡ here s
  unfolding drop_core core_of
  drop_elsewhere uid did s n =
      core_of-insert uid (remove did (get_or (lookup uid s) [])) s ∙ elim (Bool-cases (uid == u)) [
        | inr q ↦ rw q refl
        | inl p ↦
            rw (p, lookup-remove did d (get_or (lookup uid s) []), rw p at n, (eq_iff uid u).0 p)
              refl
      ]

  -- A directory that is found is the one that uid and did name.
  found_elsewhere :
      (uid did : String) (s : Accounts) (p : Place)
      → names uid did ≡ false
      → resolve uid did s ≡ ok p
      → (p.uid == u && p.did == d) ≡ false
  unfolding resolve require_non_empty
  found_elsewhere uid did s p n e = elim (Bool-cases (strip uid == "")) [
    | inl b ↦ cc (rw b at e)
    | inr b ↦ elim (Result-cases (normalize_did did)) [
      | inr (x, g) ↦ cc (rw (b, g) at e)
      | inl (x, g) ↦
          let w = at_place_lem (strip uid) x (core_of (strip uid) x s) p (rw (b, g) at e) in
          rw (w.0, w.1) (rw g at n)
    ]
  ]

  -- Through `from_result` only what follows a value needs a look.
  through :
      {A B : Type 0} (r : Result AgentError A) (f : A → Op B) (s s0 : Accounts)
      → here s ≡ here s0
      → ((a : A) → r ≡ ok a → here (f a s).1 ≡ here s0)
      → here (from_result r f s).1 ≡ here s0
  through (ok a) f s s0 e w = w a refl
  through (err x) f s s0 e w = e

  -- An operation on a profile that is loaded.
  on_profile_elsewhere :
      {B : Type 0} (uid did : String) (f : Place → AgentProfile → Op B) (s : Accounts)
      → names uid did ≡ false
      → ((p : Place) (q : AgentProfile)
          → (p.uid == u && p.did == d) ≡ false
          → here (f p q s).1 ≡ here s)
      → here (on_profile uid did f s).1 ≡ here s
  on_profile_elsewhere uid did f s n w = through (resolve uid did s) _ s s refl (λ p e.
      through (load_profile p) (f p) s s refl (λ q _. w p q (found_elsewhere uid did s p n e)))

  bind_elsewhere :
      (uid did skill : String) (now : ℕ) (s : Accounts)
      → names uid did ≡ false
      → here (bind_skill uid did skill now s).1 ≡ here s
  unfolding bind_skill
  bind_elsewhere uid did skill now s n = through (normalize_skill_name skill) _ s s refl (λ x _.
      on_profile_elsewhere uid did _ s n (λ p q m. elim (Bool-cases (contains x q.skills)) [
        | inl a ↦ rw a refl
        | inr a ↦ rw a (put_elsewhere p.uid p.did _ s m)
      ]))

  unbind_elsewhere :
      (uid did skill : String) (now : ℕ) (s : Accounts)
      → names uid did ≡ false
      → here (unbind_skill uid did skill now s).1 ≡ here s
  unfolding unbind_skill
  unbind_elsewhere uid did skill now s n = through (normalize_skill_name skill) _ s s refl (λ x _.
      on_profile_elsewhere uid did _ s n (λ p q m. elim (Bool-cases (contains x q.skills)) [
        | inl a ↦ rw a (put_elsewhere p.uid p.did _ s m)
        | inr a ↦ rw a refl
      ]))

  sets_tools_elsewhere :
      (uid did : String) (tools : Dict String Bool) (now : ℕ) (s : Accounts)
      → names uid did ≡ false
      → here (update_tool_registry uid did tools now s).1 ≡ here s
  unfolding update_tool_registry
  sets_tools_elsewhere uid did tools now s n = through (normalize_tools tools) _ s s refl (λ x _.
      on_profile_elsewhere uid did _ s n (λ p q m.
        let first = put_elsewhere p.uid p.did _ s m in
        through (build_tool_registry x) _ _ s first
          (λ r _. put_elsewhere p.uid p.did _ _ m ∙ first)))

  write_elsewhere :
      (uid did filename content : String) (s : Accounts)
      → names uid did ≡ false
      → here (write_core_file uid did filename content s).1 ≡ here s
  unfolding write_core_file
  write_elsewhere uid did filename content s n =
      through (validate_core_filename filename) _ s s refl (λ x _.
        through (resolve uid did s) _ s s refl
          (λ p e. put_elsewhere p.uid p.did _ s (found_elsewhere uid did s p n e)))

  delete_elsewhere :
      (uid did : String) (s : Accounts)
      → names uid did ≡ false
      → here (delete_agent uid did s).1 ≡ here s
  unfolding delete_agent
  delete_elsewhere uid did s n =
      through (resolve uid did s) _ s s refl
        (λ p e. drop_elsewhere p.uid p.did s (found_elsewhere uid did s p n e))

  patch_elsewhere :
      (patch : Patch) (now : ℕ) (p : Place) (w : AgentProfile × Core) (s : Accounts)
      → (p.uid == u && p.did == d) ≡ false
      → here (patch_rest patch now p w s).1 ≡ here s
  patch_elsewhere patch now p (q, core) s m =
      let first = put_elsewhere p.uid p.did core s m in
      through (patched normalize_skills patch.skills q.skills) _ _ s first
        (λ x _. put_elsewhere p.uid p.did _ _ m ∙ first)

  update_elsewhere :
      (uid did : String) (patch : Patch) (now : ℕ) (s : Accounts)
      → names uid did ≡ false
      → here (update_agent uid did patch now s).1 ≡ here s
  unfolding update_agent
  update_elsewhere uid did patch now s n = through (resolve uid did s) _ s s refl (λ p e.
      through
        (load_profile p >>= λ q. refuse_unknown patch.unknown >>= λ _.
          patch_texts patch q >>= λ r. patch_tools patch.tools r p.core)
        _ s s refl (λ w _. patch_elsewhere patch now p w s (found_elsewhere uid did s p n e)))

  pub create_elsewhere :
      (c : AgentCreateRequest) (fresh : String) (now : ℕ) (s : Accounts)
      → (c.uid == u && get_or c.did fresh == d) ≡ false
      → here (create_agent c fresh now s).1 ≡ here s
  unfolding create_agent get_agent
  create_elsewhere c fresh now s n = by_core (core_of c.uid (get_or c.did fresh) s)
    where
      by_registry :
          (r : Result AgentError ToolConfig)
          → here (written (built_profile c (get_or c.did fresh) now) c.core_files r s).1 ≡ here s
      by_registry (ok r) = put_elsewhere c.uid (get_or c.did fresh) _ s n
      by_registry (err e) = put_elsewhere c.uid (get_or c.did fresh) _ s n

      by_core :
          (o : Option Core)
          → here (create_unless (built_profile c (get_or c.did fresh) now) c.core_files o s).1
            ≡ here s
      by_core (some core) = refl
      by_core none = by_registry (build_tool_registry c.tools)

  pub perform_named_elsewhere :
      (c : Call) (s : Accounts) → is_about c ≡ false → here (perform_named c s) ≡ here s
  unfolding perform_named
  perform_named_elsewhere (creates r token now) s n = by_request (init_request r) n
    where
      by_request :
          (q : Result AgentError AgentCreateRequest)
          → makes (generate_did token) q ≡ false
          → here (create_with (generate_did token) now q s) ≡ here s
      by_request (ok c) m = create_elsewhere c (generate_did token) now s m
      by_request (err e) m = refl
  perform_named_elsewhere (updates uid did patch now) s n = update_elsewhere uid did patch now s n
  perform_named_elsewhere (deletes uid did) s n = delete_elsewhere uid did s n
  perform_named_elsewhere (writes uid did filename content) s n =
      write_elsewhere uid did filename content s n
  perform_named_elsewhere (sets_tools uid did tools now) s n =
      sets_tools_elsewhere uid did tools now s n
  perform_named_elsewhere (binds uid did skill now) s n = bind_elsewhere uid did skill now s n
  perform_named_elsewhere (unbinds uid did skill now) s n = unbind_elsewhere uid did skill now s n

  -- The call is about another agent, under a uid that is a plain name.
  abbrev pub IsAway : Call → Type 0
  IsAway c = (is_plain_name (uid_of c) ≡ true) × (is_about c ≡ false)

  module _ (outside : Call → Accounts → Accounts) where
    pub perform_elsewhere :
        (c : Call) (s : Accounts) → IsAway c → here (perform outside c s) ≡ here s
    unfolding perform
    perform_elsewhere c s w = rw w.0 (perform_named_elsewhere c s w.1)

    -- Over any calls that create, change or delete agents, whichever of them raise, where the uid of each is a plain name and names
    -- another account, or its did another agent, an agent's directory stays exactly as it is, if its own uid is
    -- a plain name too.
    pub perform_all_elsewhere :
        (cs : List Call) (s : Accounts)
        → is_plain_name u ≡ true
        → All IsAway cs
        → core_of u d (perform_all outside cs s) ≡ core_of u d s
    unfolding perform_all
    perform_all_elsewhere [] s _ w = refl
    perform_all_elsewhere (c ∷ cs) s plain w =
        perform_all_elsewhere cs (perform outside c s) plain w.1 ∙ perform_elsewhere c s w.0
