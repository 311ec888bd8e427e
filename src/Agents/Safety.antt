-- ===== src/Agents/Safety.antt =====
-- No directory that src/agent_manager.py makes has a did that leads out of its account.
use Prim.Native.Char.{Char, code}
use mathlib.Core.Bool.{false≢true}
use ops_sentry.Prelude.{
  string_eq, nat_eq, ℕ, String, ◌≡◌, refl, Bool, true, false, not, ◌&&◌, ◌||◌, Option, none, some,
  List, [], ◌∷◌, ◌==◌, Result, ok, err, bind_ok, ◌∙◌, sym, ap, arith, All, Bool-cases, Result-cases,
  inl, inr, eq_iff, beq→eq, subst,
}
use ops_sentry.Prelude.Texts.{
  ◌+++◌, strip, upper, is_prefix, is_prefix-append, contains_text, contains_text-has_char, in_range,
  has_char, has_char-append, has_char-take_text, has_char-drop_text, take_text, drop_text,
}
use ops_sentry.Ledger.Entry.{get_or}
use ops_sentry.Agents.Validation.{
  AgentError, require_non_empty, check_did, normalize_did, validate_vibe, validate_model_provider,
  normalize_tools, normalize_skills, normalize_core_file_overrides,
}
use ops_sentry.Agents.Profiles.{
  Accounts, AgentCreateRequest, Core, core_of, init_request, is_plain_name, normalize_optional_did,
}
use ops_sentry.Agents.Manager.{generate_did}
use ops_sentry.Agents.Isolation.{
  Call, creates, updates, deletes, writes, sets_tools, binds, unbinds, perform, perform_all,
  is_about, names, makes, uid_of, perform_elsewhere,
}

-- "/", a backslash and "."
abbrev slash : Char
slash = "/"

abbrev backslash : Char
backslash = "\\"

abbrev dot : Char
dot = "."

ok_injective : {A : Type 0} (a b : A) → ◌≡◌ {A = Result AgentError A} (ok a) (ok b) → a ≡ b
ok_injective a b e = cc

-- It begins with DID- and has no separator and no two dots.
abbrev pub is_safe : String → Bool
is_safe did =
    is_prefix "DID-" did
    && not (contains_text "/" did || contains_text "\\" did || contains_text ".." did)

safe-check_did : (v d : String) → check_did v ≡ ok d → is_safe d ≡ true
unfolding check_did
safe-check_did v d e = elim (Bool-cases (is_prefix "DID-" v)) [
  | inr b ↦ cc (rw b at e)
  | inl b ↦
      elim (Bool-cases (contains_text "/" v || contains_text "\\" v || contains_text ".." v)) [
        | inl c ↦ cc (rw (b, c) at e)
        | inr c ↦
            let q : v ≡ d = cc (rw (b, c) at e) in subst (λ x. is_safe x ≡ true) q (rw (b, c) refl)
      ]
]

pub safe-normalize_did : (v d : String) → normalize_did v ≡ ok d → is_safe d ≡ true
unfolding normalize_did require_non_empty
safe-normalize_did v d e = elim (Bool-cases (strip v == "")) [
  | inl b ↦ cc (rw b at e)
  | inr b ↦ safe-check_did (upper (strip v)) d (rw b at e)
]

-- The digits of a uuid, as `hex.upper()` gives them.
abbrev pub is_hex_code : ℕ → Bool
is_hex_code n = in_range 48 57 n || in_range 65 70 n

unfoldable pub is_hex_text : String → Bool
is_hex_text String.[] = true
is_hex_text (String.◌∷◌ c s) = is_hex_code (code c) && is_hex_text s

has_char-is_hex_text :
    (n : ℕ) (s : String) → is_hex_code n ≡ false → is_hex_text s ≡ true → has_char n s ≡ false
unfolding has_char is_hex_text
has_char-is_hex_text n String.[] out h = refl
has_char-is_hex_text n (String.◌∷◌ c s) out h = elim (Bool-cases (is_hex_code (code c))) [
  | inr q ↦ cc (rw q at h)
  | inl p ↦ elim (Bool-cases (code c == n)) [
    | inl e ↦ absurd (false≢true (sym out ∙ (ap is_hex_code (sym (beq→eq (code c) n e)) ∙ p)))
    | inr e ↦ rw e (has_char-is_hex_text n s out (rw p at h))
  ]
]

has_char-generate_did :
    (n : ℕ) (token : String)
    → is_hex_code n ≡ false
    → has_char n "DID-" ≡ false
    → has_char n "-" ≡ false
    → is_hex_text token ≡ true
    → has_char n (generate_did token) ≡ false
unfolding generate_did
has_char-generate_did n token out did dash h =
    let digits = has_char-is_hex_text n token out h in
    has_char-append n "DID-" _
    ∙ rw did (
        has_char-append n (take_text 8 token) _
        ∙ rw (has_char-take_text n 8 token digits) (
            has_char-append n "-" _
            ∙ rw dash
                (has_char-take_text n 6 (drop_text 8 token) (has_char-drop_text n 8 token digits))))

safe-generate_did :
    (token : String) → is_hex_text token ≡ true → is_safe (generate_did token) ≡ true
unfolding generate_did has_char
safe-generate_did token h =
    rw
      (
        is_prefix-append "DID-" (take_text 8 token +++ ("-" +++ take_text 6 (drop_text 8 token))),
        contains_text-has_char slash "" (generate_did token)
            (has_char-generate_did 47 token refl refl refl h),
        contains_text-has_char backslash "" (generate_did token)
            (has_char-generate_did 92 token refl refl refl h),
        contains_text-has_char dot "." (generate_did token)
            (has_char-generate_did 46 token refl refl refl h),
      )
      refl

-- The did of a request that was accepted has gone through `_normalize_did`.
safe-init_request :
    (r c : AgentCreateRequest) (fresh : String)
    → init_request r ≡ ok c
    → is_safe fresh ≡ true
    → is_safe (get_or c.did fresh) ≡ true
unfolding init_request
safe-init_request r c fresh e h =
    let uid = bind_ok (require_non_empty "uid" r.uid) _ c e in
    let name = bind_ok (require_non_empty "name" r.name) _ c uid.2 in
    let description = bind_ok (require_non_empty "description" r.description) _ c name.2 in
    let vibe = bind_ok (validate_vibe r.vibe) _ c description.2 in
    let provider = bind_ok (validate_model_provider r.model_provider) _ c vibe.2 in
    let model = bind_ok (require_non_empty "model_id" r.model_id) _ c provider.2 in
    let tools = bind_ok (normalize_tools r.tools) _ c model.2 in
    let skills = bind_ok (normalize_skills r.skills) _ c tools.2 in
    let files = bind_ok (normalize_core_file_overrides r.core_files) _ c skills.2 in
    let did = bind_ok (normalize_optional_did r.did) _ c files.2 in
    subst (λ x. is_safe (get_or x fresh) ≡ true) (ap did_of (ok_injective _ c did.2))
      (by_did r.did did.0 did.1)
  where
    did_of : AgentCreateRequest → Option String
    did_of q = q.did

    by_did :
        (o p : Option String) → normalize_optional_did o ≡ ok p → is_safe (get_or p fresh) ≡ true
    by_did none p q = subst (λ x. is_safe (get_or x fresh) ≡ true) (ok_injective none p q) h
    by_did (some v) p q =
        let w = bind_ok (normalize_did v) _ p q in
        subst (λ x. is_safe (get_or x fresh) ≡ true) (ok_injective (some w.0) p w.2)
          (safe-normalize_did v w.0 w.1)

-- The uid of a call is a plain name, and what is drawn for it the digits of a uuid.
abbrev pub IsDrawn : Call → Type 0
IsDrawn (creates r token now) = is_hex_text token ≡ true
IsDrawn (updates _ _ _ _) = Unit
IsDrawn (deletes _ _) = Unit
IsDrawn (writes _ _ _ _) = Unit
IsDrawn (sets_tools _ _ _ _) = Unit
IsDrawn (binds _ _ _ _) = Unit
IsDrawn (unbinds _ _ _ _) = Unit

abbrev pub IsOrdinary : Call → Type 0
IsOrdinary c = (is_plain_name (uid_of c) ≡ true) × IsDrawn c

-- Every agent that has a directory has a safe did.
abbrev pub IsSafe : Accounts → Type 0
IsSafe s = (u d : String) (core : Core) → core_of u d s ≡ some core → is_safe d ≡ true

module _ (u d : String) where
  safe-names : (uid did : String) → names u d uid did ≡ true → is_safe d ≡ true
  safe-names uid did n = elim (Result-cases (normalize_did did)) [
    | inl (x, g) ↦
        let m : (x == d) ≡ true = ground (arith, n, g) in
        subst (λ y. is_safe y ≡ true) ((eq_iff x d).0 m) (safe-normalize_did did x g)
    | inr (e, g) ↦ ground (arith, n, g)
  ]

  safe-is_about : (c : Call) → IsDrawn c → is_about u d c ≡ true → is_safe d ≡ true
  safe-is_about (creates r token now) w n = by_request (init_request r) refl n
    where
      by_request :
          (q : Result AgentError AgentCreateRequest)
          → init_request r ≡ q
          → makes u d (generate_did token) q ≡ true
          → is_safe d ≡ true
      by_request (err x) e m = cc
      by_request (ok c) e m =
          let same : (get_or c.did (generate_did token) == d) ≡ true = ground (arith, m) in
          subst (λ y. is_safe y ≡ true) ((eq_iff (get_or c.did (generate_did token)) d).0 same)
            (safe-init_request r c (generate_did token) e (safe-generate_did token w))
  safe-is_about (updates uid did _ _) w n = safe-names uid did n
  safe-is_about (deletes uid did) w n = safe-names uid did n
  safe-is_about (writes uid did _ _) w n = safe-names uid did n
  safe-is_about (sets_tools uid did _ _) w n = safe-names uid did n
  safe-is_about (binds uid did _ _) w n = safe-names uid did n
  safe-is_about (unbinds uid did _ _) w n = safe-names uid did n

module _ (outside : Call → Accounts → Accounts) where
  perform-IsSafe :
      (c : Call) (s : Accounts) → IsOrdinary c → IsSafe s → IsSafe (perform outside c s)
  perform-IsSafe c s w h u d core e = elim (Bool-cases (is_about u d c)) [
    | inl a ↦ safe-is_about u d c w.1 a
    | inr a ↦ h u d core (sym (perform_elsewhere u d outside c s (w.0, a)) ∙ e)
  ]

  -- Over any calls, whichever of them raise, with uids that are plain names: if the dids of all agents that have a directory
  -- begin with DID- and have no separator and no two dots, so do those of all that have one afterwards, whatever
  -- dids the requests gave, where uuids consist of hexadecimal digits.
  pub perform_all-IsSafe :
      (cs : List Call) (s : Accounts)
      → All IsOrdinary cs
      → IsSafe s
      → IsSafe (perform_all outside cs s)
  unfolding perform_all
  perform_all-IsSafe [] s w h = h
  perform_all-IsSafe (c ∷ cs) s w h =
      perform_all-IsSafe cs (perform outside c s) w.1 (perform-IsSafe c s w.0 h)
