-- ===== src/Access/Examples.antt =====
-- A request and two sets of secrets, for the theorems about src/auth.py and src/agent_key_vault.py.
use ops_sentry.Prelude.{string_eq, ◌≡◌, none, some, [], ◌∷◌}
use ops_sentry.Access.{Decoded, valid, Sources, plain, authorize}
use ops_sentry.Access.Deciding.{authorize-eq-decision, decision, is_ok}

abbrev token : Decoded
token = valid (record { sub = some "u1"; role = some "operator"; org_id = some "o" })

authorize_example :
    is_ok (authorize token ("operator" ∷ []) "u1") ≡ decision ("operator" ∷ []) "u1" token
authorize_example = authorize-eq-decision token ("operator" ∷ []) "u1"

abbrev own : Sources
own = record { agent = some (("openai", plain "k1") ∷ []); account = none; environ = λ v. "" }

abbrev of_account : Sources
of_account = record {
  agent = none;
  account = some (("openai", plain "k1") ∷ []);
  environ = λ v. "k9";
}
