-- ===== src/Webhooks/Gate.antt =====
-- Who gets past the signature checks of src/routers/webhooks.py.
use ops_sentry.Prelude.{
  string_eq, nat_eq, String, ◌≡◌, refl, Bool, true, false, ◌&&◌, Option, none, some, ok, err,
  Result, ◌⊎◌, inl, inr, ◌==◌, Bool-cases, eq_iff, ap, sym,
}
use ops_sentry.Prelude.Json.{Json}
use ops_sentry.Access.{Sources}
use ops_sentry.Channels.{
  Platform, ChannelError, is_ascii, compare_digest, string_to_sign, unless_open, verify_feishu,
  verify_dingtalk, new_feishu_channel, new_dingtalk_channel,
}
use ops_sentry.Routing.{Bus, RequestError, http_error, channel_failed, not_unicode, Step, Site}
use ops_sentry.Webhooks.{
  Loaded, loaded, not_json, bad_unicode, Request, Reply, with_body, if_verified, feishu_verified,
  dingtalk_verified, feishu_webhook, dingtalk_webhook,
}

-- No secret is set, or the signature is the one that is due under it.
abbrev pub IsAllowed : Option String → Option String → (String → String) → Type 0
IsAllowed secret signature due =
    (secret ≡ none)
    ⊎ ((secret ≡ some "") ⊎ ((k : String) × (secret ≡ some k) × (signature ≡ some (due k))))

abbrev pub IsRefused : Step Reply → Bus → Type 0
IsRefused go b = (e : RequestError) × (go b ≡ (err e, b))

compare_digest-true : (a : String) (s : Option String) → compare_digest a s ≡ ok true → s ≡ some a
unfolding compare_digest
compare_digest-true a none h = cc h
compare_digest-true a (some s) h = elim (Bool-cases (is_ascii a && is_ascii s)) [
  | inl p ↦ ap some (sym ((eq_iff a s).0 (cc (rw p at h))))
  | inr q ↦ cc (rw q at h)
]

unless_open-IsAllowed :
    (secret signature : Option String) (due : String → String)
    → unless_open secret (λ k. compare_digest (due k) signature) ≡ ok true
    → IsAllowed secret signature due
unless_open-IsAllowed none signature due h = inl refl
unless_open-IsAllowed (some k) signature due h = elim (Bool-cases (k == "")) [
  | inl p ↦ inr (inl (ap some ((eq_iff k "").0 p)))
  | inr q ↦ inr (inr (k, refl, compare_digest-true (due k) signature (rw q at h)))
]

if_verified-IsRefused :
    (r : Result ChannelError Bool) (go : Step Reply) (b : Bus)
    → (r ≡ ok true) ⊎ IsRefused (if_verified r go) b
if_verified-IsRefused (err e) go b = inr (channel_failed e, refl)
if_verified-IsRefused (ok false) go b = inr (http_error 401 "Invalid signature", refl)
if_verified-IsRefused (ok true) go b = inl refl

with_body-IsRefused :
    (content : Loaded) (r : Result ChannelError Bool) (go : Json → Step Reply) (b : Bus)
    → (r ≡ ok true) ⊎ IsRefused (with_body content (λ j. if_verified r (go j))) b
with_body-IsRefused (loaded j) r go b = if_verified-IsRefused r (go j) b
with_body-IsRefused not_json r go b = inr (http_error 400 "Invalid JSON payload", refl)
with_body-IsRefused bad_unicode r go b = inr (not_unicode, refl)

-- A webhook request is refused and changes nothing, unless its channel has no secret, or the signature is the one that is due:
-- for Feishu the HMAC of the body under the timestamp and the secret, for DingTalk that of the timestamp under the secret.
pub webhook-IsRefused :
    (o : Platform) (x : Site) (vault : Option Sources) (q : Request) (b : Bus)
    → (IsAllowed
          (new_feishu_channel o vault q.did).webhook_secret
          q.signature
          (λ k. o.hmac_base64 (o.utf8 (string_to_sign q.timestamp k)) q.body)
        ⊎ IsRefused (feishu_webhook o x vault q) b)
      × (IsAllowed
            (new_dingtalk_channel o vault q.did).webhook_secret
            q.signature
            (λ k. o.hmac_base64 (o.utf8 k) (o.utf8 (string_to_sign q.timestamp k)))
          ⊎ IsRefused (dingtalk_webhook o x vault q) b)
unfolding feishu_webhook dingtalk_webhook verify_feishu verify_dingtalk
webhook-IsRefused o x vault q b = (
  elim (with_body-IsRefused q.content
      (verify_feishu o (new_feishu_channel o vault q.did) q.timestamp q.signature q.body)
      (feishu_verified o x q) b) [
        | inl v ↦ inl (
            unless_open-IsAllowed (new_feishu_channel o vault q.did).webhook_secret q.signature _ v)
        | inr r ↦ inr r
      ],
  elim (with_body-IsRefused q.content
      (verify_dingtalk o (new_dingtalk_channel o vault q.did) q.timestamp q.signature q.body)
      (dingtalk_verified x q) b) [
        | inl v ↦ inl (
            unless_open-IsAllowed (new_dingtalk_channel o vault q.did).webhook_secret q.signature _
              v)
        | inr r ↦ inr r
      ],
)
