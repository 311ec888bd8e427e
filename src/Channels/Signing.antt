-- ===== src/Channels/Signing.antt =====
-- Which webhook requests the channels of src/channels/ let through.
use ops_sentry.Prelude.{
  string_eq, nat_eq, ℕ, String, ◌≡◌, refl, Bool, true, false, some, [], ◌∷◌, ◌++◌, ok, ◌==◌,
  Bool-cases, inl, inr, beq_self,
}
use ops_sentry.Prelude.Texts.{◌+++◌, show_number}
use ops_sentry.Sandbox.Runners.{Bytes}
use ops_sentry.Channels.{
  Platform, DingTalkChannel, OutboundMessage, is_ascii, compare_digest, verify_dingtalk,
}
use ops_sentry.Channels.Sending.{Posts, sign, dingtalk_payload, send_dingtalk}

compare_digest_same : (s : String) → is_ascii s ≡ true → compare_digest s (some s) ≡ ok true
unfolding compare_digest
compare_digest_same s a = rw (a, beq_self s) refl

-- A DingTalk channel with a webhook and a secret posts a message once, under a time and a signature that its own check of
-- webhook requests lets through, with whatever body.
pub verify_dingtalk-sign :
    (o : Platform) (c : DingTalkChannel) (url secret : String) (now : ℕ) (taken : Bool)
    (m : OutboundMessage) (posts : Posts) (body : Bytes)
    → ((s : String) → is_ascii (sign o (show_number now) s) ≡ true)
    → c.webhook_url ≡ some url
    → c.webhook_secret ≡ some secret
    → (url == "") ≡ false
    → (send_dingtalk o c now taken m posts ≡ (
      ok taken,
      posts
          ++ (
            url
                +++ "&"
                +++ o.urlencode (
                    ("timestamp", show_number now)
                    ∷ ("sign", sign o (show_number now) secret)
                    ∷ []),
            dingtalk_payload m,
          )
            ∷ [],
    ))
      × (verify_dingtalk o c (some (show_number now)) (some (sign o (show_number now) secret)) body
          ≡ ok true)
unfolding send_dingtalk verify_dingtalk sign
verify_dingtalk-sign o c url secret now taken m posts body ascii u s full = (
  rw (u, s, full) refl,
  rw s (elim (Bool-cases (secret == "")) [
    | inl p ↦ rw p refl
    | inr q ↦ rw q (compare_digest_same (sign o (show_number now) secret) (ascii secret))
  ]),
)
