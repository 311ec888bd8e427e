-- ===== src/Webhooks/Examples.antt =====
-- A request whose signature is not the one that is due, for the theorem about src/routers/webhooks.py.
use ops_sentry.Prelude.{string_eq, none, some, [], ◌∷◌, ◌⊎◌}
use ops_sentry.Prelude.Json.{Json, Fields}
use ops_sentry.Access.{Sources, detailed, plain}
use ops_sentry.Channels.{new_feishu_channel, new_dingtalk_channel, string_to_sign}
use ops_sentry.Channels.Examples.{platform}
use ops_sentry.Routing.Examples.{site, bus}
use ops_sentry.Webhooks.{Request, loaded, feishu_webhook, dingtalk_webhook}
use ops_sentry.Webhooks.Gate.{IsAllowed, IsRefused, webhook-IsRefused}

abbrev vault : Sources
vault = record {
  agent = some (
      ("feishu", detailed (some "k") none (("webhook_secret", "s") ∷ []))
      ∷ ("dingtalk", plain "k")
      ∷ []);
  account = none;
  environ = λ k. "";
}

abbrev forged : Request
forged = record {
  uid = "u";
  did = "DID-1";
  timestamp = some "7";
  signature = some "forged";
  body = 123 ∷ 125 ∷ [];
  content = loaded (Json.obj Fields.end);
}

refused_example :
    (IsAllowed
        (new_feishu_channel platform (some vault) "DID-1").webhook_secret
        (some "forged")
        (λ k. platform.hmac_base64 (platform.utf8 (string_to_sign (some "7") k)) (123 ∷ 125 ∷ []))
      ⊎ IsRefused (feishu_webhook platform site (some vault) forged) bus)
    × (IsAllowed
          (new_dingtalk_channel platform (some vault) "DID-1").webhook_secret
          (some "forged")
          (λ k.
            platform.hmac_base64 (platform.utf8 k) (platform.utf8 (string_to_sign (some "7") k)))
        ⊎ IsRefused (dingtalk_webhook platform site (some vault) forged) bus)
refused_example = webhook-IsRefused platform site (some vault) forged bus
