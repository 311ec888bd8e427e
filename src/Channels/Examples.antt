-- ===== src/Channels/Examples.antt =====
-- A platform whose HMAC forgets the message, for the theorem about src/routers/webhooks.py.
use ops_sentry.Prelude.{string_eq, none, []}
use ops_sentry.Channels.{Platform}

abbrev pub platform : Platform
platform = record {
  utf8 = λ s. [];
  hmac_base64 = λ key text. "c2ln";
  show = λ j. "x";
  dump = λ j. "{}";
  urlencode = λ d. "timestamp=7&sign=c2ln";
  getenv = λ k. none;
}
