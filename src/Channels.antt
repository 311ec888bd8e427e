-- ===== src/Channels.antt =====
-- The chat channels of src/channels/: what base.py passes around, and FeishuChannel and DingTalkChannel of feishu.py
-- and dingtalk.py but for `send`, which is in Channels/Sending.antt.
pub mod Sending
pub mod Signing
pub mod Examples
use Prim.Native.Char.{code}
use ops_sentry.Prelude.{
  string_eq, nat_eq, String, Bool, true, false, ◌&&◌, Option, none, some, List, [], ◌∷◌, Dict,
  lookup, Result, ok, err, ltb, ◌==◌, ◌>>=◌, if◌then◌else◌,
}
use ops_sentry.Prelude.Texts.{◌+++◌}
use ops_sentry.Prelude.Json.{Json, Fields}
use ops_sentry.Ledger.Entry.{get_or}
use ops_sentry.Sandbox.Runners.{Bytes}
use ops_sentry.Access.{AgentKeySet, Sources, resolve_keys}

pub record OutboundMessage : Type 0 where
  pub title : String
  pub content : String
  pub recipient : String
  pub msg_type : String
  pub extra : Option (Dict String Json)

pub record InboundMessage : Type 0 where
  pub sender_id : String
  pub sender_name : String
  pub content : String
  pub raw_payload : Fields

-- What the channels raise.
pub data ChannelError : Type 0 where
  attribute_error : ChannelError
  type_error : ChannelError
  validation_error : ChannelError

-- `encode("utf-8")`, the base64 text of an HMAC-SHA256 by key and message, f"{v}", json.dumps, urlencode and os.getenv.
pub record Platform : Type 0 where
  pub utf8 : String → Bytes
  pub hmac_base64 : Bytes → Bytes → String
  pub show : Json → String
  pub dump : Json → String
  pub urlencode : Dict String String → String
  pub getenv : String → Option String

-- ConfigShield.get_secret, with its key vault
unfoldable pub get_secret : Option Sources → String → String → Result String AgentKeySet
unfolding resolve_keys
get_secret none did provider = err "ConfigShield: KeyVault not initialized"
get_secret (some vault) did provider = resolve_keys did provider vault

pub record FeishuChannel : Type 0 where
  pub app_id : Option String
  pub app_secret : Option String
  pub webhook_secret : Option String
  pub webhook_url : Option String

abbrev pub feishu_of : Platform → Result String AgentKeySet → FeishuChannel
feishu_of o (ok keys) = record {
  app_id = some keys.api_key;
  app_secret = lookup "app_secret" keys.extra;
  webhook_secret = lookup "webhook_secret" keys.extra;
  webhook_url = lookup "webhook_url" keys.extra;
}
feishu_of o (err e) = record {
  app_id = o.getenv "FEISHU_APP_ID";
  app_secret = o.getenv "FEISHU_APP_SECRET";
  webhook_secret = o.getenv "FEISHU_WEBHOOK_SECRET";
  webhook_url = o.getenv "FEISHU_WEBHOOK_URL";
}

-- FeishuChannel.__init__
unfoldable pub new_feishu_channel : Platform → Option Sources → String → FeishuChannel
unfolding get_secret
new_feishu_channel o vault did = feishu_of o (get_secret vault did "feishu")

pub record DingTalkChannel : Type 0 where
  pub webhook_secret : Option String
  pub webhook_url : Option String

abbrev pub dingtalk_of : Platform → Result String AgentKeySet → DingTalkChannel
dingtalk_of o (ok keys) = record {
  webhook_secret = lookup "webhook_secret" keys.extra;
  webhook_url = lookup "webhook_url" keys.extra;
}
dingtalk_of o (err e) = record {
  webhook_secret = o.getenv "DINGTALK_WEBHOOK_SECRET";
  webhook_url = o.getenv "DINGTALK_WEBHOOK_URL";
}

-- DingTalkChannel.__init__
unfoldable pub new_dingtalk_channel : Platform → Option Sources → String → DingTalkChannel
unfolding get_secret
new_dingtalk_channel o vault did = dingtalk_of o (get_secret vault did "dingtalk")

abbrev pub is_ascii : String → Bool
is_ascii String.[] = true
is_ascii (String.◌∷◌ c s) = ltb (code c) 128 && is_ascii s

-- hmac.compare_digest, of a text and a header that may be missing
unfoldable pub compare_digest : String → Option String → Result ChannelError Bool
compare_digest a none = err type_error
compare_digest a (some b) = if is_ascii a && is_ascii b then ok (a == b) else err type_error

-- f"{timestamp}\n{self.webhook_secret}"
unfoldable pub string_to_sign : Option String → String → String
string_to_sign timestamp secret = get_or timestamp "None" +++ "\n" +++ secret

-- Where there is no secret, every request is let through.
abbrev pub unless_open :
    Option String → (String → Result ChannelError Bool) → Result ChannelError Bool
unless_open none check = ok true
unless_open (some secret) check =
    let checked = check secret in if secret == "" then ok true else checked

-- FeishuChannel.verify_webhook_signature
unfoldable pub verify_feishu :
    Platform → FeishuChannel → Option String → Option String → Bytes → Result ChannelError Bool
unfolding compare_digest string_to_sign
verify_feishu o c timestamp signature body = unless_open c.webhook_secret (λ secret.
    compare_digest (o.hmac_base64 (o.utf8 (string_to_sign timestamp secret)) body) signature)

-- DingTalkChannel.verify_webhook_signature
unfoldable pub verify_dingtalk :
    Platform → DingTalkChannel → Option String → Option String → Bytes → Result ChannelError Bool
unfolding compare_digest string_to_sign
verify_dingtalk o c timestamp signature body = unless_open c.webhook_secret (λ secret.
    compare_digest (o.hmac_base64 (o.utf8 secret) (o.utf8 (string_to_sign timestamp secret)))
      signature)

abbrev pub later_or : Option Json → Bool → Json → Option Json
later_or (some j) here v = some j
later_or none true v = some v
later_or none false v = none

-- The value of a key; of several, the last.
unfoldable pub find_field : String → Fields → Option Json
find_field k Fields.end = none
find_field k (Fields.field j v fs) = later_or (find_field k fs) (j == k) v

-- v.get(k, default), for any value
unfoldable pub get_field : String → Json → Json → Result ChannelError Json
unfolding find_field
get_field k default (Json.obj fs) = ok (get_or (find_field k fs) default)
get_field k default _ = err attribute_error

abbrev pub text_of : Json → Result ChannelError String
text_of (Json.str s) = ok s
text_of _ = err validation_error

-- InboundMessage(...), whose fields must be texts
abbrev pub inbound_message : Json → Json → Json → Fields → Result ChannelError InboundMessage
inbound_message sender_id sender_name content body = do
  i ← text_of sender_id
  n ← text_of sender_name
  c ← text_of content
  ok (record { sender_id = i; sender_name = n; content = c; raw_payload = body })

abbrev pub unknown : Json
unknown = Json.str "unknown"

abbrev pub nothing : Json
nothing = Json.obj Fields.end

abbrev pub parse_action : Platform → Fields → Json → Result ChannelError InboundMessage
unfolding find_field get_field
parse_action o body action = do
  value ← get_field "value" nothing action
  action_type ← get_field "action" (Json.str "unknown_action") value
  inbound_message (get_or (find_field "open_id" body) unknown)
      (get_or (find_field "user_id" body) unknown)
      (Json.str ("/action " +++ o.show action_type +++ " " +++ o.dump value)) body

abbrev pub parse_event : Fields → Json → Result ChannelError InboundMessage
unfolding get_field
parse_event body event = do
  sender ← get_field "sender" nothing event
  message ← get_field "message" nothing event
  sender_id ← get_field "sender_id" nothing sender
  open_id ← get_field "open_id" unknown sender_id
  name ← get_field "name" unknown sender_id
  content ← get_field "content" (Json.str "") message
  inbound_message open_id name content body

abbrev pub parse_feishu_over : Platform → Fields → Option Json → Result ChannelError InboundMessage
unfolding find_field get_field
parse_feishu_over o body (some action) = parse_action o body action
parse_feishu_over o body none = parse_event body (get_or (find_field "event" body) nothing)

-- FeishuChannel.parse_inbound
unfoldable pub parse_feishu : Platform → Fields → Result ChannelError InboundMessage
unfolding find_field get_field
parse_feishu o body = parse_feishu_over o body (find_field "action" body)

-- DingTalkChannel.parse_inbound
unfoldable pub parse_dingtalk : Fields → Result ChannelError InboundMessage
unfolding find_field get_field
parse_dingtalk body = do
  content ← get_field "content" (Json.str "") (get_or (find_field "text" body) nothing)
  inbound_message (get_or (find_field "senderId" body) unknown)
      (get_or (find_field "senderNick" body) unknown) content body
