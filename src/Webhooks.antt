-- ===== src/Webhooks.antt =====
-- The routes of src/routers/webhooks.py. How FastAPI reads a request is a parameter: the headers, the body, and what
-- json.loads makes of it.
pub mod Gate
mod Examples
use ops_sentry.Prelude.{
  string_eq, nat_eq, ℕ, String, Bool, true, false, Option, none, some, List, [], ◌∷◌, ◌++◌, Dict,
  Result, ok, err, has_key, ◌==◌, if◌then◌else◌, is_some,
}
use ops_sentry.Prelude.Action.{return, raise, ◌>>=◌, ◌>>◌}
use ops_sentry.Prelude.Texts.{◌+++◌}
use ops_sentry.Prelude.Json.{pos, Json, Fields}
use ops_sentry.Ledger.Entry.{get_or}
use ops_sentry.Sandbox.Runners.{Bytes}
use ops_sentry.Access.{Sources}
use ops_sentry.Channels.{
  Platform, ChannelError, attribute_error, InboundMessage, FeishuChannel, DingTalkChannel,
  new_feishu_channel, new_dingtalk_channel, verify_feishu, verify_dingtalk, find_field, get_field,
  nothing, parse_feishu, parse_dingtalk,
}
use ops_sentry.Channels.Sending.{object}
use ops_sentry.Routing.{
  Bus, RequestError, http_error, channel_failed, not_unicode, Step, Site, note, tell_all,
  route_message, route_action,
}

-- What json.loads makes of the body: a JSONDecodeError, or a UnicodeDecodeError, which is none.
pub data Loaded : Type 0 where
  loaded : Json → Loaded
  not_json : Loaded
  bad_unicode : Loaded

-- A request: the agent in its path, the two headers, and the body.
pub record Request : Type 0 where
  pub uid : String
  pub did : String
  pub timestamp : Option String
  pub signature : Option String
  pub body : Bytes
  pub content : Loaded

pub data Reply : Type 0 where
  status_ok : Reply
  challenge : Json → Reply

abbrev pub with_body : Loaded → (Json → Step Reply) → Step Reply
with_body (loaded j) go = go j
with_body not_json go = raise (http_error 400 "Invalid JSON payload")
with_body bad_unicode go = raise not_unicode

abbrev pub if_verified : Result ChannelError Bool → Step Reply → Step Reply
if_verified (err e) go = raise (channel_failed e)
if_verified (ok false) go = raise (http_error 401 "Invalid signature")
if_verified (ok true) go = go

abbrev pub note_of : String → Request → InboundMessage → Dict String Json
note_of channel q m =
    ("channel", Json.str channel)
    ∷ ("uid", Json.str q.uid)
    ∷ ("did", Json.str q.did)
    ∷ ("sender", Json.str m.sender_name)
    ∷ ("content", Json.str m.content)
    ∷ []

abbrev pub external_message : String → Request → InboundMessage → Dict String Json
external_message channel q m =
    ("type", Json.str "external")
    ∷ ("channel", Json.str channel)
    ∷ ("sender", Json.str m.sender_name)
    ∷ ("content", Json.str m.content)
    ∷ ("did", Json.str q.did)
    ∷ []

-- The message goes to the agents that it mentions.
abbrev pub pass_on : Site → Request → InboundMessage → Step (Unit {0})
unfolding route_message
pass_on x q m =
    route_message x 1 q.uid ("sess_" +++ q.uid +++ "_" +++ q.did) ("external_" +++ m.sender_name)
      m.content

abbrev pub act_on : Site → Request → Result ChannelError Json → Step (Unit {0})
unfolding route_action
act_on x q (err e) = raise (channel_failed e)
act_on x q (ok action_data) = route_action x 1 q.uid q.did action_data

abbrev pub act_or_pass_on : Site → Request → InboundMessage → Option Json → Step (Unit {0})
unfolding route_action route_message get_field
act_or_pass_on x q m (some action) = act_on x q (get_field "value" nothing action)
act_or_pass_on x q m none = pass_on x q m

abbrev pub is_text : String → Json → Bool
is_text t (Json.str s) = s == t
is_text t _ = false

abbrev pub take_feishu : Site → Request → Fields → Result ChannelError InboundMessage → Step Reply
unfolding note tell_all route_action route_message find_field get_field
take_feishu x q fs (err e) = raise (channel_failed e)
take_feishu x q fs (ok m) =
    note x 0 "webhook_received"
      (note_of "feishu" q m ++ ("is_action", Json.bool (is_some (find_field "action" fs))) ∷ [])
    >>= λ entry.
        tell_all x (object (external_message "feishu" q m ++ ("ts", Json.num (pos x.millis)) ∷ []))
        >> (act_or_pass_on x q m (find_field "action" fs) >> return status_ok)

-- Behind the check of the signature; `body_json.get` is asked for the type first.
abbrev pub feishu_verified : Platform → Site → Request → Json → Step Reply
unfolding note tell_all route_action route_message find_field get_field parse_feishu
feishu_verified o x q (Json.obj fs) =
    if is_text "url_verification" (get_or (find_field "type" fs) Json.null)
    then return (challenge (get_or (find_field "challenge" fs) Json.null))
    else take_feishu x q fs (parse_feishu o fs)
feishu_verified o x q _ = raise (channel_failed attribute_error)

-- feishu_webhook
unfoldable pub feishu_webhook : Platform → Site → Option Sources → Request → Step Reply
unfolding note tell_all route_action route_message find_field get_field parse_feishu
    new_feishu_channel verify_feishu
feishu_webhook o x vault q = with_body q.content (λ j.
    if_verified (verify_feishu o (new_feishu_channel o vault q.did) q.timestamp q.signature q.body)
      (feishu_verified o x q j))

abbrev pub take_dingtalk : Site → Request → Result ChannelError InboundMessage → Step Reply
unfolding note tell_all route_message
take_dingtalk x q (err e) = raise (channel_failed e)
take_dingtalk x q (ok m) = note x 0 "webhook_received" (note_of "dingtalk" q m) >>= λ entry.
    tell_all x (object (external_message "dingtalk" q m)) >> (pass_on x q m >> return status_ok)

abbrev pub dingtalk_verified : Site → Request → Json → Step Reply
unfolding note tell_all route_message find_field get_field parse_dingtalk
dingtalk_verified x q (Json.obj fs) = take_dingtalk x q (parse_dingtalk fs)
dingtalk_verified x q _ = raise (channel_failed attribute_error)

-- dingtalk_webhook
unfoldable pub dingtalk_webhook : Platform → Site → Option Sources → Request → Step Reply
unfolding note tell_all route_message find_field get_field parse_dingtalk new_dingtalk_channel
    verify_dingtalk
dingtalk_webhook o x vault q = with_body q.content (λ j.
    if_verified
      (verify_dingtalk o (new_dingtalk_channel o vault q.did) q.timestamp q.signature q.body)
      (dingtalk_verified x q j))
