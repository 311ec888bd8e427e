-- ===== src/Channels/Sending.antt =====
-- `send` of src/channels/feishu.py and dingtalk.py. Whether a post is taken is a parameter.
use ops_sentry.Prelude.{
  string_eq, nat_eq, ℕ, String, Bool, true, false, Option, none, some, List, [], ◌∷◌, ◌++◌, Dict,
  lookup, Result, ok, err, ◌==◌, ◌>>=◌, if◌then◌else◌,
}
use ops_sentry.Prelude.Action.{Action}
use ops_sentry.Prelude.Texts.{◌+++◌, show_number}
use ops_sentry.Prelude.Json.{Json, Items, Fields}
use ops_sentry.Evolution.{elements}
use ops_sentry.Channels.{
  OutboundMessage, ChannelError, type_error, attribute_error, Platform, FeishuChannel,
  DingTalkChannel, string_to_sign, get_field, nothing,
}

-- The URL and the JSON of each post that was tried.
abbrev pub Posts : Type 0
Posts = List (String × Json)

abbrev pub fields_of : Dict String Json → Fields
fields_of [] = Fields.end
fields_of ((k, v) ∷ d) = Fields.field k v (fields_of d)

abbrev pub object : Dict String Json → Json
object d = Json.obj (fields_of d)

abbrev pub items : List Json → Items
items [] = Items.nil
items (j ∷ js) = Items.cons j (items js)

abbrev pub array : List Json → Json
array js = Json.arr (items js)

abbrev pub tagged : String → Json → Json
tagged tag content = object (("tag", Json.str tag) ∷ ("content", content) ∷ [])

-- The loop over the actions.
unfoldable pub buttons : List Json → Result ChannelError (List Json)
unfolding get_field
buttons [] = ok []
buttons (act ∷ acts) = do
  text ← get_field "text" (Json.str "Button") act
  type ← get_field "type" (Json.str "default") act
  value ← get_field "value" nothing act
  more ← buttons acts
  ok (
      object (
        ("tag", Json.str "button")
        ∷ ("text", tagged "plain_text" text)
        ∷ ("type", type)
        ∷ ("value", value)
        ∷ [])
      ∷ more)

abbrev pub buttons_of : Option (List Json) → Result ChannelError (List Json)
unfolding buttons
buttons_of none = err type_error
buttons_of (some acts) = buttons acts >>= λ bs.
    ok (object (("tag", Json.str "action") ∷ ("actions", array bs) ∷ []) ∷ [])

-- What is appended to the elements of a card.
abbrev pub action_elements : Option Json → Result ChannelError (List Json)
unfolding buttons elements
action_elements none = ok []
action_elements (some actions) = buttons_of (elements actions)

abbrev pub actions_in : Option (Dict String Json) → Option Json
actions_in none = none
actions_in (some extra) = lookup "actions" extra

abbrev pub card : OutboundMessage → List Json → Json
card m more = object (
    ("msg_type", Json.str "interactive")
    ∷ (
      "card",
      object (
          ("config", object (("wide_screen_mode", Json.bool true) ∷ []))
          ∷ (
            "header",
            object (
                ("template", Json.str "blue")
                ∷ ("title", tagged "plain_text" (Json.str m.title))
                ∷ []),
          )
          ∷ (
            "elements",
            array (
                object
                  (("tag", Json.str "div") ∷ ("text", tagged "lark_md" (Json.str m.content)) ∷ [])
                ∷ more),
          )
          ∷ []),
    )
    ∷ [])

abbrev pub headed : OutboundMessage → Json
headed m = Json.str ("[" +++ m.title +++ "]\n" +++ m.content)

-- The payload of a Feishu message.
unfoldable pub feishu_payload : OutboundMessage → Result ChannelError Json
unfolding buttons elements
feishu_payload m =
    let elements' = action_elements (actions_in m.extra) in
    if m.msg_type == "interactive"
    then (elements' >>= λ more. ok (card m more))
    else ok (
        object (("msg_type", Json.str "text") ∷ ("content", object (("text", headed m) ∷ [])) ∷ []))

-- The `try` around the post.
abbrev pub post : Bool → String → Result ChannelError Json → Action Posts ChannelError Bool
post taken url (err e) posts = (err e, posts)
post taken url (ok payload) posts = (ok taken, posts ++ (url, payload) ∷ [])

abbrev pub if_configured :
    Option String → (String → Action Posts ChannelError Bool) → Action Posts ChannelError Bool
if_configured none go posts = (ok false, posts)
if_configured (some url) go posts =
    let sent = go url posts in if url == "" then (ok false, posts) else sent

-- FeishuChannel.send
unfoldable pub send_feishu : FeishuChannel → Bool → OutboundMessage → Action Posts ChannelError Bool
unfolding feishu_payload
send_feishu c taken m = if_configured c.webhook_url (λ url. post taken url (feishu_payload m))

-- The base64 signature of a DingTalk request.
unfoldable pub sign : Platform → String → String → String
unfolding string_to_sign
sign o timestamp secret =
    o.hmac_base64 (o.utf8 secret) (o.utf8 (string_to_sign (some timestamp) secret))

abbrev pub target_url : Platform → String → String → String → String
unfolding sign
target_url o url timestamp secret =
    url +++ "&" +++ o.urlencode (("timestamp", timestamp) ∷ ("sign", sign o timestamp secret) ∷ [])

abbrev pub dingtalk_payload : OutboundMessage → Json
dingtalk_payload m =
    object (("msgtype", Json.str "text") ∷ ("text", object (("content", headed m) ∷ [])) ∷ [])

-- `self.webhook_secret.encode` raises where there is no secret.
abbrev pub send_signed :
    Platform → Option String → ℕ → Bool → OutboundMessage → String → Action Posts ChannelError Bool
unfolding sign show_number
send_signed o none now taken m url posts = (err attribute_error, posts)
send_signed o (some secret) now taken m url posts =
    post taken (target_url o url (show_number now) secret) (ok (dingtalk_payload m)) posts

-- DingTalkChannel.send, at a time in milliseconds
unfoldable pub send_dingtalk :
    Platform → DingTalkChannel → ℕ → Bool → OutboundMessage → Action Posts ChannelError Bool
unfolding sign show_number
send_dingtalk o c now taken m =
    if_configured c.webhook_url (send_signed o c.webhook_secret now taken m)
