-- ===== src/Notification/Linking.antt =====
-- The channels of a user: settings, the pairing with a Zalo chat, and the tokens of browsers. `Jwt` is
-- the service of `@nestjs/jwt`, a parameter.
use aio_t_cloud.Base.{
  Text, codes, ◌==◌, ◌++◌, ℕ, Bool, false, not, ◌&&◌, Option, none, some, or_default, is_truthy,
  List, [], ◌∷◌, any, keep, trim, is_empty, if◌then◌else◌,
}
use aio_t_cloud.Constants.{NotificationChannelType, zalo, web_push}
use aio_t_cloud.Response.{Response, ok}
use aio_t_cloud.Notification.Rows.{
  ChannelConfig, zalo_chat, web_push_tokens, NotificationConfig, NotificationStore, Office,
  find_config, save_config, new_config,
}
use aio_t_cloud.Notification.Senders.{Outside}
use aio_t_cloud.Notification.Fanout.{Notice, send_warning}

-- `UpsertNotificationConfigDto`; a property that is absent is `none`.
pub record UpsertNotificationConfig : Type 0 where
  pub message_template : Option (Option Text)
  pub is_enabled : Option Bool

-- `ZaloLinkCodePayload`
pub record ZaloLinkCode : Type 0 where
  pub user_id : Text
  pub purpose : Text

-- `signAsync` and `verifyAsync`, at a time of the clock; `none` is the exception.
pub record Jwt : Type 0 where
  pub sign : (now : ℕ) → ZaloLinkCode → Text
  pub verify : (now : ℕ) → Text → Option ZaloLinkCode

-- A text message that the webhook reports; `none` where it has no text.
pub record ZaloMessage : Type 0 where
  pub from_id : Text
  pub text : Option Text

pub record ZaloWebhookPayload : Type 0 where
  pub event_name : Text
  pub message : Option ZaloMessage

abbrev pub zalo_link : Text
zalo_link = codes "zalo-link"

abbrev pub tokens_of : Option ChannelConfig → List Text
tokens_of (some (web_push_tokens ts)) = ts
tokens_of _ = []

-- `fcmTokens.includes(token) ? fcmTokens : [...fcmTokens, token]`
unfoldable pub add_token : Text → List Text → List Text
add_token token tokens = if any (λ t. t == token) tokens then tokens else tokens ++ token ∷ []

-- `fcmTokens.filter((fcmToken) => fcmToken !== token)`
unfoldable pub remove_token : Text → List Text → List Text
remove_token token tokens = keep (λ t. not (t == token)) tokens

-- `remainingTokens.length > 0 ? { fcmTokens: remainingTokens } : null`
abbrev pub tokens_config : List Text → Option ChannelConfig
tokens_config tokens = if is_empty tokens then none else some (web_push_tokens tokens)

-- `isValidWebhookSecret`
unfoldable pub is_valid_webhook_secret : Option Text → Option Text → Bool
is_valid_webhook_secret (some secret) (some header) = is_truthy secret && header == secret
is_valid_webhook_secret _ _ = false

-- The link code in a webhook's payload.
abbrev pub link_text : ZaloWebhookPayload → Option Text
link_text w =
    if w.event_name == codes "message.text.received"
    then elim w.message [
      | none ↦ none
      | some m ↦ elim m.text [ none ↦ none | some t ↦ if is_truthy t then some t else none ]
    ]
    else none

abbrev sender_of : ZaloWebhookPayload → Text
sender_of w = elim w.message [ none ↦ [] | some m ↦ m.from_id ]

-- The notice that confirms a link.
abbrev pub welcome : Text → Notice
welcome user_id = record {
  user_id = user_id;
  message = codes "You're now linked — this bot will send device warnings here.";
  channels = none;
  device_id = none;
}

abbrev pub upserted : UpsertNotificationConfig → NotificationConfig → NotificationConfig
upserted dto c = record c {
  message_template = or_default dto.message_template c.message_template;
  is_enabled = or_default dto.is_enabled c.is_enabled;
}

-- `generateZaloLinkCode`; the share URL is a setting.
unfoldable pub generate_zalo_link_code : Jwt → ℕ → Text → Response Text
generate_zalo_link_code jwt now user_id =
    ok (jwt.sign now (record { user_id = user_id; purpose = zalo_link }))

module _ {S : NotificationStore} where
  -- `config ??= create({ userId, channel, config: null, isEnabled: true })`
  abbrev pub config_or_new : Text → NotificationChannelType → Office S → NotificationConfig
  config_or_new user_id channel o =
      or_default (find_config user_id channel o) (new_config user_id channel o)

  -- `upsertConfig`
  unfoldable pub upsert_config :
      Text
      → NotificationChannelType
      → UpsertNotificationConfig
      → Office S
      → Response NotificationConfig × Office S
  upsert_config user_id channel dto o =
      let c = upserted dto (config_or_new user_id channel o) in (ok c, save_config c o)

  -- What is stored when a chat proves to be a user's.
  unfoldable pub link_zalo : Outside → ℕ → Text → Text → Office S → Office S
  link_zalo e now chat user_id o =
      send_warning e now (welcome user_id)
        (save_config (record (config_or_new user_id zalo o) { config = some (zalo_chat chat) }) o)

  -- `handleZaloWebhookUpdate`
  unfoldable pub handle_zalo_webhook_update :
      Jwt → Outside → ℕ → ZaloWebhookPayload → Office S → Office S
  unfolding link_zalo
  handle_zalo_webhook_update jwt e now payload o = elim (link_text payload) [
    | none ↦ o
    | some text ↦ elim (jwt.verify now (trim text)) [
      | none ↦ o
      | some code ↦
          let linked = link_zalo e now (sender_of payload) code.user_id o in
          if code.purpose == zalo_link then linked else o
    ]
  ]

  -- `registerWebPushToken`
  unfoldable pub register_web_push_token :
      Text → Text → Office S → Response NotificationConfig × Office S
  unfolding add_token
  register_web_push_token user_id token o =
      let c = config_or_new user_id web_push o in
      let c' = record c {
        config = some (web_push_tokens (add_token token (tokens_of c.config)));
      } in
      (ok c', save_config c' o)

  -- `unregisterWebPushToken`
  unfoldable pub unregister_web_push_token :
      Text → Text → Office S → Response (Option NotificationConfig) × Office S
  unfolding remove_token
  unregister_web_push_token user_id token o = elim (find_config user_id web_push o) [
    | none ↦ (ok none, o)
    | some c ↦
        let c' = record c { config = tokens_config (remove_token token (tokens_of c.config)) } in
        (ok (some c'), save_config c' o)
  ]
