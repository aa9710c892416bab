-- ===== src/Notification/Rows.antt =====
-- The two tables of the service and its state: src/modules/notification/notification-config.entity.ts
-- and notification-message.entity.ts.
use aio_t_cloud.Base.{Text, ◌==◌, ◌&&◌, ℕ, Bool, Option, List}
use aio_t_cloud.Constants.{NotificationChannelType, NotificationMessageStatus, same_channel}
use aio_t_cloud.Repository.{Repository}

-- `NotificationChannelConfig`: where a channel sends to.
pub data ChannelConfig : Type 0 where
  zalo_chat : (user_extend_id : Text) → ChannelConfig
  web_push_tokens : (fcm_tokens : List Text) → ChannelConfig

pub record NotificationConfig : Type 0 where
  pub id : Text
  pub user_id : Text
  pub channel : NotificationChannelType
  pub config : Option ChannelConfig
  pub message_template : Option Text
  pub is_enabled : Bool

pub record NotificationMessage : Type 0 where
  pub id : Text
  pub created_at : ℕ
  pub user_id : Text
  pub channel : NotificationChannelType
  pub message : Text
  pub status : NotificationMessageStatus
  pub error : Option Text
  pub device_id : Option Text
  pub is_read : Bool
  pub read_at : Option ℕ

-- `NotificationCreatedEvent`
pub record NotificationCreated : Type 0 where
  pub user_id : Text
  pub message : Text
  pub device_id : Option Text
  pub occurred_at : ℕ

-- A text that has been handed to a channel's sender.
pub record Handed : Type 0 where
  pub channel : NotificationChannelType
  pub text : Text

pub record NotificationStore : Type 1 where
  pub config_repository : Repository NotificationConfig (λ c. c.id)
  pub message_repository : Repository NotificationMessage (λ m. m.id)

-- `handed` lists the calls of `sender.send` so far, `created` the events `notification.created`.
pub record Office (S : NotificationStore) : Type 0 where
  pub configs : S.config_repository.Table
  pub messages : S.message_repository.Table
  pub created : List NotificationCreated
  pub handed : List Handed

module _ {S : NotificationStore} where
  -- `findOneBy({ userId, channel })`
  abbrev pub find_config : Text → NotificationChannelType → Office S → Option NotificationConfig
  find_config user_id channel o =
      S.config_repository.find_one (λ c. c.user_id == user_id && same_channel c.channel channel)
        o.configs

  abbrev pub save_config : NotificationConfig → Office S → Office S
  save_config c o = record o { configs = S.config_repository.save c o.configs }

  abbrev pub config_row : Text → Office S → Option NotificationConfig
  config_row i o = S.config_repository.row o.configs i

  abbrev pub message_row : Text → Office S → Option NotificationMessage
  message_row i o = S.message_repository.row o.messages i

  -- `create({ userId, channel, config: null, isEnabled: true })`; the template is left out.
  abbrev pub new_config : Text → NotificationChannelType → Office S → NotificationConfig
  new_config user_id channel o = record {
    id = S.config_repository.next_id o.configs;
    user_id = user_id;
    channel = channel;
    config = Option.none;
    message_template = Option.none;
    is_enabled = Bool.true;
  }
