-- ===== src/Notification/Fanout.antt =====
-- `sendWarning`: which channels are sent to, and the history of what was sent.
use aio_t_cloud.Base.{
  Text, codes, ◌==◌, ◌&&◌, ◌++◌, ℕ, Bool, true, false, Option, none, some, is_some, is_truthy, List,
  [], ◌∷◌, any, keep, is_empty, if◌then◌else◌,
}
use aio_t_cloud.Constants.{
  NotificationChannelType, NotificationMessageStatus, sent, undelivered, same_channel, not_found,
  channel_not_supported,
}
use aio_t_cloud.Device.{channel_name}
use aio_t_cloud.Response.{Response, ok, fail}
use aio_t_cloud.Notification.Rows.{
  NotificationConfig, NotificationMessage, NotificationStore, NotificationCreated, Office,
  find_config,
}
use aio_t_cloud.Notification.Templates.{render_template}
use aio_t_cloud.Notification.Senders.{Outside, send}

-- What `sendWarning` is called with.
pub record Notice : Type 0 where
  pub user_id : Text
  pub message : Text
  pub channels : Option (List NotificationChannelType)
  pub device_id : Option Text

-- `config.messageTemplate ? renderTemplate(config.messageTemplate, message) : message`
unfoldable pub rendered_message : NotificationConfig → Text → Text
rendered_message c message = elim c.message_template [
  | none ↦ message
  | some t ↦ if is_truthy t then render_template t message else message
]

-- `channels && channels.length > 0 ? channels.includes(config.channel) : true`
abbrev pub is_target : Option (List NotificationChannelType) → NotificationConfig → Bool
is_target none c = true
is_target (some channels) c =
    if is_empty channels then true else any (λ x. same_channel x c.channel) channels

abbrev pub status_after : Option Text → NotificationMessageStatus
status_after none = sent
status_after (some _) = undelivered

abbrev pub creation : ℕ → Notice → NotificationCreated
creation now n = record {
  user_id = n.user_id;
  message = n.message;
  device_id = n.device_id;
  occurred_at = now;
}

abbrev linked : Option NotificationConfig → Option NotificationConfig
linked none = none
linked (some c) = if c.is_enabled && is_some c.config then some c else none

module _ {S : NotificationStore} where
  -- The row that `recordMessage` saves.
  abbrev pub new_message :
      ℕ → Notice → NotificationConfig → Option Text → Office S → NotificationMessage
  new_message now n c error o = record {
    id = S.message_repository.next_id o.messages;
    created_at = now;
    user_id = n.user_id;
    channel = c.channel;
    message = rendered_message c n.message;
    status = status_after error;
    error = error;
    device_id = n.device_id;
    is_read = false;
    read_at = none;
  }

  -- `recordMessage`
  unfoldable pub record_message :
      ℕ → Notice → NotificationConfig → Option Text → Office S → Office S
  unfolding rendered_message
  record_message now n c error o = record o {
    messages = S.message_repository.save (new_message now n c error o) o.messages;
  }

  -- One configuration's turn.
  unfoldable pub notify : Outside → ℕ → Notice → NotificationConfig → Office S → Office S
  unfolding record_message rendered_message
  notify e now n c o =
      let (error, o') = send e c (rendered_message c n.message) o in
      let recorded = record_message now n c error o' in
      if e.has_sender c.channel then recorded else o

  unfoldable pub notify_each : Outside → ℕ → Notice → List NotificationConfig → Office S → Office S
  notify_each e now n [] o = o
  notify_each e now n (c ∷ cs) o = notify_each e now n cs (notify e now n c o)

  -- The configurations that are sent to: enabled, targeted and linked.
  abbrev pub recipients : Notice → Office S → List NotificationConfig
  recipients n o =
      keep (λ c. is_some c.config)
        (keep (is_target n.channels)
          (S.config_repository.find (λ c. c.user_id == n.user_id && c.is_enabled) o.configs))

  -- `sendWarning`
  unfoldable pub send_warning : Outside → ℕ → Notice → Office S → Office S
  unfolding notify_each
  send_warning e now n o =
      notify_each e now n (recipients n o) (record o { created = o.created ++ creation now n ∷ [] })

  -- `sendTestMessage`; `none` is the exception of a sender, which is not caught here.
  unfoldable pub send_test_message :
      Outside → Text → NotificationChannelType → Office S → Option (Response (Unit {0})) × Office S
  unfolding rendered_message
  send_test_message e user_id channel o = elim (linked (find_config user_id channel o)) [
    | none ↦ (some (fail not_found (codes "Channel is not linked or enabled")), o)
    | some c ↦
        let text = rendered_message c (codes "This is a test notification from AIoT Lab.") in
        let (error, o') = send e c text o in
        let answer = elim error as (λ _. Option (Response (Unit {0}))) [
          | none ↦ some (ok tt)
          | some _ ↦ none
        ] in
        if e.has_sender channel then (answer, o') else (
          some (
              fail channel_not_supported
                (codes "No sender registered for channel " ++ channel_name channel)),
          o,
        )
  ]
